-- ===== src/Collectors.antt =====
-- The collectors of collectors/: the policy that keeps them away from databases.
pub mod DatabasePolicy
