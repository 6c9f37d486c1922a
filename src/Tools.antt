-- ===== src/Tools.antt =====
-- The tools of tools/: what the agent may do to hosts, and what stops it.
pub mod Safety
pub mod Ssh
pub mod Executor
pub mod DiskPolicy
pub mod FixVerifier
