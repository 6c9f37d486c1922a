-- ===== src/Services.antt =====
-- The services of services/: durable state behind a storage provider, and the decisions on it.
pub mod AlertDedupe
pub mod IncidentQueue
pub mod IncidentStore
pub mod Approvals
pub mod Escalation
pub mod OrgConfig
pub mod OrgContext
