-- ===== src/Services/IncidentQueue.antt =====
-- services/incident_queue.py: the durable queue of incidents, in children by operation.
pub mod Entry
pub mod Reviews
pub mod Finish
pub mod Enqueue
pub mod Claim
pub mod Recover
pub mod Orgs
pub mod Exclusive
pub mod Taken
pub mod Ended
pub mod Lifecycle
