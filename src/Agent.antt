-- ===== src/Agent.antt =====
-- The agent of agent/: how an incident is classified, and when a diagnosis counts as grounded.
pub mod Classifier
pub mod Grounding
pub mod Loop
