-- ===== src/Examples.antt =====
-- Runs of the program on small inputs.
mod Queue
mod Approvals
mod Services
mod Access
mod Agent
mod Storage
mod Middleware
mod Verifier
mod AgentRun
mod Store
