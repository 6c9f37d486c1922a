-- ===== src/Middleware.antt =====
-- middleware/app.py: the edge server that forwards incidents and runs allowlisted commands.
pub mod Values
pub mod Options
pub mod Commands
pub mod Settings
pub mod Exec
pub mod Forward
