-- ===== src/Supervisor.antt =====
-- internal/agent/supervisor: crash backoff and the graceful stop.
pub mod Backoff
pub mod Stop
