-- ===== src/Agent.antt =====
-- internal/agent/reconciler: the agent's loop, which converges each strategy to its desired state.
-- One goroutine owns the state, so its handlers are functions from state to state. The children
-- below hold the handlers in the source's order of calls, and the theorems about them.
pub mod State
pub mod World
pub mod Volumes
pub mod Process
pub mod Deploy
pub mod Converge
pub mod Health
pub mod Exit
pub mod Shared
pub mod Cron
pub mod Reap
pub mod Worker
pub mod Rebuild
pub mod Loop
