-- ===== src/Agent/Health/Windows.antt =====
-- How a health window ends, and what a late probe does.
use strategon.Prelude.{ℕ, ◌≡◌, false, not, ◌&&◌, none, some, arith, ◌<◌, is_some, lookup}
use strategon.Proto.{StrategyAssignmentSpec, DeployPhase, is_healthy}
use strategon.Agent.State.{Process, Reconciler}
use strategon.Agent.World.{World, Local}
use strategon.Agent.Deploy.{begin_rollback}
use strategon.Agent.Deploy.Rollback.{begin_rollback_lem}
use strategon.Agent.Converge.{withdraw_deploy}
use strategon.Agent.Health.{
  has_readiness_probe, end_window, tick_strategy, mark_healthy, fail_health_window, timed_out,
}

module _ (w : World) (r : Reconciler) where
  begin_rollback-unhealthy :
      (spec : StrategyAssignmentSpec) (l : Local)
      → is_healthy (begin_rollback w r spec l).phase ≡ false
  begin_rollback-unhealthy spec l = ground (arith, (begin_rollback_lem w r spec l).2)

  -- When the health window of a running process ends: with a readiness probe the strategy is never
  -- HEALTHY, and its deploy is no longer in flight; without one it is HEALTHY exactly when there
  -- is no deploy in flight that automatic rollback would take back.
  pub window_ends :
      (now : ℕ) (l : Local) (p : Process) (spec : StrategyAssignmentSpec)
      → l.proc ≡ some p
      → l.phase ≡ DeployPhase.health_checking
      → l.health_deadline < now
      → lookup l.strategy r.desired ≡ some spec
      → let after = (tick_strategy w r now l).st in
        (after.inflight ≡ none)
        × (is_healthy after.phase ≡ (
            not (has_readiness_probe (some spec))
            && not (spec.deploy_policy.enable_auto_rollback && is_some l.inflight)))
  unfolding tick_strategy end_window mark_healthy fail_health_window withdraw_deploy
  window_ends now l p spec runs phase late wanted = (
    ground (arith, (begin_rollback_lem w r spec (timed_out l)).0),
    ground (arith, begin_rollback-unhealthy spec (timed_out l)),
  )
