-- ===== src/Agent/Exit/Crashes.antt =====
-- What the exit of a supervised process does to its strategy.
use strategon.Prelude.{◌≡◌, ap, ◌∙◌, ◌⊎◌, true, false, none, some, arith, ◌≤◌, ◌<◌, ◌-◌, lookup}
use strategon.Proto.{StrategyAssignmentSpec, DeployPhase}
use strategon.Prelude.Time.{seconds}
use strategon.Supervisor.Backoff.{record_crash, crashed_on_start}
use strategon.Agent.State.{Process, Reconciler, ExitInfo}
use strategon.Agent.World.{World, Local}
use strategon.Agent.Deploy.{begin_rollback}
use strategon.Agent.Deploy.Rollback.{RolledBack, GaveUp, begin_rollback_lem, bad_version}
use strategon.Agent.Exit.{
  names_process, process_gone, unexpected_exit, crash, loops, count_crash, report_loop, mark_gone,
  handle_exit,
}

module _ (w : World) (r : Reconciler) (info : ExitInfo) where
  -- A notification about another process than the supervised one changes nothing: the pid and the
  -- start time must both fit, so a reused pid is not mistaken for the strategy's process.
  pub handle_exit_stale :
      (l : Local) (p : Process)
      → l.proc ≡ some p
      → ((p.pid ≡ info.pid) × (p.start_time ≡ info.start_time) → ⊥)
      → handle_exit w r info l ≡ some l
  unfolding handle_exit names_process
  handle_exit_stale l p runs other = ground (arith, other)

  crash-rollback :
      (spec : StrategyAssignmentSpec) (l : Local)
      → l.phase ≡ DeployPhase.health_checking
      → spec.deploy_policy.max_crashes_in_window ≤ l.backoff.consecutive
      → spec.deploy_policy.enable_auto_rollback ≡ true
      → crash w r spec info l ≡ begin_rollback w r spec (report_loop (count_crash w r info l))
  unfolding crash loops record_crash
  crash-rollback spec l phase many auto = ground arith

  handle_exit-crash :
      (spec : StrategyAssignmentSpec) (l : Local) (p : Process)
      → l.proc ≡ some p
      → p.pid ≡ info.pid
      → p.start_time ≡ info.start_time
      → l.stopping ≡ false
      → lookup l.strategy r.desired ≡ some spec
      → info.at_time - p.started_at < seconds spec.deploy_policy.startsecs
      → handle_exit w r info l ≡ some (crash w r spec info (mark_gone w l))
  unfolding handle_exit process_gone names_process unexpected_exit crashed_on_start
  handle_exit-crash spec l p runs pid start going wanted young = ground arith

  -- The supervised process of a desired strategy dies within its start time, in the health window
  -- of a deploy, after as many crashes as the policy allows, with automatic rollback on: the
  -- deploy is withdrawn, its version is marked bad, and either the previous version runs under
  -- supervision or the strategy is FAILED for this generation with no process.
  pub crash_loop_rolls_back :
      (spec : StrategyAssignmentSpec) (l : Local) (p : Process)
      → l.proc ≡ some p
      → p.pid ≡ info.pid
      → p.start_time ≡ info.start_time
      → l.stopping ≡ false
      → lookup l.strategy r.desired ≡ some spec
      → info.at_time - p.started_at < seconds spec.deploy_policy.startsecs
      → l.phase ≡ DeployPhase.health_checking
      → spec.deploy_policy.max_crashes_in_window ≤ l.backoff.consecutive
      → spec.deploy_policy.enable_auto_rollback ≡ true
      → (after : Local) × (handle_exit w r info l ≡ some after)
        × (after.inflight ≡ none)
        × (after.last_bad_version ≡ bad_version spec l.inflight)
        × (RolledBack l.st after.st ⊎ GaveUp r after.st)
  crash_loop_rolls_back spec l p runs pid start going wanted young phase many auto =
      let l' = report_loop (count_crash w r info (mark_gone w l)) in
      let (quiet, bad, ends) = begin_rollback_lem w r spec l' in
      (
        begin_rollback w r spec l',
        handle_exit-crash spec l p runs pid start going wanted young
            ∙ ap some (crash-rollback spec (mark_gone w l) phase many auto),
        quiet,
        bad,
        ground (arith, ends),
      )
