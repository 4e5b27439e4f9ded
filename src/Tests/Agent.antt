-- ===== src/Tests/Agent.antt =====
-- The agent's statements on the machine of Tests.Data.
use strategon.Prelude.{
  ◌*◌, ◌≤◌, ◌≡◌, refl, ◌⊎◌, true, false, not, ◌&&◌, ◌||◌, none, some, [], ◌∷◌, arith, lookup,
  is_some, if◌then◌else◌,
}
use strategon.Prelude.Time.{second}
use strategon.Proto.{DeployPhase, is_healthy}
use strategon.Supervisor.Backoff.{blocked}
use strategon.Agent.State.{StrategyState}
use strategon.Agent.World.{Local, local}
use strategon.Agent.Volumes.{
  contains, shared_present, shared_present_in, volume_present, volume_writer_conflict,
  volume_writer_conflict_err, conflict_in,
}
use strategon.Agent.Process.{launch_process, build_start_spec}
use strategon.Agent.Deploy.{begin_rollback, version_matches}
use strategon.Agent.Deploy.Rollback.{RolledBack, GaveUp, begin_rollback_lem}
use strategon.Agent.Converge.{is_settled, all_settled, recompute_observed_generation, reconcile_one}
use strategon.Agent.Converge.Effects.{
  count, is_deploy, is_start, may_deploy, deploys-reconcile_one, starts-reconcile_one,
}
use strategon.Agent.Converge.Observed.{
  AsWanted, observed_settled, failed_restart_sticks, dead_rollback_stays_dead,
}
use strategon.Agent.Exit.{handle_exit}
use strategon.Agent.Exit.Crashes.{crash_loop_rolls_back}
use strategon.Agent.Health.{tick_strategy, has_readiness_probe}
use strategon.Agent.Health.Windows.{window_ends}
use strategon.Agent.Cron.{cron_can_run, eval_schedules, eval_entry}
use strategon.Agent.Cron.Acts.{count_acts, schedules_wait}
use strategon.Agent.Cron.Once.{eval_entry-again}
use strategon.Tests.Data.{
  nightly, alpha_spec, new_process, world, broken_world, deploy, checking, dead, outdated, settled,
  machine, death,
}

abbrev after_rollback : StrategyState
after_rollback = (begin_rollback world machine alpha_spec (local checking)).st

begin_rollback_lem_example :
    (after_rollback.inflight ≡ none)
    × (after_rollback.last_bad_version ≡ "v2")
    × (RolledBack checking after_rollback ⊎ GaveUp machine after_rollback)
begin_rollback_lem_example = begin_rollback_lem world machine alpha_spec (local checking)

deploys-reconcile_one_example :
    count is_deploy (reconcile_one world machine alpha_spec (local outdated)).log
    ≡ (if may_deploy world machine alpha_spec outdated then 1 else 0)
deploys-reconcile_one_example = deploys-reconcile_one world machine alpha_spec outdated

starts-reconcile_one_example :
    count is_start (reconcile_one world machine alpha_spec (local dead)).log ≤ (
      if is_some dead.proc
        || (blocked dead.backoff world.now
            || contains dead.strategy machine.reaping
            || alpha_spec.stopped)
      then 0
      else 1)
starts-reconcile_one_example = starts-reconcile_one world machine alpha_spec dead

observed_settled_example :
    ((recompute_observed_generation machine).observed_gen ≡ 3)
    × (st : StrategyState) × (lookup "alpha" machine.actual ≡ some st)
    × AsWanted alpha_spec st
unfolding recompute_observed_generation all_settled is_settled version_matches lookup
observed_settled_example =
    observed_settled machine "alpha" {spec = alpha_spec} (λ e. absurd (ground arith)) refl

abbrev after_failure : StrategyState
after_failure = (reconcile_one broken_world machine alpha_spec (local dead)).st

abbrev after_wait : Local
after_wait = reconcile_one world machine alpha_spec (local after_failure)

failed_restart_sticks_example :
    (after_failure.phase ≡ DeployPhase.failed)
    × (after_failure.inflight ≡ some deploy)
    × (after_wait.phase ≡ DeployPhase.failed)
    × (after_wait.proc ≡ none)
    × (after_wait.inflight ≡ some deploy)
    × (after_wait.log ≡ [])
unfolding version_matches launch_process build_start_spec volume_writer_conflict_err
    volume_writer_conflict conflict_in shared_present shared_present_in volume_present blocked
    contains
failed_restart_sticks_example =
    failed_restart_sticks broken_world machine alpha_spec dead deploy "exec format error" world refl
      refl refl refl refl refl refl refl refl refl

crash_loop_rolls_back_example :
    (after : Local) × (handle_exit world machine death (local checking) ≡ some after)
    × (after.inflight ≡ none)
    × (after.last_bad_version ≡ "v2")
    × (RolledBack checking after.st ⊎ GaveUp machine after.st)
unfolding lookup
crash_loop_rolls_back_example =
    crash_loop_rolls_back world machine death alpha_spec (local checking) new_process refl refl refl
      refl refl (omega arith) refl (omega arith) refl

abbrev after_window : StrategyState
after_window = (tick_strategy world machine (100 * second) (local checking)).st

window_ends_example :
    (after_window.inflight ≡ none)
    × (is_healthy after_window.phase
        ≡ (not (has_readiness_probe (some alpha_spec)) && not (true && true)))
unfolding lookup
window_ends_example =
    window_ends world machine (100 * second) (local checking) new_process alpha_spec refl refl
      (omega arith) refl

schedules_wait_example :
    count_acts (eval_schedules world machine alpha_spec (100 * second) (local checking)).log ≡ 0
unfolding cron_can_run
schedules_wait_example =
    schedules_wait world machine alpha_spec (100 * second) (local checking) refl

abbrev evaluate : Local → Local
evaluate = eval_entry world machine alpha_spec nightly "nightly" (100 * second)

abbrev due : StrategyState
due = record settled {
  cron = some (
      ("nightly", record { next_fire = 99 * second; key = "nightly"; deferred_logged = false })
      ∷ []);
}

eval_entry-again_example : evaluate (evaluate (local due)) ≡ evaluate (local due)
eval_entry-again_example =
    eval_entry-again world machine alpha_spec (100 * second) nightly "nightly" (local due)
      (λ t e. ground arith)

-- The old version is back, and has died; the new one is desired and known to be bad.
abbrev abandoned : StrategyState
abandoned = record outdated {
  phase = DeployPhase.rolled_back;
  proc = none;
  last_bad_version = "v2";
}

abbrev after_neglect : Local
after_neglect = reconcile_one world machine alpha_spec (local abandoned)

dead_rollback_stays_dead_example :
    (after_neglect.phase ≡ DeployPhase.rolled_back)
    × (after_neglect.proc ≡ none)
    × (after_neglect.inflight ≡ none)
    × (count is_start after_neglect.log ≡ 0)
    × (count is_deploy after_neglect.log ≡ 0)
unfolding version_matches
dead_rollback_stays_dead_example =
    dead_rollback_stays_dead world machine alpha_spec abandoned refl refl refl refl refl refl
