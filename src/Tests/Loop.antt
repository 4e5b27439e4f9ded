-- ===== src/Tests/Loop.antt =====
-- The statements on rounds of the loop and on the deploy worker, on the machine of Tests.Data.
use strategon.Prelude.{
  ◌*◌, ◌+◌, ◌≤◌, ◌≡◌, refl, true, false, none, some, List, [], ◌∷◌, arith, lookup, insert,
}
use strategon.Prelude.Time.{second}
use strategon.Proto.{get_digest, StrategyAssignmentSpec, DesiredState}
use strategon.Agent.State.{Reconciler}
use strategon.Agent.World.{World}
use strategon.Agent.Shared.{count_inflight, max_shared_fetches}
use strategon.Agent.Worker.{Supply, run_deploy, check_limits}
use strategon.Agent.Worker.Order.{count, stops, tells, loses, run_deploy-stops, run_deploy-ends}
use strategon.Agent.Loop.{is_withdrawn, Event, new_desired, clock_tick}
use strategon.Agent.Loop.Withdrawal.{IsOnTarget}
use strategon.Agent.Loop.OnTarget.{rounds, inflight_wanted}
use strategon.Agent.Loop.Fetches.{rounds-fetches}
use strategon.Agent.Loop.{round, reconcile, apply_desired}
use strategon.Agent.Converge.{
  recompute_observed_generation, reconcile_one, note_spec, reconcile_live, await_worker,
}
use strategon.Agent.Volumes.{reconcile_volumes, contains, volume_mount_names, mount_name_list}
use strategon.Agent.Shared.{reconcile_shared, apply_desired_shared}
use strategon.Agent.Deploy.{version_matches}
use strategon.Supervisor.Backoff.{blocked}
use strategon.Names.{has_code, has_separator_code}
use strategon.Agent.Reap.{
  handle_reap_op, judge_all, judge, reap_reject, is_valid_strategy, is_reserved_base_name,
  busy_reason, has_dots,
}
use strategon.Agent.Reap.Idle.{Free, handle_reap_op-Free}
use strategon.Tests.Data.{alpha_spec, old_binary, old_process, world, deploy, checking, machine}

-- The machine while the deploy of the new version is in its health window.
abbrev deploying : Reconciler
deploying = record machine { actual = ("alpha", checking) ∷ [] }

-- Before the window ends, a tick and then the same desired state again.
abbrev snapshot : DesiredState
snapshot = record { generation = 4; assignments = alpha_spec ∷ []; shared = none; volumes = none }

abbrev events : List (World × Event)
events = (world, clock_tick (80 * second)) ∷ (world, new_desired snapshot) ∷ []

abbrev deploying-IsOnTarget : IsOnTarget deploying
unfolding is_withdrawn lookup
deploying-IsOnTarget = record {
  distinct = (refl, tt);
  sound = (record { named = refl; wanted = refl }, tt);
}

rounds-fetches_example : count_inflight (rounds events deploying).shared_actual ≤ max_shared_fetches
unfolding count_inflight
rounds-fetches_example = rounds-fetches events deploying (omega arith)

abbrev supply : Supply
supply = record {
  download = none;
  verify = none;
  current_version = "v1";
  cancelled_at_download = false;
  cancelled_at_switch = false;
  delivers = λ phase. true;
}

run_deploy-stops_example :
    count stops (run_deploy world machine supply alpha_spec (some old_process) (some old_binary))
    ≡ 1
unfolding check_limits
run_deploy-stops_example =
    run_deploy-stops world machine supply alpha_spec (some old_process) (some old_binary)

run_deploy-ends_example :
    let steps = run_deploy world machine supply alpha_spec (some old_process) (some old_binary) in
    (count tells steps + count loses steps ≡ 1) × (1 ≤ count tells steps)
unfolding check_limits
run_deploy-ends_example =
    run_deploy-ends world machine supply alpha_spec (some old_process) (some old_binary)

-- The round in which the snapshot arrives keeps the deploy, which it still wants.
abbrev arrival : List (World × Event)
arrival = (world, new_desired snapshot) ∷ []

inflight_wanted_example :
    (spec : StrategyAssignmentSpec) × (lookup "alpha" (rounds arrival deploying).desired
      ≡ some spec)
    × (get_digest spec.artifact ≡ "d2")
unfolding rounds lookup insert round reconcile recompute_observed_generation reconcile_volumes
    reconcile_shared apply_desired apply_desired_shared version_matches reconcile_one blocked
    note_spec contains is_withdrawn reconcile_live await_worker volume_mount_names mount_name_list
inflight_wanted_example =
    inflight_wanted arrival deploying "alpha" {st = checking} {op = deploy} deploying-IsOnTarget
      refl refl

-- A request for a slot that nothing uses, and for one in use.
handle_reap_op-Free_example :
    Free machine (handle_reap_op (λ name. name) ("old" ∷ "alpha" ∷ []) machine).state "old"
unfolding handle_reap_op judge_all judge reap_reject is_valid_strategy is_reserved_base_name
    busy_reason has_dots has_code has_separator_code contains lookup
handle_reap_op-Free_example =
    handle_reap_op-Free (λ name. name) machine ("old" ∷ "alpha" ∷ []) "old" refl
