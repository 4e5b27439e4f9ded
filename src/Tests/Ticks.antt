-- ===== src/Tests/Ticks.antt =====
-- The statements on the controller's ticks, on concrete inputs.
use strategon.Prelude.{
  ◌+◌, ◌-◌, ◌*◌, ◌≤◌, ◌≡◌, refl, String, true, false, none, some, inl, inr, List, [], ◌∷◌, arith,
  length, lookup, insert, filter, str_eq,
}
use strategon.Prelude.Time.{second}
use strategon.Proto.{StrategyAssignmentSpec, DeployPhase, StrategyAssignmentStatus}
use strategon.Agent.Volumes.{contains}
use strategon.ControlPlane.Memory.{new_record}
use strategon.ControlPlane.SetSpec.{MemberStatus, AssignmentSet, has_slot, member_at}
use strategon.ControlPlane.Sets.{pending_status}
use strategon.ControlPlane.OwnedSlots.{collect_owned, owned_slots}
use strategon.ControlPlane.Rollout.{Deps, Item, Controller}
use strategon.ControlPlane.Survey.{Survey, Surveyed, survey}
use strategon.ControlPlane.Reconcile.{reconcile_set, tick_set, undeploy_dropped}
use strategon.ControlPlane.Reconcile.Budget.{writes_of, removals_of}
use strategon.ControlPlane.Reconcile.Rolling.{
  Surveys, tick_budget, failed_member_stops, RecordsStop, any_given_up,
}
use strategon.ControlPlane.Reconcile.Deleted.{IsGone, tick_times, deleted_in_time}
use strategon.ControlPlane.Reconcile.Kept.{tick_keeps_slots}
use strategon.Agent.Volumes.{contains, mounts_volume}
use strategon.ControlPlane.Candidates.{
  resolve_cluster_artifact, resolve_items, resolve_member_config, compute_assignment,
  default_deploy_policy, ensure_inventory, missing_volume,
}
use strategon.ControlPlane.Rollout.{
  undeploy_slots, clear_deadline, send, undeploy_slot, undeploy_step, without_deadline, deadline_of,
  set_deadline, prune_deadlines,
}
use strategon.ControlPlane.OwnedSlots.{
  dropped_slots, assigned_slots, owned_slots, collect_owned, own_rows, own_members, own,
  is_assigned, is_dropped, spec_has_member, family_leftover, own_families, row_machines,
  spec_machines, spec_on_machine, all_assigned, family_left, transition_complete,
}
use strategon.ControlPlane.Assign.{apply, gate, holds_any, live_writer_conflict}
use strategon.ControlPlane.Memory.{note_previous, on_machine, set_assignment}
use strategon.ControlPlane.Sets.{family, update_set_status, preserve_deleting, delete_set}
use strategon.ControlPlane.Survey.{admit_member, clear_if_settled, found_as, row}
use strategon.ControlPlane.View.{
  assignment_live, assignment_live_in, build_strategy_view, is_converged, ready_condition_true,
  ready_in,
}
use strategon.ControlPlane.Roll.{
  set_status, drop_rows, with_retained_drops, set_artifact_failed, set_assign_failed, arm_deadline,
  watch_inflight, write_member, roll_out,
}
use strategon.ControlPlane.Reconcile.{
  roll_phase, finish_tick, after_roll, roll_or_stop, after_undeploys, after_removals,
  reconcile_delete, reconcile_set, call_store, tick_set,
}
use strategon.ControlPlane.Reconcile.Deleted.{tick_times}
use strategon.ControlPlane.Reconcile.Rolling.{any_given_up}
use strategon.Lease.{deployment_blocked_by_lease}
use strategon.Prelude.{erase}
use strategon.Tests.Data.{alpha_spec, new_binary}
use strategon.Tests.Sets.{web_spec, no_leases}

abbrev pub deps : Deps
deps = record {
  get_artifact = λ name version. some new_binary;
  artifact_state = λ name version. none;
  expand = λ cl idx. inr (record { args = []; env = []; endpoint = ""; volume_mounts = [] });
  want_config = λ cl idx name. inr (record { primary = ""; fallback = ""; version = "" });
  validate_mounts = λ mounts. none;
  equal = λ a b. str_eq a.strategy b.strategy;
  equal_status = λ a b. false;
  sort_slots = λ slots. slots;
  sort_members = λ items. items;
  message_of = λ e. "stopped";
  now = 100 * second;
}

abbrev pub web : AssignmentSet
web = record {
  name = "web";
  uid = "u1";
  generation = 2;
  labels = [];
  spec = web_spec;
  status = record pending_status { assignment_key = "member"; observed_generation = 1 };
}

abbrev pub as_a : StrategyAssignmentSpec
as_a = record alpha_spec { strategy = "a"; volume_mounts = [] }

abbrev failed_status : StrategyAssignmentStatus
failed_status = record {
  phase = DeployPhase.failed;
  running_artifact = none;
  running_config = none;
  conditions = [];
  pid = 0;
}

-- `a` is written and has failed; `b` is still to be written.
abbrev rolling : Controller
rolling = record {
  plane = record {
    machines =
        (
          "m1",
          record new_record { assignments = ("a", as_a) ∷ []; status = ("a", failed_status) ∷ [] },
        )
        ∷ [];
    leases = no_leases;
    reserved_by = none;
  };
  deadlines = [];
  requests = [];
}

abbrev pub items : List Item
items =
    record {
      idx = 0;
      srv = record { machine = "m1"; name = "a"; vars = []; config = ""; config_version = "" };
      cfg = none;
    }
    ∷ record {
      idx = 1;
      srv = record { machine = "m1"; name = "b"; vars = []; config = ""; config_version = "" };
      cfg = none;
    }
    ∷ []

abbrev survey_or : Survey → Surveyed → Survey
survey_or s (inl e) = s
survey_or s (inr found) = found

unfoldable found : Survey
unfolding survey filter lookup insert has_slot contains mounts_volume resolve_cluster_artifact
    resolve_items resolve_member_config compute_assignment member_at default_deploy_policy
    ensure_inventory missing_volume undeploy_slots clear_deadline send undeploy_slot undeploy_step
    without_deadline deadline_of set_deadline prune_deadlines dropped_slots assigned_slots
    owned_slots collect_owned own_rows own_members own is_assigned is_dropped spec_has_member
    family_leftover own_families row_machines spec_machines spec_on_machine all_assigned family_left
    transition_complete apply gate holds_any live_writer_conflict note_previous on_machine
    set_assignment family update_set_status preserve_deleting delete_set admit_member
    clear_if_settled found_as row assignment_live assignment_live_in build_strategy_view
    is_converged ready_condition_true ready_in set_status drop_rows with_retained_drops
    set_artifact_failed set_assign_failed arm_deadline watch_inflight write_member roll_out
    roll_phase finish_tick after_roll roll_or_stop after_undeploys after_removals reconcile_delete
    reconcile_set call_store tick_set deployment_blocked_by_lease erase
found =
    survey_or (record { candidates = []; inflight = []; rows = []; ctl = rolling })
      (survey deps web new_binary items rolling)

found_path : Surveys deps web rolling found
unfolding found survey filter lookup insert has_slot contains mounts_volume resolve_cluster_artifact
    resolve_items resolve_member_config compute_assignment member_at default_deploy_policy
    ensure_inventory missing_volume undeploy_slots clear_deadline send undeploy_slot undeploy_step
    without_deadline deadline_of set_deadline prune_deadlines dropped_slots assigned_slots
    owned_slots collect_owned own_rows own_members own is_assigned is_dropped spec_has_member
    family_leftover own_families row_machines spec_machines spec_on_machine all_assigned family_left
    transition_complete apply gate holds_any live_writer_conflict note_previous on_machine
    set_assignment family update_set_status preserve_deleting delete_set admit_member
    clear_if_settled found_as row assignment_live assignment_live_in build_strategy_view
    is_converged ready_condition_true ready_in set_status drop_rows with_retained_drops
    set_artifact_failed set_assign_failed arm_deadline watch_inflight write_member roll_out
    roll_phase finish_tick after_roll roll_or_stop after_undeploys after_removals reconcile_delete
    reconcile_set call_store tick_set tick_times any_given_up deployment_blocked_by_lease erase
found_path = record {
  art = new_binary;
  items = items;
  kept = refl;
  artifact = refl;
  configs = refl;
  undeployed = refl;
  surveyed = refl;
}

tick_budget_example :
    let removed = removals_of (undeploy_dropped deps web rolling).ctl - removals_of rolling in
    (removals_of (undeploy_dropped deps web rolling).ctl ≤ removals_of rolling + 1)
    × (writes_of (reconcile_set deps web rolling).1
        ≤ writes_of rolling + (1 - length found.inflight - removed))
tick_budget_example = tick_budget deps web rolling found found_path

failed_member_stops_example :
    (writes_of (reconcile_set deps web rolling).1 ≡ writes_of rolling)
    × RecordsStop deps web (reconcile_set deps web rolling).0
unfolding found survey filter lookup insert has_slot contains mounts_volume resolve_cluster_artifact
    resolve_items resolve_member_config compute_assignment member_at default_deploy_policy
    ensure_inventory missing_volume undeploy_slots clear_deadline send undeploy_slot undeploy_step
    without_deadline deadline_of set_deadline prune_deadlines dropped_slots assigned_slots
    owned_slots collect_owned own_rows own_members own is_assigned is_dropped spec_has_member
    family_leftover own_families row_machines spec_machines spec_on_machine all_assigned family_left
    transition_complete apply gate holds_any live_writer_conflict note_previous on_machine
    set_assignment family update_set_status preserve_deleting delete_set admit_member
    clear_if_settled found_as row assignment_live assignment_live_in build_strategy_view
    is_converged ready_condition_true ready_in set_status drop_rows with_retained_drops
    set_artifact_failed set_assign_failed arm_deadline watch_inflight write_member roll_out
    roll_phase finish_tick after_roll roll_or_stop after_undeploys after_removals reconcile_delete
    reconcile_set call_store tick_set tick_times any_given_up deployment_blocked_by_lease erase
failed_member_stops_example = failed_member_stops deps web rolling found found_path refl

-- the same set while it is being deleted, with one slot left
abbrev doomed : AssignmentSet
doomed = record web { status = record web.status { deleting = true } }

deleted_in_time_example :
    IsGone "web"
      (owned_slots deps.sort_slots doomed)
      (tick_times deps "web" 2 (("web", doomed) ∷ [], rolling))
unfolding found survey filter lookup insert has_slot contains mounts_volume resolve_cluster_artifact
    resolve_items resolve_member_config compute_assignment member_at default_deploy_policy
    ensure_inventory missing_volume undeploy_slots clear_deadline send undeploy_slot undeploy_step
    without_deadline deadline_of set_deadline prune_deadlines dropped_slots assigned_slots
    owned_slots collect_owned own_rows own_members own is_assigned is_dropped spec_has_member
    family_leftover own_families row_machines spec_machines spec_on_machine all_assigned family_left
    transition_complete apply gate holds_any live_writer_conflict note_previous on_machine
    set_assignment family update_set_status preserve_deleting delete_set admit_member
    clear_if_settled found_as row assignment_live assignment_live_in build_strategy_view
    is_converged ready_condition_true ready_in set_status drop_rows with_retained_drops
    set_artifact_failed set_assign_failed arm_deadline watch_inflight write_member roll_out
    roll_phase finish_tick after_roll roll_or_stop after_undeploys after_removals reconcile_delete
    reconcile_set call_store tick_set tick_times any_given_up deployment_blocked_by_lease erase
deleted_in_time_example =
    deleted_in_time deps (λ s ss. refl) "web" doomed (("web", doomed) ∷ []) rolling 2 refl refl
      (omega arith)

-- a spec without `c` and `d`, which still run
abbrev row_of : String → MemberStatus
row_of name = record {
  machine = "m1";
  name = name;
  ready = true;
  phase = DeployPhase.healthy;
  converged = true;
}

abbrev smaller : AssignmentSet
smaller = record web { status = record web.status { members = row_of "c" ∷ row_of "d" ∷ [] } }

abbrev crowded : Controller
crowded = record rolling {
  plane = record rolling.plane {
    machines =
        (
          "m1",
          record new_record {
            assignments =
                ("c", record as_a { strategy = "c" }) ∷ ("d", record as_a { strategy = "d" }) ∷ [];
          },
        )
        ∷ [];
  };
}

tick_keeps_slots_example :
    (after : AssignmentSet) × ((lookup "web"
          (tick_set deps "web" (("web", smaller) ∷ [], crowded)).0
        ≡ some after)
      × (has_slot (record { machine = "m1"; strategy = "c" }) (collect_owned after) ≡ true))
unfolding found survey filter lookup insert has_slot contains mounts_volume resolve_cluster_artifact
    resolve_items resolve_member_config compute_assignment member_at default_deploy_policy
    ensure_inventory missing_volume undeploy_slots clear_deadline send undeploy_slot undeploy_step
    without_deadline deadline_of set_deadline prune_deadlines dropped_slots assigned_slots
    owned_slots collect_owned own_rows own_members own is_assigned is_dropped spec_has_member
    family_leftover own_families row_machines spec_machines spec_on_machine all_assigned family_left
    transition_complete apply gate holds_any live_writer_conflict note_previous on_machine
    set_assignment family update_set_status preserve_deleting delete_set admit_member
    clear_if_settled found_as row assignment_live assignment_live_in build_strategy_view
    is_converged ready_condition_true ready_in set_status drop_rows with_retained_drops
    set_artifact_failed set_assign_failed arm_deadline watch_inflight write_member roll_out
    roll_phase finish_tick after_roll roll_or_stop after_undeploys after_removals reconcile_delete
    reconcile_set call_store tick_set tick_times any_given_up deployment_blocked_by_lease erase
tick_keeps_slots_example =
    tick_keeps_slots deps "web" smaller (("web", smaller) ∷ []) crowded
      (record { machine = "m1"; strategy = "c" }) (λ s ss. refl) refl refl refl refl
