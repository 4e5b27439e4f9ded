-- ===== src/ControlPlane/Reconcile.antt =====
-- internal/controlplane/orchestrator/orchestrator.go: `Reconcile` and `reconcileDelete`, one tick on one
-- set, and the store's part of it. Errors of the store's own calls are only logged, and left out.
pub mod Budget
pub mod Rolling
pub mod Undeploys
pub mod Owned
pub mod Removal
pub mod Deleted
pub mod Retained
pub mod Safe
pub mod Kept
use strategon.Prelude.{
  ℕ, zero, suc, ◌-◌, ◌+◌, String, Bool, true, false, not, ◌&&◌, ◌||◌, ◌⊎◌, inl, inr, Option, none,
  some, List, [], ◌∷◌, ◌++◌, Map, lookup, str_eq, ltb, leb, ◌==◌, length, is_some, if◌then◌else◌,
}
use strategon.Proto.{ArtifactRef}
use strategon.ControlPlane.Memory.{Machines}
use strategon.ControlPlane.SetSpec.{MemberStatus, SetStatus, AssignmentSet, Slot}
use strategon.ControlPlane.Sets.{Clusters, update_set_status, delete_set}
use strategon.ControlPlane.OwnedSlots.{
  assigned_slots, dropped_slots, is_empty_list, transition_complete,
}
use strategon.ControlPlane.Rollout.{
  Deps, Item, RollError, apply_failed, Controller, machines_of, prune_deadlines, at_least_one,
  Undeploy, undeploy_slots,
}
use strategon.ControlPlane.Candidates.{resolve_cluster_artifact, resolve_items}
use strategon.ControlPlane.Survey.{Survey, survey}
use strategon.ControlPlane.Roll.{
  StoreCall, leave, remove, put_status, Stop, set_status, with_retained_drops, set_artifact_failed,
  set_assign_failed, watch_inflight, Written, roll_out,
}

abbrev pub Tick : Type 0
Tick = StoreCall × Controller

-- int(maxUnavail) - len(inflight) - undeployed, and 0 below 0
abbrev pub budget_left : AssignmentSet → Survey → ℕ → ℕ
budget_left cl s undeployed =
    at_least_one cl.spec.update.max_unavailable - length s.inflight - undeployed

abbrev pub all_ready : Survey → List Slot → Bool
all_ready s dropped =
    is_empty_list s.candidates
    && is_empty_list s.inflight
    && not (is_empty_list s.rows)
    && is_empty_list dropped

unfoldable pub roll_phase : Survey → Bool → ℕ → ℕ → String
roll_phase s ready wrote undeployed =
    if ready
    then "Ready"
    else if is_empty_list s.rows
    then "Pending"
    else if wrote == 0
        && undeployed == 0
        && is_empty_list s.inflight
        && not (is_empty_list s.candidates)
    then "Pending"
    else "Rolling"

module _ (deps : Deps) where
  abbrev pub finish_status : AssignmentSet → Survey → ℕ → ℕ → Machines → SetStatus
  finish_status cl s undeployed wrote machines =
      let ready = all_ready s (dropped_slots deps.sort_slots machines cl) in
      record {
        phase = roll_phase s ready wrote undeployed;
        observed_generation = if ready then cl.generation else cl.status.observed_generation;
        reason = "";
        message = "";
        members = with_retained_drops deps cl machines s.rows;
        deleting = false;
        assignment_key =
            if transition_complete deps.sort_slots machines cl
            then "member"
            else cl.status.assignment_key;
      }

  -- the status after the writes
  unfoldable pub finish_tick : AssignmentSet → Survey → ℕ → ℕ → Controller → Tick
  finish_tick cl s undeployed wrote ctl = (
    set_status deps cl (finish_status cl s undeployed wrote (machines_of ctl)),
    (if all_ready s (dropped_slots deps.sort_slots (machines_of ctl) cl)
        then prune_deadlines cl.name ctl
        else ctl),
  )

  unfoldable pub after_roll : AssignmentSet → Survey → ℕ → Written → Tick
  after_roll cl s undeployed (some e, (wrote, ctl)) =
      set_assign_failed deps cl s.rows (apply_failed e) ctl
  after_roll cl s undeployed (none, (wrote, ctl)) = finish_tick cl s undeployed wrote ctl

  abbrev pub stop_status : AssignmentSet → Survey → Stop → Machines → SetStatus
  stop_status cl s (phase, why) machines = record {
    phase = phase;
    observed_generation = cl.status.observed_generation;
    reason = "RollStopped";
    message = deps.message_of why;
    members = with_retained_drops deps cl machines s.rows;
    deleting = false;
    assignment_key = cl.status.assignment_key;
  }

  -- RollStopped, or the writes
  unfoldable pub roll_or_stop : AssignmentSet → Survey → ℕ → Option Stop × Controller → Tick
  roll_or_stop cl s undeployed (some stop, ctl) =
      (set_status deps cl (stop_status cl s stop (machines_of ctl)), ctl)
  roll_or_stop cl s undeployed (none, ctl) =
      after_roll cl s undeployed (roll_out deps cl (budget_left cl s undeployed) s.candidates ctl)

  -- from the undeploys on
  unfoldable pub after_undeploys : AssignmentSet → ArtifactRef → List Item → Undeploy → Tick
  after_undeploys cl art items u = elim u.failure [
    | some e ↦ set_assign_failed deps cl cl.status.members (apply_failed e) u.ctl
    | none ↦ elim (survey deps cl art (deps.sort_members items) u.ctl) [
      | inl (e, ctl) ↦ set_assign_failed deps cl cl.status.members e ctl
      | inr s ↦ roll_or_stop cl s u.removed (watch_inflight deps cl s.inflight s.ctl)
    ]
  ]

  abbrev pub undeploy_dropped : AssignmentSet → Controller → Undeploy
  undeploy_dropped cl ctl =
      undeploy_slots deps cl (at_least_one cl.spec.update.max_unavailable)
        (dropped_slots deps.sort_slots (machines_of ctl) cl) 0 ctl

  -- reconcileDelete, after its undeploys
  unfoldable pub after_removals : AssignmentSet → List Slot → Undeploy → Tick
  after_removals cl targets u = elim u.failure [
    | some e ↦ set_assign_failed deps cl cl.status.members (apply_failed e) u.ctl
    | none ↦
        if ltb u.removed (length targets)
        then (
          set_status deps cl (record {
            phase = "Deleting";
            observed_generation = cl.status.observed_generation;
            reason = "Undeploying";
            message = "";
            members = cl.status.members;
            deleting = true;
            assignment_key = cl.status.assignment_key;
          }),
          u.ctl,
        )
        else (remove, prune_deadlines cl.name u.ctl)
  ]

  -- reconcileDelete
  unfoldable pub reconcile_delete : AssignmentSet → Controller → Tick
  reconcile_delete cl ctl =
      let targets = assigned_slots deps.sort_slots (machines_of ctl) cl in
      after_removals cl targets
        (undeploy_slots deps cl (at_least_one cl.spec.update.max_unavailable) targets 0 ctl)

  -- Reconcile
  unfoldable pub reconcile_set : AssignmentSet → Controller → Tick
  reconcile_set cl ctl =
      if cl.status.deleting
      then reconcile_delete cl ctl
      else elim (resolve_cluster_artifact deps cl) [
        | inl e ↦ (set_artifact_failed deps cl e, ctl)
        | inr art ↦ elim (resolve_items deps cl art 0 cl.spec.members) [
          | inl e ↦ (set_artifact_failed deps cl e, ctl)
          | inr items ↦ after_undeploys cl art items (undeploy_dropped cl ctl)
        ]
      ]

abbrev or_same : Clusters → Option Clusters → Clusters
or_same old none = old
or_same old (some new) = new

unfoldable pub call_store : String → StoreCall → Clusters → Clusters
call_store name leave clusters = clusters
call_store name remove clusters = or_same clusters (delete_set name clusters)
call_store name (put_status st) clusters = or_same clusters (update_set_status name st clusters)

-- the turn of one set in ReconcileAll, with what the tick asks of the store
unfoldable pub tick_set : Deps → String → Clusters × Controller → Clusters × Controller
tick_set deps name (clusters, ctl) = elim (lookup name clusters) [
  | none ↦ (clusters, ctl)
  | some cl ↦ let (call, ctl') = reconcile_set deps cl ctl in (call_store name call clusters, ctl')
]
