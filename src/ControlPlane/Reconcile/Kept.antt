-- ===== src/ControlPlane/Reconcile/Kept.antt =====
-- A tick does not lose a slot that is still assigned.
use strategon.Prelude.{
  ℕ, ◌≡◌, refl, sym, ap, subst, ◌∙◌, inl, inr, String, true, false, Option, none, some, List, arith,
  lookup, Bool-cases, Option-cases, Sum-cases,
}
use strategon.Proto.{ArtifactRef}
use strategon.ControlPlane.SetSpec.{MemberStatus, AssignmentSet, Slot, has_slot}
use strategon.ControlPlane.Sets.{Clusters}
use strategon.ControlPlane.OwnedSlots.{collect_owned, is_assigned, transition_complete}
use strategon.ControlPlane.Rollout.{
  Deps, Item, RollError, Controller, machines_of, Undeploy, prune_deadlines, apply_failed,
}
use strategon.ControlPlane.Candidates.{resolve_cluster_artifact, resolve_items}
use strategon.ControlPlane.Survey.{Survey, survey}
use strategon.ControlPlane.Roll.{
  Stop, set_artifact_failed, artifact_failed_status, assign_failed_status, set_assign_failed,
  watch_inflight, Written, roll_out,
}
use strategon.ControlPlane.Reconcile.{
  Tick, finish_status, stop_status, budget_left, finish_tick, after_roll, roll_or_stop,
  after_undeploys, undeploy_dropped, reconcile_set, tick_set,
}
use strategon.ControlPlane.Reconcile.Safe.{
  stored, found_after, Keeps, set_status-Keeps, retained-IsSafe,
}

module _ (deps : Deps)
    (same : (t : Slot) (ss : List Slot) → has_slot t (deps.sort_slots ss) ≡ has_slot t ss)
    (cl : AssignmentSet) (s : Slot) (owned : has_slot s (collect_owned cl) ≡ true) where
  abbrev TickKeeps : Tick → Type 0
  TickKeeps (call, ctl) = is_assigned (machines_of ctl) s ≡ true → Keeps deps same cl s owned call

  set_assign_failed-Keeps :
      (rows : List MemberStatus) (e : RollError) (ctl : Controller)
      → TickKeeps (set_assign_failed deps cl rows e ctl)
  unfolding set_assign_failed
  set_assign_failed-Keeps rows e ctl assigned =
      let st = assign_failed_status deps cl rows e (machines_of ctl) in
      set_status-Keeps deps same cl s owned (machines_of ctl) st assigned
        (retained-IsSafe deps same cl s owned (machines_of ctl) rows st assigned refl (inl refl))

  finish_tick-Keeps :
      (sv : Survey) (undeployed wrote : ℕ) (ctl : Controller)
      → is_assigned (machines_of ctl) s ≡ true
      → Keeps deps same cl s owned (finish_tick deps cl sv undeployed wrote ctl).0
  unfolding finish_tick
  finish_tick-Keeps sv undeployed wrote ctl assigned =
      let st = finish_status deps cl sv undeployed wrote (machines_of ctl) in
      set_status-Keeps deps same cl s owned (machines_of ctl) st assigned (
        retained-IsSafe deps same cl s owned (machines_of ctl) sv.rows st assigned refl
          (elim (Bool-cases (transition_complete deps.sort_slots (machines_of ctl) cl)) [
            | inl e ↦ inr (ground (arith, e), e)
            | inr e ↦ inl (ground (arith, e))
          ]))

  finish_tick-assigned :
      (sv : Survey) (undeployed wrote : ℕ) (ctl : Controller)
      → machines_of (finish_tick deps cl sv undeployed wrote ctl).1 ≡ machines_of ctl
  unfolding finish_tick prune_deadlines
  finish_tick-assigned sv undeployed wrote ctl = ground arith

  after_roll-Keeps :
      (sv : Survey) (undeployed : ℕ) (w : Written) → TickKeeps (after_roll deps cl sv undeployed w)
  unfolding after_roll
  after_roll-Keeps sv undeployed (some e, (wrote, ctl)) =
      set_assign_failed-Keeps sv.rows (apply_failed e) ctl
  after_roll-Keeps sv undeployed (none, (wrote, ctl)) = λ assigned.
      finish_tick-Keeps sv undeployed wrote ctl (
        ap (λ ms. is_assigned ms s) (sym (finish_tick-assigned sv undeployed wrote ctl)) ∙ assigned)

  roll_or_stop-Keeps :
      (sv : Survey) (undeployed : ℕ) (r : Option Stop × Controller)
      → TickKeeps (roll_or_stop deps cl sv undeployed r)
  unfolding roll_or_stop
  roll_or_stop-Keeps sv undeployed (some stop, ctl) = λ assigned.
      let st = stop_status deps cl sv stop (machines_of ctl) in
      set_status-Keeps deps same cl s owned (machines_of ctl) st assigned
        (retained-IsSafe deps same cl s owned (machines_of ctl) sv.rows st assigned refl (inl refl))
  roll_or_stop-Keeps sv undeployed (none, ctl) =
      after_roll-Keeps sv undeployed
        (roll_out deps cl (budget_left cl sv undeployed) sv.candidates ctl)

  after_undeploys-Keeps :
      (art : ArtifactRef) (items : List Item) (u : Undeploy)
      → TickKeeps (after_undeploys deps cl art items u)
  unfolding after_undeploys
  after_undeploys-Keeps art items u = elim (Option-cases u.failure) [
    | inr (e, failed) ↦
        let same_tick : set_assign_failed deps cl cl.status.members (apply_failed e) u.ctl
            ≡ after_undeploys deps cl art items u =
          ground (arith, failed) in
        subst TickKeeps same_tick (set_assign_failed-Keeps cl.status.members (apply_failed e) u.ctl)
    | inl fine ↦ elim (Sum-cases (survey deps cl art (deps.sort_members items) u.ctl)) [
      | inl ((e, ctl), bad) ↦
          let same_tick : set_assign_failed deps cl cl.status.members e ctl
              ≡ after_undeploys deps cl art items u =
            ground (arith, fine, bad) in
          subst TickKeeps same_tick (set_assign_failed-Keeps cl.status.members e ctl)
      | inr (sv, good) ↦
          let watched = watch_inflight deps cl sv.inflight sv.ctl in
          let same_tick : roll_or_stop deps cl sv u.removed watched
              ≡ after_undeploys deps cl art items u =
            ground (arith, fine, good) in
          subst TickKeeps same_tick (roll_or_stop-Keeps sv u.removed watched)
    ]
  ]

  artifact_failed-Keeps :
      (e : RollError) (ctl : Controller) → TickKeeps (set_artifact_failed deps cl e, ctl)
  unfolding set_artifact_failed
  artifact_failed-Keeps e ctl assigned =
      set_status-Keeps deps same cl s owned (machines_of ctl) (artifact_failed_status deps cl e)
        assigned (inl (refl, refl))

  pub reconcile_set-Keeps :
      (ctl : Controller) → cl.status.deleting ≡ false → TickKeeps (reconcile_set deps cl ctl)
  unfolding reconcile_set
  reconcile_set-Keeps ctl kept = elim (Sum-cases (resolve_cluster_artifact deps cl)) [
    | inl (e, bad) ↦
        let same_tick : (set_artifact_failed deps cl e, ctl) ≡ reconcile_set deps cl ctl =
          ground (arith, kept, bad) in
        subst TickKeeps same_tick (artifact_failed-Keeps e ctl)
    | inr (art, good) ↦ elim (Sum-cases (resolve_items deps cl art 0 cl.spec.members)) [
      | inl (e, bad) ↦
          let same_tick : (set_artifact_failed deps cl e, ctl) ≡ reconcile_set deps cl ctl =
            ground (arith, kept, good, bad) in
          subst TickKeeps same_tick (artifact_failed-Keeps e ctl)
      | inr (items, fine) ↦
          let u = undeploy_dropped deps cl ctl in
          let same_tick : after_undeploys deps cl art items u ≡ reconcile_set deps cl ctl =
            ground (arith, kept, good, fine) in
          subst TickKeeps same_tick (after_undeploys-Keeps art items u)
    ]
  ]

-- After a tick on a stored set that is not being deleted the set is still stored, and it still owns
-- every slot that it owned before and that is still assigned, where sorting neither adds nor drops a
-- slot.
pub tick_keeps_slots :
    (deps : Deps) (name : String) (cl : AssignmentSet) (clusters : Clusters) (ctl : Controller)
    (s : Slot)
    → ((t : Slot) (ss : List Slot) → has_slot t (deps.sort_slots ss) ≡ has_slot t ss)
    → lookup name clusters ≡ some cl
    → cl.status.deleting ≡ false
    → has_slot s (collect_owned cl) ≡ true
    → is_assigned (machines_of (tick_set deps name (clusters, ctl)).1) s ≡ true
    → (after : AssignmentSet) × ((lookup name (tick_set deps name (clusters, ctl)).0 ≡ some after)
        × (has_slot s (collect_owned after) ≡ true))
unfolding tick_set
tick_keeps_slots deps name cl clusters ctl s same found kept owned assigned =
    let tick = reconcile_set deps cl ctl in
    let keeps =
      reconcile_set-Keeps deps same cl s owned ctl kept (ground (arith, found, assigned)) in
    let kept_set = found_after name cl clusters tick.0 found keeps.0 in
    (stored cl tick.0, (ground (arith, found, kept_set), keeps.1))
