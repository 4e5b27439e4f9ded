-- ===== src/ControlPlane/Reconcile/Rolling.antt =====
-- What a tick writes at most, and what stops it.
use strategon.Prelude.{
  ℕ, ◌-◌, ◌+◌, ◌≤◌, ◌≡◌, refl, sym, ap, subst, ◌∙◌, Bool, true, false, ◌||◌, inr, Option, none,
  some, List, [], ◌∷◌, arith, length, is_some,
}
use strategon.Proto.{ArtifactRef}
use strategon.ControlPlane.SetSpec.{AssignmentSet, SetStatus}
use strategon.ControlPlane.OwnedSlots.{dropped_slots}
use strategon.ControlPlane.Rollout.{
  Deps, Item, Controller, machines_of, at_least_one, prune_deadlines,
}
use strategon.ControlPlane.Candidates.{resolve_cluster_artifact, resolve_items}
use strategon.ControlPlane.Survey.{Member, Survey, survey}
use strategon.ControlPlane.Roll.{
  StoreCall, Stop, set_status, watch_inflight, has_given_up, Written, roll_out, set_assign_failed,
  arm_deadline,
}
use strategon.ControlPlane.Reconcile.{
  stop_status, budget_left, finish_tick, after_roll, roll_or_stop, after_undeploys,
  undeploy_dropped, reconcile_set,
}
use strategon.ControlPlane.Reconcile.Budget.{
  writes_of, removals_of, undeploy_slots-writes, undeploy_slots-removed, undeploy_slots-removals,
  roll_out-writes, watch_inflight-writes, survey-writes,
}

-- `Reconcile` gets past its look-ups and undeploys to a survey of the members.
pub record Surveys (deps : Deps) (cl : AssignmentSet) (ctl : Controller) (s : Survey) : Type 0 where
  pub art : ArtifactRef
  pub items : List Item
  pub kept : cl.status.deleting ≡ false
  pub artifact : resolve_cluster_artifact deps cl ≡ inr art
  pub configs : resolve_items deps cl art 0 cl.spec.members ≡ inr items
  pub undeployed : (undeploy_dropped deps cl ctl).failure ≡ none
  pub surveyed :
      survey deps cl art (deps.sort_members items) (undeploy_dropped deps cl ctl).ctl ≡ inr s

unfoldable pub any_given_up : List Member → Bool
any_given_up [] = false
any_given_up (m ∷ ms) = has_given_up m || any_given_up ms

module _ (deps : Deps) (cl : AssignmentSet) where
  watch-stops :
      (ms : List Member) (ctl : Controller)
      → any_given_up ms ≡ true
      → is_some (watch_inflight deps cl ms ctl).0 ≡ true
  unfolding watch_inflight any_given_up
  watch-stops [] ctl h = cc
  watch-stops (m ∷ ms) ctl h = ground (arith, watch-stops ms (arm_deadline deps cl m ctl))

  finish_tick-writes :
      (s : Survey) (undeployed wrote : ℕ) (ctl : Controller)
      → writes_of (finish_tick deps cl s undeployed wrote ctl).1 ≡ writes_of ctl
  unfolding finish_tick prune_deadlines
  finish_tick-writes s undeployed wrote ctl = ground arith

  after_roll-writes :
      (s : Survey) (undeployed : ℕ) (w : Written)
      → writes_of (after_roll deps cl s undeployed w).1 ≡ writes_of w.1.1
  unfolding after_roll set_assign_failed
  after_roll-writes s undeployed (some e, (wrote, ctl)) = refl
  after_roll-writes s undeployed (none, (wrote, ctl)) = finish_tick-writes s undeployed wrote ctl

  roll_or_stop-writes :
      (s : Survey) (undeployed : ℕ) (r : Option Stop × Controller)
      → writes_of (roll_or_stop deps cl s undeployed r).1
        ≤ writes_of r.1 + budget_left cl s undeployed
  unfolding roll_or_stop
  roll_or_stop-writes s undeployed (some stop, ctl) = omega arith
  roll_or_stop-writes s undeployed (none, ctl) =
      let w = roll_out deps cl (budget_left cl s undeployed) s.candidates ctl in
      ground (
        arith,
        after_roll-writes s undeployed w,
        roll_out-writes deps cl (budget_left cl s undeployed) s.candidates ctl,
      )

  -- a status with the reason RollStopped and the generation observed before
  abbrev pub RecordsStop : StoreCall → Type 0
  RecordsStop call =
      (st : SetStatus) × ((call ≡ set_status deps cl st)
        × ((st.reason ≡ "RollStopped") × (st.observed_generation ≡ cl.status.observed_generation)))

  stop_roll :
      (s : Survey) (undeployed : ℕ) (r : Option Stop × Controller)
      → is_some r.0 ≡ true
      → (writes_of (roll_or_stop deps cl s undeployed r).1 ≡ writes_of r.1)
        × RecordsStop (roll_or_stop deps cl s undeployed r).0
  unfolding roll_or_stop
  stop_roll s undeployed (none, ctl) h = cc
  stop_roll s undeployed (some stop, ctl) h =
      (refl, (stop_status deps cl s stop (machines_of ctl), (refl, (refl, refl))))

  module _ (ctl : Controller) (s : Survey) (path : Surveys deps cl ctl s) where
    -- the tick is the roll that follows the survey
    as_roll :
        reconcile_set deps cl ctl
        ≡ roll_or_stop deps cl s
            (undeploy_dropped deps cl ctl).removed
            (watch_inflight deps cl s.inflight s.ctl)
    unfolding reconcile_set after_undeploys
    as_roll = ground (arith, path.kept, path.artifact, path.configs, path.undeployed, path.surveyed)

    surveyed-writes : writes_of s.ctl ≡ writes_of ctl
    surveyed-writes =
        survey-writes deps cl path.art (deps.sort_members path.items)
          (undeploy_dropped deps cl ctl).ctl s path.surveyed
        ∙ undeploy_slots-writes deps cl (at_least_one cl.spec.update.max_unavailable)
            (dropped_slots deps.sort_slots (machines_of ctl) cl) 0 ctl

    sent :
        removals_of (undeploy_dropped deps cl ctl).ctl
        ≡ removals_of ctl + (undeploy_dropped deps cl ctl).removed
    sent = ground (
      arith,
      path.undeployed,
      undeploy_slots-removals deps cl (at_least_one cl.spec.update.max_unavailable)
          (dropped_slots deps.sort_slots (machines_of ctl) cl) 0 ctl,
    )

    -- A tick that surveys its members sends at most max_unavailable requests to undeploy a dropped
    -- slot before the survey, and from then on writes at most max_unavailable members less those in
    -- flight and less the undeploys that it has sent.
    pub tick_budget :
        let removed = removals_of (undeploy_dropped deps cl ctl).ctl - removals_of ctl in
        (removals_of (undeploy_dropped deps cl ctl).ctl
          ≤ removals_of ctl + at_least_one cl.spec.update.max_unavailable)
        × (writes_of (reconcile_set deps cl ctl).1
            ≤ writes_of ctl
              + (at_least_one cl.spec.update.max_unavailable - length s.inflight - removed))
    tick_budget =
        let removed = (undeploy_dropped deps cl ctl).removed in
        let watched = watch_inflight deps cl s.inflight s.ctl in
        let within =
          undeploy_slots-removed deps cl (at_least_one cl.spec.update.max_unavailable)
            (dropped_slots deps.sort_slots (machines_of ctl) cl) 0 ctl (omega arith) in
        (
          ground (arith, sent, within),
          rw as_roll (
              ground (
                arith,
                sent,
                within,
                roll_or_stop-writes s removed watched,
                watch_inflight-writes deps cl s.inflight s.ctl,
                surveyed-writes,
              )),
        )

    -- When a member in flight has FAILED or was rolled back, a tick that surveys its members writes no
    -- member, and records the stop of the roll with the set's generation as not observed.
    pub failed_member_stops :
        any_given_up s.inflight ≡ true
        → (writes_of (reconcile_set deps cl ctl).1 ≡ writes_of ctl)
          × RecordsStop (reconcile_set deps cl ctl).0
    failed_member_stops given_up =
        let watched = watch_inflight deps cl s.inflight s.ctl in
        let removed = (undeploy_dropped deps cl ctl).removed in
        let same = watch_inflight-writes deps cl s.inflight s.ctl ∙ surveyed-writes in
        let (quiet, noted) = stop_roll s removed watched (watch-stops s.inflight s.ctl given_up) in
        (
          ap (λ t. writes_of t.1) as_roll ∙ quiet ∙ same,
          subst (λ t. RecordsStop t.0) (sym as_roll) noted,
        )
