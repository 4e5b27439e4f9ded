-- ===== src/ControlPlane/Reconcile/Deleted.antt =====
-- A set that is being deleted is gone in time.
use strategon.Prelude.{
  ℕ, zero, suc, ◌≤◌, ◌<◌, ◌≡◌, refl, sym, ap, subst, ◌∙◌, String, true, inl, inr, none, some, List,
  arith, lookup, ltb, Bool-cases,
}
use strategon.ControlPlane.SetSpec.{AssignmentSet, Slot, has_slot}
use strategon.ControlPlane.Sets.{Clusters}
use strategon.ControlPlane.OwnedSlots.{owned_slots, assigned_slots}
use strategon.ControlPlane.Rollout.{Deps, Controller, machines_of, Undeploy, prune_deadlines}
use strategon.ControlPlane.Roll.{remove, set_status}
use strategon.ControlPlane.Reconcile.{
  after_removals, reconcile_delete, reconcile_set, call_store, tick_set,
}
use strategon.ControlPlane.Reconcile.Undeploys.{assigned_count}
use strategon.ControlPlane.Reconcile.Removal.{
  Doomed, turn, left, turn-counts, turn-progress, deleting_status, status-Doomed, removed_gone,
}

-- the turns of one set
unfoldable pub tick_times : Deps → String → ℕ → Clusters × Controller → Clusters × Controller
tick_times deps name zero at_start = at_start
tick_times deps name (suc n) at_start = tick_times deps name n (tick_set deps name at_start)

-- The set is gone, and none of the slots that it owned is assigned.
abbrev pub IsGone : String → List Slot → Clusters × Controller → Type 0
IsGone name os at_end =
    (lookup name at_end.0 ≡ none) × (assigned_count (machines_of at_end.1) os ≡ 0)

module _ (deps : Deps)
    (same : (s : Slot) (ss : List Slot) → has_slot s (deps.sort_slots ss) ≡ has_slot s ss) where
  module _ (name : String) (clusters : Clusters) (ctl : Controller) (cl : AssignmentSet)
      (found : lookup name clusters ≡ some cl) (deleting : cl.status.deleting ≡ true) where
    as_delete :
        tick_set deps name (clusters, ctl)
        ≡ (let (call, ctl') = reconcile_delete deps cl ctl in (call_store name call clusters, ctl'))
    unfolding tick_set reconcile_set
    as_delete = ground (arith, found, deleting)

    goes_on :
        (turn deps same cl ctl).removed < left deps same cl ctl
        → tick_set deps name (clusters, ctl) ≡ (
          call_store name (set_status deps cl (deleting_status deps same cl)) clusters,
          (turn deps same cl ctl).ctl,
        )
    unfolding reconcile_delete after_removals assigned_slots
    goes_on more = as_delete ∙ ground (arith, more, (turn-counts deps same cl ctl).0)

    ends :
        left deps same cl ctl ≤ (turn deps same cl ctl).removed
        → tick_set deps name (clusters, ctl)
          ≡ (call_store name remove clusters, prune_deadlines cl.name (turn deps same cl ctl).ctl)
    unfolding reconcile_delete after_removals assigned_slots
    ends done = as_delete ∙ ground (arith, done, (turn-counts deps same cl ctl).0)

  unmoved :
      (name : String) (clusters : Clusters) (ctl : Controller)
      → lookup name clusters ≡ none
      → tick_set deps name (clusters, ctl) ≡ (clusters, ctl)
  unfolding tick_set
  unmoved name clusters ctl gone = ground (arith, gone)

  stays_gone :
      (name : String) (n : ℕ) (clusters : Clusters) (ctl : Controller)
      → lookup name clusters ≡ none
      → tick_times deps name n (clusters, ctl) ≡ (clusters, ctl)
  unfolding tick_times
  stays_gone name zero clusters ctl gone = refl
  stays_gone name (suc n) clusters ctl gone =
      ap (λ x. tick_times deps name n x) (unmoved name clusters ctl gone)
      ∙ stays_gone name n clusters ctl gone

  module _ (name : String) (os : List Slot) where
    all_removed :
        (u : Undeploy) (cluster : String)
        → assigned_count (machines_of u.ctl) os ≡ 0
        → assigned_count (machines_of (prune_deadlines cluster u.ctl)) os ≡ 0
    unfolding prune_deadlines
    all_removed u cluster e = e

    IsGone-in_time :
        (n : ℕ) (clusters : Clusters) (ctl : Controller) (d : Doomed deps same name os clusters)
        → assigned_count (machines_of ctl) os < n
        → IsGone name os (tick_times deps name n (clusters, ctl))
    unfolding tick_times
    IsGone-in_time zero clusters ctl d few = ground (arith, few)
    IsGone-in_time (suc n) clusters ctl d few =
        let u = turn deps same d.cl ctl in
        let counts = (turn-counts deps same d.cl ctl).1 in
        let moved = turn-progress deps same d.cl ctl in
        let as_left : left deps same d.cl ctl ≡ assigned_count (machines_of ctl) os =
          ap (λ xs. assigned_count (machines_of ctl) xs) d.owned in
        let as_rest : left deps same d.cl u.ctl ≡ assigned_count (machines_of u.ctl) os =
          ap (λ xs. assigned_count (machines_of u.ctl) xs) d.owned in
        elim (Bool-cases (ltb u.removed (left deps same d.cl ctl))) [
          | inl more ↦
              subst (λ x. IsGone name os (tick_times deps name n x))
                (sym (goes_on name clusters ctl d.cl d.found d.deleting (ground (arith, more))))
                (IsGone-in_time n
                  (call_store name (set_status deps d.cl (deleting_status deps same d.cl)) clusters)
                  u.ctl (status-Doomed deps same name os clusters d)
                  (ground (arith, counts, moved, more, as_left, as_rest, few)))
          | inr done ↦
              let gone = removed_gone deps same name clusters (ground (arith, d.found)) in
              let cleared = prune_deadlines d.cl.name u.ctl in
              subst (λ x. IsGone name os (tick_times deps name n x))
                (sym (ends name clusters ctl d.cl d.found d.deleting (ground (arith, done))))
                (subst (λ x. IsGone name os x)
                  (sym (stays_gone name n (call_store name remove clusters) cleared gone))
                  (gone, all_removed u d.cl.name (ground (arith, counts, done, as_left, as_rest))))
        ]

  -- When nothing else writes, a stored set that is being deleted has left the store after any number
  -- of the controller's ticks that exceeds the number of its owned slots that are assigned, and none
  -- of them is assigned any more, where sorting neither adds nor drops a slot.
  pub deleted_in_time :
      (name : String) (cl : AssignmentSet) (clusters : Clusters) (ctl : Controller) (n : ℕ)
      → lookup name clusters ≡ some cl
      → cl.status.deleting ≡ true
      → assigned_count (machines_of ctl) (owned_slots deps.sort_slots cl) < n
      → (lookup name (tick_times deps name n (clusters, ctl)).0 ≡ none)
        × (assigned_count
              (machines_of (tick_times deps name n (clusters, ctl)).1)
              (owned_slots deps.sort_slots cl)
            ≡ 0)
  deleted_in_time name cl clusters ctl n found deleting few =
      IsGone-in_time name (owned_slots deps.sort_slots cl) n clusters ctl
        (record { cl = cl; found = found; deleting = deleting; owned = refl }) few
