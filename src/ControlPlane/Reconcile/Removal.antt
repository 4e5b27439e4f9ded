-- ===== src/ControlPlane/Reconcile/Removal.antt =====
-- One turn of the deletion of a set.
use strategon.Prelude.{
  ℕ, zero, suc, ◌+◌, ◌≤◌, ◌≡◌, refl, sym, ap, subst, ◌∙◌, String, Bool, true, ◌⊎◌, inl, inr, none,
  some, List, [], ◌∷◌, arith, lookup, lookup-insert, lookup-erase, length, filter, All, is_some,
  str_eq, eq_iff, Bool-cases,
}
use strategon.ControlPlane.SetSpec.{MemberStatus, SetStatus, AssignmentSet, Slot, has_slot}
use strategon.ControlPlane.Sets.{Clusters, preserve_deleting, update_set_status, delete_set}
use strategon.ControlPlane.OwnedSlots.{
  own_families, collect_owned, is_assigned, owned_slots, assigned_slots,
}
use strategon.ControlPlane.Rollout.{
  Deps, Controller, machines_of, at_least_one, Undeploy, undeploy_slots,
}
use strategon.ControlPlane.Roll.{leave, remove, put_status, set_status}
use strategon.ControlPlane.Reconcile.{call_store}
use strategon.ControlPlane.Reconcile.Undeploys.{
  IsNamed, IsOwned, assigned_count, undeploy_slots-counts, undeploy_slots-progress,
}
use strategon.ControlPlane.Reconcile.Owned.{
  collect_owned-IsNamed, IsNamed-All, has-IsNamed, All-has, filter-has,
}

module _ (deps : Deps)
    (same : (s : Slot) (ss : List Slot) → has_slot s (deps.sort_slots ss) ≡ has_slot s ss) where
  sorted-IsNamed : (cl : AssignmentSet) → All IsNamed (owned_slots deps.sort_slots cl)
  unfolding owned_slots
  sorted-IsNamed cl = IsNamed-All (deps.sort_slots (collect_owned cl)) (λ s h.
      has-IsNamed s (collect_owned cl) (collect_owned-IsNamed cl)
        (sym (same s (collect_owned cl)) ∙ h))

  targets-IsOwned :
      (cl : AssignmentSet) (ctl : Controller)
      → All
          (IsOwned (owned_slots deps.sort_slots cl))
          (assigned_slots deps.sort_slots (machines_of ctl) cl)
  unfolding assigned_slots
  targets-IsOwned cl ctl =
      let os = owned_slots deps.sort_slots cl in
      All-has os (filter (is_assigned (machines_of ctl)) os) (sorted-IsNamed cl)
        (λ s h. filter-has (is_assigned (machines_of ctl)) s os h)

  -- the undeploys of one turn of a deletion
  abbrev pub turn : AssignmentSet → Controller → Undeploy
  turn cl ctl =
      undeploy_slots deps cl (at_least_one cl.spec.update.max_unavailable)
        (assigned_slots deps.sort_slots (machines_of ctl) cl) 0 ctl

  abbrev pub left : AssignmentSet → Controller → ℕ
  left cl ctl = assigned_count (machines_of ctl) (owned_slots deps.sort_slots cl)

  pub turn-counts :
      (cl : AssignmentSet) (ctl : Controller)
      → ((turn cl ctl).failure ≡ none)
        × (left cl (turn cl ctl).ctl + (turn cl ctl).removed ≤ left cl ctl)
  turn-counts cl ctl =
      let counts =
        undeploy_slots-counts deps cl (owned_slots deps.sort_slots cl)
          (at_least_one cl.spec.update.max_unavailable)
          (assigned_slots deps.sort_slots (machines_of ctl) cl) 0 ctl (targets-IsOwned cl ctl) in
      (counts.0, ground (arith, counts.1))

  filter-head :
      (q : Slot → Bool) (os : List Slot) (s : Slot) (rest : List Slot)
      → filter q os ≡ s ∷ rest
      → q s ≡ true
  unfolding filter
  filter-head q [] s rest e = cc
  filter-head q (o ∷ os) s rest e = elim (Bool-cases (q o)) [
    | inl h ↦ ground (arith, h, e)
    | inr h ↦ filter-head q os s rest (ground (arith, h, e))
  ]

  first-IsNamed :
      (cl : AssignmentSet) (ctl : Controller) (s : Slot) (ss : List Slot)
      → assigned_slots deps.sort_slots (machines_of ctl) cl ≡ s ∷ ss
      → IsNamed s
  first-IsNamed cl ctl s ss e =
      (subst (λ xs. All (IsOwned (owned_slots deps.sort_slots cl)) xs) e
        (targets-IsOwned cl ctl)).0.0

  progress-from :
      (cl : AssignmentSet) (ctl : Controller) (limit : ℕ) (targets : List Slot)
      → assigned_slots deps.sort_slots (machines_of ctl) cl ≡ targets
      → 1 ≤ length targets
      → 1 ≤ (undeploy_slots deps cl (at_least_one limit) targets 0 ctl).removed
  unfolding assigned_slots
  progress-from cl ctl limit [] e some_left = ground arith
  progress-from cl ctl zero (s ∷ ss) e some_left =
      undeploy_slots-progress deps cl [] 0 s ss ctl (first-IsNamed cl ctl s ss e)
        (filter-head (is_assigned (machines_of ctl)) (owned_slots deps.sort_slots cl) s ss e)
  progress-from cl ctl (suc n) (s ∷ ss) e some_left =
      undeploy_slots-progress deps cl [] n s ss ctl (first-IsNamed cl ctl s ss e)
        (filter-head (is_assigned (machines_of ctl)) (owned_slots deps.sort_slots cl) s ss e)

  pub turn-progress :
      (cl : AssignmentSet) (ctl : Controller) → 1 ≤ left cl ctl → 1 ≤ (turn cl ctl).removed
  unfolding assigned_slots
  turn-progress cl ctl some_left =
      progress-from cl ctl cl.spec.update.max_unavailable
        (assigned_slots deps.sort_slots (machines_of ctl) cl) refl some_left

  pub owned-status :
      (cl : AssignmentSet) (st : SetStatus)
      → st.members ≡ cl.status.members
      → st.assignment_key ≡ cl.status.assignment_key
      → collect_owned (record cl { status = st }) ≡ collect_owned cl
  unfolding collect_owned own_families
  owned-status cl st members key =
      let with = λ (m : List MemberStatus) (k : String).
        collect_owned
          (record cl { status = record cl.status { members = m; assignment_key = k } }) in
      ap (λ m. with m st.assignment_key) members ∙ ap (λ k. with cl.status.members k) key

  -- A set that is being deleted, with the slots that it owns.
  pub record Doomed (name : String) (os : List Slot) (clusters : Clusters) : Type 0 where
    pub cl : AssignmentSet
    pub found : lookup name clusters ≡ some cl
    pub deleting : cl.status.deleting ≡ true
    pub owned : owned_slots deps.sort_slots cl ≡ os

  abbrev pub deleting_status : AssignmentSet → SetStatus
  deleting_status cl = record {
    phase = "Deleting";
    observed_generation = cl.status.observed_generation;
    reason = "Undeploying";
    message = "";
    members = cl.status.members;
    deleting = true;
    assignment_key = cl.status.assignment_key;
  }

  deleting-call :
      (cl : AssignmentSet)
      → (set_status deps cl (deleting_status cl) ≡ leave)
        ⊎ (set_status deps cl (deleting_status cl) ≡ put_status (deleting_status cl))
  unfolding set_status
  deleting-call cl = elim (Bool-cases (str_eq cl.status.assignment_key "")) [
    | inl e ↦ elim (Bool-cases (deps.equal_status cl.status (deleting_status cl))) [
      | inl same_one ↦ inl (ground (arith, e, same_one))
      | inr other ↦ inr (ground (arith, e, other))
    ]
    | inr e ↦ elim (Bool-cases (deps.equal_status cl.status (deleting_status cl))) [
      | inl same_one ↦ inl (ground (arith, e, same_one))
      | inr other ↦ inr (ground (arith, e, other))
    ]
  ]

  put-Doomed :
      (name : String) (os : List Slot) (clusters : Clusters) (d : Doomed name os clusters)
      → Doomed name os (call_store name (put_status (deleting_status d.cl)) clusters)
  unfolding call_store update_set_status preserve_deleting owned_slots
  put-Doomed name os clusters d =
      let next : AssignmentSet = record d.cl {
        status = preserve_deleting d.cl.status (deleting_status d.cl);
      } in
      let key : next.status.assignment_key ≡ d.cl.status.assignment_key = ground arith in
      record {
        cl = next;
        found = ground (arith, d.found, lookup-insert name name next clusters, eq_iff name name);
        deleting = ground (arith, d.deleting);
        owned = ap deps.sort_slots (owned-status d.cl next.status refl key) ∙ d.owned;
      }

  -- the store after a status that keeps the set doomed
  pub status-Doomed :
      (name : String) (os : List Slot) (clusters : Clusters) (d : Doomed name os clusters)
      → Doomed name os (call_store name (set_status deps d.cl (deleting_status d.cl)) clusters)
  unfolding call_store
  status-Doomed name os clusters d = elim (deleting-call d.cl) [
    | inl e ↦ subst (λ c. Doomed name os (call_store name c clusters)) (sym e) d
    | inr e ↦
        subst (λ c. Doomed name os (call_store name c clusters)) (sym e)
          (put-Doomed name os clusters d)
  ]

  pub removed_gone :
      (name : String) (clusters : Clusters)
      → is_some (lookup name clusters) ≡ true
      → lookup name (call_store name remove clusters) ≡ none
  unfolding call_store delete_set
  removed_gone name clusters found =
      ground (arith, found, lookup-erase name name clusters, eq_iff name name)
