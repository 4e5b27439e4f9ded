-- ===== src/ControlPlane/Reconcile/Undeploys.antt =====
-- What undeploys do to the slots that are assigned.
use strategon.Prelude.{
  ℕ, suc, ◌+◌, ◌≤◌, ◌≡◌, refl, true, false, not, ◌&&◌, ◌||◌, inl, inr, none, List, [], ◌∷◌, arith,
  lookup, erase, lookup-insert, lookup-erase, length, filter, All, str_eq, eq_iff, Option-cases,
  Bool-cases,
}
use strategon.ControlPlane.Memory.{MachineRecord, Machines, on_machine, set_assignment}
use strategon.ControlPlane.Assign.{apply, gate}
use strategon.ControlPlane.SetSpec.{AssignmentSet, Slot, same_slot, has_slot}
use strategon.ControlPlane.OwnedSlots.{is_assigned}
use strategon.ControlPlane.Rollout.{
  Deps, Controller, machines_of, clear_deadline, send, undeploy_request, undeploy_slot,
  undeploy_step, undeploy_slots,
}

-- The two names of a slot are not empty.
abbrev pub IsNamed : Slot → Type 0
IsNamed s = (str_eq s.machine "" || str_eq s.strategy "") ≡ false

pub is_assigned-same :
    (machines : Machines) (s t : Slot)
    → same_slot s t ≡ true
    → is_assigned machines s ≡ is_assigned machines t
unfolding is_assigned
is_assigned-same machines s t e =
    ground (arith, eq_iff s.machine t.machine, eq_iff s.strategy t.strategy)

module _ (deps : Deps) where
  -- an undeploy takes away exactly its slot
  send-undeploys :
      (s : Slot) (ctl : Controller) (t : Slot)
      → IsNamed s
      → is_assigned (machines_of ctl) s ≡ true
      → ((send deps (undeploy_request s) ctl).0 ≡ none)
        × (is_assigned (machines_of (send deps (undeploy_request s) ctl).1) t
            ≡ (is_assigned (machines_of ctl) t && not (same_slot s t)))
  unfolding send apply gate on_machine set_assignment is_assigned
  send-undeploys s ctl t named assigned = elim (Option-cases (lookup s.machine (machines_of ctl))) [
    | inl e ↦ ground (arith, e, assigned)
    | inr (rec, e) ↦
        let gone = lookup-erase s.strategy t.strategy rec.assignments in
        let rec' : MachineRecord = record rec {
          generation = suc rec.generation;
          assignments = erase s.strategy rec.assignments;
          previous_artifacts = erase s.strategy rec.previous_artifacts;
          status = erase s.strategy rec.status;
        } in
        ground (
          arith,
          e,
          assigned,
          named,
          gone,
          eq_iff s.machine t.machine,
          lookup-insert s.machine t.machine rec' (machines_of ctl),
        )
  ]

abbrev pub IsOwned : List Slot → Slot → Type 0
IsOwned os s = IsNamed s × (has_slot s os ≡ true)

-- `after` assigns what `before` does, less the slot
abbrev IsWithout : Slot → Machines → Machines → Type 0
IsWithout s before after =
    (t : Slot) → is_assigned after t ≡ (is_assigned before t && not (same_slot s t))

abbrev pub assigned_count : Machines → List Slot → ℕ
assigned_count machines os = length (filter (is_assigned machines) os)

count-without :
    (s : Slot) (before after : Machines) (os : List Slot)
    → IsWithout s before after
    → assigned_count after os ≤ assigned_count before os
unfolding filter
count-without s before after [] less = omega arith
count-without s before after (o ∷ os) less =
    ground (arith, less o, count-without s before after os less)

count-less :
    (s : Slot) (before after : Machines) (os : List Slot)
    → IsWithout s before after
    → has_slot s os ≡ true
    → is_assigned before s ≡ true
    → suc (assigned_count after os) ≤ assigned_count before os
unfolding filter has_slot
count-less s before after [] less inside assigned = ground arith
count-less s before after (o ∷ os) less inside assigned = elim (Bool-cases (same_slot o s)) [
  | inl here ↦ ground (
    arith,
    less o,
    here,
    assigned,
    is_assigned-same before o s here,
    eq_iff o.machine s.machine,
    eq_iff o.strategy s.strategy,
    eq_iff s.machine o.machine,
    eq_iff s.strategy o.strategy,
    count-without s before after os less,
  )
  | inr there ↦ ground (arith, less o, there, inside, count-less s before after os less)
]

module _ (deps : Deps) (cl : AssignmentSet) (os : List Slot) where
  undeploy_step-counts :
      (limit : ℕ) (s : Slot) (removed : ℕ) (ctl : Controller)
      → IsOwned os s
      → ((undeploy_step deps cl limit s removed ctl).failure ≡ none)
        × (assigned_count (machines_of (undeploy_step deps cl limit s removed ctl).ctl) os
              + (undeploy_step deps cl limit s removed ctl).removed
            ≤ assigned_count (machines_of ctl) os + removed)
  unfolding undeploy_step clear_deadline undeploy_slot
  undeploy_step-counts limit s removed ctl (named, inside) =
      elim (Bool-cases (is_assigned (machines_of ctl) s)) [
        | inl e ↦
            let sent = send deps (undeploy_request s) ctl in
            let worked = (send-undeploys deps s ctl s named e).0 in
            let fewer =
              count-less s (machines_of ctl) (machines_of sent.1) os
                (λ t. (send-undeploys deps s ctl t named e).1) inside e in
            ground (arith, e, worked, fewer)
        | inr e ↦ ground (arith, e)
      ]

  -- No undeploy of owned slots fails, and each that is counted takes a slot away.
  pub undeploy_slots-counts :
      (limit : ℕ) (ss : List Slot) (removed : ℕ) (ctl : Controller)
      → All (IsOwned os) ss
      → ((undeploy_slots deps cl limit ss removed ctl).failure ≡ none)
        × (assigned_count (machines_of (undeploy_slots deps cl limit ss removed ctl).ctl) os
              + (undeploy_slots deps cl limit ss removed ctl).removed
            ≤ assigned_count (machines_of ctl) os + removed)
  unfolding undeploy_slots
  undeploy_slots-counts limit [] removed ctl owned = (refl, omega arith)
  undeploy_slots-counts limit (s ∷ ss) removed ctl owned =
      let u = undeploy_step deps cl limit s removed ctl in
      ground (
        arith,
        undeploy_step-counts limit s removed ctl owned.0,
        undeploy_slots-counts limit ss u.removed u.ctl owned.1,
      )

  undeploy_step-keeps :
      (limit : ℕ) (s : Slot) (removed : ℕ) (ctl : Controller)
      → removed ≤ (undeploy_step deps cl limit s removed ctl).removed
  unfolding undeploy_step
  undeploy_step-keeps limit s removed ctl = ground arith

  undeploy_slots-keeps :
      (limit : ℕ) (ss : List Slot) (removed : ℕ) (ctl : Controller)
      → removed ≤ (undeploy_slots deps cl limit ss removed ctl).removed
  unfolding undeploy_slots
  undeploy_slots-keeps limit [] removed ctl = omega arith
  undeploy_slots-keeps limit (s ∷ ss) removed ctl =
      let u = undeploy_step deps cl limit s removed ctl in
      ground (
        arith,
        undeploy_step-keeps limit s removed ctl,
        undeploy_slots-keeps limit ss u.removed u.ctl,
      )

  -- The first slot of the list, where it is assigned, is undeployed.
  pub undeploy_slots-progress :
      (limit : ℕ) (s : Slot) (ss : List Slot) (ctl : Controller)
      → IsNamed s
      → is_assigned (machines_of ctl) s ≡ true
      → 1 ≤ (undeploy_slots deps cl (suc limit) (s ∷ ss) 0 ctl).removed
  unfolding undeploy_slots undeploy_step undeploy_slot
  undeploy_slots-progress limit s ss ctl named assigned =
      let u = undeploy_step deps cl (suc limit) s 0 ctl in
      ground (
        arith,
        assigned,
        (send-undeploys deps s ctl s named assigned).0,
        undeploy_slots-keeps (suc limit) ss u.removed u.ctl,
      )
