-- ===== src/ControlPlane/Sets/Reserved.antt =====
-- One owner of every slot, and the refusal of a write by anybody else.
use strategon.Prelude.{
  ◌≡◌, sym, subst, inl, inr, String, Bool, true, false, ◌||◌, none, some, List, [], ◌∷◌, arith, All,
  lookup, str_eq, eq_iff, is_some, Option-cases, Bool-cases,
}
use strategon.Prelude.Time.{Instant}
use strategon.Proto.{StrategyAssignmentSpec}
use strategon.Agent.Volumes.{contains}
use strategon.ControlPlane.Memory.{keys, values_at}
use strategon.ControlPlane.Assign.{Request, Plane, reserved_by, refused, apply, gate}
use strategon.ControlPlane.SetSpec.{SetSpec, AssignmentSet, Slot, has_slot}
use strategon.ControlPlane.Sets.{
  Clusters, Stored, claims, apply_assignment_set, update_set_status, mark_set_deleting, delete_set,
  first_owner, set_reserved_by,
}
use strategon.ControlPlane.Sets.Steps.{
  SetWrite, put_spec, put_status, mark_deleting, remove, write_one, write_each, stored_or,
}
use strategon.ControlPlane.Sets.Owners.{SoleOwners, sorted-key}
use strategon.ControlPlane.Sets.Writes.{Kept, apply-Kept}
use strategon.ControlPlane.Sets.Changes.{status-SoleOwners, mark-SoleOwners, delete-SoleOwners}

-- the server's handler sends no status
abbrev pub IsBare : SetWrite → Type 0
IsBare (put_spec uid req) = req.status ≡ none
IsBare _ = Unit

module _ (equal : SetSpec → SetSpec → Bool) (sound : (a b : SetSpec) → equal a b ≡ true → a ≡ b)
    (sort : List String → List String)
    (same : (j : String) (names : List String) → contains j (sort names) ≡ contains j names) where
  Kept-stored :
      (clusters : Clusters) (sole : SoleOwners clusters) (after : Stored)
      → Kept equal sound sort same clusters sole after
      → SoleOwners (stored_or clusters after)
  Kept-stored clusters sole (inl e) h = sole
  Kept-stored clusters sole (inr (changed, next)) h = h

  write_one-SoleOwners :
      (write : SetWrite) (clusters : Clusters)
      → IsBare write
      → SoleOwners clusters
      → SoleOwners (write_one equal sort write clusters)
  unfolding write_one update_set_status mark_set_deleting delete_set
  write_one-SoleOwners (put_spec uid req) clusters bare sole =
      Kept-stored clusters sole (apply_assignment_set equal sort uid req clusters)
        (apply-Kept equal sound sort same clusters sole uid req bare)
  write_one-SoleOwners (put_status name status) clusters bare sole =
      elim (Option-cases (lookup name clusters)) [
        | inl e ↦ rw (e, update_set_status) sole
        | inr (cur, e) ↦
            rw (e, update_set_status) (status-SoleOwners name cur status clusters sole e)
      ]
  write_one-SoleOwners (mark_deleting name) clusters bare sole =
      elim (Option-cases (lookup name clusters)) [
        | inl e ↦ rw (e, mark_set_deleting) sole
        | inr (cur, e) ↦ rw (e, mark_set_deleting) (mark-SoleOwners name cur clusters sole e)
      ]
  write_one-SoleOwners (remove name) clusters bare sole =
      elim (Bool-cases (is_some (lookup name clusters))) [
        | inl e ↦ rw (e, delete_set) (delete-SoleOwners name clusters sole)
        | inr e ↦ rw (e, delete_set) sole
      ]

  -- From a store in which each set stands under its name and no slot is claimed by two sets that are
  -- not being deleted, any writes of specs without a status, of statuses, of deletion marks and of
  -- deletions leave such a store, where `proto.Equal` is sound and sorting neither adds nor drops a
  -- name.
  pub write_each-SoleOwners :
      (writes : List SetWrite) (clusters : Clusters)
      → All IsBare writes
      → SoleOwners clusters
      → SoleOwners (write_each equal sort writes clusters)
  unfolding write_each
  write_each-SoleOwners [] clusters bare sole = sole
  write_each-SoleOwners (write ∷ rest) clusters bare sole =
      write_each-SoleOwners rest (write_one equal sort write clusters) bare.1
        (write_one-SoleOwners write clusters bare.0 sole)

module _ (sort : List String → List String)
    (same : (j : String) (names : List String) → contains j (sort names) ≡ contains j names)
    (clusters : Clusters) (sole : SoleOwners clusters) where
  owner-step :
      (k name : String) (c d : AssignmentSet) (rest : List AssignmentSet) (s : Slot)
      → lookup k clusters ≡ some d
      → lookup name clusters ≡ some c
      → c.status.deleting ≡ false
      → has_slot s (claims c) ≡ true
      → (str_eq k name ≡ false → first_owner rest s ≡ some name)
      → first_owner (d ∷ rest) s ≡ some name
  unfolding first_owner
  owner-step k name c d rest s e found kept claimed later = elim (Bool-cases (str_eq k name)) [
    | inl here ↦
        let is_c : d ≡ c = ground (arith, e, found, here, eq_iff k name) in
        subst (λ x. first_owner (x ∷ rest) s ≡ some name) (sym is_c)
          (ground (arith, kept, claimed, sole.named name c found))
    | inr there ↦
        let tail = later there in
        let apart : d.status.deleting ≡ false → has_slot s (claims d) ≡ false =
          λ kd. ground (arith, claimed, sole.apart k name d c s e found there kd kept) in
        ground (arith, tail, apart)
  ]

  -- whoever claims the slot is named, whatever the order
  owner-among :
      (ks : List String) (name : String) (c : AssignmentSet) (s : Slot)
      → contains name ks ≡ true
      → lookup name clusters ≡ some c
      → c.status.deleting ≡ false
      → has_slot s (claims c) ≡ true
      → first_owner (values_at clusters ks) s ≡ some name
  unfolding contains values_at
  owner-among [] name c s inside found kept claimed = ground arith
  owner-among (k ∷ ks) name c s inside found kept claimed =
      elim (Option-cases (lookup k clusters)) [
        | inl e ↦
            rw (e, values_at)
              (owner-among ks name c s (ground (arith, e, found, eq_iff k name)) found kept claimed)
        | inr (d, e) ↦
            rw (e, values_at)
              (owner-step k name c d (values_at clusters ks) s e found kept claimed (λ there.
                owner-among ks name c s (ground (arith, inside, there)) found kept claimed))
      ]

  -- Where no slot is claimed by two sets that are not being deleted, a write of a claimed slot that
  -- does not come from the sets' controller is refused in the name of the one set that claims it,
  -- whatever else the request says, where sorting neither adds nor drops a name.
  pub claimed_slot_refused :
      (equal : StrategyAssignmentSpec → StrategyAssignmentSpec → Bool) (plane : Plane)
      (now : Instant) (req : Request) (name : String) (c : AssignmentSet)
      → plane.reserved_by ≡ some (set_reserved_by sort clusters)
      → lookup name clusters ≡ some c
      → c.status.deleting ≡ false
      → has_slot (record { machine = req.machine_id; strategy = req.strategy }) (claims c) ≡ true
      → (str_eq req.machine_id "" || str_eq req.strategy "") ≡ false
      → req.allow_reserved ≡ false
      → apply equal plane now req ≡ refused (reserved_by name)
  unfolding apply gate set_reserved_by
  claimed_slot_refused equal plane now req name c wired found kept claimed given human =
      let owner =
        owner-among (sort (keys clusters)) name c
          (record { machine = req.machine_id; strategy = req.strategy })
          (sorted-key sort clusters same name c found) found kept claimed in
      ground (arith, wired, owner, given, human)
