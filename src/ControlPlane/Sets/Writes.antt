-- ===== src/ControlPlane/Sets/Writes.antt =====
-- What every write of a spec keeps true of the owners of slots.
use strategon.Prelude.{
  ◌≡◌, refl, subst, ◌⊎◌, inl, inr, String, Bool, true, false, ◌&&◌, Option, none, some, List, [],
  ◌∷◌, arith, lookup, insert, suc, str_eq, eq_iff, if◌then◌else◌, Option-cases, Bool-cases,
}
use strategon.Agent.Volumes.{contains}
use strategon.ControlPlane.Memory.{keys, values_at, values_by}
use strategon.ControlPlane.SetSpec.{SetSpec, AssignmentSet, Slot, has_slot}
use strategon.ControlPlane.Sets.{
  Clusters, SetRequest, claimed_slots, claims, conflict_among, persisted_key, reservation_conflict,
  create_set, update_set, write_set, apply_assignment_set, Stored, pending_status, labels_equal,
}
use strategon.ControlPlane.Sets.Owners.{
  SoleOwners, conflict-none, key-stored, insert-SoleOwners, sorted-key,
}

module _ (equal : SetSpec → SetSpec → Bool) (sound : (a b : SetSpec) → equal a b ≡ true → a ≡ b)
    (sort : List String → List String)
    (same : (j : String) (names : List String) → contains j (sort names) ≡ contains j names)
    (clusters : Clusters) (sole : SoleOwners clusters) where
  -- a checked spec, under the key that it will be stored with
  checked-clear :
      (name : String) (spec : SetSpec) (key : String)
      → conflict_among (values_by sort clusters) name (claimed_slots spec key) ≡ none
      → (j : String) (b : AssignmentSet) (s : Slot) → lookup j clusters ≡ some b
      → str_eq name j ≡ false
      → b.status.deleting ≡ false
      → (has_slot s (claimed_slots spec key) && has_slot s (claims b)) ≡ false
  checked-clear name spec key checked j b s found differ kept =
      conflict-none name (claimed_slots spec key) clusters (sort (keys clusters)) j b s checked
        (sorted-key sort clusters same j b found) found
        (ground (arith, sole.named j b found, differ, eq_iff name j, eq_iff b.name name)) kept

  opened-check :
      (name : String) (spec : SetSpec)
      → reservation_conflict (values_by sort clusters) name spec none ≡ none
      → conflict_among
          (values_by sort clusters)
          name
          (claimed_slots spec (persisted_key (values_by sort clusters) name ""))
        ≡ none
  unfolding reservation_conflict
  opened-check name spec checked = checked

  -- what the admitted spec of a stored set claims
  update-clear :
      (name : String) (spec : SetSpec) (cur : AssignmentSet)
      → lookup name clusters ≡ some cur
      → reservation_conflict (values_by sort clusters) name spec none ≡ none
      → conflict_among (values_by sort clusters) name (claimed_slots spec cur.status.assignment_key)
        ≡ none
  update-clear name spec cur found checked =
      let key =
        key-stored clusters (sort (keys clusters)) name cur sole.named
          (sorted-key sort clusters same name cur found) found in
      subst (λ k. conflict_among (values_by sort clusters) name (claimed_slots spec k) ≡ none) key
        (opened-check name spec checked)

  -- the key of a name that is not stored
  key-fresh :
      (ks : List String) (name : String)
      → lookup name clusters ≡ none
      → persisted_key (values_at clusters ks) name "" ≡ ""
  unfolding values_at persisted_key
  key-fresh [] name absent = refl
  key-fresh (k ∷ ks) name absent = elim (Option-cases (lookup k clusters)) [
    | inl e ↦ rw (e, values_at) (key-fresh ks name absent)
    | inr (d, e) ↦
        rw (e, values_at)
          (ground
            (arith, e, absent, eq_iff d.name name, sole.named k d e, key-fresh ks name absent))
  ]

  put-SoleOwners :
      (name : String) (c : AssignmentSet)
      → c.name ≡ name
      → conflict_among (values_by sort clusters) name (claims c) ≡ none
      → SoleOwners (insert name c clusters)
  put-SoleOwners name c own checked =
      insert-SoleOwners name c clusters sole own (λ j b s fb differ ka kb.
        checked-clear name c.spec c.status.assignment_key checked j b s fb differ kb)

  abbrev pub Kept : Stored → Type 0
  Kept (inl e) = Unit
  Kept (inr (changed, after)) = SoleOwners after

  create-Kept :
      (uid : Option String) (req : SetRequest) (spec : SetSpec)
      → req.status ≡ none
      → lookup req.name clusters ≡ none
      → reservation_conflict (values_by sort clusters) req.name spec none ≡ none
      → Kept (create_set uid req spec clusters)
  unfolding create_set
  create-Kept none req spec bare absent checked = tt
  create-Kept (some uid) req spec bare absent checked =
      let fresh = key-fresh (sort (keys clusters)) req.name absent in
      rw bare (
        put-SoleOwners req.name
          (record {
            name = req.name;
            uid = uid;
            generation = 1;
            labels = req.labels;
            spec = spec;
            status = pending_status;
          })
          refl
          (subst
            (λ k. conflict_among (values_by sort clusters) req.name (claimed_slots spec k) ≡ none)
            fresh (opened-check req.name spec checked)))

  clear-update :
      (spec : SetSpec) (cur : AssignmentSet) (name : String)
      → lookup name clusters ≡ some cur
      → (conflict_among
            (values_by sort clusters)
            name
            (claimed_slots spec cur.status.assignment_key)
          ≡ none)
        ⊎ (cur.spec ≡ spec)
      → (j : String) (b : AssignmentSet) (s : Slot) → lookup j clusters ≡ some b
      → str_eq name j ≡ false
      → cur.status.deleting ≡ false
      → b.status.deleting ≡ false
      → (has_slot s (claimed_slots spec cur.status.assignment_key) && has_slot s (claims b)) ≡ false
  clear-update spec cur name found (inl checked) j b s fb differ ka kb =
      checked-clear name spec cur.status.assignment_key checked j b s fb differ kb
  clear-update spec cur name found (inr same_spec) j b s fb differ ka kb =
      subst
        (λ x.
          (has_slot s (claimed_slots x cur.status.assignment_key) && has_slot s (claims b)) ≡ false)
        same_spec (sole.apart name j cur b s found fb differ ka kb)

  -- a write of a stored name whose new spec was admitted, or is the stored one
  update-Kept :
      (same_spec : Bool) (req : SetRequest) (spec : SetSpec) (cur : AssignmentSet)
      → lookup req.name clusters ≡ some cur
      → (conflict_among
            (values_by sort clusters)
            req.name
            (claimed_slots spec cur.status.assignment_key)
          ≡ none)
        ⊎ (cur.spec ≡ spec)
      → Kept (update_set same_spec req spec cur clusters)
  unfolding update_set
  update-Kept same_spec req spec cur found why =
      elim (Bool-cases (same_spec && labels_equal cur.labels req.labels)) [
        | inl unchanged ↦ rw unchanged sole
        | inr fresh ↦ rw fresh (
            insert-SoleOwners req.name
              (record cur {
                spec = spec;
                labels = req.labels;
                generation = if same_spec then cur.generation else suc cur.generation;
              })
              clusters sole (sole.named req.name cur found)
              (clear-update spec cur req.name found why))
      ]

  abbrev checked_free : SetRequest → SetSpec → Option (Slot × String)
  checked_free req spec = reservation_conflict (values_by sort clusters) req.name spec req.status

  as_bare :
      (req : SetRequest) (spec : SetSpec)
      → req.status ≡ none
      → checked_free req spec ≡ none
      → reservation_conflict (values_by sort clusters) req.name spec none ≡ none
  as_bare req spec bare e =
      subst (λ x. reservation_conflict (values_by sort clusters) req.name spec x ≡ none) bare e

  write-Kept :
      (uid : Option String) (req : SetRequest) (spec : SetSpec) (cur : Option AssignmentSet)
      → req.status ≡ none
      → lookup req.name clusters ≡ cur
      → Kept (write_set equal sort uid req spec cur clusters)
  unfolding write_set
  write-Kept uid req spec none bare absent = elim (Option-cases (checked_free req spec)) [
    | inl e ↦ rw e (create-Kept uid req spec bare absent (as_bare req spec bare e))
    | inr (taken, e) ↦ rw e tt
  ]
  write-Kept uid req spec (some cur) bare found = elim (Bool-cases (equal cur.spec spec)) [
    | inl e ↦ rw e (update-Kept true req spec cur found (inr (sound cur.spec spec e)))
    | inr e ↦ rw e (elim (Option-cases (checked_free req spec)) [
      | inl free ↦ rw free (
          update-Kept false req spec cur found
            (inl (update-clear req.name spec cur found (as_bare req spec bare free))))
      | inr (taken, free) ↦ rw free tt
    ])
  ]

  pub apply-Kept :
      (uid : Option String) (req : SetRequest)
      → req.status ≡ none
      → Kept (apply_assignment_set equal sort uid req clusters)
  unfolding apply_assignment_set
  apply-Kept uid req bare = elim (Bool-cases (str_eq req.name "")) [
    | inl e ↦ rw e tt
    | inr e ↦ rw e (elim (Option-cases req.spec) [
      | inl n ↦ rw n tt
      | inr (spec, n) ↦ rw n (write-Kept uid req spec (lookup req.name clusters) bare refl)
    ])
  ]
