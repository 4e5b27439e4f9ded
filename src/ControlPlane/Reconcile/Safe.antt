-- ===== src/ControlPlane/Reconcile/Safe.antt =====
-- The statuses that keep a slot owned.
use strategon.Prelude.{
  ◌≡◌, refl, ap, subst, ◌∙◌, ◌⊎◌, inl, inr, String, Bool, true, false, some, List, arith, lookup,
  lookup-insert, str_eq, eq_iff, if◌then◌else◌, Bool-cases,
}
use strategon.ControlPlane.Memory.{Machines}
use strategon.ControlPlane.SetSpec.{MemberStatus, SetStatus, AssignmentSet, Slot, has_slot}
use strategon.ControlPlane.Sets.{Clusters, preserve_deleting, update_set_status}
use strategon.ControlPlane.OwnedSlots.{collect_owned, is_assigned, is_dropped}
use strategon.ControlPlane.OwnedSlots.Members.{has_row}
use strategon.ControlPlane.Rollout.{Deps}
use strategon.ControlPlane.Roll.{
  StoreCall, leave, remove, put_status, set_status, with_retained_drops,
}
use strategon.ControlPlane.Reconcile.{call_store}
use strategon.ControlPlane.Reconcile.Removal.{owned-status}
use strategon.ControlPlane.Reconcile.Retained.{GoodKey, has_row-retained, keeps_owned}

-- the set as the store has it after a call
abbrev pub stored : AssignmentSet → StoreCall → AssignmentSet
stored cl leave = cl
stored cl remove = cl
stored cl (put_status st) = record cl { status = preserve_deleting cl.status st }

abbrev pub is_remove : StoreCall → Bool
is_remove remove = true
is_remove _ = false

pub found_after :
    (name : String) (cl : AssignmentSet) (clusters : Clusters) (call : StoreCall)
    → lookup name clusters ≡ some cl
    → is_remove call ≡ false
    → lookup name (call_store name call clusters) ≡ some (stored cl call)
unfolding call_store update_set_status
found_after name cl clusters leave found kept = found
found_after name cl clusters remove found kept = cc
found_after name cl clusters (put_status st) found kept = ground (
  arith,
  found,
  eq_iff name name,
  lookup-insert name name (record cl { status = preserve_deleting cl.status st }) clusters,
)

module _ (deps : Deps)
    (same : (t : Slot) (ss : List Slot) → has_slot t (deps.sort_slots ss) ≡ has_slot t ss)
    (cl : AssignmentSet) (s : Slot) (owned : has_slot s (collect_owned cl) ≡ true) where
  -- the old rows and key, or rows for what is dropped and a key that the transition allows
  abbrev pub IsSafe : Machines → SetStatus → Type 0
  IsSafe machines st =
      ((st.members ≡ cl.status.members) × (st.assignment_key ≡ cl.status.assignment_key))
      ⊎ ((is_dropped cl s ≡ true → has_row s st.members ≡ true)
          × GoodKey s deps cl machines st.assignment_key)

  -- the call keeps the set, and the slot as the set's
  abbrev pub Keeps : StoreCall → Type 0
  Keeps call = (is_remove call ≡ false) × (has_slot s (collect_owned (stored cl call)) ≡ true)

  stored_key :
      (machines : Machines) (st : SetStatus)
      → GoodKey s deps cl machines st.assignment_key
      → GoodKey s deps cl machines
          (if str_eq st.assignment_key "" then cl.status.assignment_key else st.assignment_key)
  stored_key machines st good = elim (Bool-cases (str_eq st.assignment_key "")) [
    | inl e ↦ inl (ground (arith, e))
    | inr e ↦ elim good [
      | inl k ↦ inl (ground (arith, e, k))
      | inr (k, complete) ↦ inr (ground (arith, e, k), complete)
    ]
  ]

  put-Keeps :
      (machines : Machines) (st keyed : SetStatus)
      → is_assigned machines s ≡ true
      → keyed.members ≡ st.members
      → keyed.assignment_key
        ≡ (if str_eq st.assignment_key "" then cl.status.assignment_key else st.assignment_key)
      → IsSafe machines st
      → has_slot s (collect_owned (stored cl (put_status keyed))) ≡ true
  unfolding preserve_deleting
  put-Keeps machines st keyed assigned rows key (inl (old_rows, old_key)) =
      let next = preserve_deleting cl.status keyed in
      ap (λ slots. has_slot s slots)
        (owned-status deps same cl next (rows ∙ old_rows) (ground (arith, key, old_key)))
      ∙ owned
  put-Keeps machines st keyed assigned rows key (inr (new_rows, new_key)) =
      let next = preserve_deleting cl.status keyed in
      let same_key : (if str_eq st.assignment_key ""
            then cl.status.assignment_key
            else st.assignment_key)
          ≡ next.assignment_key =
        ground (arith, key) in
      keeps_owned s deps cl machines next same (λ d. ap (λ ms. has_row s ms) rows ∙ new_rows d)
        (subst (λ k. GoodKey s deps cl machines k) same_key (stored_key machines st new_key)) owned
        assigned

  pub set_status-Keeps :
      (machines : Machines) (st : SetStatus)
      → is_assigned machines s ≡ true
      → IsSafe machines st
      → Keeps (set_status deps cl st)
  unfolding set_status
  set_status-Keeps machines st assigned safe =
      let keyed : SetStatus =
        if str_eq st.assignment_key ""
        then record st { assignment_key = cl.status.assignment_key }
        else st in
      elim (Bool-cases (deps.equal_status cl.status keyed)) [
        | inl e ↦
            let call : leave ≡ set_status deps cl st = ground (arith, e) in
            subst Keeps call (refl, owned)
        | inr e ↦
            let kept = put-Keeps machines st keyed assigned (ground arith) (ground arith) safe in
            let call : put_status keyed ≡ set_status deps cl st = ground (arith, e) in
            subst Keeps call (refl, kept)
      ]

  -- the rows that a tick writes
  pub retained-IsSafe :
      (machines : Machines) (rows : List MemberStatus) (st : SetStatus)
      → is_assigned machines s ≡ true
      → st.members ≡ with_retained_drops deps cl machines rows
      → GoodKey s deps cl machines st.assignment_key
      → IsSafe machines st
  retained-IsSafe machines rows st assigned members key = inr (
    (λ d.
        ap (λ ms. has_row s ms) members
        ∙ has_row-retained s deps cl machines rows same owned assigned d),
    key,
  )
