-- ===== src/ControlPlane/Sets/Owners.antt =====
-- Who owns which slot, over every write of the stored sets.
use strategon.Prelude.{
  ◌≡◌, refl, subst, ap, ◌∙◌, inl, inr, String, true, false, ◌&&◌, ◌||◌, none, some, List, [], ◌∷◌,
  ◌++◌, arith, lookup, insert, lookup-insert, str_eq, eq_iff, Option-cases, Bool-cases,
}
use strategon.Agent.Volumes.{contains}
use strategon.ControlPlane.Memory.{keys, values_at}
use strategon.ControlPlane.Memory.Snapshot.{contains-keys}
use strategon.ControlPlane.SetSpec.{AssignmentSet, Slot, same_slot, has_slot}
use strategon.ControlPlane.Sets.{Clusters, claims, first_claimed, conflict_among, persisted_key}

-- Each set is stored under its name, and no slot is claimed by two sets that are not being deleted.
pub record SoleOwners (clusters : Clusters) : Type 0 where
  pub named : (k : String) (c : AssignmentSet) → lookup k clusters ≡ some c → c.name ≡ k
  pub apart :
      (i j : String) (a b : AssignmentSet) (s : Slot)
      → lookup i clusters ≡ some a
      → lookup j clusters ≡ some b
      → str_eq i j ≡ false
      → a.status.deleting ≡ false
      → b.status.deleting ≡ false
      → (has_slot s (claims a) && has_slot s (claims b)) ≡ false

pub has_slot-++ :
    (s : Slot) (xs ys : List Slot) → has_slot s (xs ++ ys) ≡ (has_slot s xs || has_slot s ys)
unfolding has_slot
has_slot-++ s [] ys = refl
has_slot-++ s (x ∷ xs) ys = ground (arith, has_slot-++ s xs ys)

pub same_has : (s t : Slot) (ts : List Slot) → same_slot t s ≡ true → has_slot s ts ≡ has_slot t ts
unfolding has_slot
same_has s t [] e = refl
same_has s t (u ∷ us) e =
    ground (arith, same_has s t us e, eq_iff t.machine s.machine, eq_iff t.strategy s.strategy)

pub first_claimed-none :
    (s : Slot) (wanted have : List Slot)
    → first_claimed wanted have ≡ none
    → (has_slot s wanted && has_slot s have) ≡ false
unfolding first_claimed has_slot
first_claimed-none s wanted [] h = ground arith
first_claimed-none s wanted (t ∷ ts) h =
    ground (arith, first_claimed-none s wanted ts, same_has s t wanted)

module _ (name : String) (wanted : List Slot) where
  conflict-head :
      (c : AssignmentSet) (cs : List AssignmentSet)
      → conflict_among (c ∷ cs) name wanted ≡ none
      → str_eq c.name name ≡ false
      → c.status.deleting ≡ false
      → first_claimed wanted (claims c) ≡ none
  unfolding conflict_among
  conflict-head c cs h other kept = ground arith

  conflict-tail :
      (c : AssignmentSet) (cs : List AssignmentSet)
      → conflict_among (c ∷ cs) name wanted ≡ none
      → conflict_among cs name wanted ≡ none
  unfolding conflict_among
  conflict-tail c cs h = ground arith

  -- a set that is stored under one of the keys was judged
  pub conflict-none :
      (clusters : Clusters) (ks : List String) (j : String) (b : AssignmentSet) (s : Slot)
      → conflict_among (values_at clusters ks) name wanted ≡ none
      → contains j ks ≡ true
      → lookup j clusters ≡ some b
      → str_eq b.name name ≡ false
      → b.status.deleting ≡ false
      → (has_slot s wanted && has_slot s (claims b)) ≡ false
  unfolding values_at contains
  conflict-none clusters [] j b s h inside found other kept = ground arith
  conflict-none clusters (k ∷ ks) j b s h inside found other kept = elim (Bool-cases (str_eq k j)) [
    | inl here ↦
        let at_k : lookup k clusters ≡ some b = ground (arith, eq_iff k j) in
        first_claimed-none s wanted (claims b)
          (conflict-head b (values_at clusters ks) (ground (arith, at_k)) other kept)
    | inr there ↦ elim (Option-cases (lookup k clusters)) [
      | inl e ↦ conflict-none clusters ks j b s (ground (arith, e)) (ground arith) found other kept
      | inr (c, e) ↦
          conflict-none clusters ks j b s
            (conflict-tail c (values_at clusters ks) (ground (arith, e))) (ground arith) found other
            kept
    ]
  ]

-- The stored key of a name is the one that a request without a key is judged by.
pub key-stored :
    (clusters : Clusters) (ks : List String) (name : String) (c : AssignmentSet)
    → ((k : String) (d : AssignmentSet) → lookup k clusters ≡ some d → d.name ≡ k)
    → contains name ks ≡ true
    → lookup name clusters ≡ some c
    → persisted_key (values_at clusters ks) name "" ≡ c.status.assignment_key
unfolding values_at contains persisted_key
key-stored clusters [] name c named inside found = ground arith
key-stored clusters (k ∷ ks) name c named inside found = elim (Option-cases (lookup k clusters)) [
  | inl e ↦
      rw (e, values_at)
        (key-stored clusters ks name c named (ground (arith, e, eq_iff k name)) found)
  | inr (d, e) ↦
      rw (e, values_at)
        (ground (
          arith,
          e,
          eq_iff k name,
          eq_iff d.name name,
          named k d e,
          named name c found,
          key-stored clusters ks name c named,
        ))
]

pub insert-SoleOwners :
    (n : String) (c : AssignmentSet) (clusters : Clusters)
    → SoleOwners clusters
    → c.name ≡ n
    → ((j : String) (b : AssignmentSet) (s : Slot)
        → lookup j clusters ≡ some b
        → str_eq n j ≡ false
        → c.status.deleting ≡ false
        → b.status.deleting ≡ false
        → (has_slot s (claims c) && has_slot s (claims b)) ≡ false)
    → SoleOwners (insert n c clusters)
unfolding lookup
insert-SoleOwners n c clusters sole own clear = record {
  named = λ k d e. elim (Bool-cases (str_eq n k)) [
    | inl here ↦ ground (arith, lookup-insert n k c clusters, e, here, own, eq_iff n k)
    | inr there ↦ sole.named k d (ground (arith, lookup-insert n k c clusters, e, there))
  ];
  apart = λ i j a b s fa fb differ ka kb.
      let look_i = lookup-insert n i c clusters in
      let look_j = lookup-insert n j c clusters in
      elim (Bool-cases (str_eq n i)) [
        | inl ni ↦
            let a_new : c ≡ a = ground (arith, look_i, fa, ni) in
            let nj : str_eq n j ≡ false = ground (arith, differ, ni, eq_iff n i, eq_iff n j) in
            let old_b : lookup j clusters ≡ some b = ground (arith, look_j, fb, nj) in
            let kept : c.status.deleting ≡ false = ap (λ x. x.status.deleting) a_new ∙ ka in
            subst (λ x. (has_slot s (claims x) && has_slot s (claims b)) ≡ false) a_new
              (clear j b s old_b nj kept kb)
        | inr ni ↦
            let old_a : lookup i clusters ≡ some a = ground (arith, look_i, fa, ni) in
            elim (Bool-cases (str_eq n j)) [
              | inl nj ↦
                  let b_new : c ≡ b = ground (arith, look_j, fb, nj) in
                  let kept : c.status.deleting ≡ false = ap (λ x. x.status.deleting) b_new ∙ kb in
                  let free = clear i a s old_a ni kept ka in
                  subst (λ x. (has_slot s (claims a) && has_slot s (claims x)) ≡ false) b_new
                    (ground (arith, free))
              | inr nj ↦ sole.apart i j a b s old_a (ground (arith, look_j, fb, nj)) differ ka kb
            ]
      ];
}

-- Sorting keeps the stored names.
pub sorted-key :
    (sort : List String → List String) (clusters : Clusters)
    → ((j : String) (names : List String) → contains j (sort names) ≡ contains j names)
    → (j : String) (b : AssignmentSet) → lookup j clusters ≡ some b
    → contains j (sort (keys clusters)) ≡ true
sorted-key sort clusters same j b found =
    ground (arith, same j (keys clusters), contains-keys j clusters, found)
