-- ===== src/ControlPlane/Reconcile/Retained.antt =====
-- The rows that keep a dropped slot owned until it is undeployed.
use strategon.Prelude.{
  ◌≡◌, refl, ◌∙◌, ◌⊎◌, inl, inr, String, Bool, true, false, not, ◌&&◌, ◌||◌, List, [], ◌∷◌, ◌++◌,
  arith, str_eq, eq_iff, filter, Bool-cases,
}
use strategon.Agent.Volumes.{contains}
use strategon.ControlPlane.Memory.{Machines}
use strategon.ControlPlane.SetSpec.{
  MemberStatus, SetStatus, AssignmentSet, Slot, same_slot, has_slot,
}
use strategon.ControlPlane.Sets.{family}
use strategon.ControlPlane.Sets.Owners.{same_has}
use strategon.ControlPlane.OwnedSlots.{
  uses_member_key, spec_has_member, family_leftover, collect_owned, set_machines, is_assigned,
  is_dropped, owned_slots, assigned_slots, dropped_slots, family_left, transition_complete,
}
use strategon.ControlPlane.OwnedSlots.Members.{
  has_names, has_row, has_slot-collect_owned, contains-set_machines,
}
use strategon.ControlPlane.Rollout.{Deps}
use strategon.ControlPlane.Roll.{row_slots, drop_rows, with_retained_drops}
use strategon.ControlPlane.Survey.{row}
use strategon.ControlPlane.Reconcile.Undeploys.{is_assigned-same}

module _ (s : Slot) where
  has_row-++ : (xs ys : List MemberStatus) → has_row s (xs ++ ys) ≡ (has_row s xs || has_row s ys)
  unfolding has_row
  has_row-++ [] ys = refl
  has_row-++ (x ∷ xs) ys = ground (arith, has_row-++ xs ys)

  has_slot-row_slots : (rows : List MemberStatus) → has_slot s (row_slots rows) ≡ has_row s rows
  unfolding has_row has_slot
  has_slot-row_slots [] = refl
  has_slot-row_slots (r ∷ rs) = ground (arith, has_slot-row_slots rs)

  is_dropped-same :
      (cl : AssignmentSet) (t : Slot) → same_slot t s ≡ true → is_dropped cl t ≡ is_dropped cl s
  unfolding is_dropped
  is_dropped-same cl t e =
      ground (arith, e, eq_iff t.machine s.machine, eq_iff t.strategy s.strategy)

  has_slot-filter :
      (q : Slot → Bool) (ss : List Slot)
      → ((t : Slot) → same_slot t s ≡ true → q t ≡ q s)
      → has_slot s (filter q ss) ≡ (has_slot s ss && q s)
  unfolding has_slot filter
  has_slot-filter q [] respects = refl
  has_slot-filter q (t ∷ ts) respects = ground (arith, respects t, has_slot-filter q ts respects)

  module _ (sort : List Slot → List Slot)
      (same : (t : Slot) (ss : List Slot) → has_slot t (sort ss) ≡ has_slot t ss)
      (machines : Machines) (cl : AssignmentSet) where
    pub has_slot-assigned_slots :
        has_slot s (assigned_slots sort machines cl)
        ≡ (has_slot s (collect_owned cl) && is_assigned machines s)
    unfolding assigned_slots owned_slots
    has_slot-assigned_slots = ground (
      arith,
      same s (collect_owned cl),
      has_slot-filter (is_assigned machines) (sort (collect_owned cl))
          (λ t e. is_assigned-same machines t s e),
    )

    pub has_slot-dropped_slots :
        has_slot s (dropped_slots sort machines cl)
        ≡ (has_slot s (collect_owned cl) && is_assigned machines s && is_dropped cl s)
    unfolding dropped_slots
    has_slot-dropped_slots = ground (
      arith,
      has_slot-assigned_slots,
      has_slot-filter (is_dropped cl) (assigned_slots sort machines cl)
          (λ t e. is_dropped-same cl t e),
    )

  -- a listed slot that is assigned and not in spec gets a row, unless it has one
  has_row-drop_rows :
      (cl : AssignmentSet) (machines : Machines) (seen ss : List Slot)
      → has_slot s ss ≡ true
      → is_assigned machines s ≡ true
      → spec_has_member cl.spec.members s.machine s.strategy ≡ false
      → (has_slot s seen || has_row s (drop_rows cl machines seen ss)) ≡ true
  unfolding drop_rows has_row has_slot row
  has_row-drop_rows cl machines seen [] inside assigned outside = ground arith
  has_row-drop_rows cl machines seen (t ∷ ts) inside assigned outside =
      elim (Bool-cases (same_slot t s)) [
        | inl here ↦ ground (
          arith,
          here,
          assigned,
          outside,
          same_has s t seen here,
          is_assigned-same machines t s here,
          eq_iff t.machine s.machine,
          eq_iff t.strategy s.strategy,
        )
        | inr there ↦ ground (
          arith,
          there,
          inside,
          has_row-drop_rows cl machines seen ts,
          has_row-drop_rows cl machines (t ∷ seen) ts,
          assigned,
          outside,
        )
      ]

  -- every dropped slot that is assigned has a row in what a tick writes
  pub has_row-retained :
      (deps : Deps) (cl : AssignmentSet) (machines : Machines) (rows : List MemberStatus)
      → ((t : Slot) (ss : List Slot) → has_slot t (deps.sort_slots ss) ≡ has_slot t ss)
      → has_slot s (collect_owned cl) ≡ true
      → is_assigned machines s ≡ true
      → is_dropped cl s ≡ true
      → has_row s (with_retained_drops deps cl machines rows) ≡ true
  unfolding with_retained_drops is_dropped
  has_row-retained deps cl machines rows same owned assigned dropped =
      let ss = dropped_slots deps.sort_slots machines cl in
      let listed : has_slot s ss ≡ true =
        has_slot-dropped_slots deps.sort_slots same machines cl
        ∙ ground (arith, owned, assigned, dropped) in
      ground (
        arith,
        has_row-++ rows (drop_rows cl machines (row_slots rows) ss),
        has_slot-row_slots rows,
        has_row-drop_rows cl machines (row_slots rows) ss listed assigned (ground (arith, dropped)),
      )

  family_left-none :
      (cl : AssignmentSet) (ss : List Slot)
      → family_left cl ss ≡ false
      → has_slot s ss ≡ true
      → (str_eq s.strategy (family cl.spec)
          && not (spec_has_member cl.spec.members s.machine s.strategy))
        ≡ false
  unfolding family_left has_slot
  family_left-none cl [] h inside = ground arith
  family_left-none cl (t ∷ ts) h inside = ground (
    arith,
    h,
    inside,
    family_left-none cl ts,
    eq_iff t.machine s.machine,
    eq_iff t.strategy s.strategy,
  )

  -- The key of a tick's status is the old one, or the members' one after the transition.
  abbrev pub GoodKey : Deps → AssignmentSet → Machines → String → Type 0
  GoodKey deps cl machines key =
      (key ≡ cl.status.assignment_key)
      ⊎ ((key ≡ "member") × (transition_complete deps.sort_slots machines cl ≡ true))

  -- a slot that is not dropped is in spec, or a family's whose machine has members in spec
  undropped :
      (deps : Deps) (cl : AssignmentSet) (machines : Machines) (st : SetStatus)
      → ((t : Slot) (ss : List Slot) → has_slot t (deps.sort_slots ss) ≡ has_slot t ss)
      → GoodKey deps cl machines st.assignment_key
      → has_slot s (collect_owned cl) ≡ true
      → is_assigned machines s ≡ true
      → is_dropped cl s ≡ false
      → (let next : AssignmentSet = record cl { status = st } in
          has_names s
          && (spec_has_member cl.spec.members s.machine s.strategy
              || has_row s st.members
              || (not (uses_member_key next)
                  && contains s.machine (set_machines next)
                  && (not (spec_has_member cl.spec.members s.machine (family cl.spec))
                      && str_eq (family cl.spec) s.strategy))))
        ≡ true
  unfolding is_dropped family_leftover transition_complete
  undropped deps cl machines st same (inl kept) owned assigned undropped_one = ground (
    arith,
    kept,
    owned,
    undropped_one,
    has_slot-collect_owned s cl,
    contains-set_machines s.machine (record cl { status = st }),
    eq_iff (family cl.spec) s.strategy,
    eq_iff s.strategy (family cl.spec),
  )
  undropped deps cl machines st same (inr (flipped, complete)) owned assigned undropped_one =
      ground (
        arith,
        complete,
        owned,
        assigned,
        undropped_one,
        has_slot-collect_owned s cl,
        has_slot-assigned_slots deps.sort_slots same machines cl,
        family_left-none cl (assigned_slots deps.sort_slots machines cl),
      )

  -- A status with the retained rows, or with the old ones, keeps the slot owned.
  pub keeps_owned :
      (deps : Deps) (cl : AssignmentSet) (machines : Machines) (st : SetStatus)
      → ((t : Slot) (ss : List Slot) → has_slot t (deps.sort_slots ss) ≡ has_slot t ss)
      → (is_dropped cl s ≡ true → has_row s st.members ≡ true)
      → GoodKey deps cl machines st.assignment_key
      → has_slot s (collect_owned cl) ≡ true
      → is_assigned machines s ≡ true
      → has_slot s (collect_owned (record cl { status = st })) ≡ true
  keeps_owned deps cl machines st same rows key owned assigned =
      let next : AssignmentSet = record cl { status = st } in
      elim (Bool-cases (is_dropped cl s)) [
        | inl e ↦
            has_slot-collect_owned s next
            ∙ ground (arith, has_slot-collect_owned s cl, owned, rows e)
        | inr e ↦
            has_slot-collect_owned s next ∙ undropped deps cl machines st same key owned assigned e
      ]
