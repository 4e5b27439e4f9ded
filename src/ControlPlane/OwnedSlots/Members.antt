-- ===== src/ControlPlane/OwnedSlots/Members.antt =====
-- Which slots are among those that a set owns.
use strategon.Prelude.{
  ◌≡◌, inl, inr, String, Bool, true, false, not, ◌&&◌, ◌||◌, List, [], ◌∷◌, arith, str_eq, eq_iff,
  if◌then◌else◌, Bool-cases,
}
use strategon.Agent.Volumes.{contains}
use strategon.ControlPlane.SetSpec.{SetMember, MemberStatus, AssignmentSet, Slot, has_slot}
use strategon.ControlPlane.Sets.{family}
use strategon.ControlPlane.OwnedSlots.{
  uses_member_key, spec_has_member, spec_on_machine, own, own_members, own_rows, spec_machines,
  row_machines, own_families, set_machines, collect_owned,
}

abbrev pub has_names : Slot → Bool
has_names s = not (str_eq s.machine "" || str_eq s.strategy "")

-- a row names the slot
unfoldable pub has_row : Slot → List MemberStatus → Bool
has_row s [] = false
has_row s (r ∷ rs) = (str_eq r.machine s.machine && str_eq r.name s.strategy) || has_row s rs

module _ (s : Slot) where
  has_slot-own :
      (machine strategy : String) (out : List Slot)
      → has_slot s (own machine strategy out) ≡ (
          has_slot s out || (str_eq machine s.machine && str_eq strategy s.strategy && has_names s))
  unfolding own has_slot
  has_slot-own machine strategy out =
      ground (arith, eq_iff machine s.machine, eq_iff strategy s.strategy)

  has_slot-own_members :
      (ms : List SetMember) (out : List Slot)
      → has_slot s (own_members ms out)
        ≡ (has_slot s out || (spec_has_member ms s.machine s.strategy && has_names s))
  unfolding own_members spec_has_member
  has_slot-own_members [] out = ground arith
  has_slot-own_members (m ∷ ms) out =
      ground (
        arith,
        has_slot-own m.machine m.name out,
        has_slot-own_members ms (own m.machine m.name out),
      )

  has_slot-own_rows :
      (rows : List MemberStatus) (out : List Slot)
      → has_slot s (own_rows rows out) ≡ (has_slot s out || (has_row s rows && has_names s))
  unfolding own_rows has_row
  has_slot-own_rows [] out = ground arith
  has_slot-own_rows (r ∷ rs) out =
      ground
        (arith, has_slot-own r.machine r.name out, has_slot-own_rows rs (own r.machine r.name out))

  -- the family slot of a machine without a member of that name
  abbrev is_family_slot : AssignmentSet → Bool
  is_family_slot cl =
      not (spec_has_member cl.spec.members s.machine (family cl.spec))
      && str_eq (family cl.spec) s.strategy

  has_slot-own_families :
      (cl : AssignmentSet) (machines : List String) (out : List Slot)
      → has_slot s (own_families cl machines out)
        ≡ (has_slot s out || (contains s.machine machines && is_family_slot cl && has_names s))
  unfolding own_families contains
  has_slot-own_families cl [] out = ground arith
  has_slot-own_families cl (machine ∷ rest) out =
      elim (Bool-cases (spec_has_member cl.spec.members machine (family cl.spec))) [
        | inl e ↦ ground (arith, e, eq_iff machine s.machine, has_slot-own_families cl rest out)
        | inr e ↦ ground (
          arith,
          e,
          eq_iff machine s.machine,
          has_slot-own machine (family cl.spec) out,
          has_slot-own_families cl rest (own machine (family cl.spec) out),
        )
      ]

  pub has_slot-collect_owned :
      (cl : AssignmentSet)
      → has_slot s (collect_owned cl) ≡ (
          has_names s
          && (spec_has_member cl.spec.members s.machine s.strategy
              || has_row s cl.status.members
              || (not (uses_member_key cl)
                  && contains s.machine (set_machines cl)
                  && is_family_slot cl)))
  unfolding collect_owned has_slot
  has_slot-collect_owned cl =
      let members = own_members cl.spec.members [] in
      let out = own_rows cl.status.members members in
      ground (
        arith,
        has_slot-own_members cl.spec.members [],
        has_slot-own_rows cl.status.members members,
        has_slot-own_families cl (set_machines cl) out,
      )

contains-row_machines :
    (x : String) (rows : List MemberStatus) (out : List String)
    → contains x out ≡ true
    → contains x (row_machines rows out) ≡ true
unfolding contains row_machines
contains-row_machines x [] out h = h
contains-row_machines x (r ∷ rs) out h =
    contains-row_machines x rs (if contains r.machine out then out else r.machine ∷ out)
      (ground (arith, h))

contains-spec_machines :
    (x : String) (ms : List SetMember) (out : List String)
    → (spec_on_machine ms x || contains x out) ≡ true
    → contains x (spec_machines ms out) ≡ true
unfolding contains spec_machines spec_on_machine
contains-spec_machines x [] out h = h
contains-spec_machines x (m ∷ ms) out h =
    contains-spec_machines x ms (if contains m.machine out then out else m.machine ∷ out)
      (ground (arith, h, eq_iff m.machine x))

-- the machines of the spec are among those of the set
pub contains-set_machines :
    (x : String) (cl : AssignmentSet)
    → spec_on_machine cl.spec.members x ≡ true
    → contains x (set_machines cl) ≡ true
contains-set_machines x cl h =
    contains-row_machines x cl.status.members (spec_machines cl.spec.members [])
      (contains-spec_machines x cl.spec.members [] (ground (arith, h)))
