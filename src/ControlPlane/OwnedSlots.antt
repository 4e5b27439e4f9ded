-- ===== src/ControlPlane/OwnedSlots.antt =====
-- internal/controlplane/orchestrator/orchestrator.go: the slots that a set owns, those that are still
-- assigned, and those that its spec has dropped. `sort.Slice` is a parameter.
pub mod Members
use strategon.Prelude.{
  ℕ, String, Bool, true, false, not, ◌&&◌, ◌||◌, Option, none, some, List, [], ◌∷◌, ◌++◌, Map,
  lookup, str_eq, filter, is_some, if◌then◌else◌,
}
use strategon.Proto.{StrategyAssignmentSpec}
use strategon.Agent.Volumes.{contains}
use strategon.ControlPlane.Memory.{MachineRecord, Machines}
use strategon.ControlPlane.SetSpec.{SetMember, MemberStatus, AssignmentSet, Slot, has_slot}
use strategon.ControlPlane.Sets.{family}

-- usesMemberKey
abbrev pub uses_member_key : AssignmentSet → Bool
uses_member_key cl = str_eq cl.status.assignment_key "member"

-- specHasMember
unfoldable pub spec_has_member : List SetMember → String → String → Bool
spec_has_member [] machine name = false
spec_has_member (m ∷ ms) machine name =
    (str_eq m.machine machine && str_eq m.name name) || spec_has_member ms machine name

unfoldable pub spec_on_machine : List SetMember → String → Bool
spec_on_machine [] machine = false
spec_on_machine (m ∷ ms) machine = str_eq m.machine machine || spec_on_machine ms machine

-- familyLeftover
unfoldable pub family_leftover : AssignmentSet → String → Option String
family_leftover cl machine =
    if uses_member_key cl
    then none
    else if not (spec_on_machine cl.spec.members machine)
    then none
    else if spec_has_member cl.spec.members machine (family cl.spec)
    then none
    else some (family cl.spec)

-- the closure `add` of ownedSlots
unfoldable pub own : String → String → List Slot → List Slot
own machine strategy out =
    let s : Slot = record { machine = machine; strategy = strategy } in
    if str_eq machine "" || str_eq strategy "" || has_slot s out then out else s ∷ out

unfoldable pub own_members : List SetMember → List Slot → List Slot
own_members [] out = out
own_members (m ∷ ms) out = own_members ms (own m.machine m.name out)

unfoldable pub own_rows : List MemberStatus → List Slot → List Slot
own_rows [] out = out
own_rows (m ∷ ms) out = own_rows ms (own m.machine m.name out)

-- the machines of spec and status, once each
unfoldable pub spec_machines : List SetMember → List String → List String
spec_machines [] out = out
spec_machines (m ∷ ms) out =
    spec_machines ms (if contains m.machine out then out else m.machine ∷ out)

unfoldable pub row_machines : List MemberStatus → List String → List String
row_machines [] out = out
row_machines (m ∷ ms) out =
    row_machines ms (if contains m.machine out then out else m.machine ∷ out)

unfoldable pub own_families : AssignmentSet → List String → List Slot → List Slot
own_families cl [] out = out
own_families cl (machine ∷ rest) out = own_families cl rest (
    if spec_has_member cl.spec.members machine (family cl.spec)
    then out
    else own machine (family cl.spec) out)

abbrev pub set_machines : AssignmentSet → List String
set_machines cl = row_machines cl.status.members (spec_machines cl.spec.members [])

-- ownedSlots, before it is sorted
unfoldable pub collect_owned : AssignmentSet → List Slot
collect_owned cl =
    let out = own_rows cl.status.members (own_members cl.spec.members []) in
    if uses_member_key cl then out else own_families cl (set_machines cl) out

abbrev pub assignment_of : Option MachineRecord → String → Option StrategyAssignmentSpec
assignment_of none strategy = none
assignment_of (some rec) strategy = lookup strategy rec.assignments

abbrev pub slot_assignment : Machines → Slot → Option StrategyAssignmentSpec
slot_assignment machines s = assignment_of (lookup s.machine machines) s.strategy

-- rec, ok := GetMachine(s.machine); ok && rec.Assignments[s.strategy] != nil
unfoldable pub is_assigned : Machines → Slot → Bool
is_assigned machines s = is_some (slot_assignment machines s)

-- not in spec, and not the family slot that a member's first write replaces
unfoldable pub is_dropped : AssignmentSet → Slot → Bool
is_dropped cl s =
    not (spec_has_member cl.spec.members s.machine s.strategy)
    && not (is_some (family_leftover cl s.machine) && str_eq s.strategy (family cl.spec))

-- the family slots that still wait for their members
unfoldable pub family_left : AssignmentSet → List Slot → Bool
family_left cl [] = false
family_left cl (s ∷ ss) =
    (str_eq s.strategy (family cl.spec)
      && not (spec_has_member cl.spec.members s.machine s.strategy))
    || family_left cl ss

unfoldable pub all_assigned : Machines → List SetMember → Bool
all_assigned machines [] = true
all_assigned machines (m ∷ ms) =
    is_assigned machines (record { machine = m.machine; strategy = m.name })
    && all_assigned machines ms

abbrev pub is_empty_list {ℓ} : {A : Type ℓ} → List A → Bool
is_empty_list [] = true
is_empty_list (x ∷ xs) = false

module _ (sort : List Slot → List Slot) where
  unfoldable pub owned_slots : AssignmentSet → List Slot
  owned_slots cl = sort (collect_owned cl)

  -- assignedSlots
  unfoldable pub assigned_slots : Machines → AssignmentSet → List Slot
  assigned_slots machines cl = filter (is_assigned machines) (owned_slots cl)

  -- droppedSlots
  unfoldable pub dropped_slots : Machines → AssignmentSet → List Slot
  dropped_slots machines cl = filter (is_dropped cl) (assigned_slots machines cl)

  -- transitionComplete
  unfoldable pub transition_complete : Machines → AssignmentSet → Bool
  transition_complete machines cl =
      not (is_empty_list cl.spec.members)
      && all_assigned machines cl.spec.members
      && is_empty_list (dropped_slots machines cl)
      && (uses_member_key cl || not (family_left cl (assigned_slots machines cl)))
