-- ===== src/ControlPlane/Survey.antt =====
-- internal/controlplane/orchestrator/orchestrator.go: the pass of `Reconcile` over the members of a set,
-- which finds what to write and what is on its way.
use strategon.Prelude.{
  String, Bool, false, not, ◌&&◌, ◌⊎◌, inl, inr, Option, none, some, List, [], ◌∷◌, lookup,
  if◌then◌else◌,
}
use strategon.Proto.{ArtifactRef, StrategyAssignmentSpec}
use strategon.ControlPlane.Memory.{MachineRecord, new_record}
use strategon.ControlPlane.Assign.{live_writer_conflict}
use strategon.ControlPlane.View.{
  StrategyView, build_strategy_view, is_converged, ready_condition_true,
}
use strategon.ControlPlane.SetSpec.{SetMember, MemberStatus, AssignmentSet, Slot}
use strategon.ControlPlane.OwnedSlots.{family_leftover}
use strategon.ControlPlane.Rollout.{
  Deps, Item, RollError, mount_conflict, Controller, machines_of, key_in, clear_deadline,
}
use strategon.ControlPlane.Candidates.{compute_assignment, ensure_inventory}

-- A member as the pass finds it; `legacy` is the family's assignment on its machine.
pub record Member : Type 0 where
  pub srv : SetMember
  pub computed : StrategyAssignmentSpec
  pub view : StrategyView
  pub live : Option StrategyAssignmentSpec
  pub legacy : Option StrategyAssignmentSpec

abbrev pub slot_of : SetMember → Slot
slot_of srv = record { machine = srv.machine; strategy = srv.name }

pub data Found : Type 0 where
  candidate inflight settled : Found

abbrev pub record_or_new : Option MachineRecord → MachineRecord
record_or_new none = new_record
record_or_new (some rec) = rec

abbrev legacy_of : Option String → MachineRecord → Option StrategyAssignmentSpec
legacy_of none rec = none
legacy_of (some fam) rec = lookup fam rec.assignments

abbrev is_ready : StrategyView → Bool
is_ready v = is_converged v && ready_condition_true v

abbrev pub matches :
    (StrategyAssignmentSpec → StrategyAssignmentSpec → Bool)
    → Option StrategyAssignmentSpec
    → StrategyAssignmentSpec
    → Bool
matches equal none computed = false
matches equal (some live) computed = equal live computed

unfoldable pub row : String → String → StrategyView → MemberStatus
row machine name v = record {
  machine = machine;
  name = name;
  ready = is_ready v;
  phase = v.phase;
  converged = is_converged v;
}

-- what the pass over the members has gathered
pub record Survey : Type 0 where
  pub candidates : List Member
  pub inflight : List Member
  pub rows : List MemberStatus
  pub ctl : Controller

abbrev pub note : Found → Member → MemberStatus → Survey → Survey
note candidate m r s = record s { candidates = m ∷ s.candidates; rows = r ∷ s.rows }
note inflight m r s = record s { inflight = m ∷ s.inflight; rows = r ∷ s.rows }
note settled m r s = record s { rows = r ∷ s.rows }

-- An error keeps the deadlines cleared so far.
abbrev pub Surveyed : Type 0
Surveyed = (RollError × Controller) ⊎ Survey

abbrev pub add_found : Found → Member → Surveyed → Surveyed
add_found found m (inl e) = inl e
add_found found m (inr s) = inr (note found m (row m.srv.machine m.srv.name m.view) s)

module _ (deps : Deps) where
  abbrev view_member : AssignmentSet → SetMember → MachineRecord → StrategyAssignmentSpec → Member
  view_member cl srv rec computed = record {
    srv = srv;
    computed = computed;
    view = build_strategy_view (lookup srv.name rec.assignments) (lookup srv.name rec.status) none;
    live = lookup srv.name rec.assignments;
    legacy = legacy_of (family_leftover cl srv.machine) rec;
  }

  -- the checks of a member, in their order
  unfoldable pub admit_member :
      AssignmentSet → ArtifactRef → Item → MachineRecord → RollError ⊎ Member
  admit_member cl art item rec = elim (compute_assignment deps cl item art) [
    | inl e ↦ inl e
    | inr computed ↦
        elim (ensure_inventory deps item.srv.machine rec.volumes computed.volume_mounts) [
          | some e ↦ inl e
          | none ↦
              elim (live_writer_conflict item.srv.name computed.volume_mounts rec.assignments) [
                | some c ↦ inl (mount_conflict c)
                | none ↦ inr (view_member cl item.srv rec computed)
              ]
        ]
  ]

  unfoldable pub found_as : Member → Found
  found_as m =
      if not (matches deps.equal m.live m.computed)
      then candidate
      else if not (is_ready m.view)
      then inflight
      else settled

  unfoldable pub clear_if_settled : AssignmentSet → Member → Found → Controller → Controller
  clear_if_settled cl m settled ctl = clear_deadline (key_in cl (slot_of m.srv)) ctl
  clear_if_settled cl m _ ctl = ctl

  -- the loop over the ordered members
  unfoldable pub survey : AssignmentSet → ArtifactRef → List Item → Controller → Surveyed
  survey cl art [] ctl = inr (record { candidates = []; inflight = []; rows = []; ctl = ctl })
  survey cl art (item ∷ rest) ctl =
      elim (admit_member cl art item (record_or_new (lookup item.srv.machine (machines_of ctl)))) [
        | inl e ↦ inl (e, ctl)
        | inr m ↦
            add_found (found_as m) m (survey cl art rest (clear_if_settled cl m (found_as m) ctl))
      ]
