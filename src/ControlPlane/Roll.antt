-- ===== src/ControlPlane/Roll.antt =====
-- internal/controlplane/orchestrator/orchestrator.go: the statuses that a tick writes, and its
-- loops over the members in flight and over the candidates.
use strategon.Prelude.{
  ℕ, zero, suc, ◌+◌, String, Bool, true, false, not, ◌&&◌, ◌||◌, Option, none, some, List, [], ◌∷◌,
  ◌++◌, lookup, str_eq, is_some, if◌then◌else◌,
}
use strategon.Prelude.Time.{Instant, seconds, is_after}
use strategon.Proto.{DeployPhase, is_failed}
use strategon.ControlPlane.Memory.{MachineRecord, new_record, Machines}
use strategon.ControlPlane.Assign.{Request, ApplyError}
use strategon.ControlPlane.View.{build_strategy_view, ready_condition_true}
use strategon.ControlPlane.SetSpec.{MemberStatus, SetStatus, AssignmentSet, Slot, has_slot}
use strategon.ControlPlane.Sets.{family}
use strategon.ControlPlane.OwnedSlots.{spec_has_member, is_assigned, dropped_slots}
use strategon.ControlPlane.Rollout.{
  Deps, RollError, member_failed, wait_elapsed, Controller, machines_of, key_in, deadline_of,
  set_deadline, send, undeploy_slot,
}
use strategon.ControlPlane.Candidates.{wait_ready_seconds}
use strategon.ControlPlane.Survey.{Member, slot_of, row}

-- what a tick asks of the store for the set itself
pub data StoreCall : Type 0 where
  leave remove : StoreCall
  put_status : SetStatus → StoreCall

abbrev is_rolled_back : DeployPhase → Bool
is_rolled_back DeployPhase.rolled_back = true
is_rolled_back _ = false

abbrev pub wait_seconds : AssignmentSet → ℕ
wait_seconds cl = wait_ready_seconds cl

-- why a roll stops: the phase of the set, and the message
abbrev pub Stop : Type 0
Stop = String × RollError

abbrev or_instant : Option Instant → Instant → Instant
or_instant none t = t
or_instant (some d) t = d

abbrev rec_at : Option MachineRecord → MachineRecord
rec_at none = new_record
rec_at (some rec) = rec

abbrev pub drop_row : Machines → Slot → MemberStatus
drop_row machines s =
    let rec = rec_at (lookup s.machine machines) in
    row s.machine s.strategy
      (build_strategy_view (lookup s.strategy rec.assignments) (lookup s.strategy rec.status) none)

abbrev pub row_slots : List MemberStatus → List Slot
row_slots [] = []
row_slots (r ∷ rs) = record { machine = r.machine; strategy = r.name } ∷ row_slots rs

-- the second loop of withRetainedDrops; `seen` are the slots that have a row
unfoldable pub drop_rows : AssignmentSet → Machines → List Slot → List Slot → List MemberStatus
drop_rows cl machines seen [] = []
drop_rows cl machines seen (s ∷ ss) =
    let skip =
      spec_has_member cl.spec.members s.machine s.strategy
      || has_slot s seen
      || not (is_assigned machines s) in
    let rest = drop_rows cl machines (if skip then seen else s ∷ seen) ss in
    if skip then rest else drop_row machines s ∷ rest

abbrev pub has_given_up : Member → Bool
has_given_up m = is_failed m.view.phase || is_rolled_back m.view.phase

abbrev pub member_request : Member → Request
member_request m = record {
  machine_id = m.srv.machine;
  strategy = m.srv.name;
  spec = some m.computed;
  enforce_lease_interlock = false;
  allow_reserved = true;
}

abbrev pub Written : Type 0
Written = Option ApplyError × (ℕ × Controller)

abbrev pub count_write : Written → Written
count_write (e, (n, ctl)) = (e, (suc n, ctl))

module _ (deps : Deps) where
  -- setStatus
  unfoldable pub set_status : AssignmentSet → SetStatus → StoreCall
  set_status cl st =
      let keyed =
        if str_eq st.assignment_key ""
        then record st { assignment_key = cl.status.assignment_key }
        else st in
      if deps.equal_status cl.status keyed then leave else put_status keyed

  -- withRetainedDrops
  unfoldable pub with_retained_drops :
      AssignmentSet → Machines → List MemberStatus → List MemberStatus
  with_retained_drops cl machines rows =
      rows ++ drop_rows cl machines (row_slots rows) (dropped_slots deps.sort_slots machines cl)

  abbrev pub artifact_failed_status : AssignmentSet → RollError → SetStatus
  artifact_failed_status cl e = record {
    phase = "Failed";
    observed_generation = cl.status.observed_generation;
    reason = "Artifact";
    message = deps.message_of e;
    members = cl.status.members;
    deleting = false;
    assignment_key = cl.status.assignment_key;
  }

  -- setArtifactFailed
  unfoldable pub set_artifact_failed : AssignmentSet → RollError → StoreCall
  set_artifact_failed cl e = set_status cl (artifact_failed_status cl e)

  abbrev pub assign_failed_status :
      AssignmentSet → List MemberStatus → RollError → Machines → SetStatus
  assign_failed_status cl rows e machines = record {
    phase = "Failed";
    observed_generation = cl.status.observed_generation;
    reason = "AssignFailed";
    message = deps.message_of e;
    members = with_retained_drops cl machines rows;
    deleting = false;
    assignment_key = cl.status.assignment_key;
  }

  -- setAssignFailed
  unfoldable pub set_assign_failed :
      AssignmentSet → List MemberStatus → RollError → Controller → StoreCall × Controller
  set_assign_failed cl rows e ctl =
      (set_status cl (assign_failed_status cl rows e (machines_of ctl)), ctl)

  abbrev new_deadline : AssignmentSet → Instant
  new_deadline cl = deps.now + seconds (wait_seconds cl)

  -- the deadline of a member in flight, which its first look sets
  abbrev pub due_at : AssignmentSet → Member → Controller → Instant
  due_at cl m ctl =
      or_instant (deadline_of (key_in cl (slot_of m.srv)) ctl.deadlines) (new_deadline cl)

  unfoldable pub arm_deadline : AssignmentSet → Member → Controller → Controller
  arm_deadline cl m ctl =
      let key = key_in cl (slot_of m.srv) in
      if is_some (deadline_of key ctl.deadlines)
      then ctl
      else set_deadline key (new_deadline cl) ctl

  -- the loop over the members in flight
  unfoldable pub watch_inflight :
      AssignmentSet → List Member → Controller → Option Stop × Controller
  watch_inflight cl [] ctl = (none, ctl)
  watch_inflight cl (m ∷ ms) ctl =
      let rest = watch_inflight cl ms (arm_deadline cl m ctl) in
      if has_given_up m
      then (some ("Failed", member_failed m.srv.machine m.srv.name m.view.phase), ctl)
      else if is_after deps.now (due_at cl m ctl) && not (ready_condition_true m.view)
      then (some ("Degraded", wait_elapsed m.srv.machine m.srv.name), arm_deadline cl m ctl)
      else rest

  abbrev pub after_write :
      AssignmentSet → Member → Option ApplyError × Controller → Option ApplyError × Controller
  after_write cl m (some e, ctl) = (some e, ctl)
  after_write cl m (none, ctl) =
      (none, set_deadline (key_in cl (slot_of m.srv)) (new_deadline cl) ctl)

  abbrev pub legacy_undeploy : AssignmentSet → Member → Controller → Option ApplyError × Controller
  legacy_undeploy cl m ctl = elim m.legacy [
    | none ↦ (none, ctl)
    | some old ↦
        undeploy_slot deps cl (record { machine = m.srv.machine; strategy = family cl.spec }) ctl
  ]

  abbrev pub then_write :
      AssignmentSet → Member → Option ApplyError × Controller → Option ApplyError × Controller
  then_write cl m (some e, ctl) = (some e, ctl)
  then_write cl m (none, ctl) = after_write cl m (send deps (member_request m) ctl)

  -- the loop body over the candidates
  unfoldable pub write_member : AssignmentSet → Member → Controller → Option ApplyError × Controller
  write_member cl m ctl = then_write cl m (legacy_undeploy cl m ctl)

  -- the loop over the candidates, while there is budget
  unfoldable pub roll_out : AssignmentSet → ℕ → List Member → Controller → Written
  roll_out cl zero ms ctl = (none, (0, ctl))
  roll_out cl (suc budget) [] ctl = (none, (0, ctl))
  roll_out cl (suc budget) (m ∷ ms) ctl =
      let (e, ctl') = write_member cl m ctl in
      elim e [ some why ↦ (some why, (0, ctl')) | none ↦ count_write (roll_out cl budget ms ctl') ]
