-- ===== src/ControlPlane/Assign/Gates.antt =====
-- What the write path of assignments keeps true: one running writer to a volume of a machine.
use strategon.Prelude.{
  ◌≡◌, refl, subst, ◌⊎◌, inl, inr, String, Bool, true, false, ◌&&◌, Option, none, some, List, [],
  ◌∷◌, arith, Map, lookup, insert, erase, lookup-insert, lookup-erase, str_eq, eq_iff, is_some,
  Option-cases, Bool-cases,
}
use strategon.Prelude.Time.{Instant}
use strategon.Proto.{VolumeMount, StrategyAssignmentSpec}
use strategon.Agent.Volumes.{mounts_volume}
use strategon.ControlPlane.Memory.{MachineRecord, Machines, on_machine, set_assignment}
use strategon.ControlPlane.Assign.{
  Request, holds_any, live_writer_conflict, Plane, changed, writer_check, gate, apply_over,
}

-- Two running assignments of a machine's record never name the same volume.
abbrev pub SingleWriter : Map StrategyAssignmentSpec → Type 0
SingleWriter m =
    (i j v : String) (a b : StrategyAssignmentSpec)
    → lookup i m ≡ some a
    → lookup j m ≡ some b
    → str_eq i j ≡ false
    → a.stopped ≡ false
    → b.stopped ≡ false
    → str_eq v "" ≡ false
    → (mounts_volume v a.volume_mounts && mounts_volume v b.volume_mounts) ≡ false

holds_any-none :
    (v : String) (want have : List VolumeMount)
    → holds_any want have ≡ none
    → str_eq v "" ≡ false
    → (mounts_volume v want && mounts_volume v have) ≡ false
unfolding holds_any mounts_volume
holds_any-none v want [] h named = ground arith
holds_any-none v want (m ∷ ms) h named = ground (arith, holds_any-none v want ms, eq_iff m.name v)

conflict-none :
    (self v : String) (want : List VolumeMount) (m : Map StrategyAssignmentSpec) (j : String)
    {b : StrategyAssignmentSpec}
    → live_writer_conflict self want m ≡ none
    → lookup j m ≡ some b
    → str_eq self j ≡ false
    → b.stopped ≡ false
    → str_eq v "" ≡ false
    → (mounts_volume v want && mounts_volume v b.volume_mounts) ≡ false
unfolding live_writer_conflict lookup
conflict-none self v want [] j h found other running named = ground arith
conflict-none self v want ((k, spec) ∷ rest) j {b} h found other running named =
    elim (Bool-cases (str_eq k j)) [
      | inl here ↦
          holds_any-none v want b.volume_mounts
            (ground (arith, eq_iff k j, eq_iff k self, eq_iff self j)) named
      | inr there ↦
          conflict-none self v want rest j {b = b} (ground arith) (ground arith) other running named
    ]

checked-apart :
    (self v : String) (spec : StrategyAssignmentSpec) (m : Map StrategyAssignmentSpec) (j : String)
    {b : StrategyAssignmentSpec}
    → (spec.stopped ≡ true) ⊎ (live_writer_conflict self spec.volume_mounts m ≡ none)
    → lookup j m ≡ some b
    → str_eq self j ≡ false
    → spec.stopped ≡ false
    → b.stopped ≡ false
    → str_eq v "" ≡ false
    → (mounts_volume v spec.volume_mounts && mounts_volume v b.volume_mounts) ≡ false
checked-apart self v spec m j (inl halted) found other run run_b named = absurd (ground arith)
checked-apart self v spec m j (inr clear) found other run run_b named =
    conflict-none self v spec.volume_mounts m j clear found other run_b named

insert-SingleWriter :
    (self : String) (spec : StrategyAssignmentSpec) (m : Map StrategyAssignmentSpec)
    → (spec.stopped ≡ true) ⊎ (live_writer_conflict self spec.volume_mounts m ≡ none)
    → SingleWriter m
    → SingleWriter (insert self spec m)
insert-SingleWriter self spec m free h i j v a b found_i found_j differ run_i run_j named =
    elim (Bool-cases (str_eq self i)) [
      | inl e ↦ elim (Bool-cases (str_eq self j)) [
        | inl e' ↦ absurd (ground (arith, differ, eq_iff self i, eq_iff self j, eq_iff i j))
        | inr e' ↦
            let old : lookup j m ≡ some b = ground (arith, found_j, lookup-insert self j spec m) in
            let same : spec ≡ a = ground (arith, found_i, lookup-insert self i spec m) in
            ground (
              arith,
              same,
              checked-apart self v spec m j {b = b} free old e' (ground (arith, same, run_i)) run_j
                  named,
            )
      ]
      | inr e ↦
          let old_i : lookup i m ≡ some a = ground (arith, found_i, lookup-insert self i spec m) in
          elim (Bool-cases (str_eq self j)) [
            | inl e' ↦
                let same : spec ≡ b = ground (arith, found_j, lookup-insert self j spec m) in
                ground (
                  arith,
                  same,
                  checked-apart self v spec m i {b = a} free old_i e (ground (arith, same, run_j))
                      run_i named,
                )
            | inr e' ↦
                let old_j : lookup j m ≡ some b =
                  ground (arith, found_j, lookup-insert self j spec m) in
                h i j v a b old_i old_j differ run_i run_j named
          ]
    ]

erase-SingleWriter :
    (self : String) (m : Map StrategyAssignmentSpec) → SingleWriter m → SingleWriter (erase self m)
erase-SingleWriter self m h i j v a b found_i found_j differ run_i run_j named =
    h i j v a b (ground (arith, found_i, lookup-erase self i m))
      (ground (arith, found_j, lookup-erase self j m)) differ run_i run_j named

set_assignment-SingleWriter :
    (equal : StrategyAssignmentSpec → StrategyAssignmentSpec → Bool) (self : String)
    (spec : Option StrategyAssignmentSpec) (rec : MachineRecord)
    → ((s : StrategyAssignmentSpec)
        → spec ≡ some s
        → (s.stopped ≡ true) ⊎ (live_writer_conflict self s.volume_mounts rec.assignments ≡ none))
    → SingleWriter rec.assignments
    → SingleWriter (set_assignment equal self spec rec).1.assignments
unfolding set_assignment
set_assignment-SingleWriter equal self none rec free h =
    elim (Bool-cases (is_some (lookup self rec.assignments))) [
      | inl e ↦ rw (e, set_assignment) (erase-SingleWriter self rec.assignments h)
      | inr e ↦ rw (e, set_assignment) h
    ]
set_assignment-SingleWriter equal self (some spec) rec free h =
    let after = insert-SingleWriter self spec rec.assignments (free spec refl) h in
    elim (Option-cases (lookup self rec.assignments)) [
      | inl e ↦ rw (e, set_assignment) after
      | inr (old, e) ↦ elim (Bool-cases (equal old spec)) [
        | inl same ↦ rw (e, same, set_assignment) h
        | inr new ↦ rw (e, new, set_assignment) after
      ]
    ]

gate-writer :
    (plane : Plane) (now : Instant) (req : Request)
    → gate plane now req ≡ none
    → writer_check plane req ≡ none
unfolding gate
gate-writer plane now req h = ground arith

-- the assignments of a machine, if it is known
abbrev pub assignments_on : String → Machines → Option (Map StrategyAssignmentSpec)
assignments_on id machines = elim (lookup id machines) [
  | none ↦ none
  | some rec ↦ some rec.assignments
]

checked_free :
    (plane : Plane) (req : Request) (rec : MachineRecord) (s : StrategyAssignmentSpec)
    → writer_check plane req ≡ none
    → assignments_on req.machine_id plane.machines ≡ some rec.assignments
    → req.spec ≡ some s
    → (s.stopped ≡ true)
      ⊎ (live_writer_conflict req.strategy s.volume_mounts rec.assignments ≡ none)
checked_free plane req rec s h found e = ground arith

apply-write :
    (equal : StrategyAssignmentSpec → StrategyAssignmentSpec → Bool) (plane : Plane)
    (machines : Machines) (now : Instant) (req : Request) {after : Machines}
    → apply_over equal plane machines now req ≡ changed after
    → (gate plane now req ≡ none)
      × (rec : MachineRecord) × (lookup req.machine_id machines ≡ some rec)
      × (after ≡ insert req.machine_id (set_assignment equal req.strategy req.spec rec).1 machines)
unfolding on_machine
apply-write equal plane machines now req e = elim (Option-cases (gate plane now req)) [
  | inr (x, shut) ↦ absurd (ground arith)
  | inl open_gate ↦ elim (Option-cases (lookup req.machine_id machines)) [
    | inl unknown ↦ absurd (ground arith)
    | inr (rec, found) ↦ (open_gate, rec, found, ground arith)
  ]
]

-- The write of an assignment finds no machine on which two running assignments name the same volume,
-- and the assignments of its own machine as the checks before it have read them. Then no two do so on
-- any machine after a write that the service applies. Of the other machines, the leases and the
-- reservations any change between the checks and the write is allowed.
pub apply-SingleWriter :
    (equal : StrategyAssignmentSpec → StrategyAssignmentSpec → Bool) (plane : Plane)
    (machines : Machines) (now : Instant) (req : Request) {after : Machines} (id : String)
    {rec : MachineRecord}
    → ((k : String) (before : MachineRecord)
        → lookup k machines ≡ some before
        → SingleWriter before.assignments)
    → assignments_on req.machine_id machines ≡ assignments_on req.machine_id plane.machines
    → apply_over equal plane machines now req ≡ changed after
    → lookup id after ≡ some rec
    → SingleWriter rec.assignments
apply-SingleWriter equal plane machines now req {after} id {rec} h unmoved e found =
    let (shut, old, was, eq) = apply-write equal plane machines now req {after = after} e in
    let new = (set_assignment equal req.strategy req.spec old).1 in
    let written : SingleWriter new.assignments =
      set_assignment-SingleWriter equal req.strategy req.spec old
        (λ s wanted.
          checked_free plane req old s (gate-writer plane now req shut)
            (ground (arith, was, unmoved)) wanted)
        (h req.machine_id old was) in
    elim (Bool-cases (str_eq req.machine_id id)) [
      | inl here ↦
          let same : new ≡ rec =
            ground (arith, eq, found, lookup-insert req.machine_id id new machines) in
          subst (λ m. SingleWriter m.assignments) same written
      | inr there ↦
          h id rec (ground (arith, eq, found, lookup-insert req.machine_id id new machines))
    ]
