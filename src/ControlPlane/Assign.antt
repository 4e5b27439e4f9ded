-- ===== src/ControlPlane/Assign.antt =====
-- internal/controlplane/assign/assign.go, with `LiveWriterConflict` of internal/volume/name.go: the
-- one write path of assignments. `Service.Apply` holds no lock: it reads the stores one after the
-- other and writes at last, and other writes may come between. So `apply_over` takes what its reads
-- found and the machines that its write meets; `apply` is the run that nothing interrupts. The audit
-- entry and the push to the agent are effects of a change.
pub mod Gates
use strategon.Prelude.{
  ℕ, String, Bool, true, false, not, ◌&&◌, ◌||◌, Option, none, some, List, [], ◌∷◌, Map, lookup,
  str_eq, is_some, if◌then◌else◌,
}
use strategon.Prelude.Time.{Instant}
use strategon.Proto.{VolumeMount, StrategyAssignmentSpec}
use strategon.Agent.Volumes.{mounts_volume}
use strategon.Lease.{DenyReason, LeaseStore, deployment_blocked_by_lease}
use strategon.ControlPlane.Memory.{MachineRecord, Machines, on_machine, set_assignment}

pub record Request : Type 0 where
  pub machine_id : String
  pub strategy : String
  pub spec : Option StrategyAssignmentSpec
  pub enforce_lease_interlock : Bool
  pub allow_reserved : Bool

-- The mounts of a running assignment that name a volume in `want`; the empty name is in no `want`.
unfoldable pub holds_any : List VolumeMount → List VolumeMount → Option String
holds_any want [] = none
holds_any want (m ∷ ms) =
    let rest = holds_any want ms in
    if not (str_eq m.name "") && mounts_volume m.name want then some m.name else rest

-- LiveWriterConflict
unfoldable pub live_writer_conflict :
    String → List VolumeMount → Map StrategyAssignmentSpec → Option (String × String)
unfolding holds_any
live_writer_conflict self want [] = none
live_writer_conflict self want ((name, spec) ∷ rest) =
    let later = live_writer_conflict self want rest in
    if str_eq name self || spec.stopped then later else elim (holds_any want spec.volume_mounts) [
      | none ↦ later
      | some volume ↦ some (volume, name)
    ]

pub data ApplyError : Type 0 where
  missing_names unknown_machine : ApplyError
  reserved_by : String → ApplyError
  leased : DenyReason → ApplyError
  writer_conflict : String × String → ApplyError

-- The control plane's stores, and who owns which slot: Reservation.ReservedBy. To the checks of a
-- request, which read each once, it is what these reads find, at their different times.
pub record Plane : Type 0 where
  pub machines : Machines
  pub leases : LeaseStore
  pub reserved_by : Option (String → String → Option String)

pub data Applied : Type 0 where
  refused : ApplyError → Applied
  unchanged : Applied
  changed : Machines → Applied

abbrev reservation : Plane → Request → Option String
reservation plane req =
    if req.allow_reserved
    then none
    else elim plane.reserved_by [ none ↦ none | some owner ↦ owner req.machine_id req.strategy ]

abbrev lease_block : Plane → Instant → Request → Option DenyReason
lease_block plane now req =
    if req.enforce_lease_interlock
    then deployment_blocked_by_lease plane.leases now req.machine_id req.strategy
    else none

abbrev conflict_with :
    Request → StrategyAssignmentSpec → Option MachineRecord → Option (String × String)
conflict_with req spec none = none
conflict_with req spec (some rec) =
    live_writer_conflict req.strategy spec.volume_mounts rec.assignments

abbrev pub writer_check : Plane → Request → Option (String × String)
writer_check plane req = elim req.spec [
  | none ↦ none
  | some spec ↦
      if spec.stopped then none else conflict_with req spec (lookup req.machine_id plane.machines)
]

-- the checks before the write, in their order
unfoldable pub gate : Plane → Instant → Request → Option ApplyError
gate plane now req =
    if str_eq req.machine_id "" || str_eq req.strategy ""
    then some missing_names
    else elim (reservation plane req) [
      | some owner ↦ some (reserved_by owner)
      | none ↦ elim (lease_block plane now req) [
        | some why ↦ some (leased why)
        | none ↦ elim (writer_check plane req) [ some c ↦ some (writer_conflict c) | none ↦ none ]
      ]
    ]

-- the write, on the machines as it finds them
abbrev pub commit :
    (StrategyAssignmentSpec → StrategyAssignmentSpec → Bool) → Request → Machines → Applied
commit equal req machines =
    elim (on_machine (set_assignment equal req.strategy req.spec) req.machine_id machines) [
      | none ↦ refused unknown_machine
      | some (false, after) ↦ unchanged
      | some (true, after) ↦ changed after
    ]

-- Service.Apply, with what its checks read and the machines that its write finds
abbrev pub apply_over :
    (StrategyAssignmentSpec → StrategyAssignmentSpec → Bool)
    → Plane
    → Machines
    → Instant
    → Request
    → Applied
apply_over equal plane machines now req = elim (gate plane now req) [
  | some e ↦ refused e
  | none ↦ commit equal req machines
]

-- Service.Apply, where no other write comes between its reads and its write
unfoldable pub apply :
    (StrategyAssignmentSpec → StrategyAssignmentSpec → Bool) → Plane → Instant → Request → Applied
unfolding gate
apply equal plane now req = apply_over equal plane plane.machines now req
