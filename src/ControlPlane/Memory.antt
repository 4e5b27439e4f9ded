-- ===== src/ControlPlane/Memory.antt =====
-- internal/controlplane/store/memory.go: the writes of a machine's desired state, and the snapshot
-- for its agent. Each operation is atomic under the store's lock. The signal to waiting streams, the
-- deep copies, and the agent's reports and heartbeats are left out. `proto.Equal` and `sort.Strings`
-- are parameters.
pub mod Snapshot
pub mod Generations
use strategon.Prelude.{
  ℕ, suc, String, Bool, true, false, not, ◌&&◌, ◌||◌, Option, none, some, List, [], ◌∷◌, Map,
  lookup, insert, erase, str_eq, ltb, ◌==◌, length, is_some, if◌then◌else◌,
}
use strategon.Proto.{
  StrategyAssignmentStatus, ArtifactRef, get_digest, StrategyAssignmentSpec, SharedFileSpec,
  SharedSpec, VolumesSpec, DesiredState,
}

-- The part of MachineRecord that the writes of desired state touch. A volume's spec is its name.
pub record MachineRecord : Type 0 where
  pub generation : ℕ
  pub assignments : Map StrategyAssignmentSpec
  pub status : Map StrategyAssignmentStatus
  pub previous_artifacts : Map ArtifactRef
  pub shared_generation : ℕ
  pub shared_files : Map SharedFileSpec
  pub volumes_generation : ℕ
  pub volumes : Map String

-- what UpsertMachine makes
abbrev pub new_record : MachineRecord
new_record = record {
  generation = 0;
  assignments = [];
  status = [];
  previous_artifacts = [];
  shared_generation = 0;
  shared_files = [];
  volumes_generation = 0;
  volumes = [];
}

abbrev pub Machines : Type 0
Machines = Map MachineRecord

-- An operation on one machine's record: its answer, `changed`, and the record that it leaves.
abbrev pub Write : Type 0
Write = Bool × MachineRecord

-- the lookup that every write begins with; `none` is the error for an unknown machine
unfoldable pub on_machine : (MachineRecord → Write) → String → Machines → Option (Bool × Machines)
on_machine f id machines = elim (lookup id machines) [
  | none ↦ none
  | some rec ↦ let (changed, rec') = f rec in some (changed, insert id rec' machines)
]

-- the artifact that a Rollback without a version goes back to
unfoldable pub note_previous :
    String
    → Option StrategyAssignmentSpec
    → StrategyAssignmentSpec
    → Map ArtifactRef
    → Map ArtifactRef
note_previous strategy none spec previous = previous
note_previous strategy (some old) spec previous = elim old.artifact [
  | none ↦ previous
  | some a ↦
      if not (str_eq a.digest "") && not (str_eq a.digest (get_digest spec.artifact))
      then insert strategy a previous
      else previous
]

abbrev equals_old :
    (StrategyAssignmentSpec → StrategyAssignmentSpec → Bool)
    → Option StrategyAssignmentSpec
    → StrategyAssignmentSpec
    → Bool
equals_old equal none spec = false
equals_old equal (some old) spec = equal old spec

-- SetAssignment on the machine's record; no spec undeploys
unfoldable pub set_assignment :
    (StrategyAssignmentSpec → StrategyAssignmentSpec → Bool)
    → String
    → Option StrategyAssignmentSpec
    → MachineRecord
    → Write
unfolding note_previous
set_assignment equal strategy none rec =
    if is_some (lookup strategy rec.assignments)
    then (
      true,
      record rec {
        generation = suc rec.generation;
        assignments = erase strategy rec.assignments;
        previous_artifacts = erase strategy rec.previous_artifacts;
        status = erase strategy rec.status;
      },
    )
    else (false, rec)
set_assignment equal strategy (some spec) rec =
    let old = lookup strategy rec.assignments in
    if equals_old equal old spec then (false, rec) else (
      true,
      record rec {
        generation = suc rec.generation;
        assignments = insert strategy spec rec.assignments;
        previous_artifacts = note_previous strategy old spec rec.previous_artifacts;
      },
    )

unfoldable pub file_map : List SharedFileSpec → Map SharedFileSpec → Map SharedFileSpec
file_map [] next = next
file_map (f ∷ fs) next = file_map fs (if str_eq f.name "" then next else insert f.name f next)

unfoldable pub files_agree : Map SharedFileSpec → Map SharedFileSpec → Bool
files_agree [] b = true
files_agree ((name, sa) ∷ rest) b =
    let later = files_agree rest b in
    elim (lookup name b) [
      | none ↦ false
      | some sb ↦ str_eq (get_digest sa.artifact) (get_digest sb.artifact) && later
    ]

-- sharedFilesEqual
unfoldable pub shared_files_equal : Map SharedFileSpec → Map SharedFileSpec → Bool
unfolding files_agree
shared_files_equal a b = length a == length b && files_agree a b

-- SetSharedFiles
unfoldable pub set_shared_files : List SharedFileSpec → MachineRecord → Write
unfolding file_map shared_files_equal
set_shared_files files rec =
    let next = file_map files [] in
    if shared_files_equal rec.shared_files next then (false, rec) else (
      true,
      record rec {
        shared_files = next;
        shared_generation = suc rec.shared_generation;
        generation = suc rec.generation;
      },
    )

-- CreateVolume
unfoldable pub create_volume : String → MachineRecord → Write
create_volume name rec = if is_some (lookup name rec.volumes) then (false, rec) else (
  true,
  record rec {
    volumes = insert name name rec.volumes;
    volumes_generation = suc rec.volumes_generation;
    generation = suc rec.generation;
  },
)

-- DeleteVolume
unfoldable pub delete_volume : String → MachineRecord → Write
delete_volume name rec =
    if is_some (lookup name rec.volumes)
    then (
      true,
      record rec {
        volumes = erase name rec.volumes;
        volumes_generation = suc rec.volumes_generation;
        generation = suc rec.generation;
      },
    )
    else (false, rec)

abbrev pub keys {ℓ} : {V : Type ℓ} → Map V → List String
keys [] = []
keys ((k, v) ∷ m) = k ∷ keys m

-- the values of a map at the listed keys
unfoldable pub values_at {ℓ} : {V : Type ℓ} → Map V → List String → List V
values_at m [] = []
values_at m (k ∷ ks) =
    let rest = values_at m ks in elim (lookup k m) [ none ↦ rest | some v ↦ v ∷ rest ]

abbrev pub values_by {ℓ} : {V : Type ℓ} → (List String → List String) → Map V → List V
values_by sort m = values_at m (sort (keys m))

-- buildDesiredState
unfoldable pub build_desired_state : (List String → List String) → MachineRecord → DesiredState
unfolding values_at
build_desired_state sort rec =
    let files = values_by sort rec.shared_files in
    let names = values_by sort rec.volumes in
    record {
      generation = rec.generation;
      assignments = values_by sort rec.assignments;
      shared =
          if ltb 0 rec.shared_generation || ltb 0 (length files)
          then some (record { files = files; generation = rec.shared_generation })
          else none;
      volumes =
          if ltb 0 rec.volumes_generation || ltb 0 (length names)
          then some (record { names = names; generation = rec.volumes_generation })
          else none;
    }
