-- ===== src/Agent/Volumes.antt =====
-- Start and deploy gates: volumes.go and `sharedPresent`, `awaitSharedReady` of shared.go.
use strategon.Prelude.{
  String, Bool, true, false, not, ◌||◌, ◌&&◌, Option, none, some, List, [], ◌∷◌, Map, lookup,
  insert, erase, str_eq, ◌==◌, is_some, if◌then◌else◌,
}
use strategon.Proto.{VolumeMount, StrategyAssignmentSpec, SharedFileSpec, EventSeverity}
use strategon.Names.{validate_volume_name}
use strategon.Agent.State.{StrategyState, Reconciler}
use strategon.Agent.World.{World, Local, Effect, event, remove_volume, emit, put}

-- `_, ok := set[k]` on a map of empty structs.
unfoldable pub contains : String → List String → Bool
contains k [] = false
contains k (j ∷ js) = str_eq j k || contains k js

unfoldable pub mount_name_list : List VolumeMount → List String
mount_name_list [] = []
mount_name_list (m ∷ ms) =
    let rest = mount_name_list ms in if str_eq m.name "" then rest else m.name ∷ rest

-- volumeMountNames
unfoldable pub volume_mount_names : StrategyAssignmentSpec → List String
volume_mount_names spec = mount_name_list spec.volume_mounts

-- mountNames: what a strategy's process occupies, also after desired dropped it
unfoldable pub mount_names : Reconciler → String → StrategyState → List String
unfolding volume_mount_names
mount_names r name st = elim (lookup name r.desired) [
  | some spec ↦ volume_mount_names spec
  | none ↦ st.volume_mounts
]

unfoldable pub mounts_volume : String → List VolumeMount → Bool
mounts_volume n [] = false
mounts_volume n (m ∷ ms) = str_eq m.name n || mounts_volume n ms

-- the inner loop of volumeWriterConflict
unfoldable pub first_common : List String → List VolumeMount → Option String
unfolding mounts_volume
first_common [] want = none
first_common (n ∷ ns) want =
    let rest = first_common ns want in if mounts_volume n want then some n else rest

-- volumeWriterConflict, over the entries of `r.actual`; `none` is its ""
unfoldable pub conflict_in :
    Reconciler → String → List VolumeMount → Map StrategyState → Option String
conflict_in r self want [] = none
conflict_in r self want ((name, st) ∷ rest) =
    let later = conflict_in r self want rest in
    if str_eq name self || not (is_some st.proc)
    then later
    else elim (first_common (mount_names r name st) want) [ none ↦ later | some n ↦ some n ]

unfoldable pub volume_writer_conflict : Reconciler → String → List VolumeMount → Option String
volume_writer_conflict r self mounts = conflict_in r self mounts r.actual

-- volumeWriterConflictErr
unfoldable pub volume_writer_conflict_err :
    World → Reconciler → String → List VolumeMount → Option String
volume_writer_conflict_err w r self mounts = elim (volume_writer_conflict r self mounts) [
  | none ↦ none
  | some name ↦
      if str_eq name ""
      then none
      else some (w.sprint_text "volume %q already mounted by another running assignment" name)
]

unfoldable pub volume_present : World → List VolumeMount → Bool
volume_present w [] = true
volume_present w (m ∷ ms) = w.volume_dir_exists m.name && volume_present w ms

-- the digest that `sharedPresent` takes a shared file to have
unfoldable pub landed_digest : World → Reconciler → String → String
landed_digest w r name = elim (lookup name r.shared_actual) [
  | none ↦ w.running_shared_digest name
  | some st ↦
      if str_eq st.running_digest "" then w.running_shared_digest name else st.running_digest
]

unfoldable pub shared_present_in : World → Reconciler → Map SharedFileSpec → Bool
shared_present_in w r [] = true
shared_present_in w r ((name, spec) ∷ rest) =
    not (str_eq (landed_digest w r name) "") && shared_present_in w r rest

unfoldable pub shared_present : World → Reconciler → Bool
shared_present w r = shared_present_in w r r.desired_shared

-- awaitSharedReady, when it returns false
unfoldable pub warn_waiting_shared : Reconciler → Local → Local
warn_waiting_shared r l =
    if l.warned_waiting_shared == r.shared_generation
    then l
    else emit (event EventSeverity.warning l.strategy "WaitingForShared")
        (put l (record l.st { warned_waiting_shared = r.shared_generation }))

-- awaitVolumeReady, when it returns false
unfoldable pub warn_waiting_volume : Reconciler → Local → Local
warn_waiting_volume r l =
    if l.warned_waiting_volume == r.volumes_generation
    then l
    else emit (event EventSeverity.warning l.strategy "WaitingForVolume")
        (put l (record l.st { warned_waiting_volume = r.volumes_generation }))

-- `if !r.awaitSharedReady(st) || !r.awaitVolumeReady(st, spec) { return }`, and then the rest
unfoldable pub when_ready :
    World → Reconciler → StrategyAssignmentSpec → (Local → Local) → Local → Local
unfolding warn_waiting_shared warn_waiting_volume
when_ready w r spec go l =
    if not (shared_present w r)
    then warn_waiting_shared r l
    else if not (volume_present w spec.volume_mounts)
    then warn_waiting_volume r l
    else go l

-- the first loop of reconcileVolumes: make the desired directories, and note what failed
unfoldable pub ensure_volumes : World → List String → Map String → Map String
ensure_volumes w [] errors = errors
ensure_volumes w (name ∷ rest) errors = ensure_volumes w rest (elim (validate_volume_name name) [
  | some e ↦ insert name (w.name_error e) errors
  | none ↦ elim (w.ensure_volume_dir name) [
    | some e ↦ insert name e errors
    | none ↦ erase name errors
  ]
])

-- runningVolumeMounts, asked about one volume
unfoldable pub is_mounted : Reconciler → String → Map StrategyState → Bool
is_mounted r name [] = false
is_mounted r name ((strategy, st) ∷ rest) =
    (is_some st.proc && contains name (mount_names r strategy st)) || is_mounted r name rest

-- the second loop: remove the directories that nobody wants or mounts
unfoldable pub sweep_volumes : Reconciler → List String → Map String → Map String × List Effect
sweep_volumes r [] errors = (errors, [])
sweep_volumes r (name ∷ rest) errors =
    let keep = contains name r.desired_volumes || is_mounted r name r.actual in
    let (errors', es) = sweep_volumes r rest (if keep then errors else erase name errors) in
    (errors', if keep then es else remove_volume name ∷ es)

unfoldable pub reconcile_volumes : World → Reconciler → Reconciler × List Effect
unfolding ensure_volumes sweep_volumes
reconcile_volumes w r =
    let errors = ensure_volumes w r.desired_volumes r.volume_errors in
    let (errors', es) = sweep_volumes r w.volume_entries errors in
    if r.desired_volumes_present then (record r { volume_errors = errors' }, es) else (r, [])
