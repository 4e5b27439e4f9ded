-- ===== src/Agent/Rebuild.antt =====
-- internal/agent/reconciler/rebuild.go and internal/agent/supervisefile: what the agent keeps of its
-- processes over a restart. The file itself, its JSON and its two stamps are left out, so a file is
-- the map of entries that `Save` is given; the group id is written and never read. `Driver.Adopt` is
-- a parameter: the process that still runs under a pid and start time, or an error.
pub mod RoundTrip
pub mod Orphans
use strategon.Prelude.{
  ℕ, String, Bool, true, false, Option, none, some, List, [], ◌∷◌, Map, lookup, insert, str_eq,
  ◌==◌, if◌then◌else◌,
}
use strategon.Prelude.Time.{Instant}
use strategon.Proto.{ArtifactType, ArtifactRef, DeployPhase, is_healthy, Condition, ConditionStatus}
use strategon.Agent.State.{Process, StrategyState, Reconciler, new_strategy_state}
use strategon.Agent.World.{World, Result, ok, err}
use strategon.Agent.Process.{set_condition, condition_live, condition_ready}

-- supervisefile.Artifact
pub record ArtifactEntry : Type 0 where
  pub kind : String
  pub name : String
  pub version : String
  pub digest : String
  pub uri : String

-- supervisefile.Strategy
pub record ProcessEntry : Type 0 where
  pub pid : ℕ
  pub start_time : ℕ
  pub started_at : Instant
  pub phase : String
  pub running_artifact : Option ArtifactEntry
  pub running_config : Option ArtifactEntry
  pub prev_artifact : Option ArtifactEntry
  pub observed_generation : ℕ
  pub last_bad_version : String
  pub capture_stdio : Bool
  pub oci_host_pid : Bool

-- DeployPhase.String
unfoldable pub phase_text : DeployPhase → String
phase_text DeployPhase.unspecified = "DEPLOY_PHASE_UNSPECIFIED"
phase_text DeployPhase.pending = "DEPLOY_PHASE_PENDING"
phase_text DeployPhase.downloading = "DEPLOY_PHASE_DOWNLOADING"
phase_text DeployPhase.verifying = "DEPLOY_PHASE_VERIFYING"
phase_text DeployPhase.draining = "DEPLOY_PHASE_DRAINING"
phase_text DeployPhase.switching = "DEPLOY_PHASE_SWITCHING"
phase_text DeployPhase.starting = "DEPLOY_PHASE_STARTING"
phase_text DeployPhase.health_checking = "DEPLOY_PHASE_HEALTH_CHECKING"
phase_text DeployPhase.healthy = "DEPLOY_PHASE_HEALTHY"
phase_text DeployPhase.rolled_back = "DEPLOY_PHASE_ROLLED_BACK"
phase_text DeployPhase.failed = "DEPLOY_PHASE_FAILED"
phase_text DeployPhase.rolling_back = "DEPLOY_PHASE_ROLLING_BACK"
phase_text DeployPhase.stopped = "DEPLOY_PHASE_STOPPED"

abbrev phases : List DeployPhase
phases =
    DeployPhase.unspecified ∷ DeployPhase.pending ∷ DeployPhase.downloading ∷ DeployPhase.verifying
    ∷ DeployPhase.draining ∷ DeployPhase.switching ∷ DeployPhase.starting
    ∷ DeployPhase.health_checking ∷ DeployPhase.healthy ∷ DeployPhase.rolled_back
    ∷ DeployPhase.failed ∷ DeployPhase.rolling_back ∷ DeployPhase.stopped ∷ []

-- DeployPhase_value, or HEALTHY for a text that names no phase
unfoldable pub phase_named : List DeployPhase → String → DeployPhase
unfolding phase_text
phase_named [] s = DeployPhase.healthy
phase_named (p ∷ ps) s =
    let later = phase_named ps s in if str_eq (phase_text p) s then p else later

-- parsePhase
unfoldable pub parse_phase : String → DeployPhase
parse_phase s = phase_named phases s

unfoldable pub kind_text : ArtifactType → String
kind_text ArtifactType.unspecified = "ARTIFACT_TYPE_UNSPECIFIED"
kind_text ArtifactType.binary = "ARTIFACT_TYPE_BINARY"
kind_text ArtifactType.oci_image = "ARTIFACT_TYPE_OCI_IMAGE"

-- ArtifactType_value; a text that names no type leaves the zero
unfoldable pub parse_kind : String → ArtifactType
parse_kind s =
    if str_eq s "ARTIFACT_TYPE_BINARY"
    then ArtifactType.binary
    else if str_eq s "ARTIFACT_TYPE_OCI_IMAGE"
    then ArtifactType.oci_image
    else ArtifactType.unspecified

-- artifactToDTO
unfoldable pub artifact_to_entry : Option ArtifactRef → Option ArtifactEntry
artifact_to_entry none = none
artifact_to_entry (some a) = some (record {
  kind = kind_text a.kind;
  name = a.name;
  version = a.version;
  digest = a.digest;
  uri = a.uri;
})

-- artifactFromDTO
unfoldable pub artifact_from_entry : Option ArtifactEntry → Option ArtifactRef
artifact_from_entry none = none
artifact_from_entry (some e) = some (record {
  kind = parse_kind e.kind;
  name = e.name;
  version = e.version;
  digest = e.digest;
  uri = e.uri;
})

unfoldable pub entry_of : Process → StrategyState → ProcessEntry
entry_of p st = record {
  pid = p.pid;
  start_time = p.start_time;
  started_at = p.started_at;
  phase = phase_text st.phase;
  running_artifact = artifact_to_entry st.running_artifact;
  running_config = artifact_to_entry st.running_config;
  prev_artifact = artifact_to_entry st.prev_artifact;
  observed_generation = st.observed_gen;
  last_bad_version = st.last_bad_version;
  capture_stdio = st.capture_stdio;
  oci_host_pid = st.oci_host_pid;
}

-- persistSupervision: the entries of the strategies with a process
unfoldable pub persist_supervision : Map StrategyState → Map ProcessEntry
unfolding entry_of
persist_supervision [] = []
persist_supervision ((name, st) ∷ rest) =
    let entries = persist_supervision rest in
    elim st.proc [ none ↦ entries | some p ↦ (name, entry_of p st) ∷ entries ]

-- the conditions that an adopted strategy starts with
unfoldable pub adopted_conditions : World → DeployPhase → Map Condition
adopted_conditions w phase =
    let live = set_condition w condition_live ConditionStatus.true_status "Adopted" "" [] in
    if is_healthy phase
    then set_condition w condition_ready ConditionStatus.true_status "Adopted" "" live
    else live

unfoldable pub adopted_state : World → String → ProcessEntry → Process → StrategyState
unfolding parse_phase artifact_from_entry adopted_conditions
adopted_state w name e p = record (new_strategy_state name) {
  proc = some p;
  started_at = p.started_at;
  phase = parse_phase e.phase;
  running_artifact = artifact_from_entry e.running_artifact;
  running_config = artifact_from_entry e.running_config;
  prev_artifact = artifact_from_entry e.prev_artifact;
  observed_gen = e.observed_generation;
  last_bad_version = e.last_bad_version;
  capture_stdio = e.capture_stdio;
  oci_host_pid = e.oci_host_pid;
  conditions = adopted_conditions w (parse_phase e.phase);
}

abbrev pub adopted_or_none : World → String → ProcessEntry → Result Process → Option StrategyState
adopted_or_none w name e (err why) = none
adopted_or_none w name e (ok p) = some (adopted_state w name e p)

abbrev pub process_of : ProcessEntry → Process
process_of e = record { pid = e.pid; start_time = e.start_time; started_at = e.started_at }

abbrev pub adopt_entry :
    World → (Process → Result Process) → String → ProcessEntry → Option StrategyState
adopt_entry w adopt name e =
    if e.pid == 0 then none else adopted_or_none w name e (adopt (process_of e))

abbrev pub insert_some : String → Option StrategyState → Map StrategyState → Map StrategyState
insert_some name none m = m
insert_some name (some st) m = insert name st m

-- the loop of rebuildActualState
unfoldable pub rebuild_actual :
    World → (Process → Result Process) → Map ProcessEntry → Map StrategyState
rebuild_actual w adopt [] = []
rebuild_actual w adopt ((name, e) ∷ rest) =
    insert_some name (adopt_entry w adopt name e) (rebuild_actual w adopt rest)
