-- ===== src/Proto.antt =====
-- The messages that the agent and the control plane exchange (proto/strategyplatform/v1). A message
-- pointer whose absence the code tests is an `Option`; a message that is only read through the
-- generated getters is a record, whose zero values are what the getters return for an absent one.
-- Fields of an int32 or int64 message that the program treats as counts, sizes and durations are
-- natural numbers: negative values of them are not modelled.
use strategon.Prelude.{ℕ, String, Bool, true, false, Option, none, some, List, Map}
use strategon.Prelude.Time.{Instant}

pub data ArtifactType : Type 0 where
  unspecified binary oci_image : ArtifactType

pub record ArtifactRef : Type 0 where
  pub kind : ArtifactType
  pub name : String
  pub version : String
  pub digest : String
  pub uri : String

-- The generated getters on a pointer that may be nil.
abbrev pub get_version : Option ArtifactRef → String
get_version none = ""
get_version (some a) = a.version

abbrev pub get_digest : Option ArtifactRef → String
get_digest none = ""
get_digest (some a) = a.digest

abbrev pub get_uri : Option ArtifactRef → String
get_uri none = ""
get_uri (some a) = a.uri

abbrev pub get_kind : Option ArtifactRef → ArtifactType
get_kind none = ArtifactType.unspecified
get_kind (some a) = a.kind

pub record ResourceLimits : Type 0 where
  pub cpu_millicores : ℕ
  pub memory_bytes : ℕ
  pub max_open_files : ℕ

pub record DeployPolicy : Type 0 where
  pub startsecs : ℕ
  pub health_window_seconds : ℕ
  pub max_crashes_in_window : ℕ
  pub stop_grace_seconds : ℕ
  pub enable_auto_rollback : Bool

pub record VolumeMount : Type 0 where
  pub name : String
  pub container_path : String

pub data CronAction : Type 0 where
  unspecified restart reload_config run_script : CronAction

pub record CronSchedule : Type 0 where
  pub name : String
  pub cron_expr : String
  pub timezone : String
  pub action : CronAction
  pub jitter_seconds : ℕ
  pub script_ref : String

-- `lease` and `driver` are not here: neither the agent nor the orchestrator reads them back.
pub record StrategyAssignmentSpec : Type 0 where
  pub strategy : String
  pub artifact : Option ArtifactRef
  pub config : Option ArtifactRef
  pub limits : ResourceLimits
  pub deploy_policy : DeployPolicy
  pub schedules : List CronSchedule
  pub args : List String
  pub env : Map String
  pub stopped : Bool
  pub readiness_endpoint : String
  pub volume_mounts : List VolumeMount
  pub capture_stdio : Bool
  pub oci_host_pid : Bool

pub data DeployPhase : Type 0 where
  unspecified pending downloading verifying draining switching starting : DeployPhase
  health_checking healthy rolled_back failed rolling_back stopped : DeployPhase

abbrev pub is_healthy : DeployPhase → Bool
is_healthy DeployPhase.healthy = true
is_healthy _ = false

abbrev pub is_health_checking : DeployPhase → Bool
is_health_checking DeployPhase.health_checking = true
is_health_checking _ = false

abbrev pub is_failed : DeployPhase → Bool
is_failed DeployPhase.failed = true
is_failed _ = false

abbrev pub is_stopped : DeployPhase → Bool
is_stopped DeployPhase.stopped = true
is_stopped _ = false

pub data ConditionStatus : Type 0 where
  unspecified true_status false_status unknown : ConditionStatus

abbrev pub is_true_status : ConditionStatus → Bool
is_true_status ConditionStatus.true_status = true
is_true_status _ = false

abbrev pub same_status : ConditionStatus → ConditionStatus → Bool
same_status ConditionStatus.unspecified ConditionStatus.unspecified = true
same_status ConditionStatus.true_status ConditionStatus.true_status = true
same_status ConditionStatus.false_status ConditionStatus.false_status = true
same_status ConditionStatus.unknown ConditionStatus.unknown = true
same_status _ _ = false

pub record Condition : Type 0 where
  pub status : ConditionStatus
  pub reason : String
  pub message : String
  pub last_transition : Instant

pub data EventSeverity : Type 0 where
  info warning error : EventSeverity

pub record SharedFileSpec : Type 0 where
  pub name : String
  pub artifact : Option ArtifactRef

pub record SharedSpec : Type 0 where
  pub files : List SharedFileSpec
  pub generation : ℕ

pub record VolumesSpec : Type 0 where
  pub names : List String
  pub generation : ℕ

pub record DesiredState : Type 0 where
  pub generation : ℕ
  pub assignments : List StrategyAssignmentSpec
  pub shared : Option SharedSpec
  pub volumes : Option VolumesSpec

-- The fields of an agent's report on a strategy that convergence reads; a condition is its type and
-- status.
pub record StrategyAssignmentStatus : Type 0 where
  pub phase : DeployPhase
  pub running_artifact : Option ArtifactRef
  pub running_config : Option ArtifactRef
  pub conditions : List (String × ConditionStatus)
  pub pid : ℕ
