-- ===== src/Agent/State.antt =====
-- internal/agent/reconciler/state.go, and the part of `Reconciler` (reconciler.go) that the
-- handlers of strategies read and write.
use strategon.Prelude.{ℕ, String, Bool, false, Option, none, List, [], Map}
use strategon.Prelude.Time.{Instant}
use strategon.Proto.{ArtifactRef, StrategyAssignmentSpec, SharedFileSpec, Condition, DeployPhase}
use strategon.Supervisor.Backoff.{BackoffState, fresh}

-- driver.Process: a pid with its start time names one process.
pub record Process : Type 0 where
  pub pid : ℕ
  pub start_time : ℕ
  pub started_at : Instant

-- The `cancel` field is the effect `cancel_deploy`.
pub record DeployOp : Type 0 where
  pub target : Option ArtifactRef
  pub config : Option ArtifactRef

pub record CronEntry : Type 0 where
  pub next_fire : Instant
  pub key : String
  pub deferred_logged : Bool

pub record StrategyState : Type 0 where
  pub strategy : String
  pub phase : DeployPhase
  pub running_artifact : Option ArtifactRef
  pub running_config : Option ArtifactRef
  pub prev_artifact : Option ArtifactRef
  pub prev_config : Option ArtifactRef
  pub proc : Option Process
  pub inflight : Option DeployOp
  pub conditions : Map Condition
  pub restart_count : ℕ  -- int32
  pub backoff : BackoffState
  pub last_bad_version : String
  pub warned_bad_version : String
  pub warned_waiting_shared : ℕ
  pub warned_waiting_volume : ℕ
  pub failed_at_gen : ℕ
  pub observed_gen : ℕ
  pub stopping : Bool
  pub probe_inflight : Bool
  pub health_deadline : Instant
  pub started_at : Instant
  pub last_error : String
  pub stop_grace_seconds : ℕ
  pub volume_mounts : List String
  pub capture_stdio : Bool
  pub oci_host_pid : Bool
  pub limits_applied : Bool
  pub limits_error : String
  pub cron : Option (Map CronEntry)

unfoldable pub new_strategy_state : String → StrategyState
new_strategy_state name = record {
  strategy = name;
  phase = DeployPhase.pending;
  running_artifact = none;
  running_config = none;
  prev_artifact = none;
  prev_config = none;
  proc = none;
  inflight = none;
  conditions = [];
  restart_count = 0;
  backoff = fresh;
  last_bad_version = "";
  warned_bad_version = "";
  warned_waiting_shared = 0;
  warned_waiting_volume = 0;
  failed_at_gen = 0;
  observed_gen = 0;
  stopping = false;
  probe_inflight = false;
  health_deadline = 0;
  started_at = 0;
  last_error = "";
  stop_grace_seconds = 0;
  volume_mounts = [];
  capture_stdio = false;
  oci_host_pid = false;
  limits_applied = false;
  limits_error = "";
  cron = none;
}

-- shared.go: one shared file. `inflight` is the digest that a fetch worker runs for.
pub record SharedFileState : Type 0 where
  pub name : String
  pub running_digest : String
  pub last_error : String
  pub backoff : BackoffState
  pub inflight : Option String

pub record Reconciler : Type 0 where
  pub desired : Map StrategyAssignmentSpec
  pub actual : Map StrategyState
  pub generation : ℕ
  pub desired_shared : Map SharedFileSpec
  pub shared_generation : ℕ
  pub shared_actual : Map SharedFileState
  pub desired_volumes_present : Bool
  pub desired_volumes : List String
  pub volumes_generation : ℕ
  pub volume_errors : Map String
  pub reaping : List String
  pub observed_gen : ℕ

-- the maps that New makes
abbrev pub new_reconciler : Reconciler
new_reconciler = record {
  desired = [];
  actual = [];
  generation = 0;
  desired_shared = [];
  shared_generation = 0;
  shared_actual = [];
  desired_volumes_present = false;
  desired_volumes = [];
  volumes_generation = 0;
  volume_errors = [];
  reaping = [];
  observed_gen = 0;
}

pub record ExitInfo : Type 0 where
  pub pid : ℕ
  pub start_time : ℕ
  pub code : ℕ
  pub at_time : Instant

pub record ProcessExit : Type 0 where
  pub strategy : String
  pub info : ExitInfo

pub record WorkerEvent : Type 0 where
  pub strategy : String
  pub phase : DeployPhase
  pub err : Option String
  pub proc : Option Process
  pub artifact : Option ArtifactRef
  pub config : Option ArtifactRef
  pub capture_stdio : Bool
  pub oci_host_pid : Bool

pub record HealthResult : Type 0 where
  pub strategy : String
  pub status : strategon.Proto.ConditionStatus
  pub reason : String
  pub message : String
