-- ===== src/Tests/Data.antt =====
-- A machine with one strategy, `alpha`, and a world in which everything succeeds.
use strategon.Prelude.{ℕ, ◌*◌, String, Bool, true, false, Option, none, some, List, [], ◌∷◌, Map}
use strategon.Prelude.Time.{second}
use strategon.Proto.{
  ArtifactType, ArtifactRef, StrategyAssignmentSpec, CronSchedule, CronAction, DeployPhase,
  Condition, ConditionStatus,
}
use strategon.Supervisor.Backoff.{fresh}
use strategon.Agent.State.{Process, DeployOp, StrategyState, Reconciler, new_reconciler, ExitInfo}
use strategon.Agent.World.{World, ok, err}

abbrev pub binary : String → String → ArtifactRef
binary version digest = record {
  kind = ArtifactType.binary;
  name = "alpha";
  version = version;
  digest = digest;
  uri = "https://example.org/alpha";
}

abbrev pub old_binary : ArtifactRef
old_binary = binary "v1" "d1"

abbrev pub new_binary : ArtifactRef
new_binary = binary "v2" "d2"

abbrev pub nightly : CronSchedule
nightly = record {
  name = "nightly";
  cron_expr = "0 0 * * *";
  timezone = "UTC";
  action = CronAction.restart;
  jitter_seconds = 0;
  script_ref = "";
}

abbrev pub alpha_spec : StrategyAssignmentSpec
alpha_spec = record {
  strategy = "alpha";
  artifact = some new_binary;
  config = none;
  limits = record { cpu_millicores = 500; memory_bytes = 1_000_000; max_open_files = 64 };
  deploy_policy = record {
    startsecs = 10;
    health_window_seconds = 30;
    max_crashes_in_window = 1;
    stop_grace_seconds = 5;
    enable_auto_rollback = true;
  };
  schedules = nightly ∷ [];
  args = [];
  env = [];
  stopped = false;
  readiness_endpoint = "";
  volume_mounts = record { name = "data"; container_path = "/data" } ∷ [];
  capture_stdio = false;
  oci_host_pid = false;
}

abbrev pub old_process : Process
old_process = record { pid = 41; start_time = 7; started_at = 95 * second }

abbrev pub new_process : Process
new_process = record { pid = 42; start_time = 8; started_at = 95 * second }

abbrev pub world : World
world = record {
  now = 100 * second;
  jitter = none;
  start = λ sp. ok new_process;
  build_error = λ spec launch. none;
  apply_limits = none;
  check_limits = none;
  switch_to = λ strategy version. none;
  remove_shared_link = λ name. none;
  switch_shared_to = λ name digest. none;
  equal_fold = λ a b. false;
  name_error = λ e. "name";
  running_shared_digest = λ name. "";
  volume_dir_exists = λ name. true;
  ensure_volume_dir = λ name. none;
  volume_entries = [];
  oci_init_line = λ strategy. "";
  ready_endpoint = none;
  next_fire = λ expr zone now. ok (strategon.Prelude.◌+◌ now second);
  schedule_key = λ s. s.name;
  cron_rand = λ bound. 0;
  signal_hup = λ p. none;
  run_script = λ spec s. none;
  sprint_number = λ format n. format;
  sprint_text = λ format a. format;
  sprint_texts = λ format a b. format;
}

-- the world in which no process starts
abbrev pub broken_world : World
broken_world = record world { start = λ sp. err "exec format error" }

abbrev pub deploy : DeployOp
deploy = record { target = some new_binary; config = none }

abbrev pub live : Condition
live = record {
  status = ConditionStatus.true_status;
  reason = "Started";
  message = "";
  last_transition = 0;
}

-- The new version runs in its health window; the old one can come back.
abbrev pub checking : StrategyState
checking = record {
  strategy = "alpha";
  phase = DeployPhase.health_checking;
  running_artifact = some new_binary;
  running_config = none;
  prev_artifact = some old_binary;
  prev_config = none;
  proc = some new_process;
  inflight = some deploy;
  conditions = ("Live", live) ∷ [];
  restart_count = 0;
  backoff = record { consecutive = 1; blocked_until = 0 };
  last_bad_version = "";
  warned_bad_version = "";
  warned_waiting_shared = 0;
  warned_waiting_volume = 0;
  failed_at_gen = 0;
  observed_gen = 0;
  stopping = false;
  probe_inflight = false;
  health_deadline = 90 * second;
  started_at = 95 * second;
  last_error = "";
  stop_grace_seconds = 5;
  volume_mounts = "data" ∷ [];
  capture_stdio = false;
  oci_host_pid = false;
  limits_applied = true;
  limits_error = "";
  cron = none;
}

-- the same, after its process has died
abbrev pub dead : StrategyState
dead = record checking { proc = none; backoff = fresh }

-- the old version runs, and the new one is desired
abbrev pub outdated : StrategyState
outdated = record checking {
  phase = DeployPhase.healthy;
  running_artifact = some old_binary;
  proc = some old_process;
  inflight = none;
  backoff = fresh;
}

-- the new version runs as desired
abbrev pub settled : StrategyState
settled = record checking { phase = DeployPhase.healthy; inflight = none; backoff = fresh }

abbrev pub machine : Reconciler
machine = record new_reconciler {
  desired = ("alpha", alpha_spec) ∷ [];
  actual = ("alpha", settled) ∷ [];
  generation = 3;
  observed_gen = 2;
}

-- the death of the new process, five seconds after its start
abbrev pub death : ExitInfo
death = record { pid = 42; start_time = 8; code = 1; at_time = 100 * second }
