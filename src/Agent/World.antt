-- ===== src/Agent/World.antt =====
-- The reconciler's collaborators (`Deps`): the driver, the artifact manager, the clock and the
-- file system, as what they answer during one round of the loop, and what the loop asks of them.
use strategon.Prelude.{ℕ, String, Bool, Option, List, [], ◌∷◌}
use strategon.Prelude.Time.{Instant, Duration}
use strategon.Proto.{ArtifactRef, StrategyAssignmentSpec, EventSeverity, CronSchedule}
use strategon.Names.{NameError}
use strategon.Agent.State.{Process, StrategyState, DeployOp}

pub data Result {ℓ} (A : Type ℓ) : Type ℓ where
  ok : A → Result A
  err : String → Result A

-- driver.StartSpec, as far as the reconciler itself fills or reads it; `launch` stands for what
-- `buildStartSpec` renders (paths, arguments, environment).
pub record StartSpec : Type 0 where
  pub strategy : String
  pub launch : Option ArtifactRef
  pub cpu_millicores : ℕ
  pub memory_bytes : ℕ
  pub max_open_files : ℕ

pub record World : Type 0 where
  -- Clock.Now; one reading serves a whole round.
  pub now : Instant
  pub jitter : Option (Duration → Duration)
  -- Driver.Start
  pub start : StartSpec → Result Process
  -- `buildStartSpec` ends with the spec or with an error; it renders paths on the file system.
  pub build_error : StrategyAssignmentSpec → Option ArtifactRef → Option String
  -- Driver.ApplyLimits and Driver.CheckLimits, where the driver implements them
  pub apply_limits : Option (StartSpec → Option String)
  pub check_limits : Option (StartSpec → Option String)
  -- Artifacts.SwitchTo
  pub switch_to : String → String → Option String
  -- Artifacts.RemoveSharedLink and SwitchSharedTo
  pub remove_shared_link : String → Option String
  pub switch_shared_to : String → String → Option String
  -- strings.EqualFold
  pub equal_fold : String → String → Bool
  -- the text of a refused name
  pub name_error : NameError → String
  -- Artifacts.RunningSharedDigest; "" is a name with no live link
  pub running_shared_digest : String → String
  -- os.Stat of Artifacts.VolumeDir finds a directory
  pub volume_dir_exists : String → Bool
  -- Artifacts.EnsureVolumeDir, and the directories that os.ReadDir finds under VolumesRoot
  pub ensure_volume_dir : String → Option String
  pub volume_entries : List String
  -- the trimmed first line of oci-init.log, "" where the file cannot be read
  pub oci_init_line : String → String
  pub ready_endpoint : Option (String → String)
  -- agentcron.Parse followed by Schedule.Next at an instant: the error, or the fire time
  pub next_fire : String → String → Instant → Result Instant
  -- scheduleKey: the fields of a schedule in one text
  pub schedule_key : CronSchedule → String
  -- the random integer below a bound
  pub cron_rand : ℕ → ℕ
  -- Driver.Signal with SIGHUP, and the start of a cron script
  pub signal_hup : Process → Option String
  pub run_script : StrategyAssignmentSpec → CronSchedule → Option String
  -- fmt.Sprintf with one verb, and with two
  pub sprint_number : String → ℕ → String
  pub sprint_text : String → String → String
  pub sprint_texts : String → String → String → String

-- What a handler does beside changing the state. Events keep their severity and reason.
pub data Effect : Type 0 where
  event : EventSeverity → String → String → Effect
  cancel_deploy : String → DeployOp → Effect
  spawn_deploy : StrategyAssignmentSpec → Option Process → Option ArtifactRef → Effect
  spawn_stop : Process → ℕ → Effect
  stop : Process → ℕ → Effect
  start_process : StartSpec → Effect
  watch_exit : String → Process → Effect
  spawn_probe : String → String → Effect
  switch_release : String → String → Effect
  write_limits : StartSpec → Effect
  cancel_fetch : String → String → Effect
  spawn_fetch : String → Option ArtifactRef → Effect
  gc_shared : List String → Effect
  remove_volume : String → Effect
  hang_up : Process → Effect
  spawn_script : String → CronSchedule → Effect

-- A strategy's state while a handler works on it, with the effects so far, the newest first.
pub record Local : Type 0 where
  pub st : StrategyState
  pub open st use *
  pub log : List Effect

abbrev pub emit : Effect → Local → Local
emit e l = record l { log = e ∷ l.log }

abbrev pub put : Local → StrategyState → Local
put l s = record l { st = s }

-- A handler begins with no effect yet.
abbrev pub local : StrategyState → Local
local st = record { st = st; log = [] }
