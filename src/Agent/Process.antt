-- ===== src/Agent/Process.antt =====
-- Starting and supervising one process: `startProcess`, `startFailed`, `installProcess`,
-- `buildStartSpec`, `ensureSlotLimits` of reconciler.go, `setCondition` and `spawnDrain` of
-- deploy.go.
use strategon.Prelude.{
  ℕ, String, Bool, true, false, Option, none, some, ◌+◌, Map, lookup, insert, str_eq, ◌==◌,
  if◌then◌else◌,
}
use strategon.Prelude.Time.{Duration, seconds}
use strategon.Proto.{
  ArtifactRef, StrategyAssignmentSpec, ConditionStatus, Condition, same_status, EventSeverity,
  DeployPhase,
}
use strategon.Supervisor.Backoff.{record_crash}
use strategon.Agent.State.{Process, StrategyState, Reconciler}
use strategon.Agent.World.{
  World, Result, ok, err, StartSpec, Local, event, start_process, watch_exit, write_limits,
  spawn_stop, emit, put,
}
use strategon.Agent.Volumes.{volume_writer_conflict_err}

abbrev pub condition_live : String
condition_live = "Live"

abbrev pub condition_ready : String
condition_ready = "Ready"

-- The transition time moves only when the status changes.
unfoldable pub set_condition :
    World → String → ConditionStatus → String → String → Map Condition → Map Condition
set_condition w kind status reason message conditions =
    let fresh : Condition = record {
      status = status;
      reason = reason;
      message = message;
      last_transition = w.now;
    } in
    elim (lookup kind conditions) [
      | none ↦ insert kind fresh conditions
      | some c ↦
          if same_status c.status status
          then insert kind (record c { reason = reason; message = message }) conditions
          else insert kind fresh conditions
    ]

unfoldable pub health_window : StrategyAssignmentSpec → Duration
health_window spec =
    let w = spec.deploy_policy.health_window_seconds in seconds (if w == 0 then 30 else w)

-- `launch` is never nil here unless the spec has no artifact either.
unfoldable pub build_start_spec :
    World → StrategyAssignmentSpec → Option ArtifactRef → Result StartSpec
build_start_spec w spec launch =
    let chosen : Option ArtifactRef = elim launch [ none ↦ spec.artifact | some a ↦ some a ] in
    elim (w.build_error spec chosen) [
      | some e ↦ err e
      | none ↦ ok (record {
        strategy = spec.strategy;
        launch = chosen;
        cpu_millicores = spec.limits.cpu_millicores;
        memory_bytes = spec.limits.memory_bytes;
        max_open_files = spec.limits.max_open_files;
      })
    ]

-- Driver.Start on what `buildStartSpec` gave: the error of either, or the process.
unfoldable pub launch_process :
    World → StrategyAssignmentSpec → Option ArtifactRef → Result (Process × StartSpec)
unfolding build_start_spec
launch_process w spec launch = elim (build_start_spec w spec launch) [
  | err e ↦ err e
  | ok sp ↦ elim (w.start sp) [ err e ↦ err e | ok p ↦ ok (p, sp) ]
]

unfoldable pub start_failed : World → String → Local → Local
start_failed w e l =
    let failed = put l (record l.st {
      phase = DeployPhase.failed;
      backoff = record_crash l.backoff w.now w.jitter;
    }) in
    if str_eq l.last_error e
    then failed
    else emit (event EventSeverity.error l.strategy "StartFailed")
        (put failed (record failed.st { last_error = e }))

unfoldable pub install_process : World → StrategyAssignmentSpec → Process → Local → Local
install_process w spec p l = emit (watch_exit l.strategy p) (
    put l (record l.st {
      proc = some p;
      started_at = p.started_at;
      stopping = false;
      capture_stdio = spec.capture_stdio;
      oci_host_pid = spec.oci_host_pid;
      limits_applied = true;
      limits_error = "";
      conditions =
          set_condition w condition_live ConditionStatus.true_status "Started" "" l.conditions;
    }))

-- the tail of startProcess, on a process that runs
unfoldable pub started :
    World → Reconciler → StrategyAssignmentSpec → Bool → Process → Local → Local
unfolding install_process
started w r spec true p l =
    let l' = install_process w spec p l in
    put l' (record l'.st {
      last_error = "";
      phase = DeployPhase.health_checking;
      health_deadline = w.now + health_window spec;
    })
started w r spec false p l =
    let l' = install_process w spec p l in
    put l'
      (record l'.st { last_error = ""; phase = DeployPhase.healthy; observed_gen = r.generation })

-- startProcess once no other process holds a volume of this strategy
unfoldable pub start_current : World → Reconciler → StrategyAssignmentSpec → Bool → Local → Local
start_current w r spec health_check l =
    let l' = if health_check then put l (record l.st { phase = DeployPhase.starting }) else l in
    elim (launch_process w spec l.running_artifact) [
      | err e ↦ start_failed w e l'
      | ok (p, sp) ↦ started w r spec health_check p (emit (start_process sp) l')
    ]

unfoldable pub start_process_now :
    World → Reconciler → StrategyAssignmentSpec → Bool → Local → Local
start_process_now w r spec health_check l =
    elim (volume_writer_conflict_err w r l.strategy spec.volume_mounts) [
      | some e ↦
          if str_eq l.last_error e
          then l
          else emit (event EventSeverity.error l.strategy "StartFailed")
              (put l (record l.st { last_error = e }))
      | none ↦ start_current w r spec health_check l
    ]

unfoldable pub note_limits : String → Local → Local
note_limits e l =
    if str_eq l.limits_error e
    then l
    else emit (event EventSeverity.error l.strategy "LimitsNotApplied")
        (put l (record l.st { limits_error = e }))

abbrev pub limits_spec : StrategyAssignmentSpec → StartSpec
limits_spec spec = record {
  strategy = spec.strategy;
  launch = none;
  cpu_millicores = spec.limits.cpu_millicores;
  memory_bytes = spec.limits.memory_bytes;
  max_open_files = 0;
}

unfoldable pub write_slot_limits :
    (StartSpec → Option String) → StrategyAssignmentSpec → Local → Local
unfolding note_limits
write_slot_limits apply spec l =
    let l' = emit (write_limits (limits_spec spec)) l in
    elim (apply (limits_spec spec)) [
      | some e ↦ note_limits e l'
      | none ↦ put l' (record l'.st { limits_applied = true; limits_error = "" })
    ]

unfoldable pub ensure_slot_limits : World → StrategyAssignmentSpec → Local → Local
ensure_slot_limits w spec l = if l.limits_applied then l else elim w.apply_limits [
  | none ↦ put l (record l.st { limits_applied = true })
  | some apply ↦ write_slot_limits apply spec l
]

-- The grace seconds that a drain waits: the spec at hand, else the desired one, else the last seen.
unfoldable pub drain_grace : Reconciler → Option StrategyAssignmentSpec → StrategyState → ℕ
drain_grace r (some spec) st = spec.deploy_policy.stop_grace_seconds
drain_grace r none st = elim (lookup st.strategy r.desired) [
  | some spec ↦ spec.deploy_policy.stop_grace_seconds
  | none ↦ st.stop_grace_seconds
]

abbrev emit_stop : Option Process → ℕ → Local → Local
emit_stop none grace l = l
emit_stop (some p) grace l = emit (spawn_stop p grace) l

-- gracefulStop of no process does nothing; the last argument of spawnDrain is not used
unfoldable pub spawn_drain : Reconciler → Option StrategyAssignmentSpec → Local → Local
spawn_drain r spec l =
    emit_stop l.proc (drain_grace r spec l.st)
      (put l (record l.st { stopping = true; phase = DeployPhase.draining }))
