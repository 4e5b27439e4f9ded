-- ===== src/Agent/Deploy.antt =====
-- internal/agent/reconciler/deploy.go: `beginDeploy`, `applyWorkerEvent` and `beginRollback`, with
-- `versionMatches` and `promoteRunningLabels` of reconciler.go.
pub mod Rollback
use strategon.Prelude.{
  ℕ, String, Bool, true, false, not, ◌&&◌, Option, none, some, List, ◌∷◌, Map, lookup, str_eq,
  if◌then◌else◌, ◌+◌,
}
use strategon.Proto.{
  ArtifactRef, get_version, get_digest, get_uri, StrategyAssignmentSpec, EventSeverity, DeployPhase,
}
use strategon.Supervisor.Backoff.{reset}
use strategon.Agent.State.{Process, DeployOp, StrategyState, Reconciler, WorkerEvent}
use strategon.Agent.World.{
  World, ok, err, Local, event, cancel_deploy, spawn_deploy, stop, start_process, switch_release,
  emit, put,
}
use strategon.Agent.Volumes.{volume_writer_conflict_err}
use strategon.Agent.Process.{install_process, launch_process, health_window}

unfoldable pub version_matches : StrategyAssignmentSpec → StrategyState → Bool
version_matches spec st = elim st.running_artifact [
  | none ↦ false
  | some running ↦
      str_eq running.digest (get_digest spec.artifact)
      && str_eq (get_digest spec.config) (get_digest st.running_config)
]

unfoldable pub artifact_labels_equal : Option ArtifactRef → Option ArtifactRef → Bool
artifact_labels_equal want have =
    str_eq (get_version want) (get_version have) && str_eq (get_uri want) (get_uri have)

unfoldable pub promote_running_labels : StrategyAssignmentSpec → Local → Local
unfolding artifact_labels_equal
promote_running_labels spec l =
    if artifact_labels_equal spec.artifact l.running_artifact
      && artifact_labels_equal spec.config l.running_config
    then l
    else emit (event EventSeverity.info l.strategy "VersionRelabeled")
        (put l (record l.st { running_artifact = spec.artifact; running_config = spec.config }))

-- beginDeploy once no other process holds a volume of this strategy
unfoldable pub launch_deploy : StrategyAssignmentSpec → Local → Local
launch_deploy spec l = emit (spawn_deploy spec l.proc l.running_artifact) (
    emit (event EventSeverity.info l.strategy "DeployStarted") (
      put l (record l.st {
        inflight = some (record { target = spec.artifact; config = spec.config });
        phase = DeployPhase.pending;
        last_error = "";
        warned_bad_version = "";
        prev_artifact = l.running_artifact;
        prev_config = l.running_config;
      })))

unfoldable pub begin_deploy : World → Reconciler → StrategyAssignmentSpec → Local → Local
unfolding launch_deploy
begin_deploy w r spec l = elim (volume_writer_conflict_err w r l.strategy spec.volume_mounts) [
  | some e ↦ emit (event EventSeverity.error l.strategy "DeployFailed") (
      put l
        (record l.st { last_error = e; phase = DeployPhase.failed; failed_at_gen = r.generation }))
  | none ↦ launch_deploy spec l
]

-- withCause
unfoldable pub with_cause : World → String → String → String
with_cause w cause message =
    if str_eq cause "" then message else w.sprint_texts "%s (rollback: %s)" cause message

-- a rollback that ends in FAILED, under the event's reason
unfoldable pub rollback_failed : World → Reconciler → String → String → Local → Local
unfolding with_cause
rollback_failed w r reason message l = emit (event EventSeverity.error l.strategy reason) (
    put l (record l.st {
      phase = DeployPhase.failed;
      last_error = with_cause w l.last_error message;
      failed_at_gen = r.generation;
    }))

-- cancel and forget the deploy in flight; the version that it was for is bad
unfoldable pub withdraw_bad : StrategyAssignmentSpec → Local → Local
withdraw_bad spec l = elim l.inflight [
  | none ↦ put l (record l.st { last_bad_version = get_version spec.artifact })
  | some op ↦
      emit (cancel_deploy l.strategy op)
        (put l (record l.st { inflight = none; last_bad_version = get_version op.target }))
]

-- stop the failed process before switching back
unfoldable pub stop_failed : StrategyAssignmentSpec → Local → Local
stop_failed spec l = elim l.proc [
  | none ↦ l
  | some p ↦
      emit (stop p spec.deploy_policy.stop_grace_seconds) (put l (record l.st { proc = none }))
]

-- the previous version is current again: start it
unfoldable pub start_previous :
    World → Reconciler → StrategyAssignmentSpec → ArtifactRef → Local → Local
start_previous w r spec prev l =
    elim (volume_writer_conflict_err w r l.strategy spec.volume_mounts) [
      | some e ↦ rollback_failed w r "RollbackFailed" e l
      | none ↦ elim (launch_process w spec (some prev)) [
        | err e ↦ rollback_failed w r "RollbackFailed" e l
        | ok (p, sp) ↦
            let l' = install_process w spec p (emit (start_process sp) l) in
            emit (event EventSeverity.error l'.strategy "AutoRollback") (
              put l' (record l'.st { phase = DeployPhase.rolled_back; backoff = reset l'.backoff }))
      ]
    ]

abbrev pub adopt_previous : ArtifactRef → Local → Local
adopt_previous prev l =
    put l (record l.st { running_artifact = some prev; running_config = l.prev_config })

-- SwitchTo the previous version
unfoldable pub switch_back : World → Reconciler → StrategyAssignmentSpec → Local → Local
switch_back w r spec l = elim l.prev_artifact [
  | none ↦ rollback_failed w r "RollbackImpossible" "no previous version to roll back to" l
  | some prev ↦
      let l' = emit (switch_release l.strategy prev.version) l in
      elim (w.switch_to l.strategy prev.version) [
        | some e ↦ rollback_failed w r "RollbackFailed" e l'
        | none ↦ start_previous w r spec prev (adopt_previous prev l')
      ]
]

unfoldable pub begin_rollback : World → Reconciler → StrategyAssignmentSpec → Local → Local
unfolding withdraw_bad stop_failed
begin_rollback w r spec l = switch_back w r spec (stop_failed spec (withdraw_bad spec l))

abbrev pub err_or : Option String → String → String
err_or none old = old
err_or (some e) old = e

-- The worker has started the new process: supervise it and open its health window.
unfoldable pub take_over : World → Reconciler → WorkerEvent → Local → Local
take_over w r ev l =
    let l₁ = put l (record l.st {
      stopping = false;
      proc = none;
      running_artifact = ev.artifact;
      running_config = ev.config;
    }) in
    elim (lookup ev.strategy r.desired) [
      | none ↦ l₁
      | some spec ↦ elim ev.proc [
        | none ↦ l₁
        | some p ↦
            let l₂ = install_process w spec p l₁ in
            put l₂ (record l₂.st {
              capture_stdio = ev.capture_stdio;
              oci_host_pid = ev.oci_host_pid;
              phase = DeployPhase.health_checking;
              health_deadline = w.now + health_window spec;
              backoff = reset l₂.backoff;
            })
      ]
    ]

abbrev pub note_error : WorkerEvent → Local → Local
note_error ev l = put l (record l.st { last_error = err_or ev.err l.last_error })

unfoldable pub worker_rolling_back : World → Reconciler → WorkerEvent → Local → Local
worker_rolling_back w r ev l = elim (lookup ev.strategy r.desired) [
  | none ↦ note_error ev l
  | some spec ↦ begin_rollback w r spec (note_error ev l)
]

unfoldable pub worker_failed : Reconciler → WorkerEvent → Local → Local
worker_failed r ev l = emit (event EventSeverity.error ev.strategy "DeployFailed") (
    put l (record l.st {
      phase = DeployPhase.failed;
      stopping = false;
      last_error = err_or ev.err l.last_error;
      failed_at_gen = r.generation;
      inflight = none;
    }))

-- the `switch` on the event's phase; other phases change nothing
unfoldable pub advance : World → Reconciler → WorkerEvent → DeployPhase → Local → Local
unfolding take_over worker_failed
advance w r ev DeployPhase.downloading l = put l (record l.st { phase = DeployPhase.downloading })
advance w r ev DeployPhase.verifying l = put l (record l.st { phase = DeployPhase.verifying })
advance w r ev DeployPhase.switching l = put l (record l.st { phase = DeployPhase.switching })
advance w r ev DeployPhase.draining l =
    put l (record l.st { phase = DeployPhase.draining; stopping = true })
advance w r ev DeployPhase.health_checking l = take_over w r ev l
advance w r ev DeployPhase.rolling_back l = worker_rolling_back w r ev l
advance w r ev DeployPhase.failed l = worker_failed r ev l
advance w r ev _ l = l

-- applyWorkerEvent on the state of the event's strategy
unfoldable pub apply_worker_event : World → Reconciler → WorkerEvent → Local → Local
apply_worker_event w r ev l = elim l.inflight [
  | none ↦ l
  | some op ↦
      if str_eq (get_digest ev.artifact) (get_digest op.target)
      then advance w r ev ev.phase l
      else l
]
