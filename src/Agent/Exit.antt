-- ===== src/Agent/Exit.antt =====
-- `handleExit`, `recordStartCrash` and `launchIsOCI` of reconciler.go, on the state of the exit's
-- strategy.
pub mod Crashes
use strategon.Prelude.{
  ℕ, suc, ◌+◌, ◌-◌, ◌%◌, ◌^◌, String, Bool, true, false, not, ◌&&◌, ◌||◌, Option, none, some, List,
  [], ◌∷◌, Map, lookup, str_eq, ◌==◌, ltb, is_some, if◌then◌else◌,
}
use strategon.Prelude.Time.{Duration}
use strategon.Proto.{
  ArtifactType, ArtifactRef, get_kind, StrategyAssignmentSpec, ConditionStatus, EventSeverity,
  DeployPhase, is_healthy, is_health_checking,
}
use strategon.Supervisor.Backoff.{reset, record_crash, crashed_on_start}
use strategon.Agent.State.{Process, StrategyState, Reconciler, ExitInfo}
use strategon.Agent.World.{World, Local, Effect, event, emit, put}
use strategon.Agent.Process.{set_condition, condition_live}
use strategon.Agent.Deploy.{begin_rollback}

-- int32 addition, on bit patterns
abbrev pub inc32 : ℕ → ℕ
inc32 n = (n + 1) % 2 ^ 32

abbrev pub is_oci : ArtifactType → Bool
is_oci ArtifactType.oci_image = true
is_oci _ = false

unfoldable pub launch_is_oci : Reconciler → StrategyState → Bool
launch_is_oci r st = elim st.running_artifact [
  | some a ↦ is_oci a.kind
  | none ↦ elim (lookup st.strategy r.desired) [
    | some spec ↦ is_oci (get_kind spec.artifact)
    | none ↦ false
  ]
]

-- recordStartCrash: the error that it leaves
unfoldable pub start_crash_error : World → Reconciler → StrategyState → ExitInfo → String
unfolding launch_is_oci
start_crash_error w r st info =
    let line = w.oci_init_line st.strategy in
    if launch_is_oci r st && not (str_eq line "")
    then line
    else w.sprint_number "exited after start (code %d)" info.code

-- A stale notification names another process than the one supervised.
unfoldable pub names_process : ExitInfo → Process → Bool
names_process info p = p.pid == info.pid && p.start_time == info.start_time

-- HEALTHY means that the desired version runs, so a dead process does not keep it.
unfoldable pub leave_healthy : Local → Local
leave_healthy l =
    if is_healthy l.phase then put l (record l.st { phase = DeployPhase.starting }) else l

unfoldable pub loops : StrategyAssignmentSpec → StrategyState → Bool
loops spec st =
    is_health_checking st.phase
    && ltb spec.deploy_policy.max_crashes_in_window st.backoff.consecutive
    && spec.deploy_policy.enable_auto_rollback

-- what a crash at start writes down
abbrev pub count_crash : World → Reconciler → ExitInfo → Local → Local
count_crash w r info l = put l (record l.st {
  backoff = record_crash l.backoff w.now w.jitter;
  restart_count = inc32 l.restart_count;
  last_error = start_crash_error w r l.st info;
})

abbrev pub report_loop : Local → Local
report_loop l = emit (event EventSeverity.error l.strategy "CrashLoop") l

-- a crash at start
unfoldable pub crash : World → Reconciler → StrategyAssignmentSpec → ExitInfo → Local → Local
crash w r spec info l =
    let l' = count_crash w r info l in
    if loops spec l'.st then begin_rollback w r spec (report_loop l') else leave_healthy l'

-- an exit after a healthy run
unfoldable pub clean_exit : World → ExitInfo → Local → Local
unfolding leave_healthy
clean_exit w info l = leave_healthy (
    put l (record l.st {
      backoff = reset l.backoff;
      last_error = w.sprint_number "exited (code %d)" info.code;
    }))

unfoldable pub unexpected_exit :
    World → Reconciler → StrategyAssignmentSpec → ExitInfo → Duration → Local → Local
unexpected_exit w r spec info lived l =
    if crashed_on_start lived spec.deploy_policy.startsecs
    then crash w r spec info l
    else clean_exit w info l

-- the supervised process is gone
abbrev pub mark_gone : World → Local → Local
mark_gone w l = put l (record l.st {
  proc = none;
  conditions = set_condition w condition_live ConditionStatus.false_status "Exited" "" l.conditions;
})

-- the exit of the process `p` that `l` supervises; `none` removes the strategy
unfoldable pub process_gone : World → Reconciler → ExitInfo → Process → Local → Option Local
process_gone w r info p l₀ =
    let l = mark_gone w l₀ in
    let spec = lookup l.strategy r.desired in
    if l.stopping
    then if is_some spec then some (put l (record l.st { stopping = false })) else none
    else elim spec [
      | none ↦ some l
      | some s ↦ some (unexpected_exit w r s info (info.at_time - p.started_at) l)
    ]

unfoldable pub handle_exit : World → Reconciler → ExitInfo → Local → Option Local
handle_exit w r info l = elim l.proc [
  | none ↦ some l
  | some p ↦ if names_process info p then process_gone w r info p l else some l
]
