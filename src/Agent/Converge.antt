-- ===== src/Agent/Converge.antt =====
-- The convergence of one strategy: `reconcileOne`, `reconcileStopped`, `retireStrategy` and
-- `recomputeObservedGeneration` of reconciler.go.
pub mod Calm
pub mod Effects
pub mod Observed
use strategon.Prelude.{
  ℕ, String, Bool, true, false, not, ◌&&◌, ◌||◌, Option, none, some, List, [], ◌∷◌, Map, lookup,
  insert, erase, str_eq, ◌==◌, is_some, if◌then◌else◌,
}
use strategon.Proto.{
  get_version, StrategyAssignmentSpec, EventSeverity, DeployPhase, is_healthy, is_health_checking,
  is_failed, is_stopped,
}
use strategon.Supervisor.Backoff.{blocked}
use strategon.Agent.State.{StrategyState, Reconciler, new_strategy_state}
use strategon.Agent.World.{World, Local, Effect, event, cancel_deploy, emit, put}
use strategon.Agent.Volumes.{contains, volume_mount_names, when_ready}
use strategon.Agent.Process.{start_process_now, ensure_slot_limits, spawn_drain}
use strategon.Agent.Deploy.{version_matches, promote_running_labels, begin_deploy}

abbrev pub same_bool : Bool → Bool → Bool
same_bool true b = b
same_bool false b = not b

-- `if st.inflight != nil { st.inflight.cancel(); st.inflight = nil }`
unfoldable pub withdraw_deploy : Local → Local
withdraw_deploy l = elim l.inflight [
  | none ↦ l
  | some op ↦ emit (cancel_deploy l.strategy op) (put l (record l.st { inflight = none }))
]

unfoldable pub reconcile_stopped : Reconciler → StrategyAssignmentSpec → Local → Local
unfolding withdraw_deploy
reconcile_stopped r spec l₀ =
    let l = withdraw_deploy l₀ in
    if is_some l.proc
    then if l.stopping then l else spawn_drain r (some spec) l
    else put l (record l.st {
      phase = DeployPhase.stopped;
      stopping = false;
      last_error = "";
      observed_gen = r.generation;
    })

-- A deploy is in flight: only a new version that died in its health window is restarted.
unfoldable pub await_worker : World → Reconciler → StrategyAssignmentSpec → Local → Local
await_worker w r spec l =
    if is_health_checking l.phase && not (is_some l.proc) && version_matches spec l.st
    then when_ready w r spec (start_process_now w r spec true) l
    else l

unfoldable pub steady : World → Reconciler → StrategyAssignmentSpec → Local → Local
steady w r spec l =
    let l' = ensure_slot_limits w spec (promote_running_labels spec l) in
    put l' (record l'.st { observed_gen = r.generation })

unfoldable pub restart : World → Reconciler → StrategyAssignmentSpec → Local → Local
restart w r spec l =
    when_ready w r spec (λ l'. start_process_now w r spec (is_stopped l'.phase) l')
      (promote_running_labels spec l)

unfoldable pub skip_bad_version : Local → Local
skip_bad_version l =
    if str_eq l.warned_bad_version l.last_bad_version
    then l
    else emit (event EventSeverity.warning l.strategy "SkipBadVersion")
        (put l (record l.st { warned_bad_version = l.last_bad_version }))

unfoldable pub deploy_or_skip : World → Reconciler → StrategyAssignmentSpec → Local → Local
unfolding skip_bad_version
deploy_or_skip w r spec l =
    if str_eq (get_version spec.artifact) l.last_bad_version
    then skip_bad_version l
    else when_ready w r spec (begin_deploy w r spec) l

-- the final `switch` of reconcileOne
unfoldable pub converge : World → Reconciler → StrategyAssignmentSpec → Local → Local
converge w r spec l =
    if version_matches spec l.st
    then if is_some l.proc
      then if is_healthy l.phase then steady w r spec l else l
      else restart w r spec l
    else deploy_or_skip w r spec l

-- the process runs with other modes than desired
unfoldable pub modes_differ : StrategyAssignmentSpec → StrategyState → Bool
modes_differ spec st =
    version_matches spec st
    && is_some st.proc
    && not st.stopping
    && not (
        same_bool spec.capture_stdio st.capture_stdio
        && same_bool spec.oci_host_pid st.oci_host_pid)

unfoldable pub note_spec : StrategyAssignmentSpec → Local → Local
note_spec spec l = put l (record l.st {
  stop_grace_seconds = spec.deploy_policy.stop_grace_seconds;
  volume_mounts = volume_mount_names spec;
})

-- FAILED is terminal for the generation that produced it.
unfoldable pub has_failed : Reconciler → StrategyState → Bool
has_failed r st = is_failed st.phase && st.failed_at_gen == r.generation

unfoldable pub reconcile_live : World → Reconciler → StrategyAssignmentSpec → Local → Local
reconcile_live w r spec l =
    if is_some l.inflight
    then await_worker w r spec l
    else if has_failed r l.st
    then l
    else if modes_differ spec l.st
    then spawn_drain r (some spec) l
    else converge w r spec l

unfoldable pub reconcile_one : World → Reconciler → StrategyAssignmentSpec → Local → Local
reconcile_one w r spec l₀ =
    let l = note_spec spec l₀ in
    if blocked l.backoff w.now || contains l.strategy r.reaping
    then l
    else if spec.stopped
    then reconcile_stopped r spec l
    else reconcile_live w r spec l

-- `none` is the removal from `r.actual`
unfoldable pub retire_strategy : Reconciler → Local → Option StrategyState × List Effect
retire_strategy r l₀ =
    let l = withdraw_deploy l₀ in
    let drained = spawn_drain r none l in
    if is_some l.proc
    then if l.stopping then (some l.st, l.log) else (some drained.st, drained.log)
    else (none, l.log)

-- what recomputeObservedGeneration asks of one desired strategy
unfoldable pub is_settled : StrategyAssignmentSpec → Option StrategyState → Bool
is_settled spec none = false
is_settled spec (some st) =
    if spec.stopped
    then is_stopped st.phase && not (is_some st.proc)
    else version_matches spec st && is_healthy st.phase && is_some st.proc

unfoldable pub all_settled : Reconciler → Map StrategyAssignmentSpec → Bool
unfolding is_settled
all_settled r [] = true
all_settled r ((name, spec) ∷ rest) = is_settled spec (lookup name r.actual) && all_settled r rest

unfoldable pub recompute_observed_generation : Reconciler → Reconciler
unfolding all_settled
recompute_observed_generation r =
    if all_settled r r.desired then record r { observed_gen = r.generation } else r
