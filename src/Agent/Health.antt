-- ===== src/Agent/Health.antt =====
-- Health windows and probes: `tick`, `probeReadiness`, `applyHealthResult`, `failHealthWindow` and
-- `markHealthy` of reconciler.go, for one strategy.
pub mod Windows
use strategon.Prelude.{
  ℕ, String, Bool, true, false, not, ◌&&◌, ◌||◌, Option, none, some, List, [], ◌∷◌, Map, lookup,
  str_eq, is_some, if◌then◌else◌,
}
use strategon.Prelude.Time.{Instant, is_after}
use strategon.Proto.{
  StrategyAssignmentSpec, ConditionStatus, EventSeverity, DeployPhase, is_healthy,
  is_health_checking, is_true_status,
}
use strategon.Supervisor.Backoff.{reset}
use strategon.Agent.State.{StrategyState, Reconciler, HealthResult}
use strategon.Agent.World.{World, Local, event, spawn_probe, emit, put}
use strategon.Agent.Process.{set_condition, condition_ready}
use strategon.Agent.Deploy.{begin_rollback}
use strategon.Agent.Converge.{withdraw_deploy}

unfoldable pub has_readiness_probe : Option StrategyAssignmentSpec → Bool
has_readiness_probe none = false
has_readiness_probe (some spec) = not (str_eq spec.readiness_endpoint "")

abbrev desired_endpoint : Option StrategyAssignmentSpec → String
desired_endpoint none = ""
desired_endpoint (some spec) = spec.readiness_endpoint

abbrev injected_endpoint : Option (String → String) → String → String
injected_endpoint none strategy = ""
injected_endpoint (some f) strategy = f strategy

unfoldable pub probe_endpoint : World → Reconciler → String → String
probe_endpoint w r strategy =
    let endpoint = desired_endpoint (lookup strategy r.desired) in
    if str_eq endpoint "" then injected_endpoint w.ready_endpoint strategy else endpoint

unfoldable pub probe_readiness : World → Reconciler → Local → Local
unfolding probe_endpoint
probe_readiness w r l =
    if l.probe_inflight
    then l
    else emit (spawn_probe l.strategy (probe_endpoint w r l.strategy))
        (put l (record l.st { probe_inflight = true }))

unfoldable pub mark_healthy : Reconciler → Local → Local
mark_healthy r l =
    let l' = put l (record l.st {
      phase = DeployPhase.healthy;
      backoff = reset l.backoff;
      inflight = none;
      observed_gen = r.generation;
    }) in
    if is_some l.inflight then emit (event EventSeverity.info l.strategy "DeployHealthy") l' else l'

abbrev health_timeout : String
health_timeout = "readiness not achieved within health window"

unfoldable pub fail_health_window : World → Reconciler → Local → Local
unfolding withdraw_deploy
fail_health_window w r l =
    let l' = withdraw_deploy (
      put l (record l.st {
        phase = DeployPhase.failed;
        last_error = health_timeout;
        failed_at_gen = r.generation;
      })) in
    put l' (record l'.st {
      conditions =
          set_condition w condition_ready ConditionStatus.false_status "HealthTimeout"
            health_timeout l'.conditions;
    })

-- applyHealthResult on the state of the result's strategy
unfoldable pub apply_health_result : World → Reconciler → HealthResult → Local → Local
unfolding mark_healthy
apply_health_result w r hr l =
    let l' = put l (record l.st {
      probe_inflight = false;
      conditions = set_condition w condition_ready hr.status hr.reason hr.message l.conditions;
    }) in
    if is_health_checking l'.phase && is_true_status hr.status then mark_healthy r l' else l'

abbrev pub timed_out : Local → Local
timed_out l = emit (event EventSeverity.error l.strategy "HealthTimeout") l

-- The health window of a running process has ended.
unfoldable pub end_window : World → Reconciler → Option StrategyAssignmentSpec → Local → Local
end_window w r none l = mark_healthy r l
end_window w r (some spec) l =
    let rolls_back = spec.deploy_policy.enable_auto_rollback && is_some l.inflight in
    if has_readiness_probe (some spec)
    then if rolls_back
      then begin_rollback w r spec (timed_out l)
      else fail_health_window w r (timed_out l)
    else if rolls_back
    then begin_rollback w r spec (timed_out l)
    else mark_healthy r l

-- the body of the loop in `tick`
unfoldable pub tick_strategy : World → Reconciler → Instant → Local → Local
tick_strategy w r now l =
    let spec = lookup l.strategy r.desired in
    if not (is_some l.proc)
    then l
    else if is_healthy l.phase
    then if has_readiness_probe spec then probe_readiness w r l else l
    else if not (is_health_checking l.phase)
    then l
    else if is_after now l.health_deadline
    then end_window w r spec l
    else probe_readiness w r l
