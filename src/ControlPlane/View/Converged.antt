-- ===== src/ControlPlane/View/Converged.antt =====
-- A deployment that the control plane shows as converged is settled on its agent.
use strategon.Prelude.{
  ℕ, ◌≡◌, true, false, Option, none, some, [], ◌∷◌, arith, Map, lookup, eq_iff, is_some,
}
use strategon.Proto.{StrategyAssignmentSpec, Condition, is_true_status, get_digest}
use strategon.Agent.State.{StrategyState}
use strategon.Agent.Deploy.{version_matches}
use strategon.Agent.Converge.{is_settled}
use strategon.ControlPlane.View.{
  assignment_live_in, assignment_live, is_converged, reported, build_status, build_strategy_view,
}

live-reported :
    (pid : ℕ) (m : Map Condition) {c : Condition}
    → lookup "Live" m ≡ some c
    → assignment_live_in pid (reported m) ≡ is_true_status c.status
unfolding assignment_live_in reported lookup
live-reported pid [] h = absurd (ground arith)
live-reported pid ((kind, d) ∷ rest) {c} h = ground (arith, live-reported pid rest {c = c})

live_view :
    (spec : StrategyAssignmentSpec) (st : StrategyState) (metrics : Option ℕ) {c : Condition}
    → lookup "Live" st.conditions ≡ some c
    → assignment_live (build_strategy_view (some spec) (some (build_status st)) metrics)
      ≡ is_true_status c.status
unfolding build_strategy_view build_status assignment_live
live_view spec st none h = live-reported (build_status st).pid st.conditions h
live_view spec st (some pid) {c} h = ground (
  arith,
  live-reported (build_status st).pid st.conditions {c = c} h,
  live-reported pid st.conditions {c = c} h,
)

-- A deployment that is not stopped, and that the control plane shows as converged from the
-- agent's report, is settled on the agent: it runs the desired bytes and configuration, is HEALTHY
-- and has a process, where the agent's Live condition tells whether it has one.
pub converged_settled :
    (spec : StrategyAssignmentSpec) (st : StrategyState) (metrics : Option ℕ) {c : Condition}
    → spec.stopped ≡ false
    → lookup "Live" st.conditions ≡ some c
    → is_true_status c.status ≡ is_some st.proc
    → is_converged (build_strategy_view (some spec) (some (build_status st)) metrics) ≡ true
    → is_settled spec (some st) ≡ true
unfolding is_converged is_settled version_matches build_strategy_view build_status
converged_settled spec st metrics {c} runs live tracks shown = ground (
  arith,
  live_view spec st metrics {c = c} live,
  eq_iff (get_digest st.running_config) (get_digest spec.config),
  eq_iff (get_digest spec.config) (get_digest st.running_config),
  eq_iff (get_digest spec.artifact) (get_digest st.running_artifact),
  eq_iff (get_digest st.running_artifact) (get_digest spec.artifact),
)
