-- ===== src/ControlPlane/View.antt =====
-- internal/controlplane/view/view.go: the join of desired and reported state, and when a
-- deployment counts as converged; with the agent's `buildStatusReport` (deploy.go of the reconciler).
-- The order of conditions, and the fields that convergence does not read, are left out.
pub mod Converged
use strategon.Prelude.{
  ℕ, String, Bool, true, false, not, ◌&&◌, ◌||◌, Option, none, some, List, [], ◌∷◌, Map, str_eq,
  ltb, ◌==◌, is_some, if◌then◌else◌,
}
use strategon.Proto.{
  StrategyAssignmentStatus, ArtifactRef, get_version, get_digest, ConditionStatus, is_true_status,
  DeployPhase, is_healthy, is_stopped, StrategyAssignmentSpec, Condition,
}
use strategon.Agent.State.{Process, StrategyState}

-- The fields of StrategyView that convergence reads; a condition is its type and status.
pub record StrategyView : Type 0 where
  pub desired_artifact : Option ArtifactRef
  pub running_artifact : Option ArtifactRef
  pub desired_config : Option ArtifactRef
  pub running_config : Option ArtifactRef
  pub stopped : Bool
  pub phase : DeployPhase
  pub conditions : List (String × ConditionStatus)
  pub pid : ℕ

-- AssignmentLive; without a Live condition the pid counts
unfoldable pub assignment_live_in : ℕ → List (String × ConditionStatus) → Bool
assignment_live_in pid [] = ltb 0 pid
assignment_live_in pid ((kind, status) ∷ rest) =
    let later = assignment_live_in pid rest in
    if str_eq kind "Live" then is_true_status status else later

unfoldable pub assignment_live : StrategyView → Bool
assignment_live v = assignment_live_in v.pid v.conditions

-- IsConverged
unfoldable pub is_converged : StrategyView → Bool
is_converged v =
    if v.stopped
    then is_stopped v.phase
    else if not (is_healthy v.phase)
    then false
    else if not (assignment_live v)
    then false
    else if not (is_some v.desired_artifact) || not (is_some v.running_artifact)
    then false
    else if str_eq (get_digest v.desired_artifact) ""
    then false
    else if not (str_eq (get_digest v.desired_artifact) (get_digest v.running_artifact))
    then false
    else if not (str_eq (get_version v.desired_artifact) (get_version v.running_artifact))
    then false
    else if not (str_eq (get_digest v.desired_config) (get_digest v.running_config))
    then false
    else str_eq (get_version v.desired_config) (get_version v.running_config)

-- ReadyConditionTrue
unfoldable pub ready_in : List (String × ConditionStatus) → Bool
ready_in [] = false
ready_in ((kind, status) ∷ rest) =
    let later = ready_in rest in if str_eq kind "Ready" then is_true_status status else later

unfoldable pub ready_condition_true : StrategyView → Bool
unfolding ready_in
ready_condition_true v = ready_in v.conditions

unfoldable pub reported : Map Condition → List (String × ConditionStatus)
reported [] = []
reported ((kind, c) ∷ rest) = (kind, c.status) ∷ reported rest

-- the loop body of buildStatusReport
unfoldable pub build_status : StrategyState → StrategyAssignmentStatus
unfolding reported
build_status st = record {
  phase = st.phase;
  running_artifact = st.running_artifact;
  running_config = st.running_config;
  conditions = reported st.conditions;
  pid = elim st.proc [ none ↦ 0 | some p ↦ p.pid ];
}

abbrev join_spec : Option StrategyAssignmentSpec → StrategyView
join_spec none = record {
  desired_artifact = none;
  running_artifact = none;
  desired_config = none;
  running_config = none;
  stopped = false;
  phase = DeployPhase.unspecified;
  conditions = [];
  pid = 0;
}
join_spec (some spec) = record {
  desired_artifact = spec.artifact;
  running_artifact = none;
  desired_config = spec.config;
  running_config = none;
  stopped = spec.stopped;
  phase = DeployPhase.unspecified;
  conditions = [];
  pid = 0;
}

abbrev join_status : StrategyView → Option StrategyAssignmentStatus → StrategyView
join_status v none = v
join_status v (some status) = record v {
  phase = status.phase;
  running_artifact = status.running_artifact;
  running_config = status.running_config;
  conditions = status.conditions;
  pid = status.pid;
}

abbrev join_metrics : StrategyView → Option ℕ → StrategyView
join_metrics v none = v
join_metrics v (some pid) = if v.pid == 0 then record v { pid = pid } else v

-- BuildStrategyView, with the pid of the process metrics if there are any
unfoldable pub build_strategy_view :
    Option StrategyAssignmentSpec → Option StrategyAssignmentStatus → Option ℕ → StrategyView
build_strategy_view spec status metrics = join_metrics (join_status (join_spec spec) status) metrics
