-- ===== src/Agent/Worker.antt =====
-- The deploy worker of internal/agent/reconciler/deploy.go: `runDeploy` and `checkLimits`, as the steps
-- that one run takes, in order. The step `stop` is `gracefulStop`. `send` selects between the main
-- loop and the end of the run's context: which of the two it takes is an answer of the world,
-- `delivers`, for each phase, since a run sends no phase twice.
pub mod Order
use strategon.Prelude.{
  ℕ, String, Bool, true, false, not, Option, none, some, List, [], ◌∷◌, ◌++◌, str_eq, is_some,
  if◌then◌else◌,
}
use strategon.Proto.{ArtifactRef, get_version, StrategyAssignmentSpec, DeployPhase}
use strategon.Agent.State.{Process, Reconciler, WorkerEvent}
use strategon.Agent.World.{World, Result, ok, err, StartSpec}
use strategon.Agent.Volumes.{volume_writer_conflict_err}
use strategon.Agent.Process.{build_start_spec, limits_spec}

-- What the artifact manager answers to one run, when the run's context is found cancelled, and which
-- events the main loop takes; only a cancelled run loses one.
pub record Supply : Type 0 where
  pub download : Option String
  pub verify : Option String
  pub current_version : String
  pub cancelled_at_download : Bool
  pub cancelled_at_switch : Bool
  pub delivers : DeployPhase → Bool

pub data Step : Type 0 where
  deliver lose : WorkerEvent → Step
  fetch : Step
  sweep : List String → Step
  check : Step
  stop : Process → ℕ → Step
  switch_to : String → Step
  start : StartSpec → Step

abbrev pub event_of :
    StrategyAssignmentSpec → DeployPhase → Option String → Option Process → WorkerEvent
event_of spec phase e p = record {
  strategy = spec.strategy;
  phase = phase;
  err = e;
  proc = p;
  artifact = spec.artifact;
  config = spec.config;
  capture_stdio = spec.capture_stdio;
  oci_host_pid = spec.oci_host_pid;
}

-- the closure `send`
abbrev pub send :
    Supply → StrategyAssignmentSpec → DeployPhase → Option String → Option Process → Step
send s spec phase e p =
    if s.delivers phase then deliver (event_of spec phase e p) else lose (event_of spec phase e p)

abbrev pub progress : Supply → StrategyAssignmentSpec → DeployPhase → Step
progress s spec phase = send s spec phase none none

abbrev pub give_up : Supply → StrategyAssignmentSpec → DeployPhase → String → List Step
give_up s spec phase e = send s spec phase (some e) none ∷ []

-- checkLimits
unfoldable pub check_limits : World → StrategyAssignmentSpec → Option String
check_limits w spec = elim w.check_limits [
  | none ↦ none
  | some checker ↦
      checker (record (limits_spec spec) { max_open_files = spec.limits.max_open_files })
]

unfoldable pub start_new : World → Supply → StrategyAssignmentSpec → List Step
start_new w s spec = elim (build_start_spec w spec spec.artifact) [
  | err e ↦ give_up s spec DeployPhase.failed e
  | ok sp ↦ start sp ∷ (elim (w.start sp) [
    | err e ↦ give_up s spec DeployPhase.rolling_back e
    | ok p ↦ send s spec DeployPhase.health_checking none (some p) ∷ []
  ])
]

unfoldable pub switch_and_start : World → Reconciler → Supply → StrategyAssignmentSpec → List Step
unfolding start_new
switch_and_start w r s spec =
    progress s spec DeployPhase.switching
    ∷ switch_to (get_version spec.artifact)
    ∷ (elim (w.switch_to spec.strategy (get_version spec.artifact)) [
      | some e ↦ give_up s spec DeployPhase.failed e
      | none ↦ elim (volume_writer_conflict_err w r spec.strategy spec.volume_mounts) [
        | some e ↦ give_up s spec DeployPhase.failed e
        | none ↦ start_new w s spec
      ]
    ])

-- gracefulStop of the old process, if there is one
abbrev pub stop_old : StrategyAssignmentSpec → Option Process → List Step
stop_old spec none = []
stop_old spec (some p) = stop p spec.deploy_policy.stop_grace_seconds ∷ []

unfoldable pub replace_process :
    World → Reconciler → Supply → StrategyAssignmentSpec → Option Process → List Step
unfolding switch_and_start
replace_process w r s spec old =
    progress s spec DeployPhase.draining
    ∷ (stop_old spec old ++ (if s.cancelled_at_switch then [] else switch_and_start w r s spec))

unfoldable pub verify_and_replace :
    World → Reconciler → Supply → StrategyAssignmentSpec → Option Process → List Step
unfolding replace_process
verify_and_replace w r s spec old = progress s spec DeployPhase.verifying ∷ check ∷ (elim s.verify [
  | some e ↦ give_up s spec DeployPhase.failed e
  | none ↦ elim (check_limits w spec) [
    | some e ↦ give_up s spec DeployPhase.failed e
    | none ↦ replace_process w r s spec old
  ]
])

abbrev pub kept_versions : Supply → StrategyAssignmentSpec → Option ArtifactRef → List String
kept_versions s spec prev =
    get_version spec.artifact
    ∷ ((elim prev [ none ↦ [] | some a ↦ a.version ∷ [] ])
        ++ (if str_eq s.current_version "" then [] else s.current_version ∷ []))

unfoldable pub run_deploy :
    World
    → Reconciler
    → Supply
    → StrategyAssignmentSpec
    → Option Process
    → Option ArtifactRef
    → List Step
unfolding verify_and_replace
run_deploy w r s spec old prev =
    progress s spec DeployPhase.downloading
    ∷ (if s.cancelled_at_download
        then []
        else fetch ∷ (elim s.download [
          | some e ↦ give_up s spec DeployPhase.failed e
          | none ↦ sweep (kept_versions s spec prev) ∷ verify_and_replace w r s spec old
        ]))
