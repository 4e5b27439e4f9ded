-- ===== src/Agent/Deploy/Rollback.antt =====
-- What `beginRollback` leaves behind, on every branch.
use strategon.Prelude.{
  String, ◌≡◌, refl, sym, ◌∙◌, ◌⊎◌, inl, inr, true, false, Option, none, some, arith, is_some,
  Option-cases,
}
use strategon.Proto.{ArtifactRef, get_version, StrategyAssignmentSpec, DeployPhase}
use strategon.Supervisor.Backoff.{reset}
use strategon.Agent.State.{DeployOp, StrategyState, Reconciler}
use strategon.Agent.World.{switch_release, World, Local, emit}
use strategon.Agent.Process.{install_process}
use strategon.Agent.Deploy.{
  rollback_failed, withdraw_bad, stop_failed, start_previous, switch_back, begin_rollback,
  adopt_previous,
}

-- The version that a rollback marks bad: the target of the deploy in flight, else the desired one.
abbrev pub bad_version : StrategyAssignmentSpec → Option DeployOp → String
bad_version spec none = get_version spec.artifact
bad_version spec (some op) = get_version op.target

-- A rollback that went through: the previous version is supervised again.
pub record RolledBack (before after : StrategyState) : Type 0 where
  pub phase : after.phase ≡ DeployPhase.rolled_back
  pub artifact : after.running_artifact ≡ before.prev_artifact
  pub config : after.running_config ≡ before.prev_config
  pub supervised : is_some after.proc ≡ true
  pub expected : after.stopping ≡ false
  pub uncounted : after.backoff.consecutive ≡ 0

-- A rollback that could not: FAILED for this generation, with no process.
pub record GaveUp (r : Reconciler) (after : StrategyState) : Type 0 where
  pub phase : after.phase ≡ DeployPhase.failed
  pub generation : after.failed_at_gen ≡ r.generation
  pub dead : after.proc ≡ none

abbrev Ends : Reconciler → StrategyState → StrategyState → Type 0
Ends r before after = RolledBack before after ⊎ GaveUp r after

start_previous-Ends :
    (w : World) (r : Reconciler) (spec : StrategyAssignmentSpec) (prev : ArtifactRef) (l : Local)
    (before : StrategyState)
    → l.proc ≡ none
    → l.running_artifact ≡ before.prev_artifact
    → l.running_config ≡ before.prev_config
    → Ends r before (start_previous w r spec prev l).st
unfolding start_previous rollback_failed install_process reset
start_previous-Ends w r spec prev l before dead art cfg = ground arith

switch_back-Ends :
    (w : World) (r : Reconciler) (spec : StrategyAssignmentSpec) (l : Local)
    (before : StrategyState)
    → l.proc ≡ none
    → l.prev_artifact ≡ before.prev_artifact
    → l.prev_config ≡ before.prev_config
    → Ends r before (switch_back w r spec l).st
unfolding switch_back rollback_failed
switch_back-Ends w r spec l before dead art cfg = elim (Option-cases l.prev_artifact) [
  | inl e ↦ rw (e, switch_back) (inr (record { phase = refl; generation = refl; dead = dead }))
  | inr (prev, e) ↦
      let l' = emit (switch_release l.strategy prev.version) l in
      elim (Option-cases (w.switch_to l.strategy prev.version)) [
        | inl s ↦
            rw (e, s, switch_back)
              (start_previous-Ends w r spec prev (adopt_previous prev l') before dead (sym e ∙ art)
                cfg)
        | inr (x, s) ↦
            rw (e, s, switch_back) (inr (record { phase = refl; generation = refl; dead = dead }))
      ]
]

-- What the last steps of a rollback leave alone.
pub record Kept (before after : StrategyState) : Type 0 where
  pub inflight : after.inflight ≡ before.inflight
  pub bad : after.last_bad_version ≡ before.last_bad_version
  pub strategy : after.strategy ≡ before.strategy

start_previous-Kept :
    (w : World) (r : Reconciler) (spec : StrategyAssignmentSpec) (prev : ArtifactRef) (l : Local)
    → Kept l.st (start_previous w r spec prev l).st
unfolding start_previous rollback_failed install_process reset
start_previous-Kept w r spec prev l = ground arith

switch_back-Kept :
    (w : World) (r : Reconciler) (spec : StrategyAssignmentSpec) (l : Local)
    → Kept l.st (switch_back w r spec l).st
unfolding switch_back start_previous rollback_failed install_process reset
switch_back-Kept w r spec l = ground arith

-- A rollback withdraws the deploy in flight and marks its version bad. Then either the previous
-- version runs under supervision, with a clean crash count, or the strategy is FAILED for this
-- generation and has no process. It cannot end in any other way.
pub begin_rollback_lem :
    (w : World) (r : Reconciler) (spec : StrategyAssignmentSpec) (l : Local)
    → let after = (begin_rollback w r spec l).st in
      (after.inflight ≡ none)
      × (after.last_bad_version ≡ bad_version spec l.inflight)
      × (RolledBack l.st after ⊎ GaveUp r after)
unfolding begin_rollback
begin_rollback_lem w r spec l =
    let l' = stop_failed spec (withdraw_bad spec l) in
    let kept = switch_back-Kept w r spec l' in
    (
      kept.inflight ∙ ground arith,
      kept.bad ∙ ground arith,
      switch_back-Ends w r spec l' l.st (ground arith) (ground arith) (ground arith),
    )

pub strategy-begin_rollback :
    (w : World) (r : Reconciler) (spec : StrategyAssignmentSpec) (l : Local)
    → (begin_rollback w r spec l).st.strategy ≡ l.st.strategy
unfolding begin_rollback
strategy-begin_rollback w r spec l =
    (switch_back-Kept w r spec (stop_failed spec (withdraw_bad spec l))).strategy ∙ ground arith
