-- ===== src/Agent/Converge/Observed.antt =====
-- The observed generation, and two states in which a strategy without a process is left alone.
use strategon.Prelude.{
  ◌≡◌, ◌≢◌, refl, ◌⊎◌, inl, inr, String, true, false, ◌&&◌, Option, none, some, [], ◌∷◌, arith, Map,
  lookup, str_eq, eq_iff, is_some, Bool-cases, Option-cases,
}
use strategon.Proto.{ArtifactRef, get_version, get_digest, StrategyAssignmentSpec, DeployPhase}
use strategon.Agent.State.{DeployOp, StrategyState, Reconciler}
use strategon.Agent.World.{World, local, err}
use strategon.Supervisor.Backoff.{blocked}
use strategon.Agent.Volumes.{
  contains, when_ready, shared_present, volume_present, volume_writer_conflict_err,
}
use strategon.Agent.Process.{launch_process, start_process_now, start_current, start_failed}
use strategon.Agent.Deploy.{version_matches}
use strategon.Agent.Converge.Effects.{count, is_start, is_deploy}
use strategon.Agent.Converge.{
  converge, deploy_or_skip, skip_bad_version, modes_differ, is_settled, all_settled,
  recompute_observed_generation, reconcile_one, reconcile_live, await_worker, note_spec,
}

all_settled-lookup :
    (r : Reconciler) (m : Map StrategyAssignmentSpec) (name : String)
    {spec : StrategyAssignmentSpec}
    → all_settled r m ≡ true
    → lookup name m ≡ some spec
    → is_settled spec (lookup name r.actual) ≡ true
unfolding all_settled lookup
all_settled-lookup r [] name h found = absurd (ground arith)
all_settled-lookup r ((k, s) ∷ rest) name {spec} h found = elim (Bool-cases (str_eq k name)) [
  | inl here ↦ ground (arith, eq_iff k name)
  | inr there ↦ all_settled-lookup r rest name {spec = spec} (ground arith) (ground arith)
]

-- A strategy that is to be stopped is STOPPED without a process; one that is to run is HEALTHY with
-- a process of the desired bytes and configuration.
abbrev pub AsWanted : StrategyAssignmentSpec → StrategyState → Type 0
AsWanted spec st =
    ((spec.stopped ≡ true) × (st.phase ≡ DeployPhase.stopped) × (st.proc ≡ none))
    ⊎ ((spec.stopped ≡ false)
        × (st.phase ≡ DeployPhase.healthy)
        × (is_some st.proc ≡ true)
        × (a : ArtifactRef) × (st.running_artifact ≡ some a)
        × (str_eq a.digest (get_digest spec.artifact) ≡ true)
        × (str_eq (get_digest spec.config) (get_digest st.running_config) ≡ true))

is_settled-wanted :
    (spec : StrategyAssignmentSpec) (st : StrategyState)
    → is_settled spec (some st) ≡ true
    → AsWanted spec st
unfolding is_settled version_matches
is_settled-wanted spec st h = elim (Bool-cases spec.stopped) [
  | inl halt ↦ inl (halt, ground (arith, halt, h), ground (arith, halt, h))
  | inr runs ↦ elim (Option-cases st.running_artifact) [
    | inl bare ↦ absurd (ground (arith, runs, bare, h))
    | inr (a, has) ↦ inr (
      runs,
      ground (arith, runs, h),
      ground (arith, runs, h),
      a,
      has,
      ground (arith, runs, has, h),
      ground (arith, runs, has, h),
    )
  ]
]

settled-wanted :
    (spec : StrategyAssignmentSpec) (found : Option StrategyState)
    → is_settled spec found ≡ true
    → (st : StrategyState) × (found ≡ some st) × AsWanted spec st
unfolding is_settled
settled-wanted spec none h = absurd (ground arith)
settled-wanted spec (some st) h = (st, refl, is_settled-wanted spec st h)

-- The machine reports a new observed generation only for the generation that it last received, and
-- only when every desired strategy is as it is wanted: STOPPED with no process where it is to be
-- stopped, else HEALTHY with a process whose artifact and configuration have the desired digests.
pub observed_settled :
    (r : Reconciler) (name : String) {spec : StrategyAssignmentSpec}
    → (recompute_observed_generation r).observed_gen ≢ r.observed_gen
    → lookup name r.desired ≡ some spec
    → ((recompute_observed_generation r).observed_gen ≡ r.generation)
      × (st : StrategyState) × (lookup name r.actual ≡ some st)
      × AsWanted spec st
unfolding recompute_observed_generation
observed_settled r name {spec} moved found = elim (Bool-cases (all_settled r r.desired)) [
  | inl e ↦
      let (st, there, wanted) =
        settled-wanted spec (lookup name r.actual)
          (all_settled-lookup r r.desired name {spec = spec} e found) in
      (ground arith, st, there, wanted)
  | inr e ↦ absurd (moved (ground arith))
]

failed_waits :
    (w : World) (r : Reconciler) (spec : StrategyAssignmentSpec) (st : StrategyState)
    (op : DeployOp)
    → st.inflight ≡ some op
    → st.phase ≡ DeployPhase.failed
    → st.proc ≡ none
    → spec.stopped ≡ false
    → let after = reconcile_one w r spec (local st) in
      (after.phase ≡ DeployPhase.failed)
      × (after.proc ≡ none)
      × (after.inflight ≡ some op)
      × (after.log ≡ [])
unfolding reconcile_one reconcile_live await_worker note_spec
failed_waits w r spec st op flying phase dead runs = ground arith

module _ (w : World) (r : Reconciler) (spec : StrategyAssignmentSpec) where
  version_matches-note :
      (st : StrategyState)
      → version_matches spec (note_spec spec (local st)).st ≡ version_matches spec st
  unfolding note_spec version_matches
  version_matches-note st = refl

  restart_fails :
      (st : StrategyState) (op : DeployOp) (e : String)
      → st.inflight ≡ some op
      → st.phase ≡ DeployPhase.health_checking
      → st.proc ≡ none
      → version_matches spec st ≡ true
      → spec.stopped ≡ false
      → launch_process w spec st.running_artifact ≡ err e
      → volume_writer_conflict_err w r st.strategy spec.volume_mounts ≡ none
      → (shared_present w r && volume_present w spec.volume_mounts) ≡ true
      → blocked st.backoff w.now ≡ false
      → contains st.strategy r.reaping ≡ false
      → let failed = (reconcile_one w r spec (local st)).st in
        (failed.phase ≡ DeployPhase.failed) × (failed.inflight ≡ some op) × (failed.proc ≡ none)
  unfolding reconcile_one reconcile_live await_worker note_spec when_ready start_process_now
      start_current start_failed
  restart_fails st op e flying phase dead same runs refuses free gates over kept =
      ground (arith, version_matches-note st)

  -- The new version of a deploy dies in its health window, and its restart fails, with the start
  -- gates open and the backoff over. Then the strategy is FAILED with no process and the deploy
  -- still in flight; and from there no later reconciliation does anything about it, whatever the
  -- world answers: it neither starts a process, nor rolls back, nor gives the deploy up.
  pub failed_restart_sticks :
      (st : StrategyState) (op : DeployOp) (e : String) (later : World)
      → st.inflight ≡ some op
      → st.phase ≡ DeployPhase.health_checking
      → st.proc ≡ none
      → version_matches spec st ≡ true
      → spec.stopped ≡ false
      → launch_process w spec st.running_artifact ≡ err e
      → volume_writer_conflict_err w r st.strategy spec.volume_mounts ≡ none
      → (shared_present w r && volume_present w spec.volume_mounts) ≡ true
      → blocked st.backoff w.now ≡ false
      → contains st.strategy r.reaping ≡ false
      → let failed = (reconcile_one w r spec (local st)).st in
        let after = reconcile_one later r spec (local failed) in
        (failed.phase ≡ DeployPhase.failed)
        × (failed.inflight ≡ some op)
        × (after.phase ≡ DeployPhase.failed)
        × (after.proc ≡ none)
        × (after.inflight ≡ some op)
        × (after.log ≡ [])
  failed_restart_sticks st op e later flying phase dead same runs refuses free gates over kept =
      let failed = (reconcile_one w r spec (local st)).st in
      let (fails, still, gone) =
        restart_fails st op e flying phase dead same runs refuses free gates over kept in
      let (a, b, c, d) = failed_waits later r spec failed op still fails gone runs in
      (fails, still, a, b, c, d)

  -- After a rollback the desired version is the bad one. When the process of the version that was
  -- rolled back to has died, reconciliation does nothing but warn: whatever the world answers, it
  -- starts no process and begins no deploy, and the strategy stays ROLLED_BACK without a process.
  pub dead_rollback_stays_dead :
      (st : StrategyState)
      → st.phase ≡ DeployPhase.rolled_back
      → st.proc ≡ none
      → st.inflight ≡ none
      → version_matches spec st ≡ false
      → str_eq (get_version spec.artifact) st.last_bad_version ≡ true
      → spec.stopped ≡ false
      → let after = reconcile_one w r spec (local st) in
        (after.phase ≡ DeployPhase.rolled_back)
        × (after.proc ≡ none)
        × (after.inflight ≡ none)
        × (count is_start after.log ≡ 0)
        × (count is_deploy after.log ≡ 0)
  unfolding reconcile_one reconcile_live converge deploy_or_skip skip_bad_version note_spec
      modes_differ
  dead_rollback_stays_dead st phase dead idle other bad runs =
      ground (arith, version_matches-note st)
