-- ===== src/Agent/Loop/Fetches.antt =====
-- Over the rounds of the loop, the fetches of shared files stay within their cap.
use strategon.Prelude.{
  ◌≡◌, ◌≤◌, refl, ◌∙◌, inl, inr, String, Option, none, some, List, [], ◌∷◌, arith, Map, lookup,
  is_some, Bool-cases, Option-cases,
}
use strategon.Prelude.Time.{Instant}
use strategon.Proto.{StrategyAssignmentSpec, DesiredState, VolumesSpec}
use strategon.Agent.State.{StrategyState, SharedFileState, Reconciler, ProcessExit}
use strategon.Agent.World.{World, Local, local}
use strategon.Agent.Volumes.{reconcile_volumes}
use strategon.Agent.Shared.{
  max_shared_fetches, count_inflight, apply_desired_shared, reconcile_shared,
}
use strategon.Agent.Shared.Cap.{
  reconcile_shared-count, apply_desired_shared-count, apply_shared_worker_event-count,
}
use strategon.Agent.Exit.{handle_exit}
use strategon.Agent.Health.{tick_strategy, apply_health_result}
use strategon.Agent.Cron.{eval_schedules}
use strategon.Agent.Deploy.{apply_worker_event}
use strategon.Agent.Converge.{reconcile_one, retire_strategy, recompute_observed_generation}
use strategon.Agent.Loop.{
  on_strategy, exit_round, finish_exit, set_actual, state_of, retired, converge_desired,
  retire_undesired, apply_desired, apply_desired_volumes, reconcile, tick_strategies, tick_cron,
  tick, Event, new_desired, process_exit, worker, shared_worker, health, clock_tick, handle, round,
}
use strategon.Agent.Loop.OnTarget.{rounds}

abbrev shared : Reconciler → Map SharedFileState
shared r = r.shared_actual

on_strategy-shared :
    (r : Reconciler) (name : String) (f : Local → Local)
    → shared (on_strategy r name f).0 ≡ shared r
unfolding on_strategy
on_strategy-shared r name f = ground arith

finish_exit-shared :
    (r : Reconciler) (name : String) (o : Option Local) → shared (finish_exit r name o).0 ≡ shared r
finish_exit-shared r name none = refl
finish_exit-shared r name (some l) = refl

retired-shared :
    (r : Reconciler) (name : String) (o : Option StrategyState)
    → shared (retired r name o) ≡ shared r
retired-shared r name none = refl
retired-shared r name (some st) = refl

volumes-shared :
    (v : Option VolumesSpec) (r : Reconciler) → shared (apply_desired_volumes v r) ≡ shared r
unfolding apply_desired_volumes
volumes-shared none r = refl
volumes-shared (some v) r = refl

module _ (w : World) where
  exit_round-shared : (r : Reconciler) (ex : ProcessExit) → shared (exit_round w r ex).0 ≡ shared r
  unfolding exit_round
  exit_round-shared r ex = elim (Option-cases (lookup ex.strategy r.actual)) [
    | inl e ↦ rw (e, exit_round) refl
    | inr (st, e) ↦
        rw (e, exit_round) (finish_exit-shared r ex.strategy (handle_exit w r ex.info (local st)))
  ]

  converge_desired-shared :
      (r : Reconciler) (m : Map StrategyAssignmentSpec)
      → shared (converge_desired w r m).0 ≡ shared r
  unfolding converge_desired
  converge_desired-shared r [] = refl
  converge_desired-shared r ((name, spec) ∷ rest) =
      converge_desired-shared
        (set_actual r name
          (reconcile_one w r spec (local (state_of name (lookup name r.actual)))).st)
        rest

  retire_undesired-shared :
      (r : Reconciler) (m : Map StrategyState) → shared (retire_undesired r m).0 ≡ shared r
  unfolding retire_undesired
  retire_undesired-shared r [] = refl
  retire_undesired-shared r ((name, st) ∷ rest) =
      elim (Bool-cases (is_some (lookup name r.desired))) [
        | inl e ↦ rw (e, retire_undesired) (retire_undesired-shared r rest)
        | inr e ↦
            let left = (retire_strategy r (local st)).0 in
            rw (e, retire_undesired)
              (retire_undesired-shared (retired r name left) rest ∙ retired-shared r name left)
      ]

  tick_strategies-shared :
      (r : Reconciler) (now : Instant) (m : Map StrategyState)
      → shared (tick_strategies w r now m).0 ≡ shared r
  unfolding tick_strategies
  tick_strategies-shared r now [] = refl
  tick_strategies-shared r now ((name, st) ∷ rest) =
      tick_strategies-shared (on_strategy r name (tick_strategy w r now)).0 now rest
      ∙ on_strategy-shared r name (tick_strategy w r now)

  tick_cron-shared :
      (r : Reconciler) (now : Instant) (m : Map StrategyAssignmentSpec)
      → shared (tick_cron w r now m).0 ≡ shared r
  unfolding tick_cron
  tick_cron-shared r now [] = refl
  tick_cron-shared r now ((name, spec) ∷ rest) =
      tick_cron-shared (on_strategy r name (eval_schedules w r spec now)).0 now rest
      ∙ on_strategy-shared r name (eval_schedules w r spec now)

  apply_desired-count :
      (ds : DesiredState) (r : Reconciler)
      → count_inflight (shared (apply_desired ds r).0) ≤ count_inflight (shared r)
  unfolding apply_desired
  apply_desired-count ds r =
      let r' = record r { generation = ds.generation } in
      rw (volumes-shared ds.volumes (apply_desired_shared ds.shared r').0)
        (apply_desired_shared-count ds.shared r')

  handle-count :
      (ev : Event) (r : Reconciler)
      → count_inflight (shared (handle w ev r).0) ≤ count_inflight (shared r)
  unfolding handle tick
  handle-count (new_desired ds) r = apply_desired-count ds r
  handle-count (process_exit ex) r = rw (exit_round-shared r ex) (omega arith)
  handle-count (worker ev) r =
      rw (on_strategy-shared r ev.strategy (apply_worker_event w r ev)) (omega arith)
  handle-count (shared_worker ev) r = apply_shared_worker_event-count w ev r
  handle-count (health hr) r =
      rw (on_strategy-shared r hr.strategy (apply_health_result w r hr)) (omega arith)
  handle-count (clock_tick now) r =
      let r₁ = (tick_strategies w r now r.actual).0 in
      rw (tick_cron-shared r₁ now r₁.desired, tick_strategies-shared r now r.actual) (omega arith)

  reconcile_volumes-shared : (r : Reconciler) → shared (reconcile_volumes w r).0 ≡ shared r
  unfolding reconcile_volumes
  reconcile_volumes-shared r = ground arith

  recompute-shared : (r : Reconciler) → shared (recompute_observed_generation r) ≡ shared r
  unfolding recompute_observed_generation
  recompute-shared r = ground arith

  reconcile-count :
      (r : Reconciler)
      → count_inflight (shared r) ≤ max_shared_fetches
      → count_inflight (shared (reconcile w r).0) ≤ max_shared_fetches
  unfolding reconcile
  reconcile-count r h =
      let r₁ = (reconcile_shared w r).0 in
      let r₂ = (reconcile_volumes w r₁).0 in
      let r₃ = (converge_desired w r₂ r₂.desired).0 in
      let r₄ = (retire_undesired r₃ r₃.actual).0 in
      rw
        (
          recompute-shared r₄,
          retire_undesired-shared r₃ r₃.actual,
          converge_desired-shared r₂ r₂.desired,
          reconcile_volumes-shared r₁,
        )
        (reconcile_shared-count w r h)

-- From a state with no more fetches of shared files in flight than the cap, no rounds of the loop on
-- desired states, exits, worker results, shared files, probe results and clock ticks ever leave more
-- in flight than the cap.
pub rounds-fetches :
    (evs : List (World × Event)) (r : Reconciler)
    → count_inflight (shared r) ≤ max_shared_fetches
    → count_inflight (shared (rounds evs r)) ≤ max_shared_fetches
unfolding rounds round
rounds-fetches [] r h = h
rounds-fetches ((w, ev) ∷ rest) r h =
    rounds-fetches rest (round w ev r).0
      (reconcile-count w (handle w ev r).0 (ground (arith, handle-count w ev r)))
