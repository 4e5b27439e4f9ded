-- ===== src/Agent/Loop/Quiet.antt =====
-- Which handlers of one strategy can only withdraw its deploy in flight, never begin another.
use strategon.Prelude.{
  ℕ, ◌-◌, String, ◌≡◌, refl, ◌⊎◌, inl, inr, Option, none, some, List, [], ◌∷◌, arith, lookup,
  Option-cases,
}
use strategon.Prelude.Time.{Instant}
use strategon.Proto.{StrategyAssignmentSpec, CronSchedule, DeployPhase}
use strategon.Agent.State.{StrategyState, Reconciler, ExitInfo, WorkerEvent, HealthResult}
use strategon.Agent.World.{World, Local}
use strategon.Agent.Process.{install_process, spawn_drain}
use strategon.Agent.Deploy.{
  advance, apply_worker_event, worker_rolling_back, begin_rollback, note_error,
}
use strategon.Agent.Deploy.Rollback.{begin_rollback_lem, strategy-begin_rollback}
use strategon.Agent.Health.{
  tick_strategy, end_window, probe_readiness, apply_health_result, mark_healthy, fail_health_window,
  timed_out,
}
use strategon.Agent.Exit.{
  handle_exit, process_gone, unexpected_exit, crash, clean_exit, leave_healthy, count_crash,
  report_loop, mark_gone,
}
use strategon.Agent.Cron.{
  eval_schedules, eval_each, eval_entry, ensure_cron_entry, fire, defer, dispatch_cron, entry_name,
}

-- The name stays, and the deploy in flight stays or is withdrawn.
pub record Quiet (before after : StrategyState) : Type 0 where
  pub inflight : (after.inflight ≡ none) ⊎ (after.inflight ≡ before.inflight)
  pub strategy : after.strategy ≡ before.strategy

module _ (w : World) (r : Reconciler) where
  begin_rollback-Quiet :
      (spec : StrategyAssignmentSpec) (l : Local) → Quiet l.st (begin_rollback w r spec l).st
  begin_rollback-Quiet spec l = record {
    inflight = inl (begin_rollback_lem w r spec l).0;
    strategy = strategy-begin_rollback w r spec l;
  }

  worker_rolling_back-Quiet :
      (ev : WorkerEvent) (l : Local) → Quiet l.st (worker_rolling_back w r ev l).st
  unfolding worker_rolling_back
  worker_rolling_back-Quiet ev l = elim (Option-cases (lookup ev.strategy r.desired)) [
    | inl e ↦ rw (e, worker_rolling_back) (record { inflight = inr refl; strategy = refl })
    | inr (spec, e) ↦
        rw (e, worker_rolling_back) (ground (arith, begin_rollback-Quiet spec (note_error ev l)))
  ]

  advance-Quiet :
      (ev : WorkerEvent) (phase : DeployPhase) (l : Local) → Quiet l.st (advance w r ev phase l).st
  unfolding advance install_process
  advance-Quiet ev DeployPhase.rolling_back l = worker_rolling_back-Quiet ev l
  advance-Quiet ev _ l = ground arith

  pub apply_worker_event-Quiet :
      (ev : WorkerEvent) (l : Local) → Quiet l.st (apply_worker_event w r ev l).st
  unfolding apply_worker_event
  apply_worker_event-Quiet ev l = ground (arith, advance-Quiet ev ev.phase l)

  end_window-Quiet :
      (spec : Option StrategyAssignmentSpec) (l : Local) → Quiet l.st (end_window w r spec l).st
  unfolding end_window mark_healthy fail_health_window
  end_window-Quiet none l = ground arith
  end_window-Quiet (some spec) l = ground (arith, begin_rollback-Quiet spec (timed_out l))

  pub tick_strategy-Quiet : (now : Instant) (l : Local) → Quiet l.st (tick_strategy w r now l).st
  unfolding tick_strategy probe_readiness
  tick_strategy-Quiet now l = ground (arith, end_window-Quiet (lookup l.strategy r.desired) l)

  pub apply_health_result-Quiet :
      (hr : HealthResult) (l : Local) → Quiet l.st (apply_health_result w r hr l).st
  unfolding apply_health_result
  apply_health_result-Quiet hr l = ground arith

  crash-Quiet :
      (spec : StrategyAssignmentSpec) (info : ExitInfo) (l : Local)
      → Quiet l.st (crash w r spec info l).st
  unfolding crash leave_healthy
  crash-Quiet spec info l =
      ground (arith, begin_rollback-Quiet spec (report_loop (count_crash w r info l)))

  unexpected_exit-Quiet :
      (spec : StrategyAssignmentSpec) (info : ExitInfo) (lived : ℕ) (l : Local)
      → Quiet l.st (unexpected_exit w r spec info lived l).st
  unfolding unexpected_exit clean_exit leave_healthy
  unexpected_exit-Quiet spec info lived l = ground (arith, crash-Quiet spec info l)

  -- A strategy that stays after an exit.
  pub handle_exit-Quiet :
      (info : ExitInfo) (l : Local) {l' : Local}
      → handle_exit w r info l ≡ some l'
      → Quiet l.st l'.st
  unfolding handle_exit process_gone
  handle_exit-Quiet info l e = elim (Option-cases l.proc) [
    | inl none_runs ↦ ground arith
    | inr (p, runs) ↦ elim (Option-cases (lookup l.strategy r.desired)) [
      | inl gone ↦ ground arith
      | inr (spec, wanted) ↦
          ground
            (arith, unexpected_exit-Quiet spec info (info.at_time - p.started_at) (mark_gone w l))
    ]
  ]

  dispatch_cron-Quiet :
      (spec : StrategyAssignmentSpec) (s : CronSchedule) (l : Local)
      → Quiet l.st (dispatch_cron w r spec s s.action l).0.st
  unfolding dispatch_cron spawn_drain
  dispatch_cron-Quiet spec s l = ground arith

  eval_entry-Quiet :
      (spec : StrategyAssignmentSpec) (s : CronSchedule) (name : String) (now : Instant) (l : Local)
      → Quiet l.st (eval_entry w r spec s name now l).st
  unfolding eval_entry fire defer
  eval_entry-Quiet spec s name now l = ground (arith, dispatch_cron-Quiet spec s l)

  ensure_cron_entry-Quiet :
      (s : CronSchedule) (name : String) (now : Instant) (l : Local)
      → Quiet l.st (ensure_cron_entry w s name now l).st
  unfolding ensure_cron_entry
  ensure_cron_entry-Quiet s name now l = ground arith

  Quiet-trans : {a b c : StrategyState} → Quiet a b → Quiet b c → Quiet a c
  Quiet-trans p q = ground arith

  eval_each-Quiet :
      (spec : StrategyAssignmentSpec) (now : Instant) (rest : List CronSchedule) (l : Local)
      → Quiet l.st (eval_each w r spec now rest l).st
  unfolding eval_each
  eval_each-Quiet spec now [] l = record { inflight = inr refl; strategy = refl }
  eval_each-Quiet spec now (s ∷ rest) l =
      let name = entry_name w s in
      let l₁ = ensure_cron_entry w s name now l in
      Quiet-trans (ensure_cron_entry-Quiet s name now l) (
        Quiet-trans (eval_entry-Quiet spec s name now l₁)
          (eval_each-Quiet spec now rest (eval_entry w r spec s name now l₁)))

  pub eval_schedules-Quiet :
      (spec : StrategyAssignmentSpec) (now : Instant) (l : Local)
      → Quiet l.st (eval_schedules w r spec now l).st
  unfolding eval_schedules
  eval_schedules-Quiet spec now l = ground (arith, eval_each-Quiet spec now spec.schedules l)
