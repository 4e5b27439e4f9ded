-- ===== src/Agent/Converge/Effects.antt =====
-- When `reconcileOne` begins a deploy, and when it starts a process.
use strategon.Prelude.{
  ℕ, suc, String, ◌≡◌, refl, Bool, true, false, not, ◌&&◌, ◌||◌, List, [], ◌∷◌, arith, str_eq, ◌≤◌,
  ◌+◌, is_some, if◌then◌else◌,
}
use strategon.Proto.{get_version, StrategyAssignmentSpec, is_stopped}
use strategon.Supervisor.Backoff.{blocked}
use strategon.Agent.State.{StrategyState, Reconciler}
use strategon.Agent.World.{World, Local, local, Effect, event, spawn_deploy, start_process}
use strategon.Agent.Volumes.{
  contains, when_ready, shared_present, volume_present, volume_writer_conflict_err,
}
use strategon.Agent.Process.{
  start_failed, install_process, started, start_current, start_process_now, ensure_slot_limits,
  write_slot_limits, note_limits, spawn_drain,
}
use strategon.Agent.Deploy.{promote_running_labels, launch_deploy, begin_deploy, version_matches}
use strategon.Agent.Converge.{
  withdraw_deploy, reconcile_stopped, await_worker, steady, restart, skip_bad_version,
  deploy_or_skip, converge, note_spec, has_failed, modes_differ, reconcile_live, reconcile_one,
}

abbrev pub is_deploy : Effect → Bool
is_deploy (spawn_deploy spec p prev) = true
is_deploy _ = false

abbrev pub is_start : Effect → Bool
is_start (start_process sp) = true
is_start _ = false

abbrev pub count : (Effect → Bool) → List Effect → ℕ
count p [] = 0
count p (e ∷ es) = if p e then suc (count p es) else count p es

module _ (w : World) (r : Reconciler) (spec : StrategyAssignmentSpec) where
  start_process_now-deploys :
      (check : Bool) (l : Local)
      → count is_deploy (start_process_now w r spec check l).log ≡ count is_deploy l.log
  unfolding start_process_now start_current start_failed started install_process
  start_process_now-deploys check l = ground arith

  when_ready-count :
      (p : Effect → Bool) (go : Local → Local) (l : Local)
      → ((sev : strategon.Proto.EventSeverity) (s reason : String) → p (event sev s reason) ≡ false)
      → count p (when_ready w r spec go l).log ≡ (
          if shared_present w r && volume_present w spec.volume_mounts
          then count p (go l).log
          else count p l.log)
  unfolding when_ready
  when_ready-count p go l h = ground (
    arith,
    h strategon.Proto.EventSeverity.warning l.strategy "WaitingForShared",
    h strategon.Proto.EventSeverity.warning l.strategy "WaitingForVolume",
  )

  steady-deploys : (l : Local) → count is_deploy (steady w r spec l).log ≡ count is_deploy l.log
  unfolding steady ensure_slot_limits write_slot_limits note_limits promote_running_labels
  steady-deploys l = ground arith

  restart-deploys : (l : Local) → count is_deploy (restart w r spec l).log ≡ count is_deploy l.log
  unfolding restart promote_running_labels
  restart-deploys l =
      let l' = promote_running_labels spec l in
      let go : Local → Local = λ k. start_process_now w r spec (is_stopped k.phase) k in
      ground (
        arith,
        when_ready-count is_deploy go l' (λ sev s reason. refl),
        start_process_now-deploys (is_stopped l'.phase) l',
      )

  await_worker-deploys :
      (l : Local) → count is_deploy (await_worker w r spec l).log ≡ count is_deploy l.log
  unfolding await_worker
  await_worker-deploys l = ground (
    arith,
    when_ready-count is_deploy (start_process_now w r spec true) l (λ sev s reason. refl),
    start_process_now-deploys true l,
  )

  abbrev pub deploy_is_clear : StrategyState → Bool
  deploy_is_clear st =
      not (str_eq (get_version spec.artifact) st.last_bad_version)
      && (shared_present w r
          && (volume_present w spec.volume_mounts
              && not (is_some (volume_writer_conflict_err w r st.strategy spec.volume_mounts))))

  deploy_or_skip-deploys :
      (l : Local)
      → count is_deploy (deploy_or_skip w r spec l).log
        ≡ (if deploy_is_clear l.st then suc (count is_deploy l.log) else count is_deploy l.log)
  unfolding deploy_or_skip skip_bad_version when_ready begin_deploy launch_deploy
  deploy_or_skip-deploys l = ground arith

  -- Everything that a deploy waits for.
  abbrev pub may_deploy : StrategyState → Bool
  may_deploy st =
      not (blocked st.backoff w.now || contains st.strategy r.reaping)
      && (not spec.stopped
          && (not (is_some st.inflight)
              && (not (has_failed r st) && (not (version_matches spec st) && deploy_is_clear st))))

  reconcile_live-deploys :
      (l : Local)
      → count is_deploy (reconcile_live w r spec l).log ≡ (
          if not (is_some l.inflight)
            && (not (has_failed r l.st)
                && (not (version_matches spec l.st) && deploy_is_clear l.st))
          then suc (count is_deploy l.log)
          else count is_deploy l.log)
  unfolding reconcile_live converge modes_differ spawn_drain
  reconcile_live-deploys l =
      ground (
        arith,
        await_worker-deploys l,
        steady-deploys l,
        restart-deploys l,
        deploy_or_skip-deploys l,
      )

  -- Convergence begins a deploy exactly when nothing holds it: the crash backoff is over, the slot
  -- is not being reaped, the strategy is not stopped, no deploy is in flight, it has not failed in
  -- this generation, other bytes are desired than run, the version is not known to be bad, the
  -- shared files and the volumes are on disk, and no other running strategy holds a volume of it.
  pub deploys-reconcile_one :
      (st : StrategyState)
      → count is_deploy (reconcile_one w r spec (local st)).log ≡ (if may_deploy st then 1 else 0)
  unfolding reconcile_one note_spec reconcile_stopped withdraw_deploy spawn_drain version_matches
      has_failed
  deploys-reconcile_one st = ground (arith, reconcile_live-deploys (note_spec spec (local st)))

  start_process_now-starts :
      (check : Bool) (l : Local)
      → count is_start (start_process_now w r spec check l).log ≤ suc (count is_start l.log)
  unfolding start_process_now start_current start_failed started install_process
  start_process_now-starts check l = ground arith

  steady-starts : (l : Local) → count is_start (steady w r spec l).log ≡ count is_start l.log
  unfolding steady ensure_slot_limits write_slot_limits note_limits promote_running_labels
  steady-starts l = ground arith

  restart-starts :
      (l : Local) → count is_start (restart w r spec l).log ≤ suc (count is_start l.log)
  unfolding restart promote_running_labels
  restart-starts l =
      let l' = promote_running_labels spec l in
      let go : Local → Local = λ k. start_process_now w r spec (is_stopped k.phase) k in
      ground (
        arith,
        when_ready-count is_start go l' (λ sev s reason. refl),
        start_process_now-starts (is_stopped l'.phase) l',
      )

  await_worker-starts :
      (l : Local)
      → count is_start (await_worker w r spec l).log
        ≤ (if is_some l.proc then 0 else 1) + count is_start l.log
  unfolding await_worker
  await_worker-starts l = ground (
    arith,
    when_ready-count is_start (start_process_now w r spec true) l (λ sev s reason. refl),
    start_process_now-starts true l,
  )

  deploy_or_skip-starts :
      (l : Local) → count is_start (deploy_or_skip w r spec l).log ≡ count is_start l.log
  unfolding deploy_or_skip skip_bad_version when_ready begin_deploy launch_deploy
  deploy_or_skip-starts l = ground arith

  reconcile_live-starts :
      (l : Local)
      → count is_start (reconcile_live w r spec l).log
        ≤ (if is_some l.proc then 0 else 1) + count is_start l.log
  unfolding reconcile_live converge modes_differ spawn_drain
  reconcile_live-starts l =
      ground
        (arith, await_worker-starts l, steady-starts l, restart-starts l, deploy_or_skip-starts l)

  -- Convergence starts at most one process of a strategy, and none while it supervises one or
  -- holds the strategy back: in its backoff, while its slot is reaped, and while it is stopped.
  pub starts-reconcile_one :
      (st : StrategyState)
      → count is_start (reconcile_one w r spec (local st)).log ≤ (
          if is_some st.proc
            || (blocked st.backoff w.now || contains st.strategy r.reaping || spec.stopped)
          then 0
          else 1)
  unfolding reconcile_one note_spec reconcile_stopped withdraw_deploy spawn_drain
  starts-reconcile_one st = ground (arith, reconcile_live-starts (note_spec spec (local st)))
