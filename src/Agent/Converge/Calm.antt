-- ===== src/Agent/Converge/Calm.antt =====
-- Which steps of a strategy's convergence leave the deploy in flight alone.
use strategon.Prelude.{◌≡◌, ◌⊎◌, Bool, true, Option, none, some, arith}
use strategon.Proto.{StrategyAssignmentSpec, is_stopped}
use strategon.Agent.State.{StrategyState, Reconciler}
use strategon.Agent.World.{World, Local}
use strategon.Agent.Volumes.{when_ready}
use strategon.Agent.Process.{
  start_failed, install_process, started, start_current, start_process_now, ensure_slot_limits,
  write_slot_limits, spawn_drain,
}
use strategon.Agent.Deploy.{promote_running_labels, launch_deploy, begin_deploy}
use strategon.Agent.Converge.{
  withdraw_deploy, reconcile_stopped, await_worker, steady, restart, skip_bad_version,
  deploy_or_skip, converge, note_spec, reconcile_live, reconcile_one,
}

-- The name and the deploy in flight stay.
pub record Calm (before after : StrategyState) : Type 0 where
  pub inflight : after.inflight ≡ before.inflight
  pub strategy : after.strategy ≡ before.strategy

module _ (w : World) (r : Reconciler) (spec : StrategyAssignmentSpec) where
  start_process_now-Calm :
      (check : Bool) (l : Local) → Calm l.st (start_process_now w r spec check l).st
  unfolding start_process_now start_current start_failed started install_process
  start_process_now-Calm check l = ground arith

  spawn_drain-Calm :
      (s : Option StrategyAssignmentSpec) (l : Local) → Calm l.st (spawn_drain r s l).st
  unfolding spawn_drain
  spawn_drain-Calm s l = ground arith

  steady-Calm : (l : Local) → Calm l.st (steady w r spec l).st
  unfolding steady ensure_slot_limits write_slot_limits promote_running_labels
  steady-Calm l = ground arith

  when_ready-Calm :
      (go : Local → Local) (l : Local)
      → Calm l.st (go l).st
      → Calm l.st (when_ready w r spec go l).st
  unfolding when_ready
  when_ready-Calm go l h = ground arith

  restart-Calm : (l : Local) → Calm l.st (restart w r spec l).st
  unfolding restart promote_running_labels
  restart-Calm l =
      let again =
        when_ready-Calm (λ l'. start_process_now w r spec (is_stopped l'.phase) l')
          (promote_running_labels spec l)
          (start_process_now-Calm (is_stopped (promote_running_labels spec l).phase)
            (promote_running_labels spec l)) in
      ground (arith, again)

  await_worker-Calm : (l : Local) → Calm l.st (await_worker w r spec l).st
  unfolding await_worker
  await_worker-Calm l =
      ground
        (arith, when_ready-Calm (start_process_now w r spec true) l (start_process_now-Calm true l))

-- After convergence a deploy in flight is the one that was, or one for the spec's artifact.
pub record Aims (spec : StrategyAssignmentSpec) (before after : StrategyState) : Type 0 where
  pub inflight :
      (after.inflight ≡ none)
      ⊎ (after.inflight ≡ before.inflight)
      ⊎ (after.inflight ≡ some (record { target = spec.artifact; config = spec.config }))
  pub strategy : after.strategy ≡ before.strategy

module _ (w : World) (r : Reconciler) (spec : StrategyAssignmentSpec) where
  begin_deploy-Aims : (l : Local) → Aims spec l.st (begin_deploy w r spec l).st
  unfolding begin_deploy launch_deploy
  begin_deploy-Aims l = ground arith

  deploy_or_skip-Aims : (l : Local) → Aims spec l.st (deploy_or_skip w r spec l).st
  unfolding deploy_or_skip skip_bad_version when_ready
  deploy_or_skip-Aims l = ground (arith, begin_deploy-Aims l)

  converge-Aims : (l : Local) → Aims spec l.st (converge w r spec l).st
  unfolding converge
  converge-Aims l =
      ground (arith, steady-Calm w r spec l, restart-Calm w r spec l, deploy_or_skip-Aims l)

  reconcile_stopped-Aims : (l : Local) → Aims spec l.st (reconcile_stopped r spec l).st
  unfolding reconcile_stopped withdraw_deploy
  reconcile_stopped-Aims l =
      ground (arith, spawn_drain-Calm w r spec (some spec) (withdraw_deploy l))

  reconcile_live-Aims : (l : Local) → Aims spec l.st (reconcile_live w r spec l).st
  unfolding reconcile_live
  reconcile_live-Aims l = ground (
    arith,
    await_worker-Calm w r spec l,
    spawn_drain-Calm w r spec (some spec) l,
    converge-Aims l,
  )

  pub reconcile_one-Aims : (l : Local) → Aims spec l.st (reconcile_one w r spec l).st
  unfolding reconcile_one note_spec
  reconcile_one-Aims l =
      ground
        (arith, reconcile_stopped-Aims (note_spec spec l), reconcile_live-Aims (note_spec spec l))
