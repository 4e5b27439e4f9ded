-- ===== src/Agent/Worker/Order.antt =====
-- The order of a deploy worker's steps: what precedes the end of the old process, and how it ends.
use strategon.Prelude.{
  ℕ, ◌+◌, ◌≤◌, ◌≡◌, Bool, true, false, not, ◌&&◌, ◌||◌, Option, none, some, List, [], ◌∷◌, arith,
  is_some, if◌then◌else◌,
}
use strategon.Proto.{ArtifactRef, StrategyAssignmentSpec, DeployPhase}
use strategon.Agent.State.{Process, Reconciler}
use strategon.Agent.World.{World}
use strategon.Agent.Worker.{
  Supply, Step, deliver, lose, stop, check_limits, start_new, switch_and_start, replace_process,
  verify_and_replace, run_deploy,
}

abbrev pub stops : Step → Bool
stops (stop p grace) = true
stops _ = false

abbrev is_last_word : DeployPhase → Bool
is_last_word DeployPhase.failed = true
is_last_word DeployPhase.rolling_back = true
is_last_word DeployPhase.health_checking = true
is_last_word _ = false

-- An event that ends the deploy for the main loop, one way or the other: taken, or lost.
abbrev pub tells : Step → Bool
tells (deliver ev) = is_last_word ev.phase
tells _ = false

abbrev pub loses : Step → Bool
loses (lose ev) = is_last_word ev.phase
loses _ = false

abbrev pub count : (Step → Bool) → List Step → ℕ
count p [] = 0
count p (x ∷ xs) = (if p x then 1 else 0) + count p xs

module _ (w : World) (r : Reconciler) (s : Supply) (spec : StrategyAssignmentSpec) where
  abbrev pub takes_last : Bool
  takes_last =
      s.delivers DeployPhase.failed
      && (s.delivers DeployPhase.rolling_back && s.delivers DeployPhase.health_checking)

  -- how a list of steps speaks to the main loop: the last words said, and how many are heard
  abbrev Speaks : ℕ → List Step → Type 0
  Speaks n steps =
      (count tells steps + count loses steps ≡ n)
      × ((if takes_last then n else 0) ≤ count tells steps)

  start_new-count : (count stops (start_new w s spec) ≡ 0) × Speaks 1 (start_new w s spec)
  unfolding start_new
  start_new-count = ground arith

  switch_and_start-count :
      (count stops (switch_and_start w r s spec) ≡ 0) × Speaks 1 (switch_and_start w r s spec)
  unfolding switch_and_start
  switch_and_start-count = ground (arith, start_new-count)

  replace_process-count :
      (old : Option Process)
      → (count stops (replace_process w r s spec old) ≡ (if is_some old then 1 else 0))
        × Speaks (if s.cancelled_at_switch then 0 else 1) (replace_process w r s spec old)
  unfolding replace_process
  replace_process-count none = ground (arith, switch_and_start-count)
  replace_process-count (some p) = ground (arith, switch_and_start-count)

  abbrev pub is_supplied : Bool
  is_supplied =
      not s.cancelled_at_download
      && (not (is_some s.download)
          && (not (is_some s.verify) && not (is_some (check_limits w spec))))

  -- A deploy worker stops the old process, and does so once, exactly when there is one and the
  -- new version has been downloaded and verified and its limits can be enforced: until then a
  -- failure leaves the old process running.
  pub run_deploy-stops :
      (old : Option Process) (prev : Option ArtifactRef)
      → count stops (run_deploy w r s spec old prev) ≡ (if is_supplied && is_some old then 1 else 0)
  unfolding run_deploy verify_and_replace
  run_deploy-stops old prev = ground (arith, replace_process-count old)

  -- Unless it was cancelled before the download or, with everything supplied, before the switch, a
  -- deploy worker sends exactly one event that says that the deploy is over (FAILED, ROLLING_BACK or
  -- HEALTH_CHECKING); if it was, it sends none. The main loop takes the event, or it is lost: it is
  -- taken where the sends of the three phases are not lost to the end of the run's context.
  pub run_deploy-ends :
      (old : Option Process) (prev : Option ArtifactRef)
      → let steps = run_deploy w r s spec old prev in
        let sent : ℕ =
          if s.cancelled_at_download || (is_supplied && s.cancelled_at_switch) then 0 else 1 in
        (count tells steps + count loses steps ≡ sent)
        × ((if takes_last then sent else 0) ≤ count tells steps)
  unfolding run_deploy verify_and_replace
  run_deploy-ends old prev = ground (arith, replace_process-count old)
