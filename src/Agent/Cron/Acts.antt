-- ===== src/Agent/Cron/Acts.antt =====
-- A schedule acts only while its strategy can run it.
use strategon.Prelude.{
  ℕ, ◌+◌, ◌≡◌, refl, ◌∙◌, String, Bool, true, false, List, [], ◌∷◌, arith, if◌then◌else◌,
}
use strategon.Prelude.Time.{Instant}
use strategon.Proto.{StrategyAssignmentSpec, CronSchedule}
use strategon.Agent.State.{Reconciler}
use strategon.Agent.World.{World, Local, Effect, spawn_stop, hang_up, spawn_script}
use strategon.Agent.Cron.{
  ensure_cron_entry, cron_can_run, defer, eval_entry, entry_name, eval_each, eval_listed,
  eval_schedules,
}

-- The effects by which a schedule acts on the process or starts a script.
abbrev pub acts : Effect → Bool
acts (spawn_stop p grace) = true
acts (hang_up p) = true
acts (spawn_script strategy s) = true
acts _ = false

abbrev pub count_acts : List Effect → ℕ
count_acts [] = 0
count_acts (e ∷ es) = (if acts e then 1 else 0) + count_acts es

-- The schedules leave what the strategy can run, and have not acted.
record Idle (before after : Local) : Type 0 where
  held : cron_can_run after.st ≡ false
  acted : count_acts after.log ≡ count_acts before.log

module _ (w : World) (r : Reconciler) (spec : StrategyAssignmentSpec) (now : Instant) where
  eval_entry-Idle :
      (s : CronSchedule) (name : String) (l : Local)
      → cron_can_run l.st ≡ false
      → Idle l (eval_entry w r spec s name now l)
  unfolding eval_entry defer cron_can_run
  eval_entry-Idle s name l held = ground arith

  ensure-Idle :
      (s : CronSchedule) (name : String) (l : Local)
      → cron_can_run l.st ≡ false
      → Idle l (ensure_cron_entry w s name now l)
  unfolding ensure_cron_entry cron_can_run
  ensure-Idle s name l held = ground arith

  eval_each-Idle :
      (schedules : List CronSchedule) (l : Local)
      → cron_can_run l.st ≡ false
      → Idle l (eval_each w r spec now schedules l)
  unfolding eval_each
  eval_each-Idle [] l held = record { held = held; acted = refl }
  eval_each-Idle (s ∷ rest) l held =
      let name = entry_name w s in
      let a = ensure-Idle s name l held in
      let l₁ = ensure_cron_entry w s name now l in
      let b = eval_entry-Idle s name l₁ a.held in
      let c = eval_each-Idle rest (eval_entry w r spec s name now l₁) b.held in
      record { held = c.held; acted = c.acted ∙ b.acted ∙ a.acted }

  eval_listed-acts :
      (schedules : List CronSchedule) (l : Local)
      → cron_can_run l.st ≡ false
      → count_acts (eval_listed w r spec now schedules l).log ≡ count_acts l.log
  unfolding eval_listed
  eval_listed-acts [] l held = refl
  eval_listed-acts (s ∷ rest) l held = (eval_each-Idle (s ∷ rest) l held).acted

  -- While a deploy is in flight, or the strategy is stopping, not HEALTHY or without a process, none
  -- of its schedules acts: nothing is stopped, signalled or run, however many are due.
  pub schedules_wait :
      (l : Local)
      → cron_can_run l.st ≡ false
      → count_acts (eval_schedules w r spec now l).log ≡ count_acts l.log
  unfolding eval_schedules
  schedules_wait l held = eval_listed-acts spec.schedules l held
