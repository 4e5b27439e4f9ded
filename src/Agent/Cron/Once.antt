-- ===== src/Agent/Cron/Once.antt =====
-- A due time of a schedule is used up at once.
use strategon.Prelude.{
  ◌≡◌, ◌<◌, refl, inl, inr, String, true, false, none, some, arith, lookup, lookup-insert, eq_iff,
  Bool-cases, Option-cases,
}
use strategon.Prelude.Time.{Instant, is_before}
use strategon.Proto.{StrategyAssignmentSpec, CronSchedule}
use strategon.Agent.State.{CronEntry, Reconciler}
use strategon.Agent.World.{World, Local, Result, ok, err}
use strategon.Agent.Cron.{
  next_after, entries, cron_can_run, dispatch_cron, executed, fire_time, fire, defer, eval_entry,
  set_entry,
}

module _ (w : World) (r : Reconciler) (spec : StrategyAssignmentSpec) (now : Instant) where
  lookup-set_entry :
      (name : String) (e : CronEntry) (l : Local)
      → lookup name (entries (set_entry name e l).cron) ≡ some e
  lookup-set_entry name e l =
      ground (arith, lookup-insert name name e (entries l.cron), eq_iff name name)

  fired_entry :
      (s : CronSchedule) (name : String) (e : CronEntry) (l : Local)
      → lookup name (entries (fire w r spec s name e now l).cron)
        ≡ some
            (record e { deferred_logged = false; next_fire = fire_time now (next_after w s now) })
  unfolding fire
  fired_entry s name e l =
      let (l', done) = dispatch_cron w r spec s s.action l in
      lookup-set_entry name
        (record e { deferred_logged = false; next_fire = fire_time now (next_after w s now) })
        (executed done l')

  fire_time-later :
      (s : CronSchedule) (o : Result Instant)
      → ((t : Instant) → w.next_fire s.cron_expr s.timezone now ≡ ok t → now < t)
      → w.next_fire s.cron_expr s.timezone now ≡ o
      → now < fire_time now (next_after w s now)
  unfolding next_after
  fire_time-later s (err e) later eq = rw (eq, next_after) (omega arith)
  fire_time-later s (ok base) later eq = rw (eq, next_after) (ground (arith, later base eq))

  deferred_entry :
      (name : String) (e : CronEntry) (l : Local)
      → lookup name (entries l.cron) ≡ some e
      → lookup name (entries (defer name e l).cron) ≡ some (record e { deferred_logged = true })
  unfolding defer
  deferred_entry name e l found = elim (Bool-cases e.deferred_logged) [
    | inl logged ↦ rw (logged, defer) (ground (arith, found, logged))
    | inr fresh ↦ rw (fresh, defer) (lookup-set_entry name (record e { deferred_logged = true }) l)
  ]

  idle_entry :
      (s : CronSchedule) (name : String) (e : CronEntry) (l : Local)
      → lookup name (entries l.cron) ≡ some e
      → now < e.next_fire
      → eval_entry w r spec s name now l ≡ l
  unfolding eval_entry
  idle_entry s name e l found early = ground arith

  held_entry :
      (s : CronSchedule) (name : String) (e : CronEntry) (l : Local)
      → lookup name (entries l.cron) ≡ some e
      → e.deferred_logged ≡ true
      → cron_can_run l.st ≡ false
      → eval_entry w r spec s name now l ≡ l
  unfolding eval_entry defer
  held_entry s name e l found logged held = ground arith

  missing_entry :
      (s : CronSchedule) (name : String) (l : Local)
      → lookup name (entries l.cron) ≡ none
      → eval_entry w r spec s name now l ≡ l
  unfolding eval_entry
  missing_entry s name l e = rw (e, eval_entry) refl

  due_fires :
      (s : CronSchedule) (name : String) (e : CronEntry) (l : Local)
      → lookup name (entries l.cron) ≡ some e
      → is_before now e.next_fire ≡ false
      → cron_can_run l.st ≡ true
      → eval_entry w r spec s name now l ≡ fire w r spec s name e now l
  unfolding eval_entry
  due_fires s name e l found due can = rw (found, due, can, eval_entry) refl

  due_defers :
      (s : CronSchedule) (name : String) (e : CronEntry) (l : Local)
      → lookup name (entries l.cron) ≡ some e
      → is_before now e.next_fire ≡ false
      → cron_can_run l.st ≡ false
      → eval_entry w r spec s name now l ≡ defer name e l
  unfolding eval_entry
  due_defers s name e l found due held = rw (found, due, held, eval_entry) refl

  defer-held :
      (name : String) (e : CronEntry) (l : Local)
      → cron_can_run l.st ≡ false
      → cron_can_run (defer name e l).st ≡ false
  unfolding defer cron_can_run
  defer-held name e l held = ground arith

  -- Evaluating a schedule a second time at the same instant changes nothing and does nothing: a
  -- due time is used up by the first evaluation, which has fired or has noted that it waits. The
  -- cron library's next match of an instant is taken to lie after it.
  pub eval_entry-again :
      (s : CronSchedule) (name : String) (l : Local)
      → ((t : Instant) → w.next_fire s.cron_expr s.timezone now ≡ ok t → now < t)
      → eval_entry w r spec s name now (eval_entry w r spec s name now l)
        ≡ eval_entry w r spec s name now l
  eval_entry-again s name l later = elim (Option-cases (lookup name (entries l.cron))) [
    | inl e ↦ rw (missing_entry s name l e) (missing_entry s name l e)
    | inr (e, found) ↦ elim (Bool-cases (is_before now e.next_fire)) [
      | inl early ↦ let same = idle_entry s name e l found (ground arith) in rw same same
      | inr due ↦ elim (Bool-cases (cron_can_run l.st)) [
        | inl can ↦ rw (due_fires s name e l found due can) (
            idle_entry s name
              (record e { deferred_logged = false; next_fire = fire_time now (next_after w s now) })
              (fire w r spec s name e now l) (fired_entry s name e l)
              (fire_time-later s (w.next_fire s.cron_expr s.timezone now) later refl))
        | inr held ↦ rw (due_defers s name e l found due held) (
            held_entry s name (record e { deferred_logged = true }) (defer name e l)
              (deferred_entry name e l found) refl (defer-held name e l held))
      ]
    ]
  ]
