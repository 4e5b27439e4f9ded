-- ===== src/Agent/Cron.antt =====
-- internal/agent/reconciler/cron.go, with `NextAfter` of internal/agent/cron/schedule.go. Parsing a
-- crontab line and the time of its next match are the cron library's.
pub mod Acts
pub mod Once
use strategon.Prelude.{
  ℕ, ◌+◌, ◌*◌, String, Bool, true, false, not, ◌&&◌, ◌||◌, Option, none, some, List, [], ◌∷◌, Map,
  lookup, insert, erase, str_eq, ◌==◌, is_some, if◌then◌else◌,
}
use strategon.Prelude.Time.{Instant, Duration, second, seconds, is_before}
use strategon.Proto.{
  StrategyAssignmentSpec, CronSchedule, CronAction, EventSeverity, DeployPhase, is_healthy,
}
use strategon.Agent.State.{Process, CronEntry, StrategyState, Reconciler}
use strategon.Agent.World.{World, Result, ok, err, Local, event, hang_up, spawn_script, emit, put}
use strategon.Agent.Volumes.{contains}
use strategon.Agent.Process.{spawn_drain}

abbrev pub hour : Duration
hour = 3600 * second

-- NextAfter: the next match, put off by a random number of seconds
unfoldable pub next_after : World → CronSchedule → Instant → Result Instant
next_after w s now = elim (w.next_fire s.cron_expr s.timezone now) [
  | err e ↦ err e
  | ok base ↦
      if s.jitter_seconds == 0
      then ok base
      else ok (base + seconds (w.cron_rand (s.jitter_seconds + 1)))
]

unfoldable pub new_entry : World → CronSchedule → Instant → String → CronEntry × Bool
unfolding next_after
new_entry w s now key = elim (next_after w s now) [
  | err e ↦ (record { next_fire = now + 24 * hour; key = key; deferred_logged = false }, false)
  | ok t ↦ (record { next_fire = t; key = key; deferred_logged = false }, true)
]

abbrev pub entries : Option (Map CronEntry) → Map CronEntry
entries none = []
entries (some m) = m

abbrev pub set_entry : String → CronEntry → Local → Local
set_entry name e l = put l (record l.st { cron = some (insert name e (entries l.cron)) })

unfoldable pub is_primed : Option CronEntry → String → Bool
is_primed none key = false
is_primed (some e) key = str_eq e.key key && not (e.next_fire == 0)

-- ensureCronEntry; `w.schedule_key` is scheduleKey
unfoldable pub ensure_cron_entry : World → CronSchedule → String → Instant → Local → Local
unfolding new_entry is_primed
ensure_cron_entry w s name now l =
    let key = w.schedule_key s in
    let (e, parsed) = new_entry w s now key in
    if is_primed (lookup name (entries l.cron)) key
    then l
    else set_entry name e
        (if parsed then l else emit (event EventSeverity.error l.strategy "CronInvalid") l)

-- cronCanRun
unfoldable pub cron_can_run : StrategyState → Bool
cron_can_run st =
    not (is_some st.inflight) && not st.stopping && (is_healthy st.phase && is_some st.proc)

-- dispatchCron; the Boolean says that it returned no error
unfoldable pub dispatch_cron :
    World → Reconciler → StrategyAssignmentSpec → CronSchedule → CronAction → Local → Local × Bool
dispatch_cron w r spec s CronAction.restart l = (spawn_drain r (some spec) l, true)
dispatch_cron w r spec s CronAction.reload_config l = elim l.proc [
  | none ↦ (l, false)
  | some p ↦ (emit (hang_up p) l, if is_some (w.signal_hup p) then false else true)
]
dispatch_cron w r spec s CronAction.run_script l =
    if str_eq s.script_ref "" || is_some (w.run_script spec s)
    then (l, false)
    else (emit (spawn_script l.strategy s) l, true)
dispatch_cron w r spec s CronAction.unspecified l = (l, false)

abbrev pub executed : Bool → Local → Local
executed true l = emit (event EventSeverity.info l.strategy "CronExecuted") l
executed false l = emit (event EventSeverity.error l.strategy "CronFailed") l

abbrev pub fire_time : Instant → Result Instant → Instant
fire_time now (err e) = now + hour
fire_time now (ok t) = t

-- A due schedule while the strategy can run it: act, then advance, also after a failure.
unfoldable pub fire :
    World
    → Reconciler
    → StrategyAssignmentSpec
    → CronSchedule
    → String
    → CronEntry
    → Instant
    → Local
    → Local
unfolding dispatch_cron next_after
fire w r spec s name e now l =
    let (l', done) = dispatch_cron w r spec s s.action l in
    set_entry name
      (record e { deferred_logged = false; next_fire = fire_time now (next_after w s now) })
      (executed done l')

unfoldable pub defer : String → CronEntry → Local → Local
defer name e l =
    if e.deferred_logged
    then l
    else set_entry name (record e { deferred_logged = true })
        (emit (event EventSeverity.info l.strategy "CronDeferred") l)

unfoldable pub eval_entry :
    World → Reconciler → StrategyAssignmentSpec → CronSchedule → String → Instant → Local → Local
unfolding fire defer cron_can_run
eval_entry w r spec s name now l = elim (lookup name (entries l.cron)) [
  | none ↦ l
  | some e ↦
      if is_before now e.next_fire
      then l
      else if cron_can_run l.st
      then fire w r spec s name e now l
      else defer name e l
]

abbrev pub entry_name : World → CronSchedule → String
entry_name w s = if str_eq s.name "" then w.schedule_key s else s.name

unfoldable pub eval_each :
    World → Reconciler → StrategyAssignmentSpec → Instant → List CronSchedule → Local → Local
unfolding eval_entry ensure_cron_entry
eval_each w r spec now [] l = l
eval_each w r spec now (s ∷ rest) l =
    let name = entry_name w s in
    eval_each w r spec now rest (eval_entry w r spec s name now (ensure_cron_entry w s name now l))

-- the last loop: entries of removed schedule names go
unfoldable pub keep_live : List String → Map CronEntry → Map CronEntry
keep_live live [] = []
keep_live live ((n, e) ∷ rest) =
    let kept = keep_live live rest in if contains n live then (n, e) ∷ kept else kept

abbrev pub entry_names : World → List CronSchedule → List String
entry_names w [] = []
entry_names w (s ∷ rest) = entry_name w s ∷ entry_names w rest

unfoldable pub eval_listed :
    World → Reconciler → StrategyAssignmentSpec → Instant → List CronSchedule → Local → Local
unfolding eval_each keep_live
eval_listed w r spec now [] l = put l (record l.st { cron = none })
eval_listed w r spec now (s ∷ rest) l =
    let l' = eval_each w r spec now (s ∷ rest) l in
    put l' (record l'.st { cron = some (keep_live (entry_names w (s ∷ rest)) (entries l'.cron)) })

unfoldable pub eval_schedules :
    World → Reconciler → StrategyAssignmentSpec → Instant → Local → Local
unfolding eval_listed
eval_schedules w r spec now l = eval_listed w r spec now spec.schedules l
