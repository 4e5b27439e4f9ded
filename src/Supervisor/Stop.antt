-- ===== src/Supervisor/Stop.antt =====
-- internal/agent/supervisor/stop.go. The struct's fields are functions over a world `S` that the
-- caller injects, so time passes and the process exits as the world decides.
pub mod Ends
use strategon.Prelude.{
  ℕ, zero, suc, ◌+◌, ◌*◌, ◌≤◌, ◌<◌, ◌≡◌, refl, Bool, true, false, Option, none, some, List, [], ◌∷◌,
  ◌⊎◌, inl, inr, ◌-◌, arith, ◌==◌, if◌then◌else◌, Bool-cases,
}
use strategon.Prelude.Time.{Instant, Duration, millisecond, is_before}
use mathlib.Core.Option

pub data Signal : Type 0 where
  sigterm sigkill : Signal

pub record StopSequence (S : Type 0) : Type 0 where
  pub drain : Option (S → S)
  pub signal : Signal → S → S
  pub exited : S → Bool × S
  pub grace : Duration
  pub poll_interval : Duration
  pub sleep : Duration → S → S
  pub now : S → Instant × S

-- What a run returns, the signals that it sent, and the world that it leaves.
pub record Outcome (S : Type 0) : Type 0 where
  pub graceful : Bool
  pub sent : List Signal
  pub world : S

abbrev pub after_drain : {S : Type 0} → Option (S → S) → S → S
after_drain none s = s
after_drain (some drain) s = drain s

module _ {S : Type 0} (seq : StopSequence S) where
  open seq use {drain, signal, exited, grace, poll_interval, sleep, now}

  unfoldable pub poll : Duration
  poll = if poll_interval == 0 then 100 * millisecond else poll_interval

  -- The rounds of the `for`: the first component says whether it returned from inside.
  unfoldable pub wait_exit : ℕ → Instant → S → Option (Bool × S)
  wait_exit zero deadline s = none
  wait_exit (suc fuel) deadline s =
      let (t, s₁) = now s in
      let (gone, s₂) = exited s₁ in
      let rest = wait_exit fuel deadline (sleep poll s₂) in
      if is_before t deadline then if gone then some (true, s₂) else rest else some (false, s₁)

  unfoldable pub last_check : S → Outcome S
  last_check s =
      let (gone, s₁) = exited s in
      if gone
      then record { graceful = true; sent = sigterm ∷ []; world = s₁ }
      else record { graceful = false; sent = sigterm ∷ sigkill ∷ []; world = signal sigkill s₁ }

  abbrev pub finish : Bool × S → Outcome S
  finish (true, s) = record { graceful = true; sent = sigterm ∷ []; world = s }
  finish (false, s) = last_check s

  unfoldable pub after_term : ℕ → S → Option (Outcome S)
  after_term fuel s = let (t, s₁) = now s in Option.map finish (wait_exit fuel (t + grace) s₁)

  unfoldable pub run : ℕ → S → Option (Outcome S)
  run fuel s =
      let (gone, s₁) = exited (after_drain drain s) in
      if gone
      then some (record { graceful = true; sent = []; world = s₁ })
      else after_term fuel (signal sigterm s₁)
