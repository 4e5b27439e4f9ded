-- ===== src/Supervisor/Backoff/Bounds.antt =====
-- The crash backoff doubles from one second to its cap, and holds restarts off for that long.
use strategon.Prelude.{
  ℕ, zero, suc, ◌+◌, ◌*◌, ◌/◌, ◌^◌, ◌≤◌, ◌≡◌, refl, false, Option, none, some, arith, List, [], ◌∷◌,
  length, ltb, if◌then◌else◌,
}
use strategon.Prelude.Time.{Instant, Duration, second}
use strategon.Supervisor.Backoff.{
  BackoffState, fresh, blocked, reset, backoff_shift, exp_backoff, record_crash, max_backoff_shift,
}

backoff_shift-le : (n : ℕ) → backoff_shift n ≤ 6
unfolding backoff_shift
backoff_shift-le n = ground arith

pow_bounds : (k : ℕ) → k ≤ 6 → (1 ≤ 2 ^ k) × (2 ^ k ≤ 64)
pow_bounds zero h = omega arith
pow_bounds (suc zero) h = omega arith
pow_bounds (suc (suc zero)) h = omega arith
pow_bounds (suc (suc (suc zero))) h = omega arith
pow_bounds (suc (suc (suc (suc zero)))) h = omega arith
pow_bounds (suc (suc (suc (suc (suc zero))))) h = omega arith
pow_bounds (suc (suc (suc (suc (suc (suc zero)))))) h = omega arith
pow_bounds (suc (suc (suc (suc (suc (suc (suc k))))))) h = absurd (omega arith)

-- The wait without its jitter.
pub base_bounds : (n : ℕ) → (second ≤ exp_backoff n none) × (exp_backoff n none ≤ 64 * second)
unfolding exp_backoff
base_bounds n = omega (arith, pow_bounds (backoff_shift n) (backoff_shift-le n))

-- Where the jitter of a wait d stays within d, every wait lies between one second and 80 seconds,
-- whatever the number of crashes.
pub exp_backoff_bounds :
    (n : ℕ) (jitter : Duration → Duration)
    → ((d : Duration) → jitter d ≤ d)
    → (second ≤ exp_backoff n (some jitter)) × (exp_backoff n (some jitter) ≤ 80 * second)
unfolding exp_backoff
exp_backoff_bounds n jitter h =
    omega (
      arith,
      pow_bounds (backoff_shift n) (backoff_shift-le n),
      h (second * 2 ^ backoff_shift n / 4),
    )

-- One more crash doubles the wait up to the cap of 64 seconds, and then leaves it there.
pub exp_backoff_doubles :
    (n : ℕ)
    → exp_backoff (suc (suc n)) none
      ≡ (if ltb n max_backoff_shift then 2 * exp_backoff (suc n) none else 64 * second)
unfolding exp_backoff backoff_shift
exp_backoff_doubles zero = refl
exp_backoff_doubles (suc zero) = refl
exp_backoff_doubles (suc (suc zero)) = refl
exp_backoff_doubles (suc (suc (suc zero))) = refl
exp_backoff_doubles (suc (suc (suc (suc zero)))) = refl
exp_backoff_doubles (suc (suc (suc (suc (suc zero))))) = refl
exp_backoff_doubles (suc (suc (suc (suc (suc (suc n)))))) = ground arith

-- n crashes in a row, at the given times.
abbrev pub crashes : Option (Duration → Duration) → BackoffState → List Instant → BackoffState
crashes jitter b [] = b
crashes jitter b (t ∷ ts) = crashes jitter (record_crash b t jitter) ts

consecutive-crashes :
    (jitter : Option (Duration → Duration)) (b : BackoffState) (ts : List Instant)
    → (crashes jitter b ts).consecutive ≡ b.consecutive + length ts
unfolding record_crash
consecutive-crashes jitter b [] = omega arith
consecutive-crashes jitter b (t ∷ ts) =
    omega (arith, consecutive-crashes jitter (record_crash b t jitter) ts)

-- After any run of crashes from the state of a clean start, ended by one more at `now`, restarts
-- are held off until exactly the wait for that many crashes has passed; and a reset lifts the
-- hold at once.
pub blocked-crashes :
    (jitter : Option (Duration → Duration)) (ts : List Instant) (now later : Instant)
    → let b = record_crash (crashes jitter fresh ts) now jitter in
      (blocked b later ≡ ltb later (now + exp_backoff (suc (length ts)) jitter))
      × (blocked (reset b) later ≡ false)
unfolding blocked reset record_crash
blocked-crashes jitter ts now later =
    (ground (arith, consecutive-crashes jitter fresh ts), ground arith)
