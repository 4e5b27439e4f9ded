-- ===== src/Supervisor/Backoff.antt =====
-- internal/agent/supervisor/backoff.go
pub mod Bounds
use strategon.Prelude.{
  ℕ, suc, ◌+◌, ◌-◌, ◌*◌, ◌/◌, ◌^◌, ◌≤◌, ◌<◌, ◌≡◌, refl, Bool, true, false, Option, none, some,
  arith, ltb, leb, if◌then◌else◌,
}
use strategon.Prelude.Time.{Instant, Duration, second, seconds, is_after, is_before}

abbrev pub base_backoff : Duration
base_backoff = second

abbrev pub max_backoff_shift : ℕ
max_backoff_shift = 6

pub record BackoffState : Type 0 where
  pub consecutive : ℕ
  pub blocked_until : Instant

abbrev pub fresh : BackoffState
fresh = record { consecutive = 0; blocked_until = 0 }

unfoldable pub blocked : BackoffState → Instant → Bool
blocked b now = is_after b.blocked_until now

unfoldable pub reset : BackoffState → BackoffState
reset b = record b { consecutive = 0; blocked_until = 0 }

-- `n - 1` on ℕ stops at 0, where the source sets a negative shift to 0
unfoldable pub backoff_shift : ℕ → ℕ
backoff_shift n =
    let shift = n - 1 in if ltb max_backoff_shift shift then max_backoff_shift else shift

unfoldable pub exp_backoff : ℕ → Option (Duration → Duration) → Duration
unfolding backoff_shift
exp_backoff n none = base_backoff * 2 ^ backoff_shift n
exp_backoff n (some jitter) = let d = base_backoff * 2 ^ backoff_shift n in d + jitter (d / 4)

unfoldable pub record_crash : BackoffState → Instant → Option (Duration → Duration) → BackoffState
record_crash b now jitter =
    let n = suc b.consecutive in
    record b { consecutive = n; blocked_until = now + exp_backoff n jitter }

unfoldable pub crashed_on_start : Duration → ℕ → Bool
crashed_on_start lived startsecs = ltb lived (seconds startsecs)
