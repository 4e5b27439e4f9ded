-- ===== src/Prelude/Time.antt =====
-- Instants and durations are nanoseconds. An instant counts from `time.Time{}`, the zero of the
-- type, which lies before every reading of a clock.
use Prim.Native.Nat.{ℕ, ◌*◌}
use mathlib.Core.Bool.{Bool}
use strategon.Prelude.Tests.{ltb}

abbrev pub Instant : Type 0
Instant = ℕ

abbrev pub Duration : Type 0
Duration = ℕ

abbrev pub second : Duration
second = 1_000_000_000

abbrev pub millisecond : Duration
millisecond = 1_000_000

abbrev pub seconds : ℕ → Duration
seconds n = n * second

-- t.After(u), t.Before(u)
abbrev pub is_after : Instant → Instant → Bool
is_after t u = ltb u t

abbrev pub is_before : Instant → Instant → Bool
is_before t u = ltb t u
