-- ===== src/Lease/Client.antt =====
-- The strategy side of a lease: sdk/lease/client.go. Readings of the clocks are arguments, one for
-- each time that the code reads them. A value of `time.Now` holds a wall and a monotonic reading, and
-- `Sub` and `Since` of two such values subtract the monotonic ones; only the distance to the expiry,
-- which comes from a message, is by the wall clock.
pub mod Jumps
use strategon.Prelude.{◌+◌, ◌-◌, ◌/◌, String, Option, none, some, str_eq, ltb, leb, if◌then◌else◌}
use strategon.Prelude.Time.{Instant, Duration, second, seconds}

pub record Reading : Type 0 where
  pub wall : Instant
  pub mono : Instant

-- The zero anchor is `none`; `last_wall` is zero exactly as long as the anchor is. Both are kept for
-- later subtractions from values of `time.Now`, so they are monotonic readings.
pub record Client : Type 0 where
  pub margin : Duration
  pub clock_jump_threshold : Duration
  pub lease_id : String
  pub deadline_mono : Duration
  pub anchor : Option Instant
  pub expires_at : Instant
  pub last_wall : Instant
  pub last_elapsed : Duration

abbrev pub default_margin_agent : Duration
default_margin_agent = second

-- New, with the defaults for the margin and the threshold where the configuration has none
unfoldable pub new_client : Duration → Duration → Client
new_client margin threshold = record {
  margin = if leb margin 0 then default_margin_agent else margin;
  clock_jump_threshold = if leb threshold 0 then seconds 2 else threshold;
  lease_id = "";
  deadline_mono = 0;
  anchor = none;
  expires_at = 0;
  last_wall = 0;
  last_elapsed = 0;
}

-- applyGrant, which reads the clocks at `now`; when it renews, `time.Since` reads again at `later`.
-- Subtraction stops at 0, where the source sets a negative time to 0.
unfoldable pub apply_grant : Client → String → Instant → Reading → Instant → Client
apply_grant c id exp now later =
    let until = exp - now.wall - c.margin in
    elim c.anchor [
      | none ↦ record c {
        lease_id = id;
        expires_at = exp;
        anchor = some now.mono;
        deadline_mono = until;
        last_wall = now.mono;
        last_elapsed = 0;
      }
      | some anchor ↦ record c {
        lease_id = id;
        expires_at = exp;
        deadline_mono = (later - anchor) + until;
      }
    ]

pub data CheckError : Type 0 where
  not_acquired deadline_expired clock_jump : CheckError

-- the absolute value of dWall - dMono; each of the two advances may be negative
unfoldable pub divergence : Instant → Instant → Duration → Duration → Duration
divergence now last_wall elapsed last_elapsed =
    ((now + last_elapsed) - (last_wall + elapsed)) + ((last_wall + elapsed) - (now + last_elapsed))

-- the part of CheckBeforeOrder past the lease id, on the anchor
unfoldable pub check_since : Client → Instant → Instant → Instant → Option CheckError × Client
unfolding divergence
check_since c anchor now later =
    let elapsed = later - anchor in
    if leb c.deadline_mono elapsed
    then (some deadline_expired, c)
    else if ltb c.clock_jump_threshold (divergence now c.last_wall elapsed c.last_elapsed)
    then (some clock_jump, c)
    else (none, record c { last_wall = now; last_elapsed = elapsed })

-- CheckBeforeOrder, which reads the clock at `now` and, in `time.Since`, at `later`; no error means
-- that the order may go out
unfoldable pub check_before_order : Client → Instant → Instant → Option CheckError × Client
unfolding check_since
check_before_order c now later =
    if str_eq c.lease_id "" then (some not_acquired, c) else elim c.anchor [
      | none ↦ (some deadline_expired, c)
      | some anchor ↦ check_since c anchor now later
    ]

-- renewInterval
unfoldable pub renew_interval : Duration → Duration
renew_interval ttl = let d = ttl / 3 in if ltb d second then second else d
