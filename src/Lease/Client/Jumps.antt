-- ===== src/Lease/Client/Jumps.antt =====
-- What the jump check of the strategy side of a lease can see.
use strategon.Prelude.{
  ◌+◌, ◌≤◌, ◌≡◌, String, Bool, true, false, Option, none, some, List, [], ◌∷◌, All, arith,
}
use strategon.Prelude.Time.{Instant, Duration}
use strategon.Lease.Client.{
  Reading, Client, apply_grant, CheckError, clock_jump, divergence, check_since, check_before_order,
}

-- The calls of a client, with the readings that each takes.
pub data Call : Type 0 where
  check : Instant → Instant → Call
  grant : String → Instant → Reading → Instant → Call

unfoldable pub step : Client → Call → Client
step c (check now later) = (check_before_order c now later).1
step c (grant id exp now later) = apply_grant c id exp now later

unfoldable pub steps : Client → List Call → Client
steps c [] = c
steps c (call ∷ calls) = steps (step c call) calls

-- The two readings of a check are in order, no earlier than a given instant and at most `d` apart.
abbrev pub Paced : Duration → Instant → Call → Type 0
Paced d start (check now later) = (start ≤ now) × (now ≤ later) × (later ≤ now + d)
Paced d start (grant id exp now later) = Unit

-- The readings of the last check, or of the first grant.
record Baseline (d : Duration) (start : Instant) (c : Client) : Type 0 where
  anchored : c.anchor ≡ some start
  threshold : c.clock_jump_threshold ≡ d
  kept : start ≤ c.last_wall
  elapsed : c.last_wall ≤ start + c.last_elapsed
  near : start + c.last_elapsed ≤ c.last_wall + d

first-Baseline :
    (c : Client) (id : String) (exp : Instant) (first : Reading) (second_mono : Instant)
    → c.anchor ≡ none
    → Baseline c.clock_jump_threshold first.mono (apply_grant c id exp first second_mono)
unfolding apply_grant
first-Baseline c id exp first second_mono new = ground (arith, new)

abbrev pub is_jump : Option CheckError → Bool
is_jump (some clock_jump) = true
is_jump _ = false

module _ (d : Duration) (start : Instant) where
  step-Baseline :
      (c : Client) (call : Call)
      → Paced d start call
      → Baseline d start c
      → Baseline d start (step c call)
  unfolding step check_before_order check_since apply_grant
  step-Baseline c (check now later) pace h = ground (arith, h.anchored, h.threshold, h)
  step-Baseline c (grant id exp now later) pace h = ground (arith, h.anchored, h.threshold, h)

  steps-Baseline :
      (calls : List Call) (c : Client)
      → All (λ call. Paced d start call) calls
      → Baseline d start c
      → Baseline d start (steps c calls)
  unfolding steps
  steps-Baseline [] c pace h = h
  steps-Baseline (call ∷ calls) c pace h =
      steps-Baseline calls (step c call) pace.1 (step-Baseline c call pace.0 h)

  no_jump :
      (c : Client) (now later : Instant)
      → Paced d start (check now later)
      → Baseline d start c
      → is_jump (check_before_order c now later).0 ≡ false
  unfolding check_before_order check_since divergence
  no_jump c now later pace h = ground (arith, h.anchored, h.threshold, h)

-- After its first grant a client makes any calls, renewals among them. As long as the two readings
-- that each check takes, both of the monotonic clock, are in order, no earlier than the one of the
-- first grant and no further apart than the threshold, no check finds a jump of the clock.
pub jump_never_found :
    (c : Client) (id : String) (exp : Instant) (first : Reading) (second_mono : Instant)
    (calls : List Call) (now later : Instant)
    → c.anchor ≡ none
    → All (λ call. Paced c.clock_jump_threshold first.mono call) calls
    → Paced c.clock_jump_threshold first.mono (check now later)
    → let after = steps (apply_grant c id exp first second_mono) calls in
      is_jump (check_before_order after now later).0 ≡ false
jump_never_found c id exp first second_mono calls now later new paces pace =
    let d = c.clock_jump_threshold in
    no_jump d first.mono (steps (apply_grant c id exp first second_mono) calls) now later pace (
      steps-Baseline d first.mono calls (apply_grant c id exp first second_mono) paces
        (first-Baseline c id exp first second_mono new))
