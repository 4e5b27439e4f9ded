-- ===== src/Lease/Fencing.antt =====
-- Fencing: a lease that one machine holds is not granted to another before it has run out, with the
-- control plane's margin, and no order goes out after such a takeover.
use strategon.Prelude.{
  ℕ, ◌+◌, ◌≤◌, ◌<◌, ◌≡◌, inl, inr, String, true, false, Option, none, some, List, All, arith,
  lookup, str_eq, ltb, Bool-cases,
}
use strategon.Prelude.Time.{Instant, Duration, seconds}
use strategon.Lease.{
  LeaseResult, LeaseStore, lease_free_for, acquire_lease, or_ttl, acquire, serve, Arrival,
  serve_all,
}
use strategon.Lease.Held.{Held, shortens, in_order, free-owner, serve_all-margin, serve_all-Held}
use strategon.Lease.Client.{Client, Reading, apply_grant, check_before_order, check_since}

-- What an acquire grants is free for the machine that asks.
acquire-free :
    (st : LeaseStore) (t : Instant) (m s : String) (ttl : Duration) (id : Option String)
    {res : LeaseResult}
    → (acquire_lease st t m s ttl id).0 ≡ some res
    → res.granted ≡ true
    → lease_free_for (lookup s st.leases) m t st.lease_margin ≡ none
unfolding acquire_lease
acquire-free st t m s ttl id {res} e won = ground arith

serve-free :
    (st : LeaseStore) (t : Instant) (peer : Option String) (m s : String) (n : ℕ)
    (id : Option String) {res : LeaseResult}
    → (serve st t peer (acquire m s n id)).0 ≡ some res
    → res.granted ≡ true
    → lease_free_for (lookup s st.leases) m t st.lease_margin ≡ none
unfolding serve
serve-free st t peer m s n id {res} e won =
    acquire-free st t m s (or_ttl (seconds n) (seconds 30)) id {res = res} (ground arith) won

-- A machine holds the lease of a strategy until at least some instant. Then any calls arrive in
-- time order, among which the holder itself never asks for less than it has, and at last another
-- machine is granted the lease: this happens later than that instant plus the margin of the
-- control plane.
pub takeover_waits :
    (st : LeaseStore) (strategy machine : String) (until now t : Instant) (arrivals : List Arrival)
    (peer : Option String) (other : String) (n : ℕ) (id : Option String) {res : LeaseResult}
    → Held st strategy machine until now
    → in_order now arrivals t ≡ true
    → All (λ a. shortens strategy machine until a ≡ false) arrivals
    → str_eq other machine ≡ false
    → (serve (serve_all st arrivals) t peer (acquire other strategy n id)).0 ≡ some res
    → res.granted ≡ true
    → until + st.lease_margin < t
takeover_waits st strategy machine until now t arrivals peer other n id h order long differ e won =
    elim (Bool-cases (ltb (until + st.lease_margin) t)) [
      | inl late ↦ ground arith
      | inr soon ↦
          let after = serve_all st arrivals in
          let kept =
            serve_all-Held arrivals st strategy machine until now t order (ground arith) long h in
          let mine =
            free-owner after strategy machine until t other t
              (ground (arith, serve_all-margin st arrivals)) kept
              (serve-free after t peer other strategy n id e won) in
          absurd (ground arith)
    ]

-- An order that passes the check lies before the deadline that the last grant set, by the
-- monotonic clock and less the margin of the strategy. The deadline counts from the second reading
-- that a renewal takes.
pub check_before_order-grant :
    (c : Client) (id : String) (exp : Instant) (got : Reading) (then_mono now later : Instant)
    → (elim c.anchor [ none ↦ 0 | some anchor ↦ anchor ]) ≤ got.mono
    → got.mono ≤ then_mono
    → then_mono ≤ later
    → (check_before_order (apply_grant c id exp got then_mono) now later).0 ≡ none
    → later + got.wall + c.margin < exp + then_mono
unfolding check_before_order apply_grant check_since
check_before_order-grant c id exp got then_mono now later anchored again after passes = ground arith

-- A machine holds the lease of a strategy until an instant. Any calls arrive in time order, among
-- which the holder never asks for less than it has, and at last another machine is granted the
-- lease. The strategy on the first machine has taken its grant, which ends at that instant, with
-- its clocks read at the true time `t_got` and the monotonic one again at `t_then`, and passes its
-- check before an order, whose last reading is at `t_order`. Where its wall clock is behind by the
-- skew at most, its monotonic clock runs no slower than true time, the pause lies between its two
-- readings at most, and the two margins together are at least the skew and the pause, the check is
-- over before the other machine is granted the lease.
pub no_order_after_takeover :
    (st : LeaseStore) (strategy machine : String) (until now t : Instant) (arrivals : List Arrival)
    (peer : Option String) (other : String) (n : ℕ) (id : Option String) {res : LeaseResult}
    (c : Client) (own : String) (got : Reading) (then_mono order_mono later_mono : Instant)
    (t_got t_then t_order : Instant) (skew pause : Duration)
    → Held st strategy machine until now
    → in_order now arrivals t ≡ true
    → All (λ a. shortens strategy machine until a ≡ false) arrivals
    → str_eq other machine ≡ false
    → (serve (serve_all st arrivals) t peer (acquire other strategy n id)).0 ≡ some res
    → res.granted ≡ true
    → (elim c.anchor [ none ↦ 0 | some anchor ↦ anchor ]) ≤ got.mono
    → got.mono ≤ then_mono
    → then_mono ≤ later_mono
    → (check_before_order (apply_grant c own until got then_mono) order_mono later_mono).0 ≡ none
    → t_got ≤ got.wall + skew
    → t_then ≤ t_got + pause
    → t_order + then_mono ≤ t_then + later_mono
    → skew + pause ≤ c.margin + st.lease_margin
    → t_order < t
no_order_after_takeover st strategy machine until now t arrivals peer other n id c own got then_mono
      order_mono later_mono t_got t_then t_order skew pause h in_time long differ e won anchored
      again after passes wall slow mono margins =
    omega (
      arith,
      takeover_waits st strategy machine until now t arrivals peer other n id h in_time long differ
          e won,
      check_before_order-grant c own until got then_mono order_mono later_mono anchored again after
          passes,
      wall,
      slow,
      mono,
      margins,
    )
