-- ===== src/Supervisor/Stop/Ends.antt =====
-- The stop sequence always returns, and what it has done by then.
use strategon.Prelude.{
  ℕ, zero, suc, ◌+◌, ◌≤◌, ◌<◌, ◌≡◌, refl, Bool, true, false, some, [], ◌∷◌, ◌⊎◌, inl, inr, arith,
  Bool-cases,
}
use strategon.Prelude.Time.{Instant, Duration, is_before}
use strategon.Supervisor.Stop.{
  Signal, sigterm, sigkill, StopSequence, Outcome, after_drain, poll, wait_exit, last_check, finish,
  after_term, run,
}

-- A clock of the world that no call turns back, that `now` reads, and that `sleep` moves on.
pub record KeepsTime (S : Type 0) (seq : StopSequence S) : Type 0 where
  pub time : S → Instant
  pub now_reads : (s : S) → (seq.now s).0 ≡ time s
  pub now_keeps : (s : S) → time s ≤ time (seq.now s).1
  pub exited_keeps : (s : S) → time s ≤ time (seq.exited s).1
  pub sleep_moves : (d : Duration) (s : S) → time s + d ≤ time (seq.sleep d s)
  pub signal_keeps : (g : Signal) (s : S) → time s ≤ time (seq.signal g s)

module _ {S : Type 0} (seq : StopSequence S) (clock : KeepsTime S seq) where
  open clock use {time, now_reads, now_keeps, exited_keeps, sleep_moves, signal_keeps}

  poll_pos : 0 < poll seq
  unfolding poll
  poll_pos = ground arith

  -- The loop ends within the rounds that the remaining wait leaves room for.
  wait_exit_total :
      (fuel : ℕ) (deadline : Instant) (s : S)
      → deadline < fuel + time s
      → 0 < fuel
      → (r : Bool × S) × (wait_exit seq fuel deadline s ≡ some r)
        × (r.0 ≡ false → deadline ≤ time r.1)
  unfolding wait_exit
  wait_exit_total zero deadline s h p = absurd (omega arith)
  wait_exit_total (suc fuel) deadline s h p = elim (Bool-cases (is_before (seq.now s).0 deadline)) [
    | inl early ↦ elim (Bool-cases (seq.exited (seq.now s).1).0) [
      | inl gone ↦ ((true, (seq.exited (seq.now s).1).1), rw (early, gone), λ e. cc)
      | inr alive ↦
          rw (early, alive)
            (wait_exit_total fuel deadline (seq.sleep (poll seq) (seq.exited (seq.now s).1).1)
              (ground (
                arith,
                poll_pos,
                now_keeps s,
                exited_keeps (seq.now s).1,
                sleep_moves (poll seq) (seq.exited (seq.now s).1).1,
              ))
              (ground (arith, now_reads s)))
    ]
    | inr late ↦ ((false, (seq.now s).1), rw late, λ _. ground (arith, now_reads s, now_keeps s))
  ]

  abbrev pub Patient : Instant → Outcome S → Type 0
  Patient start o =
      ((o.graceful ≡ true) × (o.sent ≡ sigterm ∷ []))
      ⊎ ((o.graceful ≡ false)
          × (o.sent ≡ sigterm ∷ sigkill ∷ [])
          × (start + seq.grace ≤ time o.world))

  last_check-Patient :
      (start : Instant) (s : S) → start + seq.grace ≤ time s → Patient start (last_check seq s)
  unfolding last_check
  last_check-Patient start s h = elim (Bool-cases (seq.exited s).0) [
    | inl gone ↦ rw gone (inl (refl, refl))
    | inr alive ↦
        rw alive
          (inr (refl, refl, omega (arith, exited_keeps s, signal_keeps sigkill (seq.exited s).1)))
  ]

  finish-Patient :
      (start : Instant) (r : Bool × S)
      → (r.0 ≡ false → start + seq.grace ≤ time r.1)
      → Patient start (finish seq r)
  finish-Patient start (true, s) h = inl (refl, refl)
  finish-Patient start (false, s) h = last_check-Patient start s (h refl)

  after_term_total :
      (fuel : ℕ) (s : S)
      → seq.grace < fuel
      → (o : Outcome S) × (after_term seq fuel s ≡ some o) × Patient (time s) o
  unfolding after_term
  after_term_total fuel s h =
      let (r, e, waited) =
        wait_exit_total fuel ((seq.now s).0 + seq.grace) (seq.now s).1
          (omega (arith, now_reads s, now_keeps s)) (omega arith) in
      (finish seq r, rw e, finish-Patient (time s) r (λ f. omega (arith, waited f, now_reads s)))

  -- What the caller learns: nothing was sent to a process that had gone, SIGTERM was enough, or
  -- SIGKILL followed it, and then not before the grace time had passed since SIGTERM.
  abbrev pub Ended : S → Outcome S → Type 0
  Ended s o =
      ((o.graceful ≡ true) × (o.sent ≡ []))
      ⊎ Patient (time (seq.signal sigterm (seq.exited (after_drain seq.drain s)).1)) o

  -- Given a world whose clock runs forward and rounds for every nanosecond of the grace time, the
  -- stop sequence returns. Its answer is true exactly when no SIGKILL was sent; SIGKILL follows
  -- SIGTERM, and comes no earlier than the grace time after it.
  pub stop_total :
      (fuel : ℕ) (s : S)
      → seq.grace < fuel
      → (o : Outcome S) × (run seq fuel s ≡ some o) × Ended s o
  unfolding run
  stop_total fuel s h = elim (Bool-cases (seq.exited (after_drain seq.drain s)).0) [
    | inl gone ↦ (
      record { graceful = true; sent = []; world = (seq.exited (after_drain seq.drain s)).1 },
      rw gone,
      inl (refl, refl),
    )
    | inr alive ↦
        let (o, e, ended) =
          after_term_total fuel (seq.signal sigterm (seq.exited (after_drain seq.drain s)).1) h in
        (o, rw alive e, inr ended)
  ]
