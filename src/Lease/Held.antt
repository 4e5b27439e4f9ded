-- ===== src/Lease/Held.antt =====
-- How long a machine keeps a lease, over the calls that arrive.
use strategon.Prelude.{
  ◌+◌, ◌≤◌, ◌≡◌, refl, ◌∙◌, inl, inr, String, Bool, true, false, not, ◌&&◌, ◌||◌, Option, none,
  some, List, [], ◌∷◌, All, arith, eq_iff, lookup, lookup-insert, str_eq, ◌==◌, leb, ltb,
  Bool-cases, Option-cases,
}
use strategon.Prelude.Time.{Instant, Duration, seconds}
use strategon.Lease.{
  LeaseInfo, LeaseStore, lease_free_for, acquire_lease, renew_lease, or_ttl, LeaseCall, acquire,
  renew, serve, Arrival, serve_all, store_lease,
}

-- `machine` holds the lease of `strategy` at least until `until`, at the time `now`.
pub record Held (st : LeaseStore) (strategy machine : String) (until now : Instant) : Type 0 where
  pub info : LeaseInfo
  pub found : lookup strategy st.leases ≡ some info
  pub owner : info.machine_id ≡ machine
  pub lasts : until ≤ info.expires_at
  pub dated : info.expires_at ≤ now + info.ttl

-- An acquire of the holder itself that asks for less than it has.
abbrev pub shortens : String → String → Instant → Arrival → Bool
shortens strategy machine until a = elim a.call [
  | acquire m s n id ↦
      str_eq m machine
      && (str_eq s strategy && ltb (a.at_time + or_ttl (seconds n) (seconds 30)) until)
  | renew id s ↦ false
]

-- Arrivals in time order, from `now` and up to `end`.
abbrev pub in_order : Instant → List Arrival → Instant → Bool
in_order now [] end = leb now end
in_order now (a ∷ rest) end = leb now a.at_time && in_order a.at_time rest end

in_order-le :
    (now : Instant) (rest : List Arrival) (end : Instant) → in_order now rest end ≡ true → now ≤ end
in_order-le now [] end h = ground arith
in_order-le now (a ∷ rest) end h = ground (arith, in_order-le a.at_time rest end)

module _ (st : LeaseStore) (strategy machine : String) (until now : Instant) where
  store_lease-Held :
      (s : String) (new : LeaseInfo) (t : Instant)
      → now ≤ t
      → (str_eq s strategy ≡ true
          → (new.machine_id ≡ machine) × (until ≤ new.expires_at) × (new.expires_at ≤ t + new.ttl))
      → Held st strategy machine until now
      → Held (store_lease st s new) strategy machine until t
  store_lease-Held s new t le good h = elim (Bool-cases (str_eq s strategy)) [
    | inl e ↦
        let (owner, lasts, dated) = good e in
        record {
          info = new;
          found = lookup-insert s strategy new st.leases ∙ rw e refl;
          owner = owner;
          lasts = lasts;
          dated = dated;
        }
    | inr e ↦ record {
      info = h.info;
      found = lookup-insert s strategy new st.leases ∙ rw e h.found;
      owner = h.owner;
      lasts = h.lasts;
      dated = omega (arith, le, h.dated);
    }
  ]

  later-Held :
      (t : Instant)
      → now ≤ t
      → Held st strategy machine until now
      → Held st strategy machine until t
  later-Held t le h = record {
    info = h.info;
    found = h.found;
    owner = h.owner;
    lasts = h.lasts;
    dated = omega (arith, le, h.dated);
  }

  -- While it holds, the lease is free for its holder only.
  pub free-owner :
      (m : String) (t : Instant)
      → t ≤ until + st.lease_margin
      → Held st strategy machine until now
      → lease_free_for (lookup strategy st.leases) m t st.lease_margin ≡ none
      → str_eq m machine ≡ true
  unfolding lease_free_for
  free-owner m t le h free =
      ground (arith, h.found, h.owner, h.lasts, eq_iff m machine, eq_iff h.info.machine_id m)

  acquire-Held :
      (m s : String) (ttl : Duration) (id : Option String) (t : Instant)
      → now ≤ t
      → t ≤ until + st.lease_margin
      → (str_eq m machine && (str_eq s strategy && ltb (t + ttl) until)) ≡ false
      → Held st strategy machine until now
      → Held (acquire_lease st t m s ttl id).1 strategy machine until t
  unfolding acquire_lease
  acquire-Held m s ttl id t le soon long h =
      let kept = later-Held t le h in
      elim (Bool-cases (str_eq m "" || str_eq s "" || ttl == 0)) [
        | inl bad ↦ rw (bad, acquire_lease) kept
        | inr good ↦ elim (Option-cases (lease_free_for (lookup s st.leases) m t st.lease_margin)) [
          | inr (why, held) ↦ rw (good, held, acquire_lease) kept
          | inl free ↦ elim (Option-cases id) [
            | inl e ↦ rw (good, free, e, acquire_lease) kept
            | inr (i, e) ↦
                rw (good, free, e, acquire_lease)
                  (store_lease-Held s _ t le
                    (λ same.
                      let mine : str_eq m machine ≡ true =
                        free-owner m t soon h (ground (arith, free, eq_iff s strategy)) in
                      ground (arith, eq_iff m machine))
                    h)
          ]
        ]
      ]

  renew-Held :
      (m s id : String) (ttl : Duration) (t : Instant)
      → now ≤ t
      → ttl ≡ 0
      → Held st strategy machine until now
      → Held (renew_lease st t m s id ttl).1 strategy machine until t
  unfolding renew_lease
  renew-Held m s id ttl t le zero_ttl h =
      let kept = later-Held t le h in
      elim (Bool-cases (str_eq m "" || str_eq s "" || str_eq id "")) [
        | inl bad ↦ rw (bad, renew_lease) kept
        | inr good ↦ elim (Option-cases (lookup s st.leases)) [
          | inl e ↦ rw (good, e, renew_lease) kept
          | inr (cur, e) ↦
              elim (Bool-cases (not (str_eq cur.machine_id m) || not (str_eq cur.lease_id id))) [
                | inl other ↦ rw (good, e, other, renew_lease) kept
                | inr own ↦ elim (Bool-cases (not (ltb t cur.expires_at))) [
                  | inl over ↦ rw (good, e, own, over, renew_lease) kept
                  | inr live ↦
                      rw (good, e, own, live, renew_lease)
                        (store_lease-Held s _ t le
                          (λ same. ground (
                            arith,
                            zero_ttl,
                            eq_iff s strategy,
                            h.found,
                            h.owner,
                            h.lasts,
                            h.dated,
                          ))
                          h)
                ]
              ]
        ]
      ]

  serve-Held :
      (t : Instant) (peer : Option String) (call : LeaseCall)
      → now ≤ t
      → t ≤ until + st.lease_margin
      → shortens strategy machine until (record { at_time = t; peer = peer; call = call }) ≡ false
      → Held st strategy machine until now
      → Held (serve st t peer call).1 strategy machine until t
  unfolding serve
  serve-Held t peer (acquire m s n id) le soon long h = ground (
    arith,
    later-Held t le h,
    acquire-Held m s (or_ttl (seconds n) (seconds 30)) id t le soon long h,
  )
  serve-Held t peer (renew id s) le soon long h = elim (Option-cases (lookup s st.leases)) [
    | inl e ↦ rw (e, serve) (ground (arith, later-Held t le h))
    | inr (info, e) ↦
        rw (e, serve)
          (ground (arith, later-Held t le h, renew-Held info.machine_id s id 0 t le refl h))
  ]

pub serve-margin :
    (st : LeaseStore) (t : Instant) (peer : Option String) (call : LeaseCall)
    → (serve st t peer call).1.lease_margin ≡ st.lease_margin
unfolding serve acquire_lease renew_lease
serve-margin st t peer (acquire m s n id) = ground arith
serve-margin st t peer (renew id s) = ground arith

pub serve_all-margin :
    (st : LeaseStore) (arrivals : List Arrival)
    → (serve_all st arrivals).lease_margin ≡ st.lease_margin
unfolding serve_all
serve_all-margin st [] = refl
serve_all-margin st (a ∷ rest) =
    serve_all-margin (serve st a.at_time a.peer a.call).1 rest
    ∙ serve-margin st a.at_time a.peer a.call

pub serve_all-Held :
    (arrivals : List Arrival) (st : LeaseStore) (strategy machine : String)
    (until now end : Instant)
    → in_order now arrivals end ≡ true
    → end ≤ until + st.lease_margin
    → All (λ a. shortens strategy machine until a ≡ false) arrivals
    → Held st strategy machine until now
    → Held (serve_all st arrivals) strategy machine until end
unfolding serve_all
serve_all-Held [] st strategy machine until now end order soon long h =
    later-Held st strategy machine until now end (ground arith) h
serve_all-Held (a ∷ rest) st strategy machine until now end order soon long h =
    let le : now ≤ a.at_time = ground arith in
    let later : in_order a.at_time rest end ≡ true = ground arith in
    let bound : a.at_time ≤ end = in_order-le a.at_time rest end later in
    serve_all-Held rest (serve st a.at_time a.peer a.call).1 strategy machine until a.at_time end
      later (omega (arith, soon, serve-margin st a.at_time a.peer a.call)) long.1
      (serve-Held st strategy machine until now a.at_time a.peer a.call le
        (omega (arith, soon, bound)) long.0 h)
