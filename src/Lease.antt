-- ===== src/Lease.antt =====
-- Fencing leases on the control plane: internal/controlplane/store/lease.go, the lease operations of
-- store/memory.go, and the RPCs of internal/controlplane/lease/server.go. The signal to waiting
-- streams that a grant sends, and the log, are left out.
pub mod Client
pub mod Held
pub mod Fencing
use strategon.Prelude.{
  ℕ, ◌+◌, ◌*◌, String, Bool, true, false, not, ◌&&◌, ◌||◌, Option, none, some, List, [], ◌∷◌, Map,
  lookup, insert, str_eq, ◌==◌, is_some, if◌then◌else◌,
}
use strategon.Prelude.Time.{Instant, Duration, second, seconds, is_after, is_before}

pub record LeaseInfo : Type 0 where
  pub machine_id : String
  pub lease_id : String
  pub expires_at : Instant
  pub ttl : Duration

-- denyHeld and the fixed texts
pub data DenyReason : Type 0 where
  held_by : String → Instant → DenyReason
  no_lease lease_expired : DenyReason

pub record LeaseResult : Type 0 where
  pub granted : Bool
  pub lease_id : String
  pub expires_at : Instant
  pub deny_reason : Option DenyReason

-- the part of Memory that keeps leases
pub record LeaseStore : Type 0 where
  pub leases : Map LeaseInfo
  pub lease_margin : Duration

-- DefaultLeaseMarginCP
abbrev pub default_lease_margin_cp : Duration
default_lease_margin_cp = 2 * second

abbrev pub deny : DenyReason → LeaseResult
deny why = record { granted = false; lease_id = ""; expires_at = 0; deny_reason = some why }

abbrev pub grant : String → Instant → LeaseResult
grant id exp = record { granted = true; lease_id = id; expires_at = exp; deny_reason = none }

-- leaseFreeFor; `none` is free
unfoldable pub lease_free_for : Option LeaseInfo → String → Instant → Duration → Option DenyReason
lease_free_for none machine now margin = none
lease_free_for (some info) machine now margin =
    let held_until = info.expires_at + margin in
    if is_after now held_until
    then none
    else if str_eq info.machine_id machine
    then none
    else some (held_by info.machine_id held_until)

-- DeploymentBlockedByLease
unfoldable pub deployment_blocked_by_lease :
    LeaseStore → Instant → String → String → Option DenyReason
deployment_blocked_by_lease st now machine strategy = elim (lookup strategy st.leases) [
  | none ↦ none
  | some info ↦
      let held_until = info.expires_at + st.lease_margin in
      if is_after now held_until
      then none
      else if str_eq info.machine_id machine
      then none
      else some (held_by info.machine_id held_until)
]

-- A call's result, `none` for an error, and the store that it leaves.
abbrev pub Reply : Type 0
Reply = Option LeaseResult × LeaseStore

abbrev pub store_lease : LeaseStore → String → LeaseInfo → LeaseStore
store_lease st strategy info = record st { leases = insert strategy info st.leases }

-- AcquireLease; `id` is what newLeaseID draws, `none` where it fails
unfoldable pub acquire_lease :
    LeaseStore → Instant → String → String → Duration → Option String → Reply
unfolding lease_free_for
acquire_lease st now machine strategy ttl id =
    if str_eq machine "" || str_eq strategy "" || ttl == 0
    then (none, st)
    else elim (lease_free_for (lookup strategy st.leases) machine now st.lease_margin) [
      | some why ↦ (some (deny why), st)
      | none ↦ elim id [
        | none ↦ (none, st)
        | some i ↦ (
          some (grant i (now + ttl)),
          store_lease st strategy
              (record { machine_id = machine; lease_id = i; expires_at = now + ttl; ttl = ttl }),
        )
      ]
    ]

abbrev pub or_ttl : Duration → Duration → Duration
or_ttl ttl other = if ttl == 0 then other else ttl

-- RenewLease
unfoldable pub renew_lease : LeaseStore → Instant → String → String → String → Duration → Reply
renew_lease st now machine strategy id ttl₀ =
    if str_eq machine "" || str_eq strategy "" || str_eq id ""
    then (none, st)
    else elim (lookup strategy st.leases) [
      | none ↦ (some (deny no_lease), st)
      | some cur ↦
          let ttl = or_ttl (or_ttl ttl₀ cur.ttl) (seconds 30) in
          if not (str_eq cur.machine_id machine) || not (str_eq cur.lease_id id)
          then (some (deny (held_by cur.machine_id (cur.expires_at + st.lease_margin))), st)
          else if not (is_before now cur.expires_at)
          then (some (deny lease_expired), st)
          else (
            some (grant id (now + ttl)),
            store_lease st strategy (record cur { expires_at = now + ttl; ttl = ttl }),
          )
    ]

-- authorizeMachine; the peer's certificate name is `none` without mTLS
unfoldable pub is_authorized : Option String → String → Bool
is_authorized none machine = true
is_authorized (some cn) machine = str_eq cn machine

pub data LeaseCall : Type 0 where
  -- machine, strategy, requested TTL in seconds, drawn lease id
  acquire : String → String → ℕ → Option String → LeaseCall
  -- lease id, strategy
  renew : String → String → LeaseCall

-- Server.Acquire and Server.Renew, at one reading of the clock
unfoldable pub serve : LeaseStore → Instant → Option String → LeaseCall → Reply
unfolding acquire_lease renew_lease is_authorized
serve st now peer (acquire machine strategy ttl_seconds id) =
    if str_eq machine "" || str_eq strategy ""
    then (none, st)
    else if not (is_authorized peer machine)
    then (none, st)
    else acquire_lease st now machine strategy (or_ttl (seconds ttl_seconds) (seconds 30)) id
serve st now peer (renew id strategy) =
    if str_eq id "" || str_eq strategy "" then (none, st) else elim (lookup strategy st.leases) [
      | none ↦ (some (deny no_lease), st)
      | some info ↦
          if not (is_authorized peer info.machine_id)
          then (none, st)
          else renew_lease st now info.machine_id strategy id 0
    ]

pub record Arrival : Type 0 where
  pub at_time : Instant
  pub peer : Option String
  pub call : LeaseCall

unfoldable pub serve_all : LeaseStore → List Arrival → LeaseStore
unfolding serve
serve_all st [] = st
serve_all st (a ∷ rest) = serve_all (serve st a.at_time a.peer a.call).1 rest
