-- ===== src/Agent/Shared/Cap.antt =====
-- At most `max_shared_fetches` fetches of shared files are in flight.
use strategon.Prelude.{
  ℕ, suc, ◌+◌, ◌≡◌, ◌≤◌, refl, inl, inr, String, true, Option, none, some, [], ◌∷◌, arith, Map,
  lookup, insert, is_some, if◌then◌else◌, Bool-cases, Option-cases,
}
use strategon.Proto.{SharedFileSpec, SharedSpec}
use strategon.Agent.State.{SharedFileState, Reconciler}
use strategon.Agent.World.{World}
use strategon.Agent.Shared.{
  SharedEvent, max_shared_fetches, cancel_stale, apply_desired_shared, drop_undesired,
  count_inflight, state_or_new, fetch_or_wait, reconcile_file, reconcile_files, reconcile_shared,
  fetched, apply_fetch, apply_shared_worker_event, shared_crash,
}

abbrev pub fetching : SharedFileState → ℕ
fetching st = if is_some st.inflight then 1 else 0

abbrev fetching_in : Option SharedFileState → ℕ
fetching_in none = 0
fetching_in (some st) = fetching st

count_inflight-insert :
    (name : String) (st : SharedFileState) (m : Map SharedFileState)
    → count_inflight (insert name st m) + fetching_in (lookup name m)
      ≡ count_inflight m + fetching st
unfolding count_inflight insert lookup
count_inflight-insert name st [] = ground arith
count_inflight-insert name st ((k, old) ∷ m) = ground (arith, count_inflight-insert name st m)

-- One file begins a fetch only below the cap, and where it had none.
reconcile_file-count :
    (w : World) (n : ℕ) (name : String) (spec : SharedFileSpec) (st : SharedFileState)
    → let (st', begun) = reconcile_file w n name spec st in
      (fetching st' ≡ (if begun then suc (fetching st) else fetching st))
      × (begun ≡ true → suc n ≤ max_shared_fetches)
unfolding reconcile_file fetch_or_wait shared_crash
reconcile_file-count w n name spec st = (ground arith, λ b. ground arith)

fetching-state_or_new :
    (name : String) (o : Option SharedFileState) → fetching (state_or_new name o) ≡ fetching_in o
fetching-state_or_new name none = refl
fetching-state_or_new name (some st) = refl

reconcile_files-count :
    (w : World) (specs : Map SharedFileSpec) (n : ℕ) (m : Map SharedFileState)
    → n ≡ count_inflight m
    → n ≤ max_shared_fetches
    → count_inflight (reconcile_files w specs n m).0 ≤ max_shared_fetches
unfolding reconcile_files
reconcile_files-count w [] n m e le = ground arith
reconcile_files-count w ((name, spec) ∷ rest) n m e le =
    let old = state_or_new name (lookup name m) in
    let st = (reconcile_file w n name spec old).0 in
    let (fetches, below) = reconcile_file-count w n name spec old in
    elim (Bool-cases (reconcile_file w n name spec old).1) [
      | inl begun ↦
          rw (begun, reconcile_files)
            (reconcile_files-count w rest (suc n) (insert name st m)
              (ground (
                arith,
                begun,
                fetches,
                count_inflight-insert name st m,
                fetching-state_or_new name (lookup name m),
              ))
              (below begun))
      | inr idle ↦
          rw (idle, reconcile_files)
            (reconcile_files-count w rest n (insert name st m)
              (ground (
                arith,
                idle,
                fetches,
                count_inflight-insert name st m,
                fetching-state_or_new name (lookup name m),
              ))
              le)
    ]

drop_undesired-count :
    (w : World) (desired : Map SharedFileSpec) (m : Map SharedFileState)
    → count_inflight (drop_undesired w desired m).0 ≤ count_inflight m
unfolding drop_undesired count_inflight
drop_undesired-count w desired [] = omega arith
drop_undesired-count w desired ((name, st) ∷ rest) =
    ground (arith, drop_undesired-count w desired rest)

pub reconcile_shared-count :
    (w : World) (r : Reconciler)
    → count_inflight r.shared_actual ≤ max_shared_fetches
    → count_inflight (reconcile_shared w r).0.shared_actual ≤ max_shared_fetches
unfolding reconcile_shared
reconcile_shared-count w r h =
    let kept = (drop_undesired w r.desired_shared r.shared_actual).0 in
    reconcile_files-count w r.desired_shared (count_inflight kept) kept refl
      (omega (arith, h, drop_undesired-count w r.desired_shared r.shared_actual))

cancel_stale-count :
    (next : Map SharedFileSpec) (m : Map SharedFileState)
    → count_inflight (cancel_stale next m).0 ≤ count_inflight m
unfolding cancel_stale count_inflight
cancel_stale-count next [] = omega arith
cancel_stale-count next ((name, st) ∷ rest) = ground (arith, cancel_stale-count next rest)

pub apply_desired_shared-count :
    (shared : Option SharedSpec) (r : Reconciler)
    → count_inflight (apply_desired_shared shared r).0.shared_actual
      ≤ count_inflight r.shared_actual
unfolding apply_desired_shared
apply_desired_shared-count shared r = cancel_stale-count _ r.shared_actual

apply_fetch-count :
    (w : World) (ev : SharedEvent) (st : SharedFileState)
    → fetching (apply_fetch w ev st).0 ≤ fetching st
unfolding apply_fetch fetched shared_crash
apply_fetch-count w ev st = ground arith

pub apply_shared_worker_event-count :
    (w : World) (ev : SharedEvent) (r : Reconciler)
    → count_inflight (apply_shared_worker_event w ev r).0.shared_actual
      ≤ count_inflight r.shared_actual
unfolding apply_shared_worker_event
apply_shared_worker_event-count w ev r = elim (Option-cases (lookup ev.name r.shared_actual)) [
  | inl e ↦ rw (e, apply_shared_worker_event) (omega arith)
  | inr (st, e) ↦
      let st' = (apply_fetch w ev st).0 in
      rw (e, apply_shared_worker_event)
        (ground
          (arith, e, apply_fetch-count w ev st, count_inflight-insert ev.name st' r.shared_actual))
]
