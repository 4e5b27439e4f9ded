-- ===== src/Agent/Shared.antt =====
-- internal/agent/reconciler/shared.go: machine-level shared files, fetched by workers.
pub mod Cap
use strategon.Prelude.{
  ℕ, zero, suc, ◌+◌, String, Bool, true, false, not, ◌&&◌, ◌||◌, Option, none, some, List, [], ◌∷◌,
  ◌++◌, Map, lookup, insert, str_eq, leb, is_some, if◌then◌else◌,
}
use strategon.Proto.{ArtifactRef, get_digest, SharedFileSpec, SharedSpec, EventSeverity}
use strategon.Names.{validate_shared_name}
use strategon.Supervisor.Backoff.{BackoffState, fresh, blocked, record_crash, reset}
use strategon.Agent.State.{SharedFileState, Reconciler}
use strategon.Agent.World.{World, Effect, event, cancel_fetch, spawn_fetch, gc_shared}

-- maxSharedFetches
abbrev pub max_shared_fetches : ℕ
max_shared_fetches = 4

pub record SharedEvent : Type 0 where
  pub name : String
  pub digest : String
  pub err : Option String

-- The files of a snapshot by name, the last of a name winning; the empty name is skipped.
unfoldable pub shared_map : List SharedFileSpec → Map SharedFileSpec → Map SharedFileSpec
shared_map [] next = next
shared_map (f ∷ fs) next = shared_map fs (if str_eq f.name "" then next else insert f.name f next)

abbrev pub new_digest : Option SharedFileSpec → String
new_digest none = ""
new_digest (some spec) = get_digest spec.artifact

-- a fetch whose target is no longer desired
unfoldable pub is_stale : Map SharedFileSpec → String → String → Bool
is_stale next name digest =
    not (is_some (lookup name next)) || not (str_eq (new_digest (lookup name next)) digest)

unfoldable pub cancel_stale :
    Map SharedFileSpec → Map SharedFileState → Map SharedFileState × List Effect
cancel_stale next [] = ([], [])
cancel_stale next ((name, st) ∷ rest) =
    let (rest', es) = cancel_stale next rest in
    elim st.inflight [
      | none ↦ ((name, st) ∷ rest', es)
      | some digest ↦
          if is_stale next name digest
          then ((name, record st { inflight = none }) ∷ rest', cancel_fetch name digest ∷ es)
          else ((name, st) ∷ rest', es)
    ]

abbrev files_of : Option SharedSpec → List SharedFileSpec
files_of none = []
files_of (some s) = s.files

abbrev generation_of : Option SharedSpec → ℕ
generation_of none = 0
generation_of (some s) = s.generation

unfoldable pub apply_desired_shared : Option SharedSpec → Reconciler → Reconciler × List Effect
unfolding shared_map cancel_stale
apply_desired_shared shared r =
    let next = shared_map (files_of shared) [] in
    let (actual, es) = cancel_stale next r.shared_actual in
    (
      record r {
        shared_generation = generation_of shared;
        desired_shared = next;
        shared_actual = actual;
      },
      es,
    )

-- the first loop of reconcileShared: names that are no longer desired
unfoldable pub drop_undesired :
    World → Map SharedFileSpec → Map SharedFileState → Map SharedFileState × List Effect
drop_undesired w desired [] = ([], [])
drop_undesired w desired ((name, st) ∷ rest) =
    let (rest', es) = drop_undesired w desired rest in
    let es' : List Effect = elim st.inflight [
      | none ↦ es
      | some digest ↦ cancel_fetch name digest ∷ es
    ] in
    if is_some (lookup name desired)
    then ((name, st) ∷ rest', es)
    else elim (w.remove_shared_link name) [
      | none ↦ (rest', es')
      | some e ↦ (
        (name, record st { inflight = none; last_error = w.sprint_text "remove failed: %s" e })
            ∷ rest',
        es',
      )
    ]

unfoldable pub count_inflight : Map SharedFileState → ℕ
count_inflight [] = 0
count_inflight ((name, st) ∷ rest) =
    if is_some st.inflight then suc (count_inflight rest) else count_inflight rest

abbrev new_shared : String → SharedFileState
new_shared name = record {
  name = name;
  running_digest = "";
  last_error = "";
  backoff = fresh;
  inflight = none;
}

abbrev state_or_new : String → Option SharedFileState → SharedFileState
state_or_new name none = new_shared name
state_or_new name (some st) = st

unfoldable pub digests_equal : World → String → String → Bool
digests_equal w a b = not (str_eq a "") && not (str_eq b "") && w.equal_fold a b

unfoldable pub shared_crash : World → String → SharedFileState → SharedFileState
shared_crash w e st = record st { last_error = e; backoff = record_crash st.backoff w.now w.jitter }

-- One desired file: its new state, and whether a fetch begins. `count` fetches are in flight.
unfoldable pub fetch_or_wait : World → ℕ → SharedFileSpec → SharedFileState → SharedFileState × Bool
unfolding digests_equal shared_crash
fetch_or_wait w count spec st =
    let want = get_digest spec.artifact in
    if not (str_eq want "") && digests_equal w st.running_digest want
    then (record st { last_error = ""; backoff = reset st.backoff }, false)
    else if str_eq want ""
    then (shared_crash w "empty desired digest" st, false)
    else if leb max_shared_fetches count
    then (st, false)
    else (record st { inflight = some want }, true)

unfoldable pub reconcile_file :
    World → ℕ → String → SharedFileSpec → SharedFileState → SharedFileState × Bool
unfolding fetch_or_wait
reconcile_file w count name spec st₀ =
    let st = record st₀ { running_digest = w.running_shared_digest name } in
    if blocked st.backoff w.now || is_some st.inflight
    then (st, false)
    else elim (validate_shared_name name) [
      | some e ↦ (shared_crash w (w.name_error e) st, false)
      | none ↦ fetch_or_wait w count spec st
    ]

-- the loop over the desired files, with the number of fetches in flight
unfoldable pub reconcile_files :
    World → Map SharedFileSpec → ℕ → Map SharedFileState → Map SharedFileState × ℕ × List Effect
reconcile_files w [] count actual = (actual, count, [])
reconcile_files w ((name, spec) ∷ rest) count actual =
    let (st, begun) = reconcile_file w count name spec (state_or_new name (lookup name actual)) in
    let (actual', count', es) =
      reconcile_files w rest (if begun then suc count else count) (insert name st actual) in
    (actual', count', if begun then spawn_fetch name spec.artifact ∷ es else es)

abbrev keys {ℓ} : {V : Type ℓ} → Map V → List String
keys [] = []
keys ((k, v) ∷ m) = k ∷ keys m

unfoldable pub reconcile_shared : World → Reconciler → Reconciler × List Effect
unfolding drop_undesired reconcile_files
reconcile_shared w r =
    let (kept, dropped) = drop_undesired w r.desired_shared r.shared_actual in
    let (actual, count, begun) = reconcile_files w r.desired_shared (count_inflight kept) kept in
    let swept : List Effect = elim count [
      | zero ↦ gc_shared (keys r.desired_shared) ∷ []
      | suc n ↦ []
    ] in
    (record r { shared_actual = actual }, dropped ++ begun ++ swept)

-- the end of a fetch, on the state of its file
unfoldable pub fetched : World → SharedEvent → SharedFileState → SharedFileState × List Effect
unfolding shared_crash
fetched w ev st₀ =
    let st = record st₀ { inflight = none } in
    let failed = event EventSeverity.error "" "SharedFileError" ∷ [] in
    elim ev.err [
      | some e ↦ (shared_crash w e st, failed)
      | none ↦ elim (w.switch_shared_to ev.name ev.digest) [
        | some e ↦ (shared_crash w e st, failed)
        | none ↦ (
          record st {
            running_digest = w.running_shared_digest ev.name;
            last_error = "";
            backoff = reset st.backoff;
          },
          [],
        )
      ]
    ]

-- applySharedWorkerEvent on the state of the event's file
unfoldable pub apply_fetch : World → SharedEvent → SharedFileState → SharedFileState × List Effect
unfolding fetched
apply_fetch w ev st = elim st.inflight [
  | none ↦ (st, [])
  | some digest ↦ if str_eq ev.digest digest then fetched w ev st else (st, [])
]

unfoldable pub apply_shared_worker_event :
    World → SharedEvent → Reconciler → Reconciler × List Effect
unfolding apply_fetch
apply_shared_worker_event w ev r = elim (lookup ev.name r.shared_actual) [
  | none ↦ (r, [])
  | some st ↦
      let (st', es) = apply_fetch w ev st in
      (record r { shared_actual = insert ev.name st' r.shared_actual }, es)
]
