-- ===== src/Agent/Reap.antt =====
-- internal/agent/reconciler/slots.go: `handleReapOp`, `reapReject` and `applyReapDone`, with the names
-- that internal/agent/filebrowse and internal/agent/artifact refuse. `strings.TrimSpace` is a
-- parameter. The deletion itself, the walk of slot sizes and the replies are left out.
pub mod Idle
use strategon.Prelude.{
  ℕ, String, Bool, true, false, not, ◌&&◌, ◌||◌, Option, none, some, List, [], ◌∷◌, lookup, str_eq,
  ◌==◌, is_some, if◌then◌else◌,
}
use strategon.Names.{codes, has_separator_code}
use strategon.Agent.State.{StrategyState, Reconciler}
use strategon.Agent.Volumes.{contains}

pub data ReapReason : Type 0 where
  empty_strategy invalid_name reserved_name still_assigned in_progress deploying still_running :
      ReapReason

abbrev pub starts_with_dot : List ℕ → Bool
starts_with_dot [] = false
starts_with_dot (c ∷ rest) = c == b'.'

-- strings.Contains(s, "..")
unfoldable pub has_dots : List ℕ → Bool
has_dots [] = false
has_dots (c ∷ rest) = (c == b'.' && starts_with_dot rest) || has_dots rest

-- ValidateStrategy, on a trimmed name that is not empty
unfoldable pub is_valid_strategy : String → Bool
unfolding has_dots
is_valid_strategy name =
    not (str_eq name "." || (has_separator_code (codes name) || has_dots (codes name)))

-- ReservedBaseName
unfoldable pub is_reserved_base_name : String → Bool
is_reserved_base_name name = str_eq name "shared" || (str_eq name "volumes" || str_eq name "agent")

-- the state that reapReject refuses, if there is one
unfoldable pub busy_reason : Option StrategyState → Option ReapReason
busy_reason none = none
busy_reason (some st) =
    if is_some st.inflight
    then some deploying
    else if is_some st.proc || st.stopping
    then some still_running
    else none

-- reapReject; `none` is its ""
unfoldable pub reap_reject : Reconciler → String → Option ReapReason
unfolding is_valid_strategy is_reserved_base_name busy_reason
reap_reject r name =
    if not (is_valid_strategy name)
    then some invalid_name
    else if is_reserved_base_name name
    then some reserved_name
    else if is_some (lookup name r.desired)
    then some still_assigned
    else if contains name r.reaping
    then some in_progress
    else busy_reason (lookup name r.actual)

-- What one name of a request adds.
pub data Verdict : Type 0 where
  duplicate accepted : Verdict
  rejected : ReapReason → Verdict

unfoldable pub judge : Reconciler → List String → String → Verdict
judge r seen name =
    if str_eq name ""
    then rejected empty_strategy
    else if contains name seen
    then duplicate
    else elim (reap_reject r name) [ some why ↦ rejected why | none ↦ accepted ]

-- The rejections, the names to delete, and the state that handleReapOp leaves.
pub record Batch : Type 0 where
  pub rejections : List (String × ReapReason)
  pub pending : List String
  pub state : Reconciler

abbrev pub start_reaping : Reconciler → String → Verdict → Reconciler
start_reaping r name accepted = record r { reaping = name ∷ r.reaping }
start_reaping r name _ = r

abbrev pub note_seen : List String → String → Verdict → List String
note_seen seen name (rejected empty_strategy) = seen
note_seen seen name _ = name ∷ seen

abbrev pub add_verdict : String → Verdict → Batch → Batch
add_verdict name duplicate b = b
add_verdict name accepted b = record b { pending = name ∷ b.pending }
add_verdict name (rejected why) b = record b { rejections = (name, why) ∷ b.rejections }

-- the loop of handleReapOp
unfoldable pub judge_all : (String → String) → Reconciler → List String → List String → Batch
unfolding judge
judge_all trim r seen [] = record { rejections = []; pending = []; state = r }
judge_all trim r seen (raw ∷ rest) =
    let name = trim raw in
    let verdict = judge r seen name in
    add_verdict name verdict
      (judge_all trim (start_reaping r name verdict) (note_seen seen name verdict) rest)

unfoldable pub handle_reap_op : (String → String) → List String → Reconciler → Batch
unfolding judge_all
handle_reap_op trim names r = judge_all trim r [] names

unfoldable pub without : List String → List String → List String
without names [] = []
without names (k ∷ ks) = let rest = without names ks in if contains k names then rest else k ∷ rest

-- applyReapDone
unfoldable pub apply_reap_done : List String → Reconciler → Reconciler
unfolding without
apply_reap_done names r = record r { reaping = without names r.reaping }
