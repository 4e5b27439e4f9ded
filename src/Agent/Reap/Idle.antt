-- ===== src/Agent/Reap/Idle.antt =====
-- A slot is deleted only while nothing uses it, and is held for as long.
use strategon.Prelude.{
  ◌≡◌, refl, ◌⊎◌, inl, inr, String, Bool, true, false, not, ◌&&◌, Option, none, some, List, [], ◌∷◌,
  arith, lookup, eq_iff, is_some,
}
use strategon.Agent.State.{StrategyState, Reconciler}
use strategon.Agent.Volumes.{contains}
use strategon.Agent.Reap.{
  busy_reason, reap_reject, Verdict, duplicate, accepted, rejected, judge, Batch, start_reaping,
  note_seen, add_verdict, judge_all, handle_reap_op,
}

-- Nothing runs, is being stopped or is on its way.
abbrev pub is_idle : Option StrategyState → Bool
is_idle none = true
is_idle (some st) = not (is_some st.inflight) && (not (is_some st.proc) && not st.stopping)

-- What an accepted name says of the state before the request, and of the one after.
pub record Free (before after : Reconciler) (name : String) : Type 0 where
  pub unassigned : is_some (lookup name before.desired) ≡ false
  pub idle : is_idle (lookup name before.actual) ≡ true
  pub held : contains name after.reaping ≡ true

judge-accepted :
    (r : Reconciler) (seen : List String) (name : String)
    → judge r seen name ≡ accepted
    → (is_some (lookup name r.desired) ≡ false) × (is_idle (lookup name r.actual) ≡ true)
unfolding judge reap_reject busy_reason
judge-accepted r seen name e = ground arith

state-add_verdict :
    (name : String) (v : Verdict) (b : Batch) → (add_verdict name v b).state ≡ b.state
state-add_verdict name duplicate b = refl
state-add_verdict name accepted b = refl
state-add_verdict name (rejected why) b = refl

start_reaping-keeps :
    (r : Reconciler) (name k : String) (v : Verdict)
    → contains k r.reaping ≡ true
    → contains k (start_reaping r name v).reaping ≡ true
unfolding contains
start_reaping-keeps r name k duplicate h = h
start_reaping-keeps r name k accepted h = ground arith
start_reaping-keeps r name k (rejected why) h = h

judge_all-reaping :
    (trim : String → String) (r : Reconciler) (seen names : List String) (k : String)
    → contains k r.reaping ≡ true
    → contains k (judge_all trim r seen names).state.reaping ≡ true
unfolding judge_all
judge_all-reaping trim r seen [] k h = h
judge_all-reaping trim r seen (raw ∷ rest) k h =
    let name = trim raw in
    let v = judge r seen name in
    rw
      (state-add_verdict name v
        (judge_all trim (start_reaping r name v) (note_seen seen name v) rest))
      (judge_all-reaping trim (start_reaping r name v) (note_seen seen name v) rest k
        (start_reaping-keeps r name k v h))

-- a request changes neither what is desired nor what runs
start_reaping-same :
    (r : Reconciler) (name : String) (v : Verdict)
    → ((start_reaping r name v).desired ≡ r.desired) × ((start_reaping r name v).actual ≡ r.actual)
start_reaping-same r name duplicate = (refl, refl)
start_reaping-same r name accepted = (refl, refl)
start_reaping-same r name (rejected why) = (refl, refl)

pending-add_verdict :
    (r : Reconciler) (seen : List String) (name k : String) (v : Verdict) (b : Batch)
    → contains k (add_verdict name v b).pending ≡ true
    → (contains k b.pending ≡ true) ⊎ ((v ≡ accepted) × (name ≡ k))
unfolding contains
pending-add_verdict r seen name k duplicate b h = inl h
pending-add_verdict r seen name k accepted b h = ground (arith, eq_iff name k)
pending-add_verdict r seen name k (rejected why) b h = inl h

judge_all-Free :
    (trim : String → String) (r : Reconciler) (seen names : List String) (k : String)
    → contains k (judge_all trim r seen names).pending ≡ true
    → Free r (judge_all trim r seen names).state k
unfolding judge_all contains
judge_all-Free trim r seen [] k h = absurd (ground arith)
judge_all-Free trim r seen (raw ∷ rest) k h =
    let name = trim raw in
    let v = judge r seen name in
    let r' = start_reaping r name v in
    let b = judge_all trim r' (note_seen seen name v) rest in
    elim (pending-add_verdict r seen name k v b h) [
      | inl later ↦
          let free = judge_all-Free trim r' (note_seen seen name v) rest k later in
          let (desired, actual) = start_reaping-same r name v in
          record {
            unassigned = ground (arith, desired, free.unassigned);
            idle = ground (arith, actual, free.idle);
            held = ground (arith, state-add_verdict name v b, free.held);
          }
      | inr (e, same) ↦
          let (unassigned, idle) = judge-accepted r seen name e in
          record {
            unassigned = ground (arith, same, unassigned);
            idle = ground (arith, same, idle);
            held = rw (state-add_verdict name v b) (
                judge_all-reaping trim r' (note_seen seen name v) rest k
                  (ground (arith, e, same, eq_iff name k)));
          }
    ]

-- Every slot that a request lets be deleted belongs to a strategy that is not desired and has no
-- process, no deploy in flight and no stop under way, and the slot is held from then on.
pub handle_reap_op-Free :
    (trim : String → String) (r : Reconciler) (names : List String) (k : String)
    → contains k (handle_reap_op trim names r).pending ≡ true
    → Free r (handle_reap_op trim names r).state k
unfolding handle_reap_op
handle_reap_op-Free trim r names k h = judge_all-Free trim r [] names k h
