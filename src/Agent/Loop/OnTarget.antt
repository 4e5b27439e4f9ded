-- ===== src/Agent/Loop/OnTarget.antt =====
-- The invariant of the loop: rounds keep every deploy in flight on what is desired.
use strategon.Prelude.{
  String, ◌≡◌, refl, sym, subst, inl, inr, false, Option, none, some, List, [], ◌∷◌, arith, eq_iff,
  Map, lookup, insert, is_some, Option-cases, Bool-cases,
}
use strategon.Prelude.Entries.{
  IsDistinct, Entries, insert-IsDistinct, Entries-lookup, lookup-Entries,
}
use strategon.Proto.{get_digest, StrategyAssignmentSpec, DesiredState, VolumesSpec}
use strategon.Agent.State.{DeployOp, StrategyState, Reconciler}
use strategon.Agent.World.{World, local}
use strategon.Agent.Converge.{retire_strategy, withdraw_deploy, recompute_observed_generation}
use strategon.Agent.Process.{spawn_drain}
use strategon.Agent.Volumes.{reconcile_volumes}
use strategon.Agent.Deploy.{apply_worker_event}
use strategon.Agent.Health.{apply_health_result}
use strategon.Agent.Shared.{
  SharedEvent, apply_desired_shared, reconcile_shared, apply_shared_worker_event,
}
use strategon.Agent.Loop.{
  assignment_map, is_withdrawn, withdraw_stale, apply_desired, apply_desired_volumes,
  converge_desired, retire_undesired, reconcile, tick_strategies, tick, Event, new_desired,
  process_exit, worker, shared_worker, health, clock_tick, handle, round, retired,
}
use strategon.Agent.Loop.Quiet.{apply_worker_event-Quiet, apply_health_result-Quiet}
use strategon.Agent.Loop.Withdrawal.{
  IsSound, IsOnTarget, set_actual-IsOnTarget, drop_actual-IsOnTarget, on_strategy-Keeps,
  exit_round-IsOnTarget, tick_strategies-Keeps, tick_cron-Keeps, converge_desired-IsOnTarget,
}

retire_strategy-IsSound :
    (r : Reconciler) (name : String) (st : StrategyState) {left : StrategyState}
    → IsSound r.desired name st
    → (retire_strategy r (local st)).0 ≡ some left
    → IsSound r.desired name left
unfolding retire_strategy withdraw_deploy spawn_drain
retire_strategy-IsSound r name st s e = ground arith

retired-IsOnTarget :
    (r : Reconciler) (name : String) (st : StrategyState) (o : Option StrategyState)
    → (retire_strategy r (local st)).0 ≡ o
    → IsSound r.desired name st
    → IsOnTarget r
    → IsOnTarget (retired r name o)
retired-IsOnTarget r name st none e s h = drop_actual-IsOnTarget r name h
retired-IsOnTarget r name st (some left) e s h =
    set_actual-IsOnTarget r name left h (retire_strategy-IsSound r name st s e)

desired-retired :
    (r : Reconciler) (name : String) (o : Option StrategyState)
    → (retired r name o).desired ≡ r.desired
desired-retired r name none = refl
desired-retired r name (some st) = refl

retire_undesired-IsOnTarget :
    (r : Reconciler) (m : Map StrategyState)
    → IsOnTarget r
    → Entries (IsSound r.desired) m
    → IsOnTarget (retire_undesired r m).0
unfolding retire_undesired
retire_undesired-IsOnTarget r [] h s = h
retire_undesired-IsOnTarget r ((name, st) ∷ rest) h s =
    elim (Bool-cases (is_some (lookup name r.desired))) [
      | inl e ↦ rw (e, retire_undesired) (retire_undesired-IsOnTarget r rest h s.1)
      | inr e ↦
          rw (e, retire_undesired)
            (retire_undesired-IsOnTarget (retired r name (retire_strategy r (local st)).0) rest
              (retired-IsOnTarget r name st (retire_strategy r (local st)).0 refl s.0 h)
              (subst (λ d. Entries (IsSound d) rest)
                (sym (desired-retired r name (retire_strategy r (local st)).0)) s.1))
    ]

-- A step that changes neither the strategies nor what is desired of them.
record Leaves (r r' : Reconciler) : Type 0 where
  desired : r'.desired ≡ r.desired
  actual : r'.actual ≡ r.actual

Leaves-IsOnTarget : {r r' : Reconciler} → Leaves r r' → IsOnTarget r → IsOnTarget r'
Leaves-IsOnTarget {r} {r'} e h = record {
  distinct = rw e.desired h.distinct;
  sound = rw (e.desired, e.actual) h.sound;
}

module _ (w : World) (r : Reconciler) where
  reconcile_shared-Leaves : Leaves r (reconcile_shared w r).0
  unfolding reconcile_shared
  reconcile_shared-Leaves = record { desired = refl; actual = refl }

  reconcile_volumes-Leaves : Leaves r (reconcile_volumes w r).0
  unfolding reconcile_volumes
  reconcile_volumes-Leaves = ground arith

  recompute-Leaves : Leaves r (recompute_observed_generation r)
  unfolding recompute_observed_generation
  recompute-Leaves = ground arith

  shared_worker-Leaves : (ev : SharedEvent) → Leaves r (apply_shared_worker_event w ev r).0
  unfolding apply_shared_worker_event
  shared_worker-Leaves ev = ground arith

reconcile-IsOnTarget : (w : World) (r : Reconciler) → IsOnTarget r → IsOnTarget (reconcile w r).0
unfolding reconcile
reconcile-IsOnTarget w r h =
    let r₁ = (reconcile_shared w r).0 in
    let r₂ = (reconcile_volumes w r₁).0 in
    let h₂ : IsOnTarget r₂ =
      Leaves-IsOnTarget (reconcile_volumes-Leaves w r₁)
        (Leaves-IsOnTarget (reconcile_shared-Leaves w r) h) in
    let h₃ =
      converge_desired-IsOnTarget w r₂ r₂.desired h₂ (Entries-lookup r₂.desired h₂.distinct) in
    let r₃ = (converge_desired w r₂ r₂.desired).0 in
    let h₄ = retire_undesired-IsOnTarget r₃ r₃.actual h₃ h₃.sound in
    Leaves-IsOnTarget (recompute-Leaves w (retire_undesired r₃ r₃.actual).0) h₄

assignment_map-IsDistinct :
    (specs : List StrategyAssignmentSpec) (next : Map StrategyAssignmentSpec)
    → IsDistinct next
    → IsDistinct (assignment_map specs next)
unfolding assignment_map
assignment_map-IsDistinct [] next d = d
assignment_map-IsDistinct (a ∷ rest) next d =
    assignment_map-IsDistinct rest (insert a.strategy a next)
      (insert-IsDistinct a.strategy a next d)

-- Whatever is in flight before, what the new snapshot does not want is withdrawn.
withdraw_stale-IsSound :
    (next desired : Map StrategyAssignmentSpec) (m : Map StrategyState)
    → Entries (IsSound desired) m
    → Entries (IsSound next) (withdraw_stale next m).0
unfolding withdraw_stale
withdraw_stale-IsSound next desired [] s = tt
withdraw_stale-IsSound next desired ((name, st) ∷ rest) s = elim (Option-cases st.inflight) [
  | inl e ↦
      rw (e, withdraw_stale)
        (
          record { named = s.0.named; wanted = rw e refl },
          withdraw_stale-IsSound next desired rest s.1,
        )
  | inr (op, e) ↦ elim (Bool-cases (is_withdrawn next name op)) [
    | inl gone ↦
        rw (e, gone, withdraw_stale)
          (
            record { named = s.0.named; wanted = refl },
            withdraw_stale-IsSound next desired rest s.1,
          )
    | inr kept ↦
        rw (e, kept, withdraw_stale)
          (
            record { named = s.0.named; wanted = rw (e, kept) refl },
            withdraw_stale-IsSound next desired rest s.1,
          )
  ]
]

actual-apply_desired_volumes :
    (v : Option VolumesSpec) (r : Reconciler) → (apply_desired_volumes v r).actual ≡ r.actual
unfolding apply_desired_volumes
actual-apply_desired_volumes none r = refl
actual-apply_desired_volumes (some v) r = refl

apply_desired-IsOnTarget :
    (ds : DesiredState) (r : Reconciler) → IsOnTarget r → IsOnTarget (apply_desired ds r).0
unfolding apply_desired apply_desired_shared
apply_desired-IsOnTarget ds r h = record {
  distinct = assignment_map-IsDistinct ds.assignments [] tt;
  sound =
      rw
        (actual-apply_desired_volumes ds.volumes
          (apply_desired_shared ds.shared (record r { generation = ds.generation })).0)
        (withdraw_stale-IsSound (assignment_map ds.assignments []) r.desired r.actual h.sound);
}

handle-IsOnTarget :
    (w : World) (ev : Event) (r : Reconciler) → IsOnTarget r → IsOnTarget (handle w ev r).0
unfolding handle tick
handle-IsOnTarget w (new_desired ds) r h = apply_desired-IsOnTarget ds r h
handle-IsOnTarget w (process_exit ex) r h = exit_round-IsOnTarget w r ex h
handle-IsOnTarget w (worker ev) r h =
    (on_strategy-Keeps w r ev.strategy (apply_worker_event w r ev) (apply_worker_event-Quiet w r ev)
      h).on_target
handle-IsOnTarget w (shared_worker ev) r h = Leaves-IsOnTarget (shared_worker-Leaves w r ev) h
handle-IsOnTarget w (health hr) r h =
    (on_strategy-Keeps w r hr.strategy (apply_health_result w r hr)
      (apply_health_result-Quiet w r hr) h).on_target
handle-IsOnTarget w (clock_tick now) r h =
    let r₁ = (tick_strategies w r now r.actual).0 in
    let kept = tick_strategies-Keeps w r now r.actual h in
    (tick_cron-Keeps w r₁ now r₁.desired kept.on_target).on_target

-- The rounds of the loop over the events that it receives, each with its own answers.
unfoldable pub rounds : List (World × Event) → Reconciler → Reconciler
rounds [] r = r
rounds ((w, ev) ∷ rest) r = rounds rest (round w ev r).0

rounds-IsOnTarget :
    (evs : List (World × Event)) (r : Reconciler) → IsOnTarget r → IsOnTarget (rounds evs r)
unfolding rounds round
rounds-IsOnTarget [] r h = h
rounds-IsOnTarget ((w, ev) ∷ rest) r h =
    rounds-IsOnTarget rest (round w ev r).0
      (reconcile-IsOnTarget w (handle w ev r).0 (handle-IsOnTarget w ev r h))

wanted_digest :
    (desired : Map StrategyAssignmentSpec) (name : String) (op : DeployOp)
    → is_withdrawn desired name op ≡ false
    → (spec : StrategyAssignmentSpec) × (lookup name desired ≡ some spec)
      × (get_digest spec.artifact ≡ get_digest op.target)
unfolding is_withdrawn
wanted_digest desired name op h = elim (Option-cases (lookup name desired)) [
  | inl e ↦ ground arith
  | inr (spec, e) ↦
      (spec, e, ground (arith, eq_iff (get_digest spec.artifact) (get_digest op.target)))
]

-- From a state in which each strategy is stored under its own name and each deploy in flight is
-- wanted, after any rounds of the loop on desired states, exits, worker results, shared files, probe
-- results and clock ticks: a strategy with a deploy in flight is still desired, and the deploy is for
-- the digest that is desired of it now.
pub inflight_wanted :
    (evs : List (World × Event)) (r : Reconciler) (name : String) {st : StrategyState}
    {op : DeployOp}
    → IsOnTarget r
    → lookup name (rounds evs r).actual ≡ some st
    → st.inflight ≡ some op
    → (spec : StrategyAssignmentSpec) × (lookup name (rounds evs r).desired ≡ some spec)
      × (get_digest spec.artifact ≡ get_digest op.target)
inflight_wanted evs r name {st} {op} h found flying =
    let after = rounds-IsOnTarget evs r h in
    let sound = lookup-Entries (IsSound (rounds evs r).desired) name _ after.sound found in
    wanted_digest (rounds evs r).desired name op (ground (arith, sound.wanted, flying))
