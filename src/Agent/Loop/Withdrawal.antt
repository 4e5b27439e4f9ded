-- ===== src/Agent/Loop/Withdrawal.antt =====
-- Every deploy in flight is for what its strategy should run now: a new desired state withdraws
-- the others, and no event brings one back.
use strategon.Prelude.{
  String, ◌≡◌, refl, ◌∙◌, inl, inr, Bool, true, not, Option, none, some, [], ◌∷◌, arith, eq_refl,
  Map, lookup, Option-cases,
}
use strategon.Prelude.Time.{Instant}
use strategon.Prelude.Entries.{IsDistinct, Entries, lookup-Entries, insert-Entries, erase-Entries}
use strategon.Proto.{get_digest, StrategyAssignmentSpec}
use strategon.Agent.State.{DeployOp, StrategyState, Reconciler, ProcessExit, new_strategy_state}
use strategon.Agent.World.{World, Local, local}
use strategon.Agent.Converge.{reconcile_one}
use strategon.Agent.Health.{tick_strategy}
use strategon.Agent.Exit.{handle_exit}
use strategon.Agent.Cron.{eval_schedules}
use strategon.Agent.Converge.Calm.{Aims, reconcile_one-Aims}
use strategon.Agent.Loop.{
  on_strategy, exit_round, is_withdrawn, converge_desired, tick_strategies, tick_cron, state_of,
  set_actual, drop_actual,
}
use strategon.Agent.Loop.Quiet.{Quiet, tick_strategy-Quiet, handle_exit-Quiet, eval_schedules-Quiet}

-- The deploy in flight, if any, is for the artifact that is desired of the strategy.
abbrev pub is_wanted : Map StrategyAssignmentSpec → String → Option DeployOp → Bool
is_wanted desired name none = true
is_wanted desired name (some op) = not (is_withdrawn desired name op)

pub record IsSound (desired : Map StrategyAssignmentSpec) (name : String) (st : StrategyState)
    : Type 0 where
  pub named : st.strategy ≡ name
  pub wanted : is_wanted desired name st.inflight ≡ true

module _ (desired : Map StrategyAssignmentSpec) (name : String) where
  pub IsSound-Quiet :
      {before after : StrategyState}
      → Quiet before after
      → IsSound desired name before
      → IsSound desired name after
  IsSound-Quiet q s = record {
    named = q.strategy ∙ s.named;
    wanted = elim q.inflight [ inl e ↦ rw e refl | inr e ↦ rw e s.wanted ];
  }

  IsSound-Aims :
      {before after : StrategyState} (spec : StrategyAssignmentSpec)
      → lookup name desired ≡ some spec
      → Aims spec before after
      → IsSound desired name before
      → IsSound desired name after
  unfolding is_withdrawn
  IsSound-Aims spec found a s = record {
    named = a.strategy ∙ s.named;
    wanted = elim a.inflight [
      | inl e ↦ rw e refl
      | inr f ↦ elim f [
        | inl e ↦ rw e s.wanted
        | inr e ↦ rw (e, found) (ground (arith, eq_refl (get_digest spec.artifact)))
      ]
    ];
  }

  state_of-IsSound :
      (o : Option StrategyState)
      → ((st : StrategyState) → o ≡ some st → IsSound desired name st)
      → IsSound desired name (state_of name o)
  unfolding new_strategy_state
  state_of-IsSound none h = record { named = refl; wanted = refl }
  state_of-IsSound (some st) h = h st refl

-- The state of the loop between two rounds.
pub record IsOnTarget (r : Reconciler) : Type 0 where
  pub distinct : IsDistinct r.desired
  pub sound : Entries (IsSound r.desired) r.actual

abbrev Sound : Reconciler → Map StrategyState → Type 0
Sound r = Entries (IsSound r.desired)

pub set_actual-IsOnTarget :
    (r : Reconciler) (name : String) (st : StrategyState)
    → IsOnTarget r
    → IsSound r.desired name st
    → IsOnTarget (set_actual r name st)
set_actual-IsOnTarget r name st h s = record {
  distinct = h.distinct;
  sound = insert-Entries (IsSound r.desired) name st r.actual h.sound s;
}

pub drop_actual-IsOnTarget :
    (r : Reconciler) (name : String) → IsOnTarget r → IsOnTarget (drop_actual r name)
drop_actual-IsOnTarget r name h = record {
  distinct = h.distinct;
  sound = erase-Entries (IsSound r.desired) name r.actual h.sound;
}

-- A handler of one strategy keeps the others, and the desired state.
pub record Keeps (r : Reconciler) (r' : Reconciler) : Type 0 where
  pub on_target : IsOnTarget r'
  pub desired : r'.desired ≡ r.desired

module _ (w : World) where
  pub on_strategy-Keeps :
      (r : Reconciler) (name : String) (f : Local → Local)
      → ((l : Local) → Quiet l.st (f l).st)
      → IsOnTarget r
      → Keeps r (on_strategy r name f).0
  unfolding on_strategy
  on_strategy-Keeps r name f q h = elim (Option-cases (lookup name r.actual)) [
    | inl e ↦ rw (e, on_strategy) (record { on_target = h; desired = refl })
    | inr (st, e) ↦
        rw (e, on_strategy)
          (record {
            on_target = set_actual-IsOnTarget r name (f (local st)).st h (
                IsSound-Quiet r.desired name (q (local st))
                  (lookup-Entries (IsSound r.desired) name r.actual h.sound e));
            desired = refl;
          })
  ]

  pub exit_round-IsOnTarget :
      (r : Reconciler) (ex : ProcessExit) → IsOnTarget r → IsOnTarget (exit_round w r ex).0
  unfolding exit_round
  exit_round-IsOnTarget r ex h = elim (Option-cases (lookup ex.strategy r.actual)) [
    | inl e ↦ rw (e, exit_round) h
    | inr (st, e) ↦ elim (Option-cases (handle_exit w r ex.info (local st))) [
      | inl gone ↦ rw (e, gone, exit_round) (drop_actual-IsOnTarget r ex.strategy h)
      | inr (l, left) ↦
          rw (e, left, exit_round)
            (set_actual-IsOnTarget r ex.strategy l.st h (
              IsSound-Quiet r.desired ex.strategy (handle_exit-Quiet w r ex.info (local st) left)
                (lookup-Entries (IsSound r.desired) ex.strategy r.actual h.sound e)))
    ]
  ]

  pub tick_strategies-Keeps :
      (r : Reconciler) (now : Instant) (m : Map StrategyState)
      → IsOnTarget r
      → Keeps r (tick_strategies w r now m).0
  unfolding tick_strategies
  tick_strategies-Keeps r now [] h = record { on_target = h; desired = refl }
  tick_strategies-Keeps r now ((name, st) ∷ rest) h =
      let here = on_strategy-Keeps r name (tick_strategy w r now) (tick_strategy-Quiet w r now) h in
      let there =
        tick_strategies-Keeps (on_strategy r name (tick_strategy w r now)).0 now rest
          here.on_target in
      record { on_target = there.on_target; desired = there.desired ∙ here.desired }

  pub tick_cron-Keeps :
      (r : Reconciler) (now : Instant) (m : Map StrategyAssignmentSpec)
      → IsOnTarget r
      → Keeps r (tick_cron w r now m).0
  unfolding tick_cron
  tick_cron-Keeps r now [] h = record { on_target = h; desired = refl }
  tick_cron-Keeps r now ((name, spec) ∷ rest) h =
      let here =
        on_strategy-Keeps r name (eval_schedules w r spec now) (eval_schedules-Quiet w r spec now)
          h in
      let there =
        tick_cron-Keeps (on_strategy r name (eval_schedules w r spec now)).0 now rest
          here.on_target in
      record { on_target = there.on_target; desired = there.desired ∙ here.desired }

  pub converge_desired-IsOnTarget :
      (r : Reconciler) (m : Map StrategyAssignmentSpec)
      → IsOnTarget r
      → Entries (λ k v. lookup k r.desired ≡ some v) m
      → IsOnTarget (converge_desired w r m).0
  unfolding converge_desired
  converge_desired-IsOnTarget r [] h found = h
  converge_desired-IsOnTarget r ((name, spec) ∷ rest) h found =
      let old = state_of name (lookup name r.actual) in
      let sound =
        state_of-IsSound r.desired name (lookup name r.actual)
          (λ st e. lookup-Entries (IsSound r.desired) name r.actual h.sound e) in
      converge_desired-IsOnTarget (set_actual r name (reconcile_one w r spec (local old)).st) rest
        (set_actual-IsOnTarget r name (reconcile_one w r spec (local old)).st h (
          IsSound-Aims r.desired name spec found.0 (reconcile_one-Aims w r spec (local old)) sound))
        found.1
