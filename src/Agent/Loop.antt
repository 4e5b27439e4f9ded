-- ===== src/Agent/Loop.antt =====
-- One round of the loop in `Run`: the handlers over the map of strategies, and `reconcile`.
pub mod Quiet
pub mod Withdrawal
pub mod OnTarget
pub mod Fetches
use strategon.Prelude.{
  ℕ, String, Bool, true, false, not, ◌&&◌, ◌||◌, Option, none, some, List, [], ◌∷◌, ◌++◌, Map,
  lookup, insert, erase, str_eq, is_some, if◌then◌else◌,
}
use strategon.Prelude.Time.{Instant}
use strategon.Proto.{get_digest, StrategyAssignmentSpec, DesiredState, VolumesSpec}
use strategon.Agent.State.{
  DeployOp, StrategyState, Reconciler, new_strategy_state, ProcessExit, WorkerEvent, HealthResult,
}
use strategon.Agent.World.{World, Local, local, Effect, cancel_deploy}
use strategon.Agent.Volumes.{contains, reconcile_volumes}
use strategon.Agent.Deploy.{apply_worker_event}
use strategon.Agent.Converge.{reconcile_one, retire_strategy, recompute_observed_generation}
use strategon.Agent.Health.{tick_strategy, apply_health_result}
use strategon.Agent.Cron.{eval_schedules}
use strategon.Agent.Exit.{handle_exit}
use strategon.Agent.Shared.{
  SharedEvent, apply_desired_shared, reconcile_shared, apply_shared_worker_event,
}

abbrev pub Round : Type 0
Round = Reconciler × List Effect

-- Effects are in the order in which they happen.
unfoldable pub in_order : List Effect → List Effect → List Effect
in_order [] later = later
in_order (e ∷ es) later = in_order es (e ∷ later)

abbrev pub set_actual : Reconciler → String → StrategyState → Reconciler
set_actual r name st = record r { actual = insert name st r.actual }

abbrev pub drop_actual : Reconciler → String → Reconciler
drop_actual r name = record r { actual = erase name r.actual }

-- A handler that works on the state of one strategy, if it has one.
unfoldable pub on_strategy : Reconciler → String → (Local → Local) → Round
unfolding in_order
on_strategy r name f = elim (lookup name r.actual) [
  | none ↦ (r, [])
  | some st ↦ let l = f (local st) in (set_actual r name l.st, in_order l.log [])
]

abbrev pub finish_exit : Reconciler → String → Option Local → Round
finish_exit r name none = (drop_actual r name, [])
finish_exit r name (some l) = (set_actual r name l.st, in_order l.log [])

unfoldable pub exit_round : World → Reconciler → ProcessExit → Round
unfolding in_order
exit_round w r ex = elim (lookup ex.strategy r.actual) [
  | none ↦ (r, [])
  | some st ↦ finish_exit r ex.strategy (handle_exit w r ex.info (local st))
]

-- the assignments of a snapshot by strategy, the last of a name winning
unfoldable pub assignment_map :
    List StrategyAssignmentSpec → Map StrategyAssignmentSpec → Map StrategyAssignmentSpec
assignment_map [] next = next
assignment_map (a ∷ rest) next = assignment_map rest (insert a.strategy a next)

abbrev pub target_digest : Option StrategyAssignmentSpec → String
target_digest none = ""
target_digest (some spec) = get_digest spec.artifact

unfoldable pub is_withdrawn : Map StrategyAssignmentSpec → String → DeployOp → Bool
is_withdrawn next name op =
    not (is_some (lookup name next))
    || not (str_eq (target_digest (lookup name next)) (get_digest op.target))

-- the loop of applyDesired: cancel the deploys that now have a stale target
unfoldable pub withdraw_stale :
    Map StrategyAssignmentSpec → Map StrategyState → Map StrategyState × List Effect
withdraw_stale next [] = ([], [])
withdraw_stale next ((name, st) ∷ rest) =
    let (rest', es) = withdraw_stale next rest in
    elim st.inflight [
      | none ↦ ((name, st) ∷ rest', es)
      | some op ↦
          if is_withdrawn next name op
          then ((name, record st { inflight = none }) ∷ rest', cancel_deploy name op ∷ es)
          else ((name, st) ∷ rest', es)
    ]

unfoldable pub volume_list : List String → List String
volume_list [] = []
volume_list (n ∷ ns) =
    let rest = volume_list ns in if str_eq n "" || contains n rest then rest else n ∷ rest

-- applyDesiredVolumes
unfoldable pub apply_desired_volumes : Option VolumesSpec → Reconciler → Reconciler
unfolding volume_list
apply_desired_volumes none r = record r { desired_volumes_present = false }
apply_desired_volumes (some v) r = record r {
  desired_volumes_present = true;
  volumes_generation = v.generation;
  desired_volumes = volume_list v.names;
}

unfoldable pub apply_desired : DesiredState → Reconciler → Round
unfolding assignment_map withdraw_stale apply_desired_volumes
apply_desired ds r₀ =
    let (r₁, es) = apply_desired_shared ds.shared (record r₀ { generation = ds.generation }) in
    let r = apply_desired_volumes ds.volumes r₁ in
    let next = assignment_map ds.assignments [] in
    let (actual, es') = withdraw_stale next r.actual in
    (record r { actual = actual; desired = next }, es ++ es')

abbrev pub state_of : String → Option StrategyState → StrategyState
state_of name none = new_strategy_state name
state_of name (some st) = st

-- the first loop of reconcile, over the desired strategies
unfoldable pub converge_desired : World → Reconciler → Map StrategyAssignmentSpec → Round
unfolding in_order
converge_desired w r [] = (r, [])
converge_desired w r ((name, spec) ∷ rest) =
    let l = reconcile_one w r spec (local (state_of name (lookup name r.actual))) in
    let (r', es) = converge_desired w (set_actual r name l.st) rest in (r', in_order l.log es)

abbrev pub retired : Reconciler → String → Option StrategyState → Reconciler
retired r name none = drop_actual r name
retired r name (some st) = set_actual r name st

-- the second loop of reconcile, over the strategies that are no longer desired
unfoldable pub retire_undesired : Reconciler → Map StrategyState → Round
unfolding in_order
retire_undesired r [] = (r, [])
retire_undesired r ((name, st) ∷ rest) =
    let (left, log) = retire_strategy r (local st) in
    let (r', es) =
      retire_undesired (if is_some (lookup name r.desired) then r else retired r name left) rest in
    (r', if is_some (lookup name r.desired) then es else in_order log es)

unfoldable pub reconcile : World → Reconciler → Round
unfolding converge_desired retire_undesired
reconcile w r =
    let (r₁, es₁) = reconcile_shared w r in
    let (r₂, es₂) = reconcile_volumes w r₁ in
    let (r₃, es₃) = converge_desired w r₂ r₂.desired in
    let (r₄, es₄) = retire_undesired r₃ r₃.actual in
    (recompute_observed_generation r₄, es₁ ++ (es₂ ++ (es₃ ++ es₄)))

-- the loop of tick over the strategies
unfoldable pub tick_strategies : World → Reconciler → Instant → Map StrategyState → Round
unfolding on_strategy
tick_strategies w r now [] = (r, [])
tick_strategies w r now ((name, st) ∷ rest) =
    let (r₁, es) = on_strategy r name (tick_strategy w r now) in
    let (r₂, es') = tick_strategies w r₁ now rest in (r₂, es ++ es')

-- tickCron
unfoldable pub tick_cron : World → Reconciler → Instant → Map StrategyAssignmentSpec → Round
unfolding on_strategy
tick_cron w r now [] = (r, [])
tick_cron w r now ((name, spec) ∷ rest) =
    let (r₁, es) = on_strategy r name (eval_schedules w r spec now) in
    let (r₂, es') = tick_cron w r₁ now rest in (r₂, es ++ es')

-- tick; the release sweep that it starts changes no strategy
unfoldable pub tick : World → Reconciler → Instant → Round
unfolding tick_strategies tick_cron
tick w r now =
    let (r₁, es₁) = tick_strategies w r now r.actual in
    let (r₂, es₂) = tick_cron w r₁ now r₁.desired in (r₂, es₁ ++ es₂)

-- what wakes the loop; the walk of slot sizes and the reaping of slots are left out
pub data Event : Type 0 where
  new_desired : DesiredState → Event
  process_exit : ProcessExit → Event
  worker : WorkerEvent → Event
  shared_worker : SharedEvent → Event
  health : HealthResult → Event
  clock_tick : Instant → Event

unfoldable pub handle : World → Event → Reconciler → Round
handle w (new_desired ds) r = apply_desired ds r
handle w (process_exit ex) r = exit_round w r ex
handle w (worker ev) r = on_strategy r ev.strategy (apply_worker_event w r ev)
handle w (shared_worker ev) r = apply_shared_worker_event w ev r
handle w (health hr) r = on_strategy r hr.strategy (apply_health_result w r hr)
handle w (clock_tick now) r = tick w r now

-- the body of the `for` in Run, up to what it reports
unfoldable pub round : World → Event → Reconciler → Round
unfolding handle
round w ev r = let (r₁, es₁) = handle w ev r in let (r₂, es₂) = reconcile w r₁ in (r₂, es₁ ++ es₂)
