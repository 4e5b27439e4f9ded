-- ===== src/ControlPlane/Memory/Snapshot.antt =====
-- What the agent takes from the snapshot of a machine's record.
use strategon.Prelude.{
  ◌≡◌, refl, ◌∙◌, inl, inr, String, ◌&&◌, some, List, [], ◌∷◌, arith, Map, lookup, insert,
  lookup-insert, eq_iff, is_some, if◌then◌else◌, Option-cases,
}
use strategon.Proto.{StrategyAssignmentSpec}
use strategon.Agent.State.{Reconciler}
use strategon.Agent.Volumes.{contains}
use strategon.Agent.Loop.{assignment_map, apply_desired}
use strategon.ControlPlane.Memory.{MachineRecord, keys, values_at, build_desired_state}

pub contains-keys {ℓ} :
    {V : Type ℓ} (k : String) (m : Map V) → contains k (keys m) ≡ is_some (lookup k m)
unfolding contains lookup
contains-keys k [] = refl
contains-keys k ((j, v) ∷ m) = ground (arith, contains-keys k m)

-- Each assignment is stored under the strategy that it names.
abbrev pub Keyed : Map StrategyAssignmentSpec → Type 0
Keyed m = (k : String) (spec : StrategyAssignmentSpec) → lookup k m ≡ some spec → spec.strategy ≡ k

lookup-assignment_map :
    (k : String) (m : Map StrategyAssignmentSpec) (ks : List String)
    (next : Map StrategyAssignmentSpec)
    → Keyed m
    → lookup k (assignment_map (values_at m ks) next)
      ≡ (if contains k ks && is_some (lookup k m) then lookup k m else lookup k next)
unfolding assignment_map values_at contains
lookup-assignment_map k m [] next keyed = refl
lookup-assignment_map k m (j ∷ js) next keyed = elim (Option-cases (lookup j m)) [
  | inl e ↦
      rw (e, values_at) (lookup-assignment_map k m js next keyed ∙ ground (arith, e, eq_iff j k))
  | inr (spec, e) ↦
      rw (e, values_at)
        (lookup-assignment_map k m js (insert spec.strategy spec next) keyed
          ∙ ground (arith, e, eq_iff j k, keyed j spec e, lookup-insert spec.strategy k spec next))
]

-- The agent's desired assignments, after it has applied the snapshot that the store renders, are
-- those of the machine's record, strategy by strategy, where sorting neither adds nor drops a name
-- and each assignment is stored under its own name.
pub desired_state_arrives :
    (sort : List String → List String) (rec : MachineRecord) (r : Reconciler) (k : String)
    → ((j : String) (names : List String) → contains j (sort names) ≡ contains j names)
    → Keyed rec.assignments
    → lookup k (apply_desired (build_desired_state sort rec) r).0.desired ≡ lookup k rec.assignments
unfolding apply_desired build_desired_state lookup
desired_state_arrives sort rec r k same keyed =
    lookup-assignment_map k rec.assignments (sort (keys rec.assignments)) [] keyed
    ∙ ground (arith, same k (keys rec.assignments), contains-keys k rec.assignments)
