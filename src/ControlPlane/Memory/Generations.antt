-- ===== src/ControlPlane/Memory/Generations.antt =====
-- The generation of a machine's desired state counts its changes.
use strategon.Prelude.{
  ℕ, suc, ◌+◌, ◌≡◌, String, Bool, true, false, Option, none, some, List, [], ◌∷◌, arith,
  lookup-insert, lookup-erase, eq_iff, if◌then◌else◌,
}
use strategon.Proto.{StrategyAssignmentSpec, SharedFileSpec}
use strategon.ControlPlane.Memory.{
  MachineRecord, Write, set_assignment, set_shared_files, create_volume, delete_volume,
}

pub data WriteCall : Type 0 where
  assignment : String → Option StrategyAssignmentSpec → WriteCall
  shared : List SharedFileSpec → WriteCall
  new_volume old_volume : String → WriteCall

module _ (equal : StrategyAssignmentSpec → StrategyAssignmentSpec → Bool) where
  unfoldable pub write : WriteCall → MachineRecord → Write
  write (assignment strategy spec) = set_assignment equal strategy spec
  write (shared files) = set_shared_files files
  write (new_volume name) = create_volume name
  write (old_volume name) = delete_volume name

  -- the changes among the calls, and the record that they leave
  unfoldable pub write_all : List WriteCall → MachineRecord → ℕ × MachineRecord
  write_all [] rec = (0, rec)
  write_all (c ∷ cs) rec =
      let (changed, rec') = write c rec in
      let (n, after) = write_all cs rec' in (if changed then suc n else n, after)

  write-generation :
      (c : WriteCall) (rec : MachineRecord)
      → (write c rec).1.generation
        ≡ (if (write c rec).0 then suc rec.generation else rec.generation)
  unfolding write set_assignment set_shared_files create_volume delete_volume
  write-generation (assignment strategy none) rec = ground arith
  write-generation (assignment strategy (some spec)) rec = ground arith
  write-generation (shared files) rec = ground arith
  write-generation (new_volume name) rec = ground arith
  write-generation (old_volume name) rec = ground arith

  -- Whatever writes a machine's record receives, its generation grows by exactly the number of
  -- the writes that report a change.
  pub generation-counts :
      (cs : List WriteCall) (rec : MachineRecord)
      → (write_all cs rec).1.generation ≡ rec.generation + (write_all cs rec).0
  unfolding write_all
  generation-counts [] rec = omega arith
  generation-counts (c ∷ cs) rec =
      ground (arith, write-generation c rec, generation-counts cs (write c rec).1)

  -- Writing the same assignment twice, or undeploying twice, changes the record once: the second
  -- write reports no change and leaves the record as it is, where `proto.Equal` finds a spec equal
  -- to itself.
  pub set_assignment-repeat :
      (strategy : String) (spec : Option StrategyAssignmentSpec) (rec : MachineRecord)
      → ((s : StrategyAssignmentSpec) → equal s s ≡ true)
      → set_assignment equal strategy spec (set_assignment equal strategy spec rec).1
        ≡ (false, (set_assignment equal strategy spec rec).1)
  unfolding set_assignment
  set_assignment-repeat strategy none rec same =
      ground (arith, lookup-erase strategy strategy rec.assignments, eq_iff strategy strategy)
  set_assignment-repeat strategy (some spec) rec same = ground (
    arith,
    lookup-insert strategy strategy spec rec.assignments,
    eq_iff strategy strategy,
    same spec,
  )
