-- ===== src/Tests/Restart.antt =====
-- The statements on a restart of the agent, on concrete inputs.
use strategon.Prelude.{◌≡◌, refl, true, none, some, [], ◌∷◌, lookup, insert}
use strategon.Agent.State.{Process, StrategyState, Reconciler, new_reconciler}
use strategon.Agent.World.{World, Result, ok}
use strategon.Proto.{DesiredState}
use strategon.Agent.Volumes.{contains}
use strategon.Agent.Loop.{new_desired, handle, round}
use strategon.Agent.Rebuild.{rebuild_actual, persist_supervision, entry_of, adopted_state}
use strategon.Agent.Rebuild.RoundTrip.{restored, rebuild_actual-persist}
use strategon.Agent.Rebuild.Orphans.{removes, adopted_mounts_forgotten}
use strategon.Tests.Data.{world, checking, new_process}

abbrev adopt_all : Process → Result Process
adopt_all p = ok p

rebuild_actual-persist_example :
    lookup "alpha" (rebuild_actual world adopt_all (persist_supervision (("alpha", checking) ∷ [])))
    ≡ some (restored world adopt_all "alpha" checking new_process)
unfolding lookup
rebuild_actual-persist_example =
    rebuild_actual-persist world adopt_all "alpha" (("alpha", checking) ∷ []) (refl, tt)

-- `alpha` has mounted "data"; the new desired state names neither.
abbrev on_disk : World
on_disk = record world { volume_entries = "data" ∷ [] }

abbrev restarted : Reconciler
restarted = record new_reconciler {
  actual = rebuild_actual on_disk adopt_all (persist_supervision (("alpha", checking) ∷ []));
}

abbrev without_alpha : DesiredState
without_alpha = record {
  generation = 4;
  assignments = [];
  shared = none;
  volumes = some (record { generation = 4; names = "logs" ∷ [] });
}

adopted_mounts_forgotten_example :
    (removes "data" (round on_disk (new_desired without_alpha) restarted).1 ≡ true)
    × (after : StrategyState) × (lookup "alpha"
          (handle on_disk (new_desired without_alpha) restarted).0.actual
        ≡ some after)
    × (after.proc ≡ some new_process)
unfolding contains lookup rebuild_actual persist_supervision entry_of adopted_state insert
adopted_mounts_forgotten_example =
    adopted_mounts_forgotten on_disk adopt_all restarted (("alpha", checking) ∷ []) "data"
      without_alpha (record { generation = 4; names = "logs" ∷ [] }) "alpha"
      {st = adopted_state on_disk "alpha" (entry_of new_process checking) new_process} refl refl
      refl refl refl refl
