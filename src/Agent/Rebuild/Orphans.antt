-- ===== src/Agent/Rebuild/Orphans.antt =====
-- What a restart of the agent forgets: the mounts of the processes that it adopts.
use strategon.Prelude.{
  ◌≡◌, refl, ap, ◌∙◌, inl, inr, String, Bool, true, false, ◌||◌, ◌==◌, erase, subst, sym, none,
  some, List, [], ◌∷◌, arith, Map, lookup, str_eq, eq_iff, if◌then◌else◌, ◌++◌, Bool-cases,
  Option-cases,
}
use strategon.Prelude.Entries.{Entries, insert-Entries}
use strategon.Agent.State.{Process, StrategyState, Reconciler, new_strategy_state}
use strategon.Agent.World.{World, Result, ok, err, Effect, remove_volume}
use strategon.Agent.Volumes.{
  contains, mount_names, is_mounted, ensure_volumes, sweep_volumes, reconcile_volumes,
}
use strategon.Proto.{StrategyAssignmentSpec, DesiredState, VolumesSpec}
use strategon.Agent.Shared.{apply_desired_shared, reconcile_shared}
use strategon.Agent.Loop.{
  volume_list, apply_desired_volumes, assignment_map, is_withdrawn, withdraw_stale, apply_desired,
  converge_desired, retire_undesired, reconcile, new_desired, handle, round,
}
use strategon.Agent.Rebuild.{
  ProcessEntry, adopted_state, adopted_or_none, insert_some, process_of, rebuild_actual,
  persist_supervision,
}

-- the effects remove the directory of the volume
unfoldable pub removes : String → List Effect → Bool
removes v [] = false
removes v (remove_volume name ∷ es) = str_eq name v || removes v es
removes v (e ∷ es) = removes v es

abbrev HasNoMounts : String → StrategyState → Type 0
HasNoMounts name st = st.volume_mounts ≡ []

module _ (w : World) (adopt : Process → Result Process) where
  adopted_state-HasNoMounts :
      (name : String) (e : ProcessEntry) (p : Process) → HasNoMounts name (adopted_state w name e p)
  unfolding adopted_state new_strategy_state
  adopted_state-HasNoMounts name e p = refl

  insert_some-HasNoMounts :
      (name : String) (e : ProcessEntry) (r : Result Process) (m : Map StrategyState)
      → Entries HasNoMounts m
      → Entries HasNoMounts (insert_some name (adopted_or_none w name e r) m)
  insert_some-HasNoMounts name e (err why) m h = h
  insert_some-HasNoMounts name e (ok p) m h =
      insert-Entries HasNoMounts name (adopted_state w name e p) m h
        (adopted_state-HasNoMounts name e p)

  rebuild_actual-HasNoMounts :
      (entries : Map ProcessEntry) → Entries HasNoMounts (rebuild_actual w adopt entries)
  unfolding rebuild_actual
  rebuild_actual-HasNoMounts [] = tt
  rebuild_actual-HasNoMounts ((name, e) ∷ rest) =
      let later = rebuild_actual-HasNoMounts rest in
      elim (Bool-cases (e.pid == 0)) [
        | inl gone ↦ rw gone later
        | inr there ↦ rw there (
            insert_some-HasNoMounts name e (adopt (process_of e)) (rebuild_actual w adopt rest)
              later)
      ]

is_mounted-none :
    (r : Reconciler) (v : String) (actual : Map StrategyState)
    → ((name : String) → lookup name r.desired ≡ none)
    → Entries HasNoMounts actual
    → is_mounted r v actual ≡ false
unfolding is_mounted mount_names contains
is_mounted-none r v [] unwanted h = refl
is_mounted-none r v ((name, st) ∷ rest) unwanted h =
    ground (arith, unwanted name, h.0, is_mounted-none r v rest unwanted h.1)

sweep-other :
    (r : Reconciler) (v name : String) (rest : List String) (errors : Map String)
    → (let keep = contains name r.desired_volumes || is_mounted r name r.actual in
        removes v (sweep_volumes r rest (if keep then errors else erase name errors)).1 ≡ true)
    → removes v (sweep_volumes r (name ∷ rest) errors).1 ≡ true
unfolding sweep_volumes removes
sweep-other r v name rest errors later = ground (arith, later)

sweep_volumes-removes :
    (r : Reconciler) (v : String) (entries : List String) (errors : Map String)
    → contains v entries ≡ true
    → contains v r.desired_volumes ≡ false
    → is_mounted r v r.actual ≡ false
    → removes v (sweep_volumes r entries errors).1 ≡ true
unfolding sweep_volumes contains removes
sweep_volumes-removes r v [] errors listed unwanted free = ground arith
sweep_volumes-removes r v (name ∷ rest) errors listed unwanted free =
    let keep = contains name r.desired_volumes || is_mounted r name r.actual in
    let later = sweep_volumes-removes r v rest (if keep then errors else erase name errors) in
    elim (Bool-cases (str_eq name v)) [
      | inl here ↦
          let not_wanted : contains name r.desired_volumes ≡ false =
            ground (arith, eq_iff name v, here, unwanted) in
          let not_mounted : is_mounted r name r.actual ≡ false =
            subst (λ x. is_mounted r x r.actual ≡ false) (sym ((eq_iff name v).0 here)) free in
          rw (not_wanted, not_mounted) (ground (arith, here))
      | inr elsewhere ↦
          sweep-other r v name rest errors (later (ground (arith, listed, elsewhere)) unwanted free)
    ]

removes-++ :
    (v : String) (es later : List Effect)
    → removes v (es ++ later) ≡ (removes v es || removes v later)
unfolding removes
removes-++ v [] later = refl
removes-++ v (remove_volume name ∷ es) later = ground (arith, removes-++ v es later)
removes-++ v (e ∷ es) later = ground (arith, removes-++ v es later)

withdraw_stale-HasNoMounts :
    (next : Map StrategyAssignmentSpec) (m : Map StrategyState)
    → Entries HasNoMounts m
    → Entries HasNoMounts (withdraw_stale next m).0
unfolding withdraw_stale
withdraw_stale-HasNoMounts next [] h = h
withdraw_stale-HasNoMounts next ((name, st) ∷ rest) h =
    let later = withdraw_stale-HasNoMounts next rest h.1 in
    elim (Option-cases st.inflight) [
      | inl e ↦ rw (e, withdraw_stale) (h.0, later)
      | inr (op, e) ↦ elim (Bool-cases (is_withdrawn next name op)) [
        | inl gone ↦ rw (e, gone, withdraw_stale) (h.0, later)
        | inr stays ↦ rw (e, stays, withdraw_stale) (h.0, later)
      ]
    ]

contains-volume_list :
    (v : String) (names : List String)
    → contains v names ≡ false
    → contains v (volume_list names) ≡ false
unfolding volume_list contains
contains-volume_list v [] h = h
contains-volume_list v (n ∷ ns) h = ground (arith, h, contains-volume_list v ns)

sweeps :
    (w : World) (r : Reconciler) (v : String)
    → ((name : String) → lookup name r.desired ≡ none)
    → Entries HasNoMounts r.actual
    → r.desired_volumes_present ≡ true
    → contains v r.desired_volumes ≡ false
    → contains v w.volume_entries ≡ true
    → removes v (reconcile_volumes w r).1 ≡ true
unfolding reconcile_volumes
sweeps w r v unwanted bare present undesired there = ground (
  arith,
  present,
  sweep_volumes-removes r v w.volume_entries (ensure_volumes w r.desired_volumes r.volume_errors)
      there undesired (is_mounted-none r v r.actual unwanted bare),
)

shared-keeps :
    (w : World) (r : Reconciler)
    → let after = (reconcile_shared w r).0 in
      (after.actual ≡ r.actual)
      × (after.desired ≡ r.desired)
      × (after.desired_volumes ≡ r.desired_volumes)
      × (after.desired_volumes_present ≡ r.desired_volumes_present)
unfolding reconcile_shared
shared-keeps w r = ground arith

reconcile-removes :
    (w : World) (r : Reconciler) (v : String)
    → removes v (reconcile_volumes w (reconcile_shared w r).0).1 ≡ true
    → removes v (reconcile w r).1 ≡ true
unfolding reconcile
reconcile-removes w r v h =
    let (r₁, es₁) = reconcile_shared w r in
    let (r₂, es₂) = reconcile_volumes w r₁ in
    let (r₃, es₃) = converge_desired w r₂ r₂.desired in
    let (r₄, es₄) = retire_undesired r₃ r₃.actual in
    ground (arith, h, removes-++ v es₁ (es₂ ++ (es₃ ++ es₄)), removes-++ v es₂ (es₃ ++ es₄))

proc-withdraw_stale :
    (next : Map StrategyAssignmentSpec) (m : Map StrategyState) (name : String) {st : StrategyState}
    → lookup name m ≡ some st
    → (after : StrategyState) × (lookup name (withdraw_stale next m).0 ≡ some after)
      × (after.proc ≡ st.proc)
unfolding withdraw_stale lookup
proc-withdraw_stale next [] name {st} found = absurd (ground arith)
proc-withdraw_stale next ((k, s) ∷ rest) name {st} found = elim (Bool-cases (str_eq k name)) [
  | inl here ↦ elim (Option-cases s.inflight) [
    | inl e ↦ rw (e, withdraw_stale) (s, ground (arith, here), ground (arith, here, found))
    | inr (op, e) ↦ elim (Bool-cases (is_withdrawn next k op)) [
      | inl gone ↦
          rw (e, gone, withdraw_stale)
            (record s { inflight = none }, ground (arith, here), ground (arith, here, found))
      | inr stays ↦
          rw (e, stays, withdraw_stale) (s, ground (arith, here), ground (arith, here, found))
    ]
  ]
  | inr there ↦
      let (after, kept, same) =
        proc-withdraw_stale next rest name {st = st} (ground (arith, there, found)) in
      (after, ground (arith, there, kept), same)
]

handled :
    (ds : DesiredState) (r : Reconciler) (vols : VolumesSpec)
    → ds.assignments ≡ []
    → ds.volumes ≡ some vols
    → let after = (apply_desired ds r).0 in
      (after.actual ≡ (withdraw_stale [] r.actual).0)
      × (after.desired ≡ [])
      × (after.desired_volumes ≡ volume_list vols.names)
      × (after.desired_volumes_present ≡ true)
unfolding apply_desired apply_desired_shared apply_desired_volumes assignment_map
handled ds r vols none_wanted given = ground (arith, none_wanted, given)

-- After a restart the loop's strategies are those that were rebuilt from the supervision file. When
-- a desired state then arrives that names no strategy, and lists volumes but not the one, the round
-- of that event removes the directory of the volume if it is there, whatever the strategies had
-- mounted before the restart; and a strategy that was adopted with its process still has it when the
-- event has been handled and the round goes on to reconcile.
pub adopted_mounts_forgotten :
    (w : World) (adopt : Process → Result Process) (r : Reconciler) (old : Map StrategyState)
    (v : String) (ds : DesiredState) (vols : VolumesSpec) (name : String) {st : StrategyState}
    → r.actual ≡ rebuild_actual w adopt (persist_supervision old)
    → ds.assignments ≡ []
    → ds.volumes ≡ some vols
    → contains v vols.names ≡ false
    → contains v w.volume_entries ≡ true
    → lookup name r.actual ≡ some st
    → (removes v (round w (new_desired ds) r).1 ≡ true)
      × (after : StrategyState) × (lookup name (handle w (new_desired ds) r).0.actual ≡ some after)
      × (after.proc ≡ st.proc)
unfolding round handle lookup
adopted_mounts_forgotten w adopt r old v ds vols name {st} rebuilt none_wanted given unlisted there
      lives =
    let r₁ = (apply_desired ds r).0 in
    let r₂ = (reconcile_shared w r₁).0 in
    let (actual₁, wanted₁, listed₁, present₁) = handled ds r vols none_wanted given in
    let (actual₂, wanted₂, listed₂, present₂) = shared-keeps w r₁ in
    let bare : Entries HasNoMounts r₂.actual =
      rw (actual₂, actual₁, rebuilt)
        (withdraw_stale-HasNoMounts [] (rebuild_actual w adopt (persist_supervision old))
          (rebuild_actual-HasNoMounts w adopt (persist_supervision old))) in
    let unwanted : (name : String) → lookup name r₂.desired ≡ none =
      λ name. rw (wanted₂, wanted₁) refl in
    let undesired : contains v r₂.desired_volumes ≡ false =
      rw (listed₂, listed₁) (contains-volume_list v vols.names unlisted) in
    let swept =
      reconcile-removes w r₁ v
        (sweeps w r₂ v unwanted bare (present₂ ∙ present₁) undesired there) in
    let (after, kept, same) = proc-withdraw_stale [] r.actual name {st = st} lives in
    (
      ground (arith, swept, removes-++ v (apply_desired ds r).1 (reconcile w r₁).1),
      after,
      ap (λ m. lookup name m) actual₁ ∙ kept,
      same,
    )
