-- ===== src/Agent/Rebuild/RoundTrip.antt =====
-- What a restart of the agent keeps of a strategy.
use strategon.Prelude.{
  ◌≡◌, refl, ap, ◌∙◌, String, true, Option, none, some, [], ◌∷◌, arith, Map, lookup, lookup-insert,
  str_eq, eq_iff, ◌==◌, if◌then◌else◌,
}
use strategon.Prelude.Entries.{IsDistinct}
use strategon.Proto.{ArtifactType, ArtifactRef, DeployPhase}
use strategon.Agent.State.{Process, StrategyState, new_strategy_state}
use strategon.Agent.World.{World, Result, ok, err}
use strategon.Agent.Rebuild.{
  phase_text, phase_named, parse_phase, kind_text, parse_kind, artifact_to_entry,
  artifact_from_entry, entry_of, persist_supervision, adopted_conditions, adopted_state,
  adopt_entry, rebuild_actual, adopted_or_none, insert_some,
}

parse_phase-text : (p : DeployPhase) → parse_phase (phase_text p) ≡ p
unfolding parse_phase phase_named phase_text
parse_phase-text DeployPhase.unspecified = refl
parse_phase-text DeployPhase.pending = refl
parse_phase-text DeployPhase.downloading = refl
parse_phase-text DeployPhase.verifying = refl
parse_phase-text DeployPhase.draining = refl
parse_phase-text DeployPhase.switching = refl
parse_phase-text DeployPhase.starting = refl
parse_phase-text DeployPhase.health_checking = refl
parse_phase-text DeployPhase.healthy = refl
parse_phase-text DeployPhase.rolled_back = refl
parse_phase-text DeployPhase.failed = refl
parse_phase-text DeployPhase.rolling_back = refl
parse_phase-text DeployPhase.stopped = refl

parse_kind-text : (k : ArtifactType) → parse_kind (kind_text k) ≡ k
unfolding parse_kind kind_text
parse_kind-text ArtifactType.unspecified = refl
parse_kind-text ArtifactType.binary = refl
parse_kind-text ArtifactType.oci_image = refl

artifact_back : (a : Option ArtifactRef) → artifact_from_entry (artifact_to_entry a) ≡ a
unfolding artifact_from_entry artifact_to_entry
artifact_back none = refl
artifact_back (some a) = ap (λ k. some (record a { kind = k })) (parse_kind-text a.kind)

module _ (w : World) (adopt : Process → Result Process) where
  abbrev restored_with :
      String
      → StrategyState
      → Process
      → DeployPhase
      → Option ArtifactRef
      → Option ArtifactRef
      → Option ArtifactRef
      → StrategyState
  restored_with name st p phase running config previous = record (new_strategy_state name) {
    proc = some p;
    started_at = p.started_at;
    phase = phase;
    running_artifact = running;
    running_config = config;
    prev_artifact = previous;
    observed_gen = st.observed_gen;
    last_bad_version = st.last_bad_version;
    capture_stdio = st.capture_stdio;
    oci_host_pid = st.oci_host_pid;
    conditions = adopted_conditions w phase;
  }

  -- what is left of a strategy whose process was adopted: no rollback configuration, no deploy in
  -- flight, no counters and no mounts
  abbrev pub restored : String → StrategyState → Process → StrategyState
  restored name st p =
      restored_with name st p st.phase st.running_artifact st.running_config st.prev_artifact

  abbrev adopted_as : String → StrategyState → Result Process → Option StrategyState
  adopted_as name st (err why) = none
  adopted_as name st (ok p) = some (restored name st p)

  abbrev survives : String → StrategyState → Option Process → Option StrategyState
  survives name st none = none
  survives name st (some p) = if p.pid == 0 then none else adopted_as name st (adopt p)

  -- what a restart makes of a strategy's state
  abbrev pub after_restart : String → Option StrategyState → Option StrategyState
  after_restart name none = none
  after_restart name (some st) = survives name st st.proc

  adopted_state-entry :
      (name : String) (st : StrategyState) (old p : Process)
      → adopted_state w name (entry_of old st) p ≡ restored name st p
  unfolding adopted_state entry_of parse_phase
  adopted_state-entry name st old p =
      let phase = st.phase in
      let running = artifact_from_entry (artifact_to_entry st.running_artifact) in
      let config = artifact_from_entry (artifact_to_entry st.running_config) in
      let previous = artifact_from_entry (artifact_to_entry st.prev_artifact) in
      ap (λ x. restored_with name st p x running config previous) (parse_phase-text st.phase)
      ∙ ap (λ x. restored_with name st p phase x config previous)
          (artifact_back st.running_artifact)
      ∙ ap (λ x. restored_with name st p phase st.running_artifact x previous)
          (artifact_back st.running_config)
      ∙ ap (λ x. restored_with name st p phase st.running_artifact st.running_config x)
          (artifact_back st.prev_artifact)

  adopted-as :
      (name : String) (st : StrategyState) (p : Process) (r : Result Process)
      → adopted_or_none w name (entry_of p st) r ≡ adopted_as name st r
  adopted-as name st p (err why) = refl
  adopted-as name st p (ok q) = ap (λ x. some x) (adopted_state-entry name st p q)

  adopt_entry-survives :
      (name : String) (st : StrategyState) (p : Process)
      → adopt_entry w adopt name (entry_of p st) ≡ survives name st (some p)
  unfolding entry_of
  adopt_entry-survives name st p =
      ap (λ x. if p.pid == 0 then none else x) (adopted-as name st p (adopt p))

  lookup-insert_some :
      (name k : String) (o : Option StrategyState) (m : Map StrategyState)
      → (str_eq k name ≡ true → lookup name m ≡ none)
      → lookup name (insert_some k o m) ≡ (if str_eq k name then o else lookup name m)
  lookup-insert_some name k none m fresh = ground (arith, fresh)
  lookup-insert_some name k (some st) m fresh = lookup-insert k name st m

  -- a listed strategy
  rebuild-step :
      (name k : String) (st : StrategyState) (o : Option Process) (rest : Map StrategyState)
      → st.proc ≡ o
      → lookup k rest ≡ none
      → lookup name (rebuild_actual w adopt (persist_supervision rest))
        ≡ after_restart name (lookup name rest)
      → lookup name (rebuild_actual w adopt (persist_supervision ((k, st) ∷ rest)))
        ≡ after_restart name (if str_eq k name then some st else lookup name rest)
  unfolding rebuild_actual persist_supervision
  rebuild-step name k st none rest e fresh later = ground (arith, later, e, fresh, eq_iff k name)
  rebuild-step name k st (some p) rest e fresh later =
      let o = adopt_entry w adopt k (entry_of p st) in
      let old = rebuild_actual w adopt (persist_supervision rest) in
      let unknown : str_eq k name ≡ true → lookup name old ≡ none =
        λ h. ground (arith, later, fresh, h, eq_iff k name) in
      ground (
        arith,
        e,
        later,
        eq_iff k name,
        adopt_entry-survives k st p,
        lookup-insert_some name k o old unknown,
      )

  -- Where each strategy stands once, a restart of the agent leaves of a strategy exactly this: nothing
  -- without a process, with pid 0 or when Adopt fails, and otherwise the adopted process with the old
  -- phase, running artifact and configuration, previous artifact, observed generation, known-bad
  -- version and the two modes, and everything else as a new strategy has it.
  pub rebuild_actual-persist :
      (name : String) (actual : Map StrategyState)
      → IsDistinct actual
      → lookup name (rebuild_actual w adopt (persist_supervision actual))
        ≡ after_restart name (lookup name actual)
  unfolding rebuild_actual persist_supervision lookup
  rebuild_actual-persist name [] distinct = refl
  rebuild_actual-persist name ((k, st) ∷ rest) distinct =
      rebuild-step name k st st.proc rest refl distinct.0
        (rebuild_actual-persist name rest distinct.1)
