-- ===== src/ControlPlane/Candidates.antt =====
-- internal/controlplane/orchestrator/orchestrator.go: the assignment that a set wants for each member.
use strategon.Prelude.{
  ℕ, suc, String, true, false, ◌⊎◌, inl, inr, Option, none, some, List, [], ◌∷◌, Map, lookup,
  str_eq, ltb, is_some, if◌then◌else◌,
}
use strategon.Proto.{ArtifactRef, VolumeMount, StrategyAssignmentSpec, DeployPolicy, ResourceLimits}
use strategon.ControlPlane.SetSpec.{SetMember, AssignmentSet, member_at}
use strategon.ControlPlane.Sets.{family}
use strategon.ControlPlane.Rollout.{
  Deps, Expanded, Item, RollError, artifact_missing, artifact_not_ready, config_missing,
  bad_template, bad_mounts, no_volume, no_member,
}

-- waitReadySeconds
abbrev pub wait_ready_seconds : AssignmentSet → ℕ
wait_ready_seconds cl =
    if ltb 0 cl.spec.update.wait_ready_seconds then cl.spec.update.wait_ready_seconds else 60

-- defaultDeployPolicy
unfoldable pub default_deploy_policy : AssignmentSet → DeployPolicy
default_deploy_policy cl = record {
  startsecs = 2;
  health_window_seconds = wait_ready_seconds cl;
  max_crashes_in_window = 3;
  stop_grace_seconds = 10;
  enable_auto_rollback = true;
}

abbrev with_window : AssignmentSet → DeployPolicy → DeployPolicy
with_window cl p =
    if ltb 0 p.health_window_seconds
    then p
    else record p { health_window_seconds = wait_ready_seconds cl }

abbrev policy_of : AssignmentSet → DeployPolicy
policy_of cl = elim cl.spec.template.deploy_policy [
  | some p ↦ with_window cl p
  | none ↦ with_window cl (default_deploy_policy cl)
]

abbrev limits_of : Option ResourceLimits → ResourceLimits
limits_of none = record { cpu_millicores = 0; memory_bytes = 0; max_open_files = 0 }
limits_of (some l) = l

abbrev member_spec :
    AssignmentSet → SetMember → ArtifactRef → Option ArtifactRef → Expanded → StrategyAssignmentSpec
member_spec cl srv art cfg rendered = record {
  strategy = srv.name;
  artifact = some art;
  config = cfg;
  limits = limits_of cl.spec.template.limits;
  deploy_policy = policy_of cl;
  schedules = [];
  args = rendered.args;
  env = rendered.env;
  stopped = false;
  readiness_endpoint = rendered.endpoint;
  volume_mounts = rendered.volume_mounts;
  capture_stdio = cl.spec.template.capture_stdio;
  oci_host_pid = cl.spec.template.oci_host_pid;
}

module _ (deps : Deps) where
  -- computeAssignment
  unfoldable pub compute_assignment :
      AssignmentSet → Item → ArtifactRef → RollError ⊎ StrategyAssignmentSpec
  unfolding member_at
  compute_assignment cl item art = elim (deps.expand cl item.idx) [
    | inl e ↦ inl (bad_template e)
    | inr rendered ↦ elim (member_at item.idx cl.spec.members) [
      | none ↦ inl (no_member item.idx)
      | some self ↦ inr (member_spec cl self art item.cfg rendered)
    ]
  ]

  -- resolveClusterArtifact
  unfoldable pub resolve_cluster_artifact : AssignmentSet → RollError ⊎ ArtifactRef
  resolve_cluster_artifact cl = elim (deps.get_artifact (family cl.spec) cl.spec.artifact_version) [
    | none ↦ inl (artifact_missing (family cl.spec) cl.spec.artifact_version)
    | some art ↦ elim (deps.artifact_state art.name art.version) [
      | none ↦ inr art
      | some state ↦
          if str_eq state "READY"
          then inr art
          else inl (artifact_not_ready art.name art.version state)
    ]
  ]

  abbrev find_config : String → String → String → RollError ⊎ Option ArtifactRef
  find_config primary fallback version = elim (deps.get_artifact primary version) [
    | some cfg ↦ inr (some cfg)
    | none ↦
        if str_eq fallback ""
        then inl (config_missing primary version)
        else elim (deps.get_artifact fallback version) [
          | some cfg ↦ inr (some cfg)
          | none ↦ inl (config_missing fallback version)
        ]
  ]

  -- resolveMemberConfig
  unfoldable pub resolve_member_config :
      AssignmentSet → ℕ → ArtifactRef → RollError ⊎ Option ArtifactRef
  resolve_member_config cl idx art = elim (deps.want_config cl idx art.name) [
    | inl e ↦ inl (bad_template e)
    | inr want ↦
        if str_eq want.version ""
        then inr none
        else find_config want.primary want.fallback want.version
  ]

  -- resolveMemberConfigs, with each member and its index
  unfoldable pub resolve_items :
      AssignmentSet → ArtifactRef → ℕ → List SetMember → RollError ⊎ List Item
  resolve_items cl art idx [] = inr []
  resolve_items cl art idx (srv ∷ rest) = elim (resolve_member_config cl idx art) [
    | inl e ↦ inl e
    | inr cfg ↦ elim (resolve_items cl art (suc idx) rest) [
      | inl e ↦ inl e
      | inr items ↦ inr (record { idx = idx; srv = srv; cfg = cfg } ∷ items)
    ]
  ]

  -- volume.EnsureInventory, the loop
  unfoldable pub missing_volume : String → Map String → List VolumeMount → Option RollError
  missing_volume machine have [] = none
  missing_volume machine have (m ∷ ms) =
      let rest = missing_volume machine have ms in
      if is_some (lookup m.name have) then rest else some (no_volume m.name machine)

  -- volume.EnsureInventory
  unfoldable pub ensure_inventory : String → Map String → List VolumeMount → Option RollError
  ensure_inventory machine have mounts = elim (deps.validate_mounts mounts) [
    | some e ↦ some (bad_mounts e)
    | none ↦ missing_volume machine have mounts
  ]
