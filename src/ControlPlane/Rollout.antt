-- ===== src/ControlPlane/Rollout.antt =====
-- internal/controlplane/orchestrator/orchestrator.go: the controller of assignment sets. A tick on one
-- set is `reconcile`; what it asks of the store for the set itself is its answer. The stores it reads
-- and writes are the state, with `requests`, the trace of its calls of `Service.Apply`, each of which
-- runs with no other write between its checks and its write. The catalogue, the templates
-- (`assignmentset.Expand`, `WantConfig`), `volume.ValidateMounts`, `proto.Equal`, the sorting and the
-- texts of errors are collaborators.
use strategon.Prelude.{
  ℕ, zero, suc, String, Bool, true, false, not, ◌&&◌, ◌⊎◌, Option, none, some, List, [], ◌∷◌, Map,
  str_eq, leb, filter, if◌then◌else◌,
}
use strategon.Prelude.Time.{Instant}
use strategon.Proto.{ArtifactRef, VolumeMount, StrategyAssignmentSpec, DeployPhase}
use strategon.ControlPlane.Memory.{Machines}
use strategon.ControlPlane.Assign.{Request, Plane, ApplyError, refused, unchanged, changed, apply}
use strategon.ControlPlane.SetSpec.{SetMember, SetStatus, AssignmentSet, Slot, same_slot}
use strategon.ControlPlane.OwnedSlots.{is_assigned}

-- assignmentset.Expanded
pub record Expanded : Type 0 where
  pub args : List String
  pub env : Map String
  pub endpoint : String
  pub volume_mounts : List VolumeMount

-- assignmentset.ConfigWant
pub record ConfigWant : Type 0 where
  pub primary : String
  pub fallback : String
  pub version : String

pub data RollError : Type 0 where
  artifact_missing config_missing : String → String → RollError
  artifact_not_ready : String → String → String → RollError
  bad_template bad_mounts : String → RollError
  no_volume : String → String → RollError
  no_member : ℕ → RollError
  mount_conflict : String × String → RollError
  apply_failed : ApplyError → RollError
  member_failed : String → String → DeployPhase → RollError
  wait_elapsed : String → String → RollError

pub record Item : Type 0 where
  pub idx : ℕ
  pub srv : SetMember
  pub cfg : Option ArtifactRef

pub record Deps : Type 0 where
  -- store.GetArtifact, and the state of GetArtifactRecord
  pub get_artifact : String → String → Option ArtifactRef
  pub artifact_state : String → String → Option String
  pub expand : AssignmentSet → ℕ → String ⊎ Expanded
  pub want_config : AssignmentSet → ℕ → String → String ⊎ ConfigWant
  pub validate_mounts : List VolumeMount → Option String
  pub equal : StrategyAssignmentSpec → StrategyAssignmentSpec → Bool
  pub equal_status : SetStatus → SetStatus → Bool
  pub sort_slots : List Slot → List Slot
  pub sort_members : List Item → List Item
  pub message_of : RollError → String
  pub now : Instant

pub record InflightKey : Type 0 where
  pub cluster : String
  pub slot : Slot

abbrev pub Deadlines : Type 0
Deadlines = List (InflightKey × Instant)

abbrev pub same_key : InflightKey → InflightKey → Bool
same_key a b = str_eq a.cluster b.cluster && same_slot a.slot b.slot

pub record Controller : Type 0 where
  pub plane : Plane
  pub deadlines : Deadlines
  pub requests : List Request

abbrev pub machines_of : Controller → Machines
machines_of ctl = ctl.plane.machines

unfoldable pub deadline_of : InflightKey → Deadlines → Option Instant
deadline_of key [] = none
deadline_of key ((k, t) ∷ rest) =
    let later = deadline_of key rest in if same_key k key then some t else later

unfoldable pub without_deadline : InflightKey → Deadlines → Deadlines
without_deadline key ds = filter (λ (d : InflightKey × Instant). not (same_key d.0 key)) ds

-- clearDeadline
unfoldable pub clear_deadline : InflightKey → Controller → Controller
unfolding without_deadline
clear_deadline key ctl = record ctl { deadlines = without_deadline key ctl.deadlines }

-- c.deadlines[key] = t
unfoldable pub set_deadline : InflightKey → Instant → Controller → Controller
unfolding without_deadline
set_deadline key t ctl = record ctl { deadlines = (key, t) ∷ without_deadline key ctl.deadlines }

-- pruneClusterDeadlines
unfoldable pub prune_deadlines : String → Controller → Controller
prune_deadlines cluster ctl = record ctl {
  deadlines =
      filter (λ (d : InflightKey × Instant). not (str_eq d.0.cluster cluster)) ctl.deadlines;
}

abbrev pub at_least_one : ℕ → ℕ
at_least_one zero = 1
at_least_one (suc n) = suc n

abbrev pub key_in : AssignmentSet → Slot → InflightKey
key_in cl s = record { cluster = cl.name; slot = s }

abbrev pub undeploy_request : Slot → Request
undeploy_request s = record {
  machine_id = s.machine;
  strategy = s.strategy;
  spec = none;
  enforce_lease_interlock = false;
  allow_reserved = true;
}

abbrev pub after_undeploy :
    AssignmentSet → Slot → Option ApplyError × Controller → Option ApplyError × Controller
after_undeploy cl s (some e, ctl) = (some e, ctl)
after_undeploy cl s (none, ctl) = (none, clear_deadline (key_in cl s) ctl)

pub record Undeploy : Type 0 where
  pub failure : Option ApplyError
  pub removed : ℕ
  pub ctl : Controller

abbrev pub count_undeploy : ℕ → Option ApplyError × Controller → Undeploy
count_undeploy n (some e, ctl) = record { failure = some e; removed = n; ctl = ctl }
count_undeploy n (none, ctl) = record { failure = none; removed = suc n; ctl = ctl }

module _ (deps : Deps) where
  -- c.Assign.Apply, and the note of the call
  unfoldable pub send : Request → Controller → Option ApplyError × Controller
  send req ctl =
      let noted = record ctl { requests = req ∷ ctl.requests } in
      elim (apply deps.equal ctl.plane deps.now req) [
        | refused e ↦ (some e, noted)
        | unchanged ↦ (none, noted)
        | changed machines ↦
            (none, record noted { plane = record ctl.plane { machines = machines } })
      ]

  -- undeploySlot
  unfoldable pub undeploy_slot : AssignmentSet → Slot → Controller → Option ApplyError × Controller
  undeploy_slot cl s ctl = after_undeploy cl s (send (undeploy_request s) ctl)

  -- the loop body of undeploySlots
  unfoldable pub undeploy_step : AssignmentSet → ℕ → Slot → ℕ → Controller → Undeploy
  undeploy_step cl limit s removed ctl =
      if not (is_assigned (machines_of ctl) s)
      then record { failure = none; removed = removed; ctl = clear_deadline (key_in cl s) ctl }
      else if leb limit removed
      then record { failure = none; removed = removed; ctl = ctl }
      else count_undeploy removed (undeploy_slot cl s ctl)

  -- undeploySlots
  unfoldable pub undeploy_slots : AssignmentSet → ℕ → List Slot → ℕ → Controller → Undeploy
  undeploy_slots cl limit [] removed ctl = record { failure = none; removed = removed; ctl = ctl }
  undeploy_slots cl limit (s ∷ ss) removed ctl =
      let u = undeploy_step cl limit s removed ctl in
      elim u.failure [ some e ↦ u | none ↦ undeploy_slots cl limit ss u.removed u.ctl ]
