-- ===== src/ControlPlane/SetSpec.antt =====
-- The messages of assignment sets (proto/strategyplatform/v1/assignmentset.proto). What the code
-- reads through getters is a record; where it asks whether a message is there, an `Option`.
use strategon.Prelude.{
  ℕ, zero, suc, String, Bool, false, ◌&&◌, ◌||◌, Option, none, some, List, [], ◌∷◌, Map, str_eq,
}
use strategon.Proto.{DeployPhase, DeployPolicy, ResourceLimits, VolumeMount}

pub record SetMember : Type 0 where
  pub machine : String
  pub name : String
  pub vars : Map String
  pub config : String
  pub config_version : String

pub record PeerList : Type 0 where
  pub format : String
  pub separator : String
  pub include_self : Bool

pub record MemberTemplate : Type 0 where
  pub args : List String
  pub env : Map String
  pub deploy_policy : Option DeployPolicy
  pub readiness_endpoint : String
  pub limits : Option ResourceLimits
  pub peers : PeerList
  pub volume_mounts : List VolumeMount
  pub capture_stdio : Bool
  pub oci_host_pid : Bool

pub record RollingUpdate : Type 0 where
  pub max_unavailable : ℕ
  pub wait_ready_seconds : ℕ

pub record SetSpec : Type 0 where
  pub strategy : String
  pub artifact_version : String
  pub config_version : String
  pub template : MemberTemplate
  pub members : List SetMember
  pub update : RollingUpdate
  pub config : String

-- `phase` stands for the text that `DeployPhase.String` gives.
pub record MemberStatus : Type 0 where
  pub machine : String
  pub name : String
  pub ready : Bool
  pub phase : DeployPhase
  pub converged : Bool

pub record SetStatus : Type 0 where
  pub phase : String
  pub observed_generation : ℕ
  pub reason : String
  pub message : String
  pub members : List MemberStatus
  pub deleting : Bool
  pub assignment_key : String

pub record AssignmentSet : Type 0 where
  pub name : String
  pub uid : String
  pub generation : ℕ
  pub labels : Map String
  pub spec : SetSpec
  pub status : SetStatus

-- the member that stands at an index
unfoldable pub member_at : ℕ → List SetMember → Option SetMember
member_at idx [] = none
member_at zero (m ∷ ms) = some m
member_at (suc idx) (m ∷ ms) = member_at idx ms

-- A place for a process: the assignment of one strategy on one machine.
pub record Slot : Type 0 where
  pub machine : String
  pub strategy : String

abbrev pub same_slot : Slot → Slot → Bool
same_slot a b = str_eq a.machine b.machine && str_eq a.strategy b.strategy

-- `_, ok := set[s]` on a map of slots
unfoldable pub has_slot : Slot → List Slot → Bool
has_slot s [] = false
has_slot s (t ∷ ts) = same_slot t s || has_slot s ts
