-- ===== src/Tests/Sets.antt =====
-- The statements on assignment sets and their controller, on concrete inputs.
use strategon.Prelude.{
  ◌≡◌, refl, String, Bool, true, false, none, some, List, [], ◌∷◌, arith, lookup, eq_iff, ◌*◌,
}
use strategon.Prelude.Time.{second}
use strategon.Lease.{LeaseStore}
use strategon.ControlPlane.Memory.{new_record}
use strategon.ControlPlane.Assign.{Request, Plane, reserved_by, refused, apply}
use strategon.ControlPlane.SetSpec.{SetSpec, has_slot}
use strategon.ControlPlane.Sets.{
  Clusters, SetRequest, pending_status, claimed_slots, set_reserved_by,
}
use strategon.ControlPlane.Sets.Steps.{SetWrite, put_spec, put_status, mark_deleting, write_each}
use strategon.ControlPlane.Sets.Owners.{SoleOwners}
use strategon.ControlPlane.Sets.Reserved.{write_each-SoleOwners, claimed_slot_refused}
use strategon.Tests.Data.{alpha_spec}

abbrev pub web_spec : SetSpec
web_spec = record {
  strategy = "alpha";
  artifact_version = "v2";
  config_version = "";
  template = record {
    args = "--name" ∷ "${member.name}" ∷ [];
    env = [];
    deploy_policy = none;
    readiness_endpoint = "";
    limits = none;
    peers = record { format = ""; separator = ""; include_self = false };
    volume_mounts = [];
    capture_stdio = false;
    oci_host_pid = false;
  };
  members =
      record { machine = "m1"; name = "a"; vars = []; config = ""; config_version = "" }
      ∷ record { machine = "m1"; name = "b"; vars = []; config = ""; config_version = "" }
      ∷ [];
  update = record { max_unavailable = 1; wait_ready_seconds = 60 };
  config = "";
}

abbrev web_request : SetRequest
web_request = record { name = "web"; labels = []; spec = some web_spec; status = none }

-- the same slots, asked for by another set, and a third set on another machine
abbrev rival_request : SetRequest
rival_request = record web_request { name = "rival" }

abbrev other_request : SetRequest
other_request = record web_request {
  name = "other";
  spec = some (record web_spec {
    members =
        record { machine = "m2"; name = "a"; vars = []; config = ""; config_version = "" } ∷ [];
  });
}

abbrev set_writes : List SetWrite
set_writes =
    put_spec (some "u1") web_request
    ∷ put_spec (some "u2") rival_request
    ∷ put_spec (some "u3") other_request
    ∷ put_status "web" (record pending_status { assignment_key = "member" })
    ∷ mark_deleting "other"
    ∷ []

-- a test that never takes two specs for equal
abbrev never_equal : SetSpec → SetSpec → Bool
never_equal a b = false

abbrev as_listed : List String → List String
as_listed names = names

write_each-SoleOwners_example : SoleOwners (write_each never_equal as_listed set_writes [])
unfolding lookup
write_each-SoleOwners_example =
    write_each-SoleOwners never_equal (λ a b e. cc) as_listed (λ j names. refl) set_writes []
      (refl, (refl, (refl, (tt, (tt, tt)))))
      (record { named = λ k c e. cc; apart = λ i j a b s e f g h k. cc })

-- what the store holds after these writes
abbrev clusters : Clusters
clusters =
    (
      "web",
      record {
        name = "web";
        uid = "u1";
        generation = 1;
        labels = [];
        spec = web_spec;
        status = record pending_status { assignment_key = "member" };
      },
    )
    ∷ []

clusters-SoleOwners : SoleOwners clusters
unfolding lookup
clusters-SoleOwners = record {
  named = λ k c e. ground (arith, e, eq_iff "web" k);
  apart = λ i j a b s e f differ h k. ground (arith, e, f, differ, eq_iff "web" i, eq_iff "web" j);
}

abbrev pub no_leases : LeaseStore
no_leases = record { leases = []; lease_margin = 2 * second }

abbrev guarded : Plane
guarded = record {
  machines = ("m1", new_record) ∷ [];
  leases = no_leases;
  reserved_by = some (set_reserved_by as_listed clusters);
}

abbrev human_write : Request
human_write = record {
  machine_id = "m1";
  strategy = "a";
  spec = some alpha_spec;
  enforce_lease_interlock = true;
  allow_reserved = false;
}

claimed_slot_refused_example :
    apply (λ a b. false) guarded (50 * second) human_write ≡ refused (reserved_by "web")
unfolding lookup has_slot claimed_slots
claimed_slot_refused_example =
    claimed_slot_refused as_listed (λ j names. refl) clusters clusters-SoleOwners (λ a b. false)
      guarded (50 * second) human_write "web" _ refl refl refl refl refl refl
