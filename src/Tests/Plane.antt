-- ===== src/Tests/Plane.antt =====
-- The statements on leases, the control plane and the supervisor, on concrete inputs.
use strategon.Prelude.{
  ℕ, ◌+◌, ◌*◌, ◌≤◌, ◌<◌, ◌≡◌, refl, String, Bool, true, false, none, some, List, [], ◌∷◌, arith,
  lookup, if◌then◌else◌, ltb, eq_iff, insert,
}
use strategon.Prelude.Time.{second}
use strategon.Proto.{StrategyAssignmentSpec}
use strategon.Lease.{
  LeaseStore, renew, Arrival, serve, serve_all, acquire_lease, renew_lease, lease_free_for,
  deployment_blocked_by_lease, is_authorized, grant,
}
use strategon.Lease.Client.{
  Client, Reading, new_client, apply_grant, check_before_order, check_since, divergence,
}
use strategon.Lease.Client.Jumps.{Call, check, is_jump, steps, jump_never_found}
use strategon.Lease.Held.{Held}
use strategon.Lease.Fencing.{takeover_waits, no_order_after_takeover}
use strategon.Supervisor.Backoff.{
  fresh, blocked, reset, record_crash, exp_backoff, max_backoff_shift,
}
use strategon.Supervisor.Backoff.Bounds.{
  exp_backoff_bounds, exp_backoff_doubles, crashes, blocked-crashes,
}
use strategon.Supervisor.Stop.{StopSequence, Outcome, run}
use strategon.Supervisor.Stop.Ends.{KeepsTime, Ended, stop_total}
use strategon.Agent.Converge.{is_settled}
use strategon.Agent.Loop.{apply_desired}
use strategon.Agent.Volumes.{mounts_volume}
use strategon.ControlPlane.Memory.{
  MachineRecord, Machines, new_record, set_assignment, build_desired_state, on_machine,
}
use strategon.ControlPlane.Memory.Snapshot.{Keyed, desired_state_arrives}
use strategon.ControlPlane.Memory.Generations.{
  assignment, new_volume, write_all, generation-counts, set_assignment-repeat,
}
use strategon.ControlPlane.Assign.{
  Request, Plane, changed, apply_over, gate, live_writer_conflict, holds_any,
}
use strategon.ControlPlane.Assign.Gates.{SingleWriter, apply-SingleWriter}
use strategon.ControlPlane.View.{
  is_converged, assignment_live, assignment_live_in, build_status, build_strategy_view, reported,
}
use strategon.ControlPlane.View.Converged.{converged_settled}
use strategon.Tests.Data.{alpha_spec, settled, machine, live}

-- m1 holds the lease of `alpha` until 30 s; it renews at 10 s, and m2 asks at 50 s.
abbrev leases : LeaseStore
leases = record {
  leases =
      (
        "alpha",
        record { machine_id = "m1"; lease_id = "l1"; expires_at = 30 * second; ttl = 30 * second },
      )
      ∷ [];
  lease_margin = 2 * second;
}

abbrev arrivals : List Arrival
arrivals = record { at_time = 10 * second; peer = some "m1"; call = renew "l1" "alpha" } ∷ []

abbrev held : Held leases "alpha" "m1" (30 * second) (5 * second)
unfolding lookup
held = record {
  info = record { machine_id = "m1"; lease_id = "l1"; expires_at = 30 * second; ttl = 30 * second };
  found = refl;
  owner = refl;
  lasts = omega arith;
  dated = omega arith;
}

takeover_waits_example : 30 * second + 2 * second < 50 * second
unfolding serve serve_all acquire_lease renew_lease lease_free_for lookup insert is_authorized
takeover_waits_example =
    takeover_waits leases "alpha" "m1" (30 * second) (5 * second) (50 * second) arrivals none "m2"
      30 (some "l2") {res = grant "l2" (80 * second)} held refl (refl, tt) refl refl refl

abbrev client : Client
client = new_client second (2 * second)

abbrev got : Reading
got = record { wall = 6 * second; mono = 0 }

no_order_after_takeover_example : 20 * second < 50 * second
unfolding serve serve_all acquire_lease renew_lease lease_free_for lookup insert is_authorized
    new_client apply_grant check_before_order check_since divergence
no_order_after_takeover_example =
    no_order_after_takeover leases "alpha" "m1" (30 * second) (5 * second) (50 * second) arrivals
      none "m2" 30 (some "l2") {res = grant "l2" (80 * second)} client "l1" got second (13 * second)
      (14 * second) (6 * second) (7 * second) (20 * second) second second held refl (refl, tt) refl
      refl refl (omega arith) (omega arith) (omega arith) refl (omega arith) (omega arith)
      (omega arith) (omega arith)

-- The client renews at 5 s, after an hour's jump of its wall clock, and checks at 4 s and 6 s.
abbrev calls : List Call
calls =
    check (4 * second) (4 * second)
    ∷ Call.grant "l1" (4000 * second) (record { wall = 3611 * second; mono = 5 * second })
        (5 * second)
    ∷ []

jump_never_found_example :
    is_jump
      (check_before_order
        (steps (apply_grant client "l1" (30 * second) got 0) calls)
        (6 * second)
        (6 * second)).0
    ≡ false
unfolding new_client
jump_never_found_example =
    jump_never_found client "l1" (30 * second) got 0 calls (6 * second) (6 * second) refl
      ((omega arith, omega arith, omega arith), (tt, tt)) (omega arith, omega arith, omega arith)

-- A process that is gone four ticks after SIGTERM, within a grace of five.
abbrev sequence : StopSequence ℕ
sequence = record {
  drain = none;
  signal = λ g s. s;
  exited = λ s. (ltb 3 s, s);
  grace = 5;
  poll_interval = 1;
  sleep = λ d s. s + d;
  now = λ s. (s, s);
}

abbrev clock : KeepsTime ℕ sequence
clock = record {
  time = λ s. s;
  now_reads = λ s. refl;
  now_keeps = λ s. omega arith;
  exited_keeps = λ s. omega arith;
  sleep_moves = λ d s. omega arith;
  signal_keeps = λ g s. omega arith;
}

stop_total_example : (o : Outcome ℕ) × (run sequence 6 0 ≡ some o) × Ended sequence clock 0 o
stop_total_example = stop_total sequence clock 6 0 (omega arith)

exp_backoff_bounds_example :
    (second ≤ exp_backoff 9 (some (λ d. d))) × (exp_backoff 9 (some (λ d. d)) ≤ 80 * second)
exp_backoff_bounds_example = exp_backoff_bounds 9 (λ d. d) (λ d. omega arith)

exp_backoff_doubles_example :
    exp_backoff 5 none ≡ (if ltb 3 max_backoff_shift then 2 * exp_backoff 4 none else 64 * second)
exp_backoff_doubles_example = exp_backoff_doubles 3

blocked-crashes_example :
    (blocked (record_crash (crashes none fresh (1 ∷ 2 ∷ [])) 3 none) 4
      ≡ ltb 4 (3 + exp_backoff 3 none))
    × (blocked (reset (record_crash (crashes none fresh (1 ∷ 2 ∷ [])) 3 none)) 4 ≡ false)
blocked-crashes_example = blocked-crashes none (1 ∷ 2 ∷ []) 3 4

-- a test of equality that finds a spec equal to itself, the only one written twice here
abbrev equal : StrategyAssignmentSpec → StrategyAssignmentSpec → Bool
equal a b = true

abbrev served : MachineRecord
served = record new_record { generation = 3; assignments = ("alpha", alpha_spec) ∷ [] }

served-Keyed : Keyed served.assignments
unfolding lookup
served-Keyed k spec e = ground (arith, e, eq_iff "alpha" k)

desired_state_arrives_example :
    lookup "alpha" (apply_desired (build_desired_state (λ names. names) served) machine).0.desired
    ≡ lookup "alpha" served.assignments
unfolding lookup
desired_state_arrives_example =
    desired_state_arrives (λ names. names) served machine "alpha" (λ j names. refl) served-Keyed

generation-counts_example :
    (write_all equal
      (new_volume "data" ∷ assignment "alpha" (some alpha_spec) ∷ [])
      new_record).1.generation
    ≡ 0
      + (write_all equal
          (new_volume "data" ∷ assignment "alpha" (some alpha_spec) ∷ [])
          new_record).0
generation-counts_example =
    generation-counts equal (new_volume "data" ∷ assignment "alpha" (some alpha_spec) ∷ [])
      new_record

set_assignment-repeat_example :
    set_assignment equal "alpha"
      (some alpha_spec)
      (set_assignment equal "alpha" (some alpha_spec) new_record).1
    ≡ (false, (set_assignment equal "alpha" (some alpha_spec) new_record).1)
set_assignment-repeat_example =
    set_assignment-repeat equal "alpha" (some alpha_spec) new_record (λ s. refl)

-- `beta` runs beside `alpha`, on a volume of its own.
abbrev beta_spec : StrategyAssignmentSpec
beta_spec = record alpha_spec {
  strategy = "beta";
  volume_mounts = record { name = "logs"; container_path = "/logs" } ∷ [];
}

abbrev plane : Plane
plane = record { machines = ("m1", served) ∷ []; leases = leases; reserved_by = none }

abbrev write_beta : Request
write_beta = record {
  machine_id = "m1";
  strategy = "beta";
  spec = some beta_spec;
  enforce_lease_interlock = true;
  allow_reserved = false;
}

abbrev with_beta : MachineRecord
with_beta = record served {
  generation = 4;
  assignments = ("alpha", alpha_spec) ∷ ("beta", beta_spec) ∷ [];
}

-- between the checks and the write, another machine is registered
abbrev meanwhile : Machines
meanwhile = ("m1", served) ∷ ("m3", record served { assignments = [] }) ∷ []

meanwhile-SingleWriter :
    (k : String) (before : MachineRecord)
    → lookup k meanwhile ≡ some before
    → SingleWriter before.assignments
unfolding lookup
meanwhile-SingleWriter k before e i j v a b found_i found_j differ run_i run_j named = absurd (
    ground (
      arith,
      differ,
      found_i,
      found_j,
      e,
      eq_iff "m1" k,
      eq_iff "m3" k,
      eq_iff "alpha" i,
      eq_iff "alpha" j,
      eq_iff i j,
    ))

apply-SingleWriter_example : SingleWriter with_beta.assignments
unfolding gate on_machine set_assignment lookup insert live_writer_conflict holds_any mounts_volume
    deployment_blocked_by_lease
apply-SingleWriter_example =
    apply-SingleWriter equal plane meanwhile (50 * second) write_beta
      {after = ("m1", with_beta) ∷ ("m3", record served { assignments = [] }) ∷ []} "m1"
      {rec = with_beta} meanwhile-SingleWriter refl refl refl

-- Two writes whose checks have both read "m1" before either wrote: the second is applied as well,
-- and its volume is the one of the first.
abbrev raced : Machines
raced =
    (
      "m1",
      record with_beta {
        generation = 5;
        assignments = ("alpha", alpha_spec) ∷ ("beta", beta_spec) ∷ ("gamma", beta_spec) ∷ [];
      },
    )
    ∷ []

race :
    apply_over equal plane
      (("m1", with_beta) ∷ [])
      (50 * second)
      (record write_beta { strategy = "gamma" })
    ≡ changed raced
unfolding gate on_machine set_assignment lookup insert live_writer_conflict holds_any mounts_volume
    deployment_blocked_by_lease
race = refl

converged_settled_example : is_settled alpha_spec (some settled) ≡ true
unfolding is_converged assignment_live assignment_live_in build_status build_strategy_view reported
    lookup
converged_settled_example = converged_settled alpha_spec settled none {c = live} refl refl refl refl
