-- ===== src/ControlPlane/Reconcile/Budget.antt =====
-- How many member writes each part of a tick adds to the trace.
use strategon.Prelude.{
  ℕ, zero, suc, ◌+◌, ◌≤◌, ◌≡◌, refl, ◌∙◌, inl, inr, Option, none, some, List, [], ◌∷◌, arith,
  lookup, is_some, if◌then◌else◌, Option-cases, Sum-cases,
}
use strategon.Proto.{ArtifactRef}
use strategon.ControlPlane.Assign.{Request, ApplyError}
use strategon.ControlPlane.SetSpec.{AssignmentSet, Slot}
use strategon.ControlPlane.Sets.{family}
use strategon.ControlPlane.Rollout.{
  Deps, Item, Controller, machines_of, clear_deadline, set_deadline, send, undeploy_request,
  undeploy_slot, undeploy_step, undeploy_slots,
}
use strategon.ControlPlane.Survey.{
  Member, Found, candidate, inflight, settled, Survey, Surveyed, add_found, survey, admit_member,
  found_as, clear_if_settled, record_or_new,
}
use strategon.ControlPlane.Roll.{
  watch_inflight, member_request, write_member, roll_out, legacy_undeploy, then_write, arm_deadline,
}

-- the requests that write an assignment, in a trace
unfoldable pub count_writes : List Request → ℕ
count_writes [] = 0
count_writes (req ∷ rest) = let n = count_writes rest in if is_some req.spec then suc n else n

abbrev pub writes_of : Controller → ℕ
writes_of ctl = count_writes ctl.requests

-- the requests that take an assignment away
unfoldable pub count_removals : List Request → ℕ
count_removals [] = 0
count_removals (req ∷ rest) = let n = count_removals rest in if is_some req.spec then n else suc n

abbrev pub removals_of : Controller → ℕ
removals_of ctl = count_removals ctl.requests

module _ (deps : Deps) where
  pub send-requests :
      (req : Request) (ctl : Controller) → (send deps req ctl).1.requests ≡ req ∷ ctl.requests
  unfolding send
  send-requests req ctl = ground arith

  undeploy_slot-writes :
      (cl : AssignmentSet) (s : Slot) (ctl : Controller)
      → writes_of (undeploy_slot deps cl s ctl).1 ≡ writes_of ctl
  unfolding undeploy_slot clear_deadline count_writes
  undeploy_slot-writes cl s ctl = ground (arith, send-requests (undeploy_request s) ctl)

  undeploy_step-writes :
      (cl : AssignmentSet) (limit : ℕ) (s : Slot) (removed : ℕ) (ctl : Controller)
      → writes_of (undeploy_step deps cl limit s removed ctl).ctl ≡ writes_of ctl
  unfolding undeploy_step clear_deadline
  undeploy_step-writes cl limit s removed ctl = ground (arith, undeploy_slot-writes cl s ctl)

  pub undeploy_slots-writes :
      (cl : AssignmentSet) (limit : ℕ) (ss : List Slot) (removed : ℕ) (ctl : Controller)
      → writes_of (undeploy_slots deps cl limit ss removed ctl).ctl ≡ writes_of ctl
  unfolding undeploy_slots
  undeploy_slots-writes cl limit [] removed ctl = refl
  undeploy_slots-writes cl limit (s ∷ ss) removed ctl =
      let u = undeploy_step deps cl limit s removed ctl in
      ground (
        arith,
        undeploy_step-writes cl limit s removed ctl,
        undeploy_slots-writes cl limit ss u.removed u.ctl,
      )

  -- The requests that the loop has sent, with the one that fails, are counted.
  undeploy_slot-removals :
      (cl : AssignmentSet) (s : Slot) (ctl : Controller)
      → removals_of (undeploy_slot deps cl s ctl).1 ≡ suc (removals_of ctl)
  unfolding undeploy_slot clear_deadline count_removals
  undeploy_slot-removals cl s ctl = ground (arith, send-requests (undeploy_request s) ctl)

  undeploy_step-removals :
      (cl : AssignmentSet) (limit : ℕ) (s : Slot) (removed : ℕ) (ctl : Controller)
      → let u = undeploy_step deps cl limit s removed ctl in
        removals_of u.ctl + removed
        ≡ removals_of ctl + u.removed + (if is_some u.failure then 1 else 0)
  unfolding undeploy_step clear_deadline
  undeploy_step-removals cl limit s removed ctl = ground (arith, undeploy_slot-removals cl s ctl)

  pub undeploy_slots-removals :
      (cl : AssignmentSet) (limit : ℕ) (ss : List Slot) (removed : ℕ) (ctl : Controller)
      → let u = undeploy_slots deps cl limit ss removed ctl in
        removals_of u.ctl + removed
        ≡ removals_of ctl + u.removed + (if is_some u.failure then 1 else 0)
  unfolding undeploy_slots
  undeploy_slots-removals cl limit [] removed ctl = omega arith
  undeploy_slots-removals cl limit (s ∷ ss) removed ctl =
      let u = undeploy_step deps cl limit s removed ctl in
      ground (
        arith,
        undeploy_step-removals cl limit s removed ctl,
        undeploy_slots-removals cl limit ss u.removed u.ctl,
      )

  undeploy_step-removed :
      (cl : AssignmentSet) (limit : ℕ) (s : Slot) (removed : ℕ) (ctl : Controller)
      → removed ≤ limit
      → (undeploy_step deps cl limit s removed ctl).removed ≤ limit
  unfolding undeploy_step
  undeploy_step-removed cl limit s removed ctl within = ground arith

  pub undeploy_slots-removed :
      (cl : AssignmentSet) (limit : ℕ) (ss : List Slot) (removed : ℕ) (ctl : Controller)
      → removed ≤ limit
      → (undeploy_slots deps cl limit ss removed ctl).removed ≤ limit
  unfolding undeploy_slots
  undeploy_slots-removed cl limit [] removed ctl within = within
  undeploy_slots-removed cl limit (s ∷ ss) removed ctl within =
      let u = undeploy_step deps cl limit s removed ctl in
      ground (
        arith,
        undeploy_step-removed cl limit s removed ctl within,
        undeploy_slots-removed cl limit ss u.removed u.ctl,
      )

  legacy_undeploy-writes :
      (cl : AssignmentSet) (m : Member) (ctl : Controller)
      → writes_of (legacy_undeploy deps cl m ctl).1 ≡ writes_of ctl
  legacy_undeploy-writes cl m ctl = elim (Option-cases m.legacy) [
    | inl e ↦ rw e refl
    | inr (old, e) ↦ rw e (
        undeploy_slot-writes cl (record { machine = m.srv.machine; strategy = family cl.spec }) ctl)
  ]

  then_write-writes :
      (cl : AssignmentSet) (m : Member) (r : Option ApplyError × Controller)
      → writes_of (then_write deps cl m r).1 ≤ suc (writes_of r.1)
  unfolding set_deadline count_writes
  then_write-writes cl m (some e, ctl) = omega arith
  then_write-writes cl m (none, ctl) = ground (arith, send-requests (member_request m) ctl)

  write_member-writes :
      (cl : AssignmentSet) (m : Member) (ctl : Controller)
      → writes_of (write_member deps cl m ctl).1 ≤ suc (writes_of ctl)
  unfolding write_member
  write_member-writes cl m ctl =
      let r = legacy_undeploy deps cl m ctl in
      ground (arith, then_write-writes cl m r, legacy_undeploy-writes cl m ctl)

  pub roll_out-writes :
      (cl : AssignmentSet) (budget : ℕ) (ms : List Member) (ctl : Controller)
      → writes_of (roll_out deps cl budget ms ctl).1.1 ≤ writes_of ctl + budget
  unfolding roll_out
  roll_out-writes cl zero ms ctl = ground arith
  roll_out-writes cl (suc budget) [] ctl = ground arith
  roll_out-writes cl (suc budget) (m ∷ ms) ctl =
      let (e, ctl') = write_member deps cl m ctl in
      ground (arith, write_member-writes cl m ctl, roll_out-writes cl budget ms ctl')

  arm_deadline-writes :
      (cl : AssignmentSet) (m : Member) (ctl : Controller)
      → writes_of (arm_deadline deps cl m ctl) ≡ writes_of ctl
  unfolding arm_deadline set_deadline
  arm_deadline-writes cl m ctl = ground arith

  pub watch_inflight-writes :
      (cl : AssignmentSet) (ms : List Member) (ctl : Controller)
      → writes_of (watch_inflight deps cl ms ctl).1 ≡ writes_of ctl
  unfolding watch_inflight
  watch_inflight-writes cl [] ctl = refl
  watch_inflight-writes cl (m ∷ ms) ctl =
      let armed = arm_deadline deps cl m ctl in
      ground (arith, watch_inflight-writes cl ms armed, arm_deadline-writes cl m ctl)

  cleared-writes :
      (cl : AssignmentSet) (m : Member) (found : Found) (ctl : Controller)
      → writes_of (clear_if_settled deps cl m found ctl) ≡ writes_of ctl
  unfolding clear_if_settled clear_deadline
  cleared-writes cl m candidate ctl = refl
  cleared-writes cl m inflight ctl = refl
  cleared-writes cl m settled ctl = refl

  -- what an added member leaves of the survey of the others
  add_found-ctl :
      (found : Found) (m : Member) (r : Surveyed) (n : ℕ) {s : Survey}
      → add_found found m r ≡ inr s
      → ((t : Survey) → r ≡ inr t → writes_of t.ctl ≡ n)
      → writes_of s.ctl ≡ n
  add_found-ctl found m (inl e) n h keeps = cc
  add_found-ctl candidate m (inr t) n h keeps = ground (arith, h, keeps t refl)
  add_found-ctl inflight m (inr t) n h keeps = ground (arith, h, keeps t refl)
  add_found-ctl settled m (inr t) n h keeps = ground (arith, h, keeps t refl)

  pub survey-writes :
      (cl : AssignmentSet) (art : ArtifactRef) (items : List Item) (ctl : Controller) (s : Survey)
      → survey deps cl art items ctl ≡ inr s
      → writes_of s.ctl ≡ writes_of ctl
  unfolding survey
  survey-writes cl art [] ctl s e = ground arith
  survey-writes cl art (item ∷ items) ctl s e =
      elim (Sum-cases (
        admit_member deps cl art item
          (record_or_new (lookup item.srv.machine (machines_of ctl))))) [
            | inl (why, bad) ↦ ground (arith, bad, e)
            | inr (m, good) ↦
                let cleared = clear_if_settled deps cl m (found_as deps m) ctl in
                add_found-ctl (found_as deps m) m (survey deps cl art items cleared) (writes_of ctl)
                  {s = s} (ground (arith, good, e))
                  (λ t h.
                    survey-writes cl art items cleared t h
                    ∙ cleared-writes cl m (found_as deps m) ctl)
          ]
