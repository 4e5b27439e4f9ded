-- ===== src/ControlPlane/Sets.antt =====
-- internal/controlplane/store/memory_sets.go: the stored assignment sets and who owns which slot.
-- Each operation is atomic under the store's lock. The time of creation and the signal to the
-- controller are left out; `proto.Equal`, the order of `sort` and the random uid are parameters.
pub mod Owners
pub mod Changes
pub mod Writes
pub mod Steps
pub mod Reserved
use strategon.Prelude.{
  ℕ, suc, String, Bool, true, false, not, ◌&&◌, ◌||◌, ◌⊎◌, inl, inr, Option, none, some, List, [],
  ◌∷◌, ◌++◌, Map, lookup, insert, erase, str_eq, ◌==◌, length, is_some, if◌then◌else◌,
}
use strategon.ControlPlane.SetSpec.{SetMember, SetSpec, SetStatus, AssignmentSet, Slot, has_slot}
use strategon.ControlPlane.Memory.{values_by}

abbrev pub Clusters : Type 0
Clusters = Map AssignmentSet

-- What a caller sends: metadata and spec, and a status where it has one.
pub record SetRequest : Type 0 where
  pub name : String
  pub labels : Map String
  pub spec : Option SetSpec
  pub status : Option SetStatus

pub data SetError : Type 0 where
  name_required spec_required no_uid not_found : SetError
  owned_by : Slot → String → SetError

-- SetStrategy
unfoldable pub family : SetSpec → String
family spec = if str_eq spec.strategy "" then "nats" else spec.strategy

-- the closure `add` of claimedSlots
unfoldable pub add_slot : String → String → List Slot → List Slot
add_slot machine strategy slots =
    if str_eq machine "" || str_eq strategy ""
    then slots
    else record { machine = machine; strategy = strategy } ∷ slots

unfoldable pub member_slots : List SetMember → List Slot
unfolding add_slot
member_slots [] = []
member_slots (m ∷ ms) = add_slot m.machine m.name (member_slots ms)

unfoldable pub family_slots : String → List SetMember → List Slot
unfolding add_slot
family_slots cat [] = []
family_slots cat (m ∷ ms) =
    let rest = family_slots cat ms in
    if str_eq m.name cat then rest else add_slot m.machine cat rest

-- claimedSlots, of a spec and an assignment key
unfoldable pub claimed_slots : SetSpec → String → List Slot
unfolding member_slots family_slots family
claimed_slots spec key =
    if str_eq key ""
    then member_slots spec.members ++ family_slots (family spec) spec.members
    else member_slots spec.members

abbrev pub claims : AssignmentSet → List Slot
claims c = claimed_slots c.spec c.status.assignment_key

unfoldable pub first_claimed : List Slot → List Slot → Option Slot
first_claimed wanted [] = none
first_claimed wanted (s ∷ ss) =
    let rest = first_claimed wanted ss in if has_slot s wanted then some s else rest

unfoldable pub conflict_among : List AssignmentSet → String → List Slot → Option (Slot × String)
unfolding first_claimed claimed_slots
conflict_among [] name wanted = none
conflict_among (c ∷ cs) name wanted =
    let rest = conflict_among cs name wanted in
    if str_eq c.name name || c.status.deleting
    then rest
    else elim (first_claimed wanted (claims c)) [ none ↦ rest | some s ↦ some (s, c.name) ]

abbrev key_of : Option SetStatus → String
key_of none = ""
key_of (some status) = status.assignment_key

-- withPersistedAssignmentKey: the key that the request's claims are judged by
unfoldable pub persisted_key : List AssignmentSet → String → String → String
persisted_key [] name key = key
persisted_key (c ∷ cs) name key =
    let rest = persisted_key cs name key in
    if not (str_eq key "")
    then key
    else if str_eq c.name name
    then c.status.assignment_key
    else rest

-- reservationConflict
unfoldable pub reservation_conflict :
    List AssignmentSet → String → SetSpec → Option SetStatus → Option (Slot × String)
unfolding conflict_among persisted_key claimed_slots
reservation_conflict existing name spec status =
    conflict_among existing name (claimed_slots spec (persisted_key existing name (key_of status)))

abbrev zero_text : Option String → String
zero_text none = ""
zero_text (some v) = v

-- the loop of labelsEqual: a missing key reads as ""
unfoldable pub labels_agree : Map String → Map String → Bool
labels_agree [] b = true
labels_agree ((k, v) ∷ rest) b = str_eq (zero_text (lookup k b)) v && labels_agree rest b

unfoldable pub labels_equal : Map String → Map String → Bool
unfolding labels_agree
labels_equal a b = length a == length b && labels_agree a b

abbrev pub pending_status : SetStatus
pending_status = record {
  phase = "Pending";
  observed_generation = 0;
  reason = "";
  message = "";
  members = [];
  deleting = false;
  assignment_key = "";
}

abbrev status_or_pending : Option SetStatus → SetStatus
status_or_pending none = pending_status
status_or_pending (some status) = status

abbrev pub Stored : Type 0
Stored = SetError ⊎ (Bool × Clusters)

-- the first write of a name
unfoldable pub create_set : Option String → SetRequest → SetSpec → Clusters → Stored
create_set none req spec clusters = inl no_uid
create_set (some uid) req spec clusters = inr (
  true,
  insert req.name
      (record {
        name = req.name;
        uid = uid;
        generation = 1;
        labels = req.labels;
        spec = spec;
        status = status_or_pending req.status;
      })
      clusters,
)

-- a write of a name that is stored
unfoldable pub update_set : Bool → SetRequest → SetSpec → AssignmentSet → Clusters → Stored
unfolding labels_equal
update_set same_spec req spec cur clusters =
    if same_spec && labels_equal cur.labels req.labels
    then inr (false, clusters)
    else inr (
      true,
      insert req.name
          (record cur {
            spec = spec;
            labels = req.labels;
            generation = if same_spec then cur.generation else suc cur.generation;
          })
          clusters,
    )

abbrev pub if_free : Option (Slot × String) → Stored → Stored
if_free none write = write
if_free (some (s, owner)) write = inl (owned_by s owner)

module _ (equal : SetSpec → SetSpec → Bool) (sort : List String → List String) where
  unfoldable pub write_set :
      Option String → SetRequest → SetSpec → Option AssignmentSet → Clusters → Stored
  write_set uid req spec none clusters =
      if_free (reservation_conflict (values_by sort clusters) req.name spec req.status)
        (create_set uid req spec clusters)
  write_set uid req spec (some cur) clusters =
      if equal cur.spec spec
      then update_set true req spec cur clusters
      else if_free (reservation_conflict (values_by sort clusters) req.name spec req.status)
          (update_set false req spec cur clusters)

  -- ApplyAssignmentSet
  unfoldable pub apply_assignment_set : Option String → SetRequest → Clusters → Stored
  apply_assignment_set uid req clusters =
      if str_eq req.name "" then inl name_required else elim req.spec [
        | none ↦ inl spec_required
        | some spec ↦ write_set uid req spec (lookup req.name clusters) clusters
      ]

unfoldable pub first_owner : List AssignmentSet → Slot → Option String
unfolding claimed_slots
first_owner [] s = none
first_owner (c ∷ cs) s =
    let rest = first_owner cs s in
    if c.status.deleting then rest else if has_slot s (claims c) then some c.name else rest

-- ReservedBy
unfoldable pub set_reserved_by :
    (List String → List String) → Clusters → String → String → Option String
set_reserved_by sort clusters machine strategy =
    first_owner (values_by sort clusters) (record { machine = machine; strategy = strategy })

-- preserveDeleting
unfoldable pub preserve_deleting : SetStatus → SetStatus → SetStatus
preserve_deleting cur incoming = record incoming {
  deleting = cur.deleting || incoming.deleting;
  phase = if cur.deleting then "Deleting" else incoming.phase;
  assignment_key =
      if str_eq incoming.assignment_key "" then cur.assignment_key else incoming.assignment_key;
}

-- UpdateAssignmentSetStatus
unfoldable pub update_set_status : String → SetStatus → Clusters → Option Clusters
unfolding preserve_deleting
update_set_status name status clusters = elim (lookup name clusters) [
  | none ↦ none
  | some cur ↦
      some (insert name (record cur { status = preserve_deleting cur.status status }) clusters)
]

-- MarkAssignmentSetDeleting
unfoldable pub mark_set_deleting : String → Clusters → Option Clusters
mark_set_deleting name clusters = elim (lookup name clusters) [
  | none ↦ none
  | some cur ↦
      let doomed = record cur.status { deleting = true; phase = "Deleting" } in
      some (insert name (record cur { status = doomed }) clusters)
]

-- DeleteAssignmentSet
unfoldable pub delete_set : String → Clusters → Option Clusters
delete_set name clusters =
    if is_some (lookup name clusters) then some (erase name clusters) else none
