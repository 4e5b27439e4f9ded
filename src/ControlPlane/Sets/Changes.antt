-- ===== src/ControlPlane/Sets/Changes.antt =====
-- What statuses, deletion marks and deletions keep true of the owners of slots.
use strategon.Prelude.{
  ◌≡◌, String, true, false, not, ◌&&◌, some, arith, lookup, insert, erase, lookup-erase, str_eq,
  eq_iff,
}
use strategon.ControlPlane.SetSpec.{SetSpec, SetStatus, AssignmentSet, Slot, has_slot}
use strategon.ControlPlane.Sets.{
  Clusters, claimed_slots, family, member_slots, family_slots, preserve_deleting,
}
use strategon.ControlPlane.Sets.Owners.{SoleOwners, has_slot-++, insert-SoleOwners}

-- A key never adds a claim.
claims-shrink :
    (s : Slot) (spec : SetSpec) (old new : String)
    → (str_eq new "" && not (str_eq old "")) ≡ false
    → has_slot s (claimed_slots spec new) ≡ true
    → has_slot s (claimed_slots spec old) ≡ true
unfolding claimed_slots
claims-shrink s spec old new h here = ground (
  arith,
  eq_iff old "",
  eq_iff new "",
  has_slot-++ s (member_slots spec.members) (family_slots (family spec) spec.members),
)

pub status-SoleOwners :
    (name : String) (cur : AssignmentSet) (status : SetStatus) (clusters : Clusters)
    → SoleOwners clusters
    → lookup name clusters ≡ some cur
    → SoleOwners
        (insert name (record cur { status = preserve_deleting cur.status status }) clusters)
unfolding preserve_deleting
status-SoleOwners name cur status clusters sole found =
    let next = record cur { status = preserve_deleting cur.status status } in
    insert-SoleOwners name next clusters sole (sole.named name cur found) (λ j b s fb differ ka kb.
      let shrink =
        claims-shrink s cur.spec cur.status.assignment_key next.status.assignment_key
          (ground (arith, eq_iff status.assignment_key "")) in
      let old_kept : cur.status.deleting ≡ false = ground (arith, ka) in
      let apart = sole.apart name j cur b s found fb differ old_kept kb in
      ground (arith, shrink, apart))

pub delete-SoleOwners :
    (name : String) (clusters : Clusters) → SoleOwners clusters → SoleOwners (erase name clusters)
unfolding lookup
delete-SoleOwners name clusters sole = record {
  named = λ k d e. sole.named k d (ground (arith, e, lookup-erase name k clusters));
  apart = λ i j a b s fa fb differ ka kb.
      sole.apart i j a b s (ground (arith, fa, lookup-erase name i clusters))
        (ground (arith, fb, lookup-erase name j clusters)) differ ka kb;
}

pub mark-SoleOwners :
    (name : String) (cur : AssignmentSet) (clusters : Clusters)
    → SoleOwners clusters
    → lookup name clusters ≡ some cur
    → SoleOwners (
        insert name
          (record cur { status = record cur.status { deleting = true; phase = "Deleting" } })
          clusters)
mark-SoleOwners name cur clusters sole found =
    insert-SoleOwners name
      (record cur { status = record cur.status { deleting = true; phase = "Deleting" } }) clusters
      sole (sole.named name cur found) (λ j b s fb differ ka kb. ground (arith, ka))
