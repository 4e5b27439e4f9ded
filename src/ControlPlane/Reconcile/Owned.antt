-- ===== src/ControlPlane/Reconcile/Owned.antt =====
-- The slots that a set owns have names, in whatever order.
use strategon.Prelude.{
  ◌≡◌, String, Bool, true, ◌||◌, inl, inr, List, [], ◌∷◌, arith, filter, All, str_eq, eq_iff,
  Bool-cases,
}
use strategon.ControlPlane.SetSpec.{
  SetMember, MemberStatus, AssignmentSet, Slot, same_slot, has_slot,
}
use strategon.ControlPlane.Sets.{family}
use strategon.ControlPlane.OwnedSlots.{
  uses_member_key, spec_has_member, own, own_members, own_rows, own_families, collect_owned,
  set_machines,
}
use strategon.ControlPlane.Reconcile.Undeploys.{IsNamed, IsOwned}

own-IsNamed :
    (machine strategy : String) (out : List Slot)
    → All IsNamed out
    → All IsNamed (own machine strategy out)
unfolding own
own-IsNamed machine strategy out h = elim (Bool-cases (str_eq machine "" || str_eq strategy "")) [
  | inl e ↦ rw e h
  | inr e ↦
      rw e (elim (Bool-cases (has_slot (record { machine = machine; strategy = strategy }) out)) [
        | inl f ↦ rw f h
        | inr f ↦ rw f (e, h)
      ])
]

own_members-IsNamed :
    (ms : List SetMember) (out : List Slot) → All IsNamed out → All IsNamed (own_members ms out)
unfolding own_members
own_members-IsNamed [] out h = h
own_members-IsNamed (m ∷ ms) out h =
    own_members-IsNamed ms (own m.machine m.name out) (own-IsNamed m.machine m.name out h)

own_rows-IsNamed :
    (ms : List MemberStatus) (out : List Slot) → All IsNamed out → All IsNamed (own_rows ms out)
unfolding own_rows
own_rows-IsNamed [] out h = h
own_rows-IsNamed (m ∷ ms) out h =
    own_rows-IsNamed ms (own m.machine m.name out) (own-IsNamed m.machine m.name out h)

own_families-IsNamed :
    (cl : AssignmentSet) (machines : List String) (out : List Slot)
    → All IsNamed out
    → All IsNamed (own_families cl machines out)
unfolding own_families
own_families-IsNamed cl [] out h = h
own_families-IsNamed cl (machine ∷ rest) out h =
    elim (Bool-cases (spec_has_member cl.spec.members machine (family cl.spec))) [
      | inl e ↦ rw e (own_families-IsNamed cl rest out h)
      | inr e ↦ rw e (
          own_families-IsNamed cl rest (own machine (family cl.spec) out)
            (own-IsNamed machine (family cl.spec) out h))
    ]

pub collect_owned-IsNamed : (cl : AssignmentSet) → All IsNamed (collect_owned cl)
unfolding collect_owned
collect_owned-IsNamed cl =
    let out = own_rows cl.status.members (own_members cl.spec.members []) in
    let named =
      own_rows-IsNamed cl.status.members (own_members cl.spec.members [])
        (own_members-IsNamed cl.spec.members [] tt) in
    elim (Bool-cases (uses_member_key cl)) [
      | inl e ↦ rw e named
      | inr e ↦ rw e (own_families-IsNamed cl (set_machines cl) out named)
    ]

pub has-IsNamed : (s : Slot) (ss : List Slot) → All IsNamed ss → has_slot s ss ≡ true → IsNamed s
unfolding has_slot
has-IsNamed s [] named h = cc
has-IsNamed s (t ∷ ts) named h = ground (
  arith,
  named.0,
  h,
  eq_iff t.machine s.machine,
  eq_iff t.strategy s.strategy,
  has-IsNamed s ts named.1,
)

same_slot_refl : (s : Slot) → same_slot s s ≡ true
same_slot_refl s = ground (arith, eq_iff s.machine s.machine, eq_iff s.strategy s.strategy)

pub IsNamed-All :
    (ss : List Slot) → ((s : Slot) → has_slot s ss ≡ true → IsNamed s) → All IsNamed ss
unfolding has_slot
IsNamed-All [] h = tt
IsNamed-All (s ∷ ss) h = (
  h s (ground (arith, same_slot_refl s)),
  IsNamed-All ss (λ t inside. h t (ground (arith, inside))),
)

-- what holds of every slot that the list has holds all along it
pub All-has :
    (os ss : List Slot)
    → All IsNamed os
    → ((s : Slot) → has_slot s ss ≡ true → has_slot s os ≡ true)
    → All (IsOwned os) ss
unfolding has_slot
All-has os [] named sub = tt
All-has os (s ∷ ss) named sub =
    let inside = sub s (ground (arith, same_slot_refl s)) in
    (
      (has-IsNamed s os named inside, inside),
      All-has os ss named (λ t h. sub t (ground (arith, h))),
    )

pub filter-has :
    (q : Slot → Bool) (s : Slot) (ss : List Slot)
    → has_slot s (filter q ss) ≡ true
    → has_slot s ss ≡ true
unfolding has_slot filter
filter-has q s [] h = h
filter-has q s (t ∷ ts) h = ground (arith, filter-has q s ts)
