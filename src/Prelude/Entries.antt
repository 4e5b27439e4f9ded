-- ===== src/Prelude/Entries.antt =====
-- Maps without a second entry for a key, and properties of every entry.
use strategon.Prelude.Maps.{Map, lookup, insert, erase, lookup-insert}
use Prim.Native.String.{String}
use mathlib.Core.Path.{◌≡◌, refl, sym, subst}
use mathlib.Core.Logic.{inl, inr}
use mathlib.Core.Option.{none, some}
use mathlib.Core.List.{[], ◌∷◌}
use native.Mathlib.Omega.{arith}
use text.Mathlib.TextEquality.{eq_iff}
use strategon.Prelude.Tests.{str_eq, Bool-cases}

module _ {ℓ} {V : Type ℓ} where
  abbrev pub IsDistinct : Map V → Type ℓ
  IsDistinct [] = Unit
  IsDistinct ((k, v) ∷ m) = (lookup k m ≡ none) × IsDistinct m

  -- a property of every entry
  abbrev pub Entries {κ} : (String → V → Type κ) → Map V → Type κ
  Entries P [] = Unit
  Entries P ((k, v) ∷ m) = P k v × Entries P m

  pub insert-IsDistinct :
      (k : String) (v : V) (m : Map V) → IsDistinct m → IsDistinct (insert k v m)
  unfolding insert lookup
  insert-IsDistinct k v [] d = (refl, tt)
  insert-IsDistinct k v ((j, w) ∷ m) d = elim (Bool-cases (str_eq j k)) [
    | inl e ↦ rw e d
    | inr e ↦
        rw e (
          ground (arith, lookup-insert k j v m, eq_iff k j, eq_iff j k),
          insert-IsDistinct k v m d.1,
        )
  ]

  -- every entry is what a lookup of its key finds
  found_in :
      (m rest : Map V)
      → ((k : String) → (v : V) → lookup k rest ≡ some v → lookup k m ≡ some v)
      → IsDistinct rest
      → Entries (λ k v. lookup k m ≡ some v) rest
  unfolding lookup
  found_in m [] sub d = tt
  found_in m ((k, v) ∷ rest) sub d = (
    sub k v (ground (arith, eq_iff k k)),
    found_in m rest (λ j u e. sub j u (ground (arith, eq_iff k j, e, d.0))) d.1,
  )

  pub Entries-lookup : (m : Map V) → IsDistinct m → Entries (λ k v. lookup k m ≡ some v) m
  Entries-lookup m d = found_in m m (λ k v e. e) d

  module _ {κ} (P : String → V → Type κ) where
    pub lookup-Entries :
        (k : String) (m : Map V) {v : V} → Entries P m → lookup k m ≡ some v → P k v
    unfolding lookup
    lookup-Entries k [] h e = cc
    lookup-Entries k ((j, w) ∷ m) {v} h e = elim (Bool-cases (str_eq j k)) [
      | inl s ↦
          let same : w ≡ v = ground arith in
          subst (λ i. P i v) ((eq_iff j k).0 s) (subst (P j) same h.0)
      | inr s ↦ lookup-Entries k m h.1 (ground arith)
    ]

    pub insert-Entries :
        (k : String) (v : V) (m : Map V) → Entries P m → P k v → Entries P (insert k v m)
    unfolding insert
    insert-Entries k v [] h p = (p, tt)
    insert-Entries k v ((j, w) ∷ m) h p = elim (Bool-cases (str_eq j k)) [
      | inl s ↦ rw s (subst (λ i. P i v) (sym ((eq_iff j k).0 s)) p, h.1)
      | inr s ↦ rw s (h.0, insert-Entries k v m h.1 p)
    ]

    pub erase-Entries : (k : String) (m : Map V) → Entries P m → Entries P (erase k m)
    unfolding erase
    erase-Entries k [] h = tt
    erase-Entries k ((j, w) ∷ m) h = elim (Bool-cases (str_eq j k)) [
      | inl s ↦ rw s (erase-Entries k m h.1)
      | inr s ↦ rw s (h.0, erase-Entries k m h.1)
    ]
