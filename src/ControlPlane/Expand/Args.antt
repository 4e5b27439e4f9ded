-- ===== src/ControlPlane/Expand/Args.antt =====
-- The arguments of a member.
use strategon.Prelude.{◌≡◌, subst, inl, inr, String, List, [], ◌∷◌, arith, Map, Sum-cases}
use strategon.ControlPlane.Expand.{Printing, expand, expand_args}

-- Both lists have one length, and the relation holds place by place.
abbrev pub Pairwise : (String → String → Type 0) → List String → List String → Type 0
Pairwise R [] [] = Unit
Pairwise R (a ∷ before) (b ∷ after) = R a b × Pairwise R before after
Pairwise R [] (b ∷ after) = ⊥
Pairwise R (a ∷ before) [] = ⊥

-- Where the arguments of a template expand, nothing is added, reordered or dropped: the result has one
-- argument for each, in its place, and it is what that argument expands to, the empty text included.
pub expand_args-each :
    (print : Printing) (vals : Map String) (raw out : List String)
    → expand_args print vals raw ≡ inr out
    → Pairwise (λ a b. expand print vals "args" a ≡ inr b) raw out
unfolding expand_args
expand_args-each print vals [] [] h = tt
expand_args-each print vals [] (b ∷ after) h = absurd (ground (arith, h))
expand_args-each print vals (a ∷ rest) out h = elim (Sum-cases (expand print vals "args" a)) [
  | inl (e, bad) ↦ absurd (ground (arith, bad, h))
  | inr (s, good) ↦ elim (Sum-cases (expand_args print vals rest)) [
    | inl (e, bad) ↦ absurd (ground (arith, good, bad, h))
    | inr (texts, fine) ↦
        let listed : s ∷ texts ≡ out = ground (arith, good, fine, h) in
        subst (λ o. Pairwise (λ x y. expand print vals "args" x ≡ inr y) (a ∷ rest) o) listed
          (good, expand_args-each print vals rest texts fine)
  ]
]
