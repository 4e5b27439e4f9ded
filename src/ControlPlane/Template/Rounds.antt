-- ===== src/ControlPlane/Template/Rounds.antt =====
-- The rounds of an expansion.
use strategon.Prelude.{
  ◌≡◌, ◌<◌, ◌≤◌, ◌+◌, inl, inr, ℕ, zero, suc, String, Bool, true, false, some, List, [], ◌∷◌, ◌++◌,
  arith, Map, length, Option-cases,
}
use strategon.ControlPlane.Template.{
  frozen, Text, Placeholder, close_of, find_innermost, replacement, Expansion, out_of_fuel, freeze,
  count_closes, expand_text,
}

pub count_closes-++ : (s t : Text) → count_closes (s ++ t) ≡ count_closes s + count_closes t
unfolding count_closes
count_closes-++ [] t = omega arith
count_closes-++ (x ∷ s) t = ground (arith, count_closes-++ s t)

close_of-count :
    (s body after : Text)
    → close_of s ≡ some (body, after)
    → suc (count_closes after) ≡ count_closes s
unfolding close_of count_closes
close_of-count [] body after h = ground arith
close_of-count (x ∷ s) body after h = elim (Option-cases (close_of s)) [
  | inl e ↦ ground (arith, e, h)
  | inr ((b, a), e) ↦ ground (arith, e, h, close_of-count s b a e)
]

find_innermost-count :
    (s : Text) (p : Placeholder)
    → find_innermost s ≡ some p
    → suc (count_closes p.before + count_closes p.after) ≤ count_closes s
unfolding find_innermost count_closes
find_innermost-count [] p h = ground arith
find_innermost-count (x ∷ s) p h = elim (Option-cases (find_innermost s)) [
  | inl e ↦ elim (Option-cases (close_of s)) [
    | inl c ↦ ground (arith, e, c, h)
    | inr ((body, after), c) ↦ ground (arith, e, c, h, close_of-count s body after c)
  ]
  | inr (q, e) ↦ elim (Option-cases (close_of s)) [
    | inl c ↦ ground (arith, e, c, h, find_innermost-count s q e)
    | inr ((body, after), c) ↦
        ground (arith, e, c, h, find_innermost-count s q e, close_of-count s body after c)
  ]
]

abbrev pub has_ended : Expansion → Bool
has_ended out_of_fuel = false
has_ended _ = true

freeze-ends :
    (fuel : ℕ) (vals : Map String) (s : Text) (kept : List Text)
    → count_closes s < fuel
    → has_ended (freeze fuel vals s kept) ≡ true
unfolding freeze count_closes
freeze-ends zero vals s kept enough = ground (arith, enough)
freeze-ends (suc fuel) vals s kept enough = elim (Option-cases (find_innermost s)) [
  | inl e ↦ ground (arith, e)
  | inr (p, e) ↦ elim (Option-cases (replacement vals p.body)) [
    | inl r ↦ ground (arith, e, r)
    | inr (repl, r) ↦
        let next = p.before ++ (frozen (length kept) ∷ p.after) in
        ground (
          arith,
          e,
          r,
          enough,
          find_innermost-count s p e,
          count_closes-++ p.before (frozen (length kept) ∷ p.after),
          freeze-ends fuel vals next (repl ∷ kept),
        )
  ]
]

-- The expansion of every text ends, in a text or in an unknown placeholder: one round more than the
-- text has closing braces is enough.
pub expand_text_ends : (vals : Map String) (s : Text) → has_ended (expand_text vals s) ≡ true
unfolding expand_text
expand_text_ends vals s = ground (arith, freeze-ends (suc (count_closes s)) vals s [] (omega arith))
