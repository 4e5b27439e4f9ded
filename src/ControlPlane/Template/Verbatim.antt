-- ===== src/ControlPlane/Template/Verbatim.antt =====
-- A substituted value stands in the text as it is.
use mathlib.Core.List.{append_assoc}
use strategon.Prelude.{
  ◌≡◌, ◌<◌, ◌≤◌, refl, sym, ap, ◌∙◌, ℕ, zero, suc, String, true, some, List, [], ◌∷◌, ◌++◌, All,
  arith, Map, length,
}
use strategon.ControlPlane.Template.{
  Symbol, opening, frozen, Text, is_close, Placeholder, find_innermost, replacement, expanded,
  freeze, count_closes, expand_text, thaw, restore,
}
use strategon.ControlPlane.Template.Rounds.{count_closes-++}
use strategon.ControlPlane.Template.Keys.{
  is_flat, has_no_close, opens_nothing, keys_below, opens_nothing-flat, keys_below-flat,
  opens_nothing-++, keys_below-++, keys_below-suc, find_innermost-none, find_innermost-at, thaw-at,
}

-- A placeholder with the text before it, and what stands for it.
pub record Segment : Type 0 where
  pub before : Text
  pub body : Text
  pub brace : Symbol
  pub value : Text

-- Neither the text nor the placeholder opens another one, and the placeholder is known.
pub record Known (vals : Map String) (g : Segment) : Type 0 where
  pub flat : is_flat g.before ≡ true
  pub shut : is_flat g.body ≡ true
  pub inside : has_no_close g.body ≡ true
  pub close : is_close g.brace ≡ true
  pub known : replacement vals g.body ≡ some g.value

unfoldable pub written_with : List Segment → Text → Text
written_with [] tail = tail
written_with (g ∷ gs) tail = g.before ++ (opening ∷ (g.body ++ (g.brace ∷ written_with gs tail)))

-- each value in the place of its placeholder
unfoldable pub filled_in : List Segment → Text → Text
filled_in [] tail = tail
filled_in (g ∷ gs) tail = g.before ++ (g.value ++ filled_in gs tail)

-- the keys in their places, from `n` on
unfoldable keyed : ℕ → List Segment → Text → Text
keyed n [] tail = tail
keyed n (g ∷ gs) tail = g.before ++ (frozen n ∷ keyed (suc n) gs tail)

unfoldable kept_after : List Segment → List Text → List Text
kept_after [] kept = kept
kept_after (g ∷ gs) kept = kept_after gs (g.value ∷ kept)

restore-keyed :
    (vals : Map String) (gs : List Segment) (pre tail : Text) (kept : List Text)
    → All (λ g. Known vals g) gs
    → keys_below (length kept) pre ≡ true
    → restore (kept_after gs kept) (pre ++ keyed (length kept) gs tail)
      ≡ restore kept (pre ++ filled_in gs tail)
unfolding kept_after keyed filled_in restore keys_below
restore-keyed vals [] pre tail kept flat below = refl
restore-keyed vals (g ∷ gs) pre tail kept flat below =
    let n = length kept in
    let front = pre ++ g.before in
    let done = front ++ (frozen n ∷ []) in
    let under : keys_below n front ≡ true =
      ground (arith, below, keys_below-++ n pre g.before, keys_below-flat n g.before flat.0.flat) in
    let fresh : keys_below (suc n) done ≡ true =
      ground (arith, keys_below-++ (suc n) front (frozen n ∷ []), keys_below-suc n front under) in
    let later = restore-keyed vals gs done tail (g.value ∷ kept) flat.1 fresh in
    let regroup : (t : Text) → done ++ t ≡ pre ++ (g.before ++ (frozen n ∷ t)) =
      λ t. append_assoc front (frozen n ∷ []) t ∙ append_assoc pre g.before (frozen n ∷ t) in
    let put : thaw n g.value (done ++ filled_in gs tail)
        ≡ pre ++ (g.before ++ (g.value ++ filled_in gs tail)) =
      ap (λ t. thaw n g.value t) (append_assoc front (frozen n ∷ []) (filled_in gs tail))
      ∙ thaw-at n front g.value (filled_in gs tail) under
      ∙ append_assoc pre g.before (g.value ++ filled_in gs tail) in
    ap (λ t. restore (kept_after gs (g.value ∷ kept)) t) (sym (regroup (keyed (suc n) gs tail)))
    ∙ later
    ∙ ap (λ t. restore kept t) put

freeze_step :
    (vals : Map String) (fuel : ℕ) (s : Text) (kept : List Text) {p : Placeholder} {value : Text}
    → find_innermost s ≡ some p
    → replacement vals p.body ≡ some value
    → freeze (suc fuel) vals s kept
      ≡ freeze fuel vals (p.before ++ (frozen (length kept) ∷ p.after)) (value ∷ kept)
unfolding freeze
freeze_step vals fuel s kept {p} {value} found known = ground (arith, found, known)

freeze-segments :
    (vals : Map String) (gs : List Segment) (fuel : ℕ) (pre tail : Text) (kept : List Text)
    → All (λ g. Known vals g) gs
    → opens_nothing pre ≡ true
    → opens_nothing tail ≡ true
    → length gs < fuel
    → freeze fuel vals (pre ++ written_with gs tail) kept
      ≡ expanded (pre ++ keyed (length kept) gs tail) (kept_after gs kept)
unfolding freeze written_with keyed kept_after opens_nothing
freeze-segments vals gs zero pre tail kept flat shut rest enough = absurd (omega (arith, enough))
freeze-segments vals [] (suc fuel) pre tail kept flat shut rest enough =
    ground (arith, shut, rest, opens_nothing-++ pre tail, find_innermost-none (pre ++ tail))
freeze-segments vals (g ∷ gs) (suc fuel) pre tail kept flat shut rest enough =
    let n = length kept in
    let front = pre ++ g.before in
    let done = front ++ (frozen n ∷ []) in
    let known = flat.0 in
    let later = written_with gs tail in
    let open_front : opens_nothing front ≡ true =
      ground (arith, shut, opens_nothing-++ pre g.before, opens_nothing-flat g.before known.flat) in
    let open_done : opens_nothing done ≡ true =
      ground (arith, open_front, opens_nothing-++ front (frozen n ∷ [])) in
    let text = g.body ++ (g.brace ∷ later) in
    let found =
      find_innermost-at g.body g.brace later known.shut known.inside known.close front open_front in
    let next =
      freeze-segments vals gs fuel done tail (g.value ∷ kept) flat.1 open_done rest
        (omega (arith, enough)) in
    ap (λ t. freeze (suc fuel) vals t kept) (sym (append_assoc pre g.before (opening ∷ text)))
    ∙ freeze_step vals fuel (front ++ (opening ∷ text)) kept
        {p = record { before = front; body = g.body; after = later }} {value = g.value} found
        known.known
    ∙ ap (λ t. freeze fuel vals t (g.value ∷ kept)) (sym (append_assoc front (frozen n ∷ []) later))
    ∙ next
    ∙ ap (λ t. expanded t (kept_after gs (g.value ∷ kept)))
        (append_assoc front (frozen n ∷ []) (keyed (suc n) gs tail)
          ∙ append_assoc pre g.before (frozen n ∷ keyed (suc n) gs tail))

enough_rounds :
    (vals : Map String) (gs : List Segment) (tail : Text)
    → All (λ g. Known vals g) gs
    → length gs ≤ count_closes (written_with gs tail)
unfolding written_with count_closes
enough_rounds vals [] tail flat = omega arith
enough_rounds vals (g ∷ gs) tail flat =
    let later = written_with gs tail in
    let known = flat.0 in
    ground (
      arith,
      known.close,
      enough_rounds vals gs tail flat.1,
      count_closes-++ g.before (opening ∷ (g.body ++ (g.brace ∷ later))),
      count_closes-++ g.body (g.brace ∷ later),
    )

-- A text with any number of placeholders, none inside another, where what stands between them opens
-- nothing and holds no key and every placeholder is known, expands to the text with each value in the
-- place of its own placeholder, in their order, whatever the values hold: what is put in is not
-- expanded again.
pub expand_text-verbatim :
    (vals : Map String) (gs : List Segment) (tail : Text)
    → All (λ g. Known vals g) gs
    → is_flat tail ≡ true
    → expand_text vals (written_with gs tail) ≡ expanded (filled_in gs tail) []
unfolding expand_text restore keys_below opens_nothing
expand_text-verbatim vals gs tail flat rest = ground (
  arith,
  freeze-segments vals gs (suc (count_closes (written_with gs tail))) [] tail [] flat refl
      (opens_nothing-flat tail rest) (omega (arith, enough_rounds vals gs tail flat)),
  restore-keyed vals gs [] tail [] flat refl,
)
