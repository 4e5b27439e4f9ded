-- ===== src/ControlPlane/Template/Keys.antt =====
-- Texts in which nothing opens, and their keys.
use strategon.Prelude.{
  ◌≡◌, refl, ap, ℕ, suc, Bool, true, false, not, ◌&&◌, none, some, [], ◌∷◌, ◌++◌, arith, ltb,
}
use strategon.ControlPlane.Template.{
  Symbol, plain, opening, frozen, Text, is_close, close_of, find_innermost, thaw,
}

-- no placeholder opens in the text, and it holds no key
unfoldable pub is_flat : Text → Bool
is_flat [] = true
is_flat (plain c ∷ rest) = is_flat rest
is_flat (_ ∷ rest) = false

unfoldable pub has_no_close : Text → Bool
has_no_close [] = true
has_no_close (x ∷ rest) = not (is_close x) && has_no_close rest

close_of-body :
    (body : Text) (x : Symbol) (after : Text)
    → is_flat body ≡ true
    → has_no_close body ≡ true
    → is_close x ≡ true
    → close_of (body ++ (x ∷ after)) ≡ some (body, after)
unfolding close_of is_flat has_no_close
close_of-body [] x after flat shut close = ground (arith, close)
close_of-body (plain c ∷ body) x after flat shut close =
    ground (arith, shut, close_of-body body x after flat (ground (arith, shut)) close)
close_of-body (opening ∷ body) x after flat shut close = cc
close_of-body (frozen i ∷ body) x after flat shut close = cc

unfoldable pub opens_nothing : Text → Bool
opens_nothing [] = true
opens_nothing (opening ∷ rest) = false
opens_nothing (_ ∷ rest) = opens_nothing rest

-- the keys of a text are below `n`
unfoldable pub keys_below : ℕ → Text → Bool
keys_below n [] = true
keys_below n (frozen i ∷ rest) = ltb i n && keys_below n rest
keys_below n (_ ∷ rest) = keys_below n rest

pub opens_nothing-flat : (s : Text) → is_flat s ≡ true → opens_nothing s ≡ true
unfolding opens_nothing is_flat
opens_nothing-flat [] h = refl
opens_nothing-flat (plain c ∷ s) h = opens_nothing-flat s h
opens_nothing-flat (opening ∷ s) h = h
opens_nothing-flat (frozen i ∷ s) h = cc

pub keys_below-flat : (n : ℕ) (s : Text) → is_flat s ≡ true → keys_below n s ≡ true
unfolding keys_below is_flat
keys_below-flat n [] h = refl
keys_below-flat n (plain c ∷ s) h = keys_below-flat n s h
keys_below-flat n (opening ∷ s) h = cc
keys_below-flat n (frozen i ∷ s) h = cc

pub opens_nothing-++ : (s t : Text) → opens_nothing (s ++ t) ≡ (opens_nothing s && opens_nothing t)
unfolding opens_nothing
opens_nothing-++ [] t = refl
opens_nothing-++ (plain c ∷ s) t = opens_nothing-++ s t
opens_nothing-++ (opening ∷ s) t = refl
opens_nothing-++ (frozen i ∷ s) t = opens_nothing-++ s t

pub keys_below-++ :
    (n : ℕ) (s t : Text) → keys_below n (s ++ t) ≡ (keys_below n s && keys_below n t)
unfolding keys_below
keys_below-++ n [] t = refl
keys_below-++ n (plain c ∷ s) t = keys_below-++ n s t
keys_below-++ n (opening ∷ s) t = keys_below-++ n s t
keys_below-++ n (frozen i ∷ s) t = ground (arith, keys_below-++ n s t)

pub keys_below-suc : (n : ℕ) (s : Text) → keys_below n s ≡ true → keys_below (suc n) s ≡ true
unfolding keys_below
keys_below-suc n [] h = refl
keys_below-suc n (plain c ∷ s) h = keys_below-suc n s h
keys_below-suc n (opening ∷ s) h = keys_below-suc n s h
keys_below-suc n (frozen i ∷ s) h = ground (arith, h, keys_below-suc n s)

pub find_innermost-none : (s : Text) → opens_nothing s ≡ true → find_innermost s ≡ none
unfolding find_innermost opens_nothing
find_innermost-none [] h = refl
find_innermost-none (plain c ∷ s) h = ground (arith, find_innermost-none s h)
find_innermost-none (opening ∷ s) h = cc
find_innermost-none (frozen i ∷ s) h = ground (arith, find_innermost-none s h)

pub thaw-at :
    (n : ℕ) (pre repl after : Text)
    → keys_below n pre ≡ true
    → thaw n repl (pre ++ (frozen n ∷ after)) ≡ pre ++ (repl ++ after)
unfolding thaw keys_below
thaw-at n [] repl after h = ground arith
thaw-at n (plain c ∷ pre) repl after h = ap (λ t. plain c ∷ t) (thaw-at n pre repl after h)
thaw-at n (opening ∷ pre) repl after h = ap (λ t. opening ∷ t) (thaw-at n pre repl after h)
thaw-at n (frozen i ∷ pre) repl after h = ground (arith, h, thaw-at n pre repl after)

module _ (body : Text) (x : Symbol) (after : Text) (shut : is_flat body ≡ true)
    (inside : has_no_close body ≡ true) (close : is_close x ≡ true) where
  pub find_innermost-at :
      (pre : Text)
      → opens_nothing pre ≡ true
      → find_innermost (pre ++ (opening ∷ (body ++ (x ∷ after))))
        ≡ some (record { before = pre; body = body; after = after })
  unfolding find_innermost opens_nothing
  find_innermost-at [] flat = ground (arith, close_of-body body x after shut inside close)
  find_innermost-at (plain c ∷ pre) flat = ground (arith, find_innermost-at pre flat)
  find_innermost-at (opening ∷ pre) flat = cc
  find_innermost-at (frozen i ∷ pre) flat = ground (arith, find_innermost-at pre flat)
