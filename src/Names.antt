-- ===== src/Names.antt =====
-- Names that become a path segment: `ValidateName` of internal/volume/name.go and of
-- internal/sharedfile/name.go.
use Prim.Native.Char.{code}
use Prim.Native.String.{String}
use strategon.Prelude.{
  ℕ, Bool, false, ◌||◌, Option, none, some, List, [], ◌∷◌, str_eq, ◌==◌, if◌then◌else◌,
}

-- The code points of a text, which are its bytes where the tests below look.
abbrev pub codes : String → List ℕ
codes String.[] = []
codes (String.◌∷◌ point rest) = code point ∷ codes rest

pub data NameError : Type 0 where
  is_empty is_reserved has_nul has_separator is_dots : NameError

-- strings.ContainsRune(s, c)
unfoldable pub has_code : ℕ → List ℕ → Bool
has_code c [] = false
has_code c (d ∷ ds) = d == c || has_code c ds

-- strings.ContainsAny(s, `/\`)
unfoldable pub has_separator_code : List ℕ → Bool
unfolding has_code
has_separator_code s = has_code b'/' s || has_code 92 s

unfoldable pub validate_basename : String → String → Option NameError
unfolding has_separator_code
validate_basename reserved name =
    if str_eq name ""
    then some is_empty
    else if str_eq name reserved
    then some is_reserved
    else if has_code 0 (codes name)
    then some has_nul
    else if has_separator_code (codes name)
    then some has_separator
    else if str_eq name "." || str_eq name ".."
    then some is_dots
    else none

unfoldable pub validate_volume_name : String → Option NameError
unfolding validate_basename
validate_volume_name = validate_basename "lost+found"

unfoldable pub validate_shared_name : String → Option NameError
unfolding validate_basename
validate_shared_name = validate_basename "store"
