-- ===== src/ControlPlane/Template.antt =====
-- internal/controlplane/assignmentset/template.go: `expand`, the substitution of placeholders in one
-- text, innermost first. A text is a list of symbols: `${` is one symbol, since its two characters
-- are only ever read together, and so is the key that freezes a replacement, which a template that
-- holds no NUL cannot spell. The loop runs on fuel; one more round than the text has closing braces
-- is enough, because every replacement takes one of them away.
pub mod Rounds
pub mod Keys
pub mod Verbatim
use Prim.Native.Char.{Char, code}
use Prim.Native.String.{String}
use strategon.Prelude.{
  ℕ, zero, suc, Bool, true, false, not, ◌&&◌, ◌||◌, Option, none, some, List, [], ◌∷◌, ◌++◌, Map,
  lookup, str_eq, ◌==◌, length, is_some, if◌then◌else◌,
}

pub data Symbol : Type 0 where
  plain : Char → Symbol
  opening : Symbol
  frozen : ℕ → Symbol

abbrev pub Text : Type 0
Text = List Symbol

abbrev opens : Char → Symbol → Bool
opens c (plain d) = code c == b'$' && code d == b'{'
opens c _ = false

abbrev join : Char → Text → Text
join c [] = plain c ∷ []
join c (x ∷ rest) = if opens c x then opening ∷ rest else plain c ∷ x ∷ rest

-- the symbols of a text
unfoldable pub symbols : String → Text
symbols String.[] = []
symbols (String.◌∷◌ c s) = join c (symbols s)

abbrev pub is_close : Symbol → Bool
is_close (plain c) = code c == b'}'
is_close _ = false

abbrev pub is_opening : Symbol → Bool
is_opening opening = true
is_opening _ = false

-- A placeholder with what stands before and after it.
pub record Placeholder : Type 0 where
  pub before : Text
  pub body : Text
  pub after : Text

abbrev in_body : Symbol → Option (Text × Text) → Option (Text × Text)
in_body x none = none
in_body x (some (body, after)) = some (x ∷ body, after)

-- the text up to a closing brace, and after it, where no placeholder opens before
unfoldable pub close_of : Text → Option (Text × Text)
close_of [] = none
close_of (x ∷ rest) =
    let later = in_body x (close_of rest) in
    if is_close x then some ([], rest) else if is_opening x then none else later

abbrev further : Symbol → Option Placeholder → Option Placeholder
further x none = none
further x (some p) = some (record p { before = x ∷ p.before })

abbrev opened : Option (Text × Text) → Option Placeholder → Option Placeholder
opened none later = later
opened (some (body, after)) later = some (record { before = []; body = body; after = after })

-- findInnermostPlaceholder
unfoldable pub find_innermost : Text → Option Placeholder
unfolding close_of
find_innermost [] = none
find_innermost (x ∷ rest) =
    let later = further x (find_innermost rest) in
    if is_opening x then opened (close_of rest) later else later

-- the body as a name, if it holds no key
abbrev name_of : Text → Option String
name_of [] = some String.[]
name_of (plain c ∷ rest) = elim (name_of rest) [ none ↦ none | some s ↦ some (String.◌∷◌ c s) ]
name_of (_ ∷ rest) = none

abbrev is_listed : String → Bool
is_listed name =
    str_eq name "CONFIG"
    || str_eq name "BINARY"
    || str_eq name "RELEASE_DIR"
    || str_eq name "WORK_DIR"
    || str_eq name "SHARED_DIR"

-- strings.HasPrefix
unfoldable pub has_prefix : String → Text → Bool
has_prefix String.[] s = true
has_prefix (String.◌∷◌ c p) (plain d ∷ s) = code c == code d && has_prefix p s
has_prefix (String.◌∷◌ c p) _ = false

abbrev listed_or : Option String → Bool
listed_or none = false
listed_or (some name) = is_listed name

-- isAgentPlaceholder
unfoldable pub is_agent_placeholder : Text → Bool
unfolding has_prefix
is_agent_placeholder body = listed_or (name_of body) || has_prefix "VOLUME:" body

abbrev value_of : Map String → Option String → Option Text
value_of vals none = none
value_of vals (some name) = elim (lookup name vals) [ none ↦ none | some v ↦ some (symbols v) ]

-- what a placeholder stands for: an agent's is left as it is written
unfoldable pub replacement : Map String → Text → Option Text
unfolding is_agent_placeholder symbols
replacement vals body =
    if is_agent_placeholder body
    then some (opening ∷ body ++ symbols "}")
    else value_of vals (name_of body)

pub data Expansion : Type 0 where
  -- the text with its keys, and the replacements, the newest first
  expanded : Text → List Text → Expansion
  unknown : Text → Expansion
  out_of_fuel : Expansion

-- the loop of expand
unfoldable pub freeze : ℕ → Map String → Text → List Text → Expansion
unfolding find_innermost
freeze zero vals s kept = out_of_fuel
freeze (suc fuel) vals s kept = elim (find_innermost s) [
  | none ↦ expanded s kept
  | some p ↦ elim (replacement vals p.body) [
    | none ↦ unknown p.body
    | some repl ↦ freeze fuel vals (p.before ++ (frozen (length kept) ∷ p.after)) (repl ∷ kept)
  ]
]

abbrev is_key : ℕ → Symbol → Bool
is_key i (frozen j) = i == j
is_key i _ = false

-- strings.Replace of one key, once
unfoldable pub thaw : ℕ → Text → Text → Text
thaw i repl [] = []
thaw i repl (x ∷ rest) =
    let later = thaw i repl rest in if is_key i x then repl ++ rest else x ∷ later

-- the replacements put back, the last one first
unfoldable pub restore : List Text → Text → Text
unfolding thaw
restore [] s = s
restore (repl ∷ older) s = restore older (thaw (length older) repl s)

-- the closing braces of a text
unfoldable pub count_closes : Text → ℕ
count_closes [] = 0
count_closes (x ∷ rest) = let n = count_closes rest in if is_close x then suc n else n

-- expand; `inl` is an unknown placeholder
unfoldable pub expand_text : Map String → Text → Expansion
expand_text vals s = elim (freeze (suc (count_closes s)) vals s []) [
  | expanded t kept ↦ expanded (restore kept t) []
  | unknown body ↦ unknown body
  | out_of_fuel ↦ out_of_fuel
]
