-- ===== src/ControlPlane/Expand.antt =====
-- internal/controlplane/assignmentset/template.go and config.go: what a set's template and its names of
-- configurations become for one member. `sort.Strings`, the order of a map's entries and the texts of
-- errors are parameters; a text is made of symbols again by `written`, which `key_text`, the source's
-- `freezeKey`, completes. The place that an error names is shortened to its kind.
pub mod Args
use Prim.Native.Char.{Char, code}
use Prim.Native.String.{String, ◌++◌ as joined}
use strategon.Prelude.{
  ℕ, zero, suc, Bool, true, false, not, ◌&&◌, ◌||◌, ◌⊎◌, inl, inr, Option, none, some, List, [],
  ◌∷◌, ◌++◌, Map, lookup, insert, str_eq, ◌==◌, is_some, if◌then◌else◌,
}
use strategon.Proto.{VolumeMount}
use strategon.ControlPlane.SetSpec.{
  SetMember, PeerList, MemberTemplate, SetSpec, AssignmentSet, member_at,
}
use strategon.ControlPlane.Rollout.{Expanded, ConfigWant, Deps}
use strategon.ControlPlane.Template.{
  Symbol, plain, opening, frozen, Text, symbols, Expansion, expanded, unknown, out_of_fuel,
  expand_text,
}

pub record Printing : Type 0 where
  -- freezeKey, and the texts of an unknown placeholder and of the other errors
  pub key_text : ℕ → String
  pub unknown_text : String → Text → String
  pub error_text : String → String
  -- sort.Strings
  pub sort : List String → List String

-- vals[prefix+k] = v for the entries of a map
unfoldable pub with_vars : String → Map String → Map String → Map String
with_vars front [] vals = vals
with_vars front ((k, v) ∷ rest) vals = insert (joined front k) v (with_vars front rest vals)

-- memberValues
unfoldable pub member_values : String → SetMember → String → Map String
unfolding with_vars
member_values set_name self peers = with_vars "member.vars." self.vars (
    ("set.name", set_name)
    ∷ ("member.name", self.name)
    ∷ ("member.machine", self.machine)
    ∷ ("peers", peers)
    ∷ [])

unfoldable pub peer_values : SetMember → Map String
unfolding with_vars
peer_values m =
    with_vars "peer.vars." m.vars (("peer.name", m.name) ∷ ("peer.machine", m.machine) ∷ [])

-- strings.Join
unfoldable pub join_texts : String → List String → String
join_texts sep [] = ""
join_texts sep (s ∷ []) = s
join_texts sep (s ∷ rest) = joined s (joined sep (join_texts sep rest))

abbrev same_symbol : Symbol → Symbol → Bool
same_symbol (plain c) (plain d) = code c == code d
same_symbol opening opening = true
same_symbol (frozen i) (frozen j) = i == j
same_symbol _ _ = false

unfoldable pub starts : Text → Text → Bool
starts [] s = true
starts (x ∷ part) [] = false
starts (x ∷ part) (y ∷ s) = same_symbol x y && starts part s

-- strings.Contains, of a part that is not empty
unfoldable pub has_text : Text → Text → Bool
unfolding starts
has_text part [] = false
has_text part (x ∷ rest) = starts part (x ∷ rest) || has_text part rest

-- a member has no line of its own in its list of peers, unless the list includes it
abbrev pub skip_peer : PeerList → ℕ → ℕ → Bool
skip_peer pl self at = at == self && not pl.include_self

module _ (print : Printing) where
  -- the text of symbols
  unfoldable pub written : Text → String
  written [] = ""
  written (plain c ∷ rest) = String.◌∷◌ c (written rest)
  written (opening ∷ rest) = joined "${" (written rest)
  written (frozen i ∷ rest) = joined (print.key_text i) (written rest)

  abbrev as_text : String → Expansion → String ⊎ String
  as_text place (expanded t kept) = inr (written t)
  as_text place (unknown body) = inl (print.unknown_text place body)
  as_text place out_of_fuel = inl (print.error_text place)

  -- expand
  unfoldable pub expand : Map String → String → String → String ⊎ String
  expand vals place s = as_text place (expand_text vals (symbols s))

  abbrev pub cons_right {ℓ} : {A : Type ℓ} → A → String ⊎ List A → String ⊎ List A
  cons_right a (inl e) = inl e
  cons_right a (inr rest) = inr (a ∷ rest)

  -- expandArgs
  unfoldable pub expand_args : Map String → List String → String ⊎ List String
  unfolding expand
  expand_args vals [] = inr []
  expand_args vals (a ∷ rest) = elim (expand vals "args" a) [
    | inl e ↦ inl e
    | inr s ↦ cons_right s (expand_args vals rest)
  ]

  -- the loop over env
  unfoldable pub expand_env : Map String → Map String → String ⊎ Map String
  unfolding expand
  expand_env vals [] = inr []
  expand_env vals ((k, v) ∷ rest) = elim (expand vals "env" v) [
    | inl e ↦ inl e
    | inr s ↦ cons_right (k, s) (expand_env vals rest)
  ]

  -- expandMounts
  unfoldable pub expand_mounts : Map String → List VolumeMount → String ⊎ List VolumeMount
  unfolding expand
  expand_mounts vals [] = inr []
  expand_mounts vals (m ∷ rest) = elim (expand vals "volumeMounts" m.name) [
    | inl e ↦ inl e
    | inr name ↦ elim (expand vals "volumeMounts" m.container_path) [
      | inl e ↦ inl e
      | inr path ↦
          cons_right (record { name = name; container_path = path }) (expand_mounts vals rest)
    ]
  ]

  -- argsOnlyPlaceholderIn
  unfoldable pub has_args_only : String → Bool
  unfolding has_text symbols
  has_args_only v =
      has_text (symbols "${CONFIG}") (symbols v)
      || has_text (symbols "${BINARY}") (symbols v)
      || has_text (symbols "${RELEASE_DIR}") (symbols v)

  -- RejectArgsOnlyPlaceholdersInEnv
  unfoldable pub reject_args_only : Map String → Option String
  reject_args_only [] = none
  reject_args_only ((k, v) ∷ rest) =
      let later = reject_args_only rest in
      if has_args_only v then some (print.error_text k) else later

  abbrev pub add_peer : Bool → String ⊎ String → String ⊎ List String → String ⊎ List String
  add_peer true text rest = rest
  add_peer false (inl e) rest = inl e
  add_peer false (inr s) rest = cons_right s rest

  -- the loop of renderPeers; `at` counts the members before
  unfoldable pub peer_texts : PeerList → ℕ → ℕ → List SetMember → String ⊎ List String
  unfolding peer_values expand
  peer_texts pl self at [] = inr []
  peer_texts pl self at (m ∷ rest) =
      add_peer (skip_peer pl self at) (expand (peer_values m) "peers.format" pl.format)
        (peer_texts pl self (suc at) rest)

  abbrev joined_peers : PeerList → String ⊎ List String → String ⊎ String
  joined_peers pl (inl e) = inl e
  joined_peers pl (inr texts) =
      inr (join_texts (if str_eq pl.separator "" then "," else pl.separator) (print.sort texts))

  -- renderPeers
  unfoldable pub render_peers : PeerList → ℕ → List SetMember → String ⊎ String
  unfolding peer_texts join_texts
  render_peers pl self members =
      if str_eq pl.format "" then inr "" else joined_peers pl (peer_texts pl self 0 members)

  -- Expand, once the member is found and its peers are rendered
  unfoldable pub expand_template : MemberTemplate → Map String → String ⊎ Expanded
  expand_template tmpl vals = elim (expand_args vals tmpl.args) [
    | inl e ↦ inl e
    | inr args ↦ elim (expand_env vals tmpl.env) [
      | inl e ↦ inl e
      | inr env ↦ elim (reject_args_only env) [
        | some e ↦ inl e
        | none ↦ elim (expand vals "readiness endpoint" tmpl.readiness_endpoint) [
          | inl e ↦ inl e
          | inr endpoint ↦ elim (expand_mounts vals tmpl.volume_mounts) [
            | inl e ↦ inl e
            | inr mounts ↦
                inr (record { args = args; env = env; endpoint = endpoint; volume_mounts = mounts })
          ]
        ]
      ]
    ]
  ]

  -- Expand
  unfoldable pub expand_set : AssignmentSet → ℕ → String ⊎ Expanded
  expand_set set idx = elim (member_at idx set.spec.members) [
    | none ↦ inl (print.error_text "member index")
    | some self ↦ elim (render_peers set.spec.template.peers idx set.spec.members) [
      | inl e ↦ inl e
      | inr peers ↦ expand_template set.spec.template (member_values set.name self peers)
    ]
  ]
