-- ===== src/ControlPlane/Config.antt =====
-- internal/controlplane/assignmentset/config.go: the name of a member's configuration, and the
-- orchestrator's collaborators with the templates filled in.
pub mod Written
use Prim.Native.String.{String, ◌++◌ as joined}
use strategon.Prelude.{ℕ, not, ◌⊎◌, inl, inr, none, some, [], ◌∷◌, Map, str_eq, if◌then◌else◌}
use strategon.ControlPlane.SetSpec.{SetMember, SetSpec, AssignmentSet, member_at}
use strategon.ControlPlane.Rollout.{ConfigWant, Deps}
use strategon.ControlPlane.Expand.{Printing, expand, expand_set, with_vars}

-- configNameValues
unfoldable pub config_name_values : String → SetMember → Map String
unfolding with_vars
config_name_values set_name self =
    with_vars "member.vars." self.vars
      (("set.name", set_name) ∷ ("member.name", self.name) ∷ ("member.machine", self.machine) ∷ [])

module _ (print : Printing) where
  abbrev or_else : String → String → String
  or_else a b = if str_eq a "" then b else a

  -- WantConfig without an explicit name
  abbrev implicit_config : SetSpec → String → String → ConfigWant
  implicit_config spec art_name version =
      let strategy = or_else spec.strategy art_name in
      record {
        primary = joined (or_else art_name strategy) "-config";
        fallback = joined strategy "-config";
        version = version;
      }

  abbrev explicit_config : String → String → String ⊎ ConfigWant
  explicit_config name version =
      if str_eq name ""
      then inl (print.error_text "expands to an empty config name")
      else if str_eq version ""
      then inl (print.error_text "config name requires a version")
      else inr (record { primary = name; fallback = ""; version = version })

  abbrev want_named : String ⊎ String → String → String ⊎ ConfigWant
  want_named (inl e) version = inl e
  want_named (inr name) version = explicit_config name version

  -- WantConfig, for a member
  unfoldable pub want_member_config : AssignmentSet → SetMember → String → String ⊎ ConfigWant
  unfolding config_name_values expand
  want_member_config set self art_name =
      let raw = or_else self.config set.spec.config in
      let version = or_else self.config_version set.spec.config_version in
      if not (str_eq raw "")
      then want_named (expand print (config_name_values set.name self) "config" raw) version
      else if str_eq version ""
      then inr (record { primary = ""; fallback = ""; version = "" })
      else inr (implicit_config set.spec art_name version)

  -- WantConfig
  unfoldable pub want_config : AssignmentSet → ℕ → String → String ⊎ ConfigWant
  unfolding member_at
  want_config set idx art_name = elim (member_at idx set.spec.members) [
    | none ↦ inl (print.error_text "member index")
    | some self ↦ want_member_config set self art_name
  ]

  -- the orchestrator's collaborators, with the templates filled in
  abbrev pub with_templates : Deps → Deps
  with_templates deps = record deps { expand = expand_set print; want_config = want_config }
