-- ===== src/Tests/Templates.antt =====
-- The statements on templates, on concrete inputs.
use strategon.Prelude.{none, some, false, insert}
use strategon.Prelude.{◌≡◌, refl, String, true, inr, List, [], ◌∷◌, Map, lookup}
use strategon.ControlPlane.Template.{
  Symbol, opening, Text, symbols, close_of, find_innermost, replacement, is_agent_placeholder,
  has_prefix, expanded, expand_text, freeze, count_closes, thaw, restore,
}
use strategon.ControlPlane.Template.Rounds.{has_ended, expand_text_ends}
use strategon.ControlPlane.Template.Keys.{is_flat, has_no_close}
use strategon.ControlPlane.Template.Verbatim.{
  Segment, written_with, filled_in, expand_text-verbatim,
}
use strategon.Proto.{StrategyAssignmentSpec}
use strategon.ControlPlane.SetSpec.{member_at}
use strategon.ControlPlane.Rollout.{Item}
use strategon.ControlPlane.Candidates.{compute_assignment, default_deploy_policy}
use strategon.ControlPlane.Expand.{
  Printing, expand, expand_args, written, expand_set, expand_template, expand_env, expand_mounts,
  reject_args_only, render_peers, member_values, with_vars,
}
use strategon.ControlPlane.Config.Written.{compute_assignment-args}
use strategon.Tests.Data.{new_binary}
use strategon.Tests.Sets.{web_spec}
use strategon.Tests.Ticks.{deps, web}
use strategon.ControlPlane.Expand.Args.{Pairwise, expand_args-each}

-- a value that looks like a placeholder itself
abbrev vals : Map String
vals = ("member.name", "${member.name}") ∷ ("peers", "") ∷ []

expand_text_ends_example :
    has_ended (expand_text vals (symbols "${VOLUME:${member.name}-data}")) ≡ true
expand_text_ends_example = expand_text_ends vals (symbols "${VOLUME:${member.name}-data}")

-- a nested placeholder: the inner one is replaced, the agent's is left
nested :
    expand_text (("member.name", "a") ∷ []) (symbols "x${VOLUME:${member.name}-data}")
    ≡ expanded (symbols "x${VOLUME:a-data}") []
unfolding expand_text symbols freeze count_closes find_innermost close_of replacement
    is_agent_placeholder has_prefix lookup restore thaw
nested = refl

abbrev first_or : Symbol → Text → Symbol
first_or x [] = x
first_or x (y ∷ rest) = y

unfoldable brace : Symbol
unfolding symbols
brace = first_or opening (symbols "}")

-- the second value is put in as it is, though it looks like the first placeholder
abbrev segments : List Segment
segments =
    record {
      before = symbols "--peers=";
      body = symbols "peers";
      brace = brace;
      value = symbols "";
    }
    ∷ record {
      before = symbols " --name=";
      body = symbols "member.name";
      brace = brace;
      value = symbols "${member.name}";
    }
    ∷ []

expand_text-verbatim_example :
    expand_text vals (written_with segments (symbols " -v"))
    ≡ expanded (filled_in segments (symbols " -v")) []
unfolding symbols is_flat has_no_close replacement is_agent_placeholder has_prefix lookup brace
expand_text-verbatim_example =
    expand_text-verbatim vals segments (symbols " -v")
      (
        record { flat = refl; shut = refl; inside = refl; close = refl; known = refl },
        (record { flat = refl; shut = refl; inside = refl; close = refl; known = refl }, tt),
      )
      refl

abbrev print : Printing
print = record {
  key_text = λ n. "key";
  unknown_text = λ place body. place;
  error_text = λ place. place;
  sort = λ texts. texts;
}

expand_args-each_example :
    Pairwise
      (λ a b. expand print vals "args" a ≡ inr b)
      ("--routes" ∷ "${peers}" ∷ [])
      ("--routes" ∷ "" ∷ [])
unfolding expand_args expand expand_text symbols freeze count_closes find_innermost close_of
    replacement is_agent_placeholder has_prefix lookup restore thaw written
expand_args-each_example =
    expand_args-each print vals ("--routes" ∷ "${peers}" ∷ []) ("--routes" ∷ "" ∷ []) refl

abbrev item : Item
item = record {
  idx = 0;
  srv = record { machine = "m1"; name = "a"; vars = []; config = ""; config_version = "" };
  cfg = none;
}

-- what the orchestrator writes for the member `a` of the set "web"
abbrev written_spec : StrategyAssignmentSpec
written_spec = record {
  strategy = "a";
  artifact = some new_binary;
  config = none;
  limits = record { cpu_millicores = 0; memory_bytes = 0; max_open_files = 0 };
  deploy_policy = record {
    startsecs = 2;
    health_window_seconds = 60;
    max_crashes_in_window = 3;
    stop_grace_seconds = 10;
    enable_auto_rollback = true;
  };
  schedules = [];
  args = "--name" ∷ "a" ∷ [];
  env = [];
  stopped = false;
  readiness_endpoint = "";
  volume_mounts = [];
  capture_stdio = false;
  oci_host_pid = false;
}

compute_assignment-args_example :
    (written_spec.strategy ≡ "a")
    × ((written_spec.stopped ≡ false)
        × Pairwise
            (λ a b. expand print (member_values "web" item.srv "") "args" a ≡ inr b)
            web_spec.template.args
            written_spec.args)
unfolding expand_args expand expand_text symbols freeze count_closes find_innermost close_of
    replacement is_agent_placeholder has_prefix lookup restore thaw written compute_assignment
    default_deploy_policy expand_set expand_template expand_env expand_mounts reject_args_only
    render_peers member_at member_values with_vars insert
compute_assignment-args_example =
    compute_assignment-args print deps web item new_binary item.srv "" written_spec refl refl refl
