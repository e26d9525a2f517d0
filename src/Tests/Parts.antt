-- ===== src/Tests/Parts.antt =====
-- The theorems of the errors, the proxy, the agents, the configuration and the preflight at concrete data.
use kagen.Prelude.{String, true, false, ◌≡◌, ◌↔◌, refl, none, some, List, [], ◌∷◌, arith, ◌==◌}
use kagen.Prelude.Lists.{All, contains}
use kagen.Prelude.Maps.{lookup, keys, insert}
use kagen.Prelude.Text.{trim_space, contains_text, contains_any, has_suffix}
use kagen.Errors.{classify}
use kagen.Errors.Exec.{ok}
use kagen.Proxy.{hosts_of, unique_sorted, load_policy, allows_destination}
use kagen.Proxy.Laws.{unique_sorted_canonical, allows_destination-load_policy}
use kagen.Agent.{EnvVar, env_var, literal, session_root, claude_spec, codex_spec}
use kagen.Agent.Base.{new_base_agent}
use kagen.Git.{Repository}
use kagen.Kubeexec.{Process}
use kagen.Agent.Registry.{
  spec_for, lookup_registration, Entries, returned, register_factory, supported_types,
}
use kagen.Agent.Registry.Laws.{IsTable}
use kagen.Agent.Shell.{resolve_env_vars}
use kagen.Agent.Shell.Laws.{
  AreFresh, AreResolved, resolve_env_vars_iff, Isolates, shipped, attach_steps-Isolates,
}
use kagen.Config.{Config, default_config, is_bad_ref}
use kagen.Config as Config
use kagen.Config.Laws.{IsConsistent, validate_iff}
use kagen.Session.Tables.Updates.{is_none}
use kagen.Preflight.{failed_check}
use kagen.Preflight.Checks.{validate_configuration}
use kagen.Preflight.Runtime.{validate}
use kagen.Preflight.Laws.{report_class, validate_configuration-validate, validate-report}

swapped : (a : String) → contains a ("b" ∷ "a" ∷ "b" ∷ []) ≡ contains a ("a" ∷ "b" ∷ [])
swapped a = ground arith

unique_sorted_canonical_example :
    unique_sorted ("b" ∷ "a" ∷ "b" ∷ []) ≡ unique_sorted ("a" ∷ "b" ∷ [])
unique_sorted_canonical_example =
    unique_sorted_canonical ("b" ∷ "a" ∷ "b" ∷ []) ("a" ∷ "b" ∷ []) swapped

allows_destination-load_policy_example :
    allows_destination (load_policy [] ("intra.example" ∷ []) "codex") "intra.example" ≡ true
unfolding hosts_of
allows_destination-load_policy_example =
    allows_destination-load_policy [] ("intra.example" ∷ []) "codex" "intra.example"

abbrev one_agent : Entries
one_agent = ("claude", record { spec = claude_spec; factory = new_base_agent claude_spec }) ∷ []

one_agent-IsTable : IsTable one_agent
unfolding keys
one_agent-IsTable = (refl, tt)

abbrev two_agents : Entries
two_agents =
    ("claude", record { spec = claude_spec; factory = new_base_agent claude_spec })
    ∷ ("codex", record { spec = codex_spec; factory = new_base_agent codex_spec })
    ∷ []

registered :
    register_factory one_agent (some codex_spec) (some (new_base_agent codex_spec))
    ≡ returned two_agents
unfolding register_factory lookup insert
registered = refl

abbrev variables : List EnvVar
variables = env_var "HOME" "/home/kagen" session_root ∷ env_var "TERM" "xterm" literal ∷ []

-- HOME is the state path.
abbrev under_state : List EnvVar
under_state = env_var "HOME" "/state" literal ∷ env_var "TERM" "xterm" literal ∷ []

resolve_env_vars_iff_example :
    (resolve_env_vars variables "/state" ≡ some under_state)
    ↔ (AreFresh [] variables × AreResolved "/state" variables under_state)
resolve_env_vars_iff_example = resolve_env_vars_iff variables "/state" under_state

trimmed : (trim_space "/state" == "") ≡ false
unfolding trim_space
trimmed = refl

attach_steps-Isolates_example : All (Isolates (λ s. s) "/state") shipped
attach_steps-Isolates_example = attach_steps-Isolates (λ s. s) "/state" trimmed

validate_iff_example :
    (Config.validate one_agent (λ d. none) (some default_config) ≡ none)
    ↔ IsConsistent one_agent (λ d. none) default_config
validate_iff_example = validate_iff one_agent (λ d. none) default_config

accepted : Config.validate one_agent (λ d. none) (some default_config) ≡ none
unfolding supported_types lookup is_bad_ref trim_space contains_text contains_any has_suffix
accepted = (validate_iff one_agent (λ d. none) default_config).1 (record {
  agent_known = refl;
  http_port_low = omega arith;
  http_port_high = omega arith;
  ssh_port_low = omega arith;
  ssh_port_high = omega arith;
  cpu_positive = omega arith;
  memory_positive = omega arith;
  disk_positive = omega arith;
  timeout_parses = refl;
  hosts = tt;
  workspace_ref = refl;
  toolbox_ref = refl;
  proxy_ref = refl;
})

validate_configuration-validate_example : (validate_configuration default_config "codex").1 ≡ none
validate_configuration-validate_example =
    validate_configuration-validate one_agent (λ d. none) default_config "codex" accepted

abbrev quiet : Process (Unit {0})
quiet args w = (("", none), w)

abbrev repo : Repository
repo = record { path = "/repo"; current_branch = "main"; head_sha = "abc" }

claude_known : spec_for one_agent "claude" ≡ ok claude_spec
unfolding spec_for lookup_registration lookup
claude_known = refl

validate-report_example :
    let ((report, e), w) = validate quiet "" (λ s. s) (λ s. s) one_agent repo "claude" tt in
    (is_none (failed_check report) ≡ is_none e) × (classify e ≡ report_class (failed_check report))
validate-report_example =
    validate-report quiet "" (λ s. s) (λ s. s) one_agent repo "claude" tt claude_spec claude_known
