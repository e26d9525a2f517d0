-- ===== src/Agent/Registry.antt =====
-- internal/agent/registry.go: the table of the registered agents. The lock is left out: every operation
-- on the table is one step under it.
pub mod Laws
use kagen.Prelude.{
  String, Bool, true, false, Option, none, some, List, [], ◌∷◌, map, ◌==◌, if◌then◌else◌,
}
use kagen.Prelude.Maps.{Map, lookup, insert, keys, is_some}
use kagen.Prelude.Sort.{sort}
use kagen.Errors.{Err, wrapped, sentinel, agent_unknown}
use kagen.Errors.Exec.{Result, ok, err}
use kagen.Git.{Repository}
use kagen.Agent.{AgentType, RuntimeSpec, claude_spec, codex_spec, open_code_spec}
use kagen.Agent.Base.{AgentDependencies, BaseAgent, new_base_agent}

abbrev pub Factory : Type 0
Factory = AgentDependencies → BaseAgent

pub record Registration : Type 0 where
  pub spec : RuntimeSpec
  pub factory : Factory

abbrev pub Entries : Type 0
Entries = Map Registration

-- What a function that may panic does.
pub data Outcome (A : Type 0) : Type 0 where
  returned : A → Outcome A
  panicked : (format : String) (args : List String) → Outcome A

-- A nil specification or factory is `none`.
unfoldable pub register_factory : Entries → Option RuntimeSpec → Option Factory → Outcome Entries
register_factory entries none factory = panicked "agent runtime spec must not be nil" []
register_factory entries (some spec) none =
    panicked "agent factory for %q must not be nil" (spec.agent_type ∷ [])
register_factory entries (some spec) (some factory) =
    if spec.agent_type == ""
    then panicked "agent runtime spec type must not be empty" []
    else if is_some (lookup spec.agent_type entries)
    then panicked "agent %q already registered" (spec.agent_type ∷ [])
    else returned (insert spec.agent_type (record { spec = spec; factory = factory }) entries)

unfoldable pub register_base_agent : Entries → RuntimeSpec → Outcome Entries
unfolding register_factory
register_base_agent entries spec = register_factory entries (some spec) (some (new_base_agent spec))

and_then : Outcome Entries → RuntimeSpec → Outcome Entries
unfolding register_base_agent
and_then (returned entries) spec = register_base_agent entries spec
and_then (panicked f a) spec = panicked f a

-- The `init` functions, in the order of their files.
unfoldable pub initial_entries : Outcome Entries
unfolding and_then register_base_agent
initial_entries = and_then (and_then (register_base_agent [] claude_spec) codex_spec) open_code_spec

unfoldable pub lookup_registration : Entries → AgentType → Option Registration
lookup_registration entries agent_type = lookup agent_type entries

unfoldable pub spec_for : Entries → AgentType → Result RuntimeSpec
unfolding lookup_registration
spec_for entries agent_type = elim (lookup_registration entries agent_type) [
  | none ↦ err (wrapped "runtime spec for %s: %w" (agent_type ∷ []) (sentinel agent_unknown))
  | some registration ↦ ok registration.spec
]

pub record Registry : Type 0 where
  pub repo : Repository
  pub kube_ctx : String
  pub container : String
  pub state_path : String

unfoldable pub new_registry : Repository → String → Registry
new_registry repo kube_ctx = record {
  repo = repo;
  kube_ctx = kube_ctx;
  container = "";
  state_path = "";
}

unfoldable pub with_container : Registry → String → Registry
with_container r name = record r { container = name }

unfoldable pub with_state_path : Registry → String → Registry
with_state_path r path = record r { state_path = path }

unfoldable pub get : Entries → Registry → AgentType → Result BaseAgent
unfolding lookup_registration
get entries r agent_type = elim (lookup_registration entries agent_type) [
  | none ↦ err (wrapped "%[2]w: %[1]q" (agent_type ∷ []) (sentinel agent_unknown))
  | some registration ↦ ok (
      registration.factory (record {
        repo = r.repo;
        kube_ctx = r.kube_ctx;
        container = r.container;
        state_path = r.state_path;
      }))
]

unfoldable pub supported_types : Entries → List AgentType
supported_types entries = sort (keys entries)

display_names : Entries → List String
display_names [] = []
display_names ((k, registration) ∷ entries) = registration.spec.display_name ∷ display_names entries

unfoldable pub supported_names : Entries → List String
unfolding display_names
supported_names entries = sort (display_names entries)

unfoldable pub type_from_string : Entries → String → Result AgentType
unfolding lookup_registration
type_from_string entries s =
    if is_some (lookup_registration entries s)
    then ok s
    else err (wrapped "%[2]w: %[1]q" (s ∷ []) (sentinel agent_unknown))
