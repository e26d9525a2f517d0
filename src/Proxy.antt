-- ===== src/Proxy.antt =====
-- internal/proxy/catalog.go and internal/proxy/proxy.go: which hosts a policy allows. The configuration
-- enters by the two fields that the policy reads.
pub mod Laws
use kagen.Prelude.{
  String, Bool, true, false, Option, none, some, List, [], ◌∷◌, ◌++◌, ◌==◌, not, if◌then◌else◌,
}
use kagen.Prelude.Lists.{contains}
use kagen.Prelude.Maps.{Map, lookup}
use kagen.Prelude.Sort.{sort}
use kagen.Errors.{Err, wrapped, sentinel, proxy_not_active}

pub record HostCatalogue : Type 0 where
  pub common_bootstrap : List String
  pub agent_required : Map (List String)
  pub provider_hosts : Map (List String)

abbrev pub required_hosts : HostCatalogue
required_hosts = record {
  common_bootstrap = [];
  agent_required =
      ("claude", "api.anthropic.com" ∷ "platform.claude.com" ∷ [])
      ∷ ("codex", "auth.openai.com" ∷ "api.openai.com" ∷ [])
      ∷ ("opencode", "opencode.ai" ∷ [])
      ∷ [];
  provider_hosts = ("anthropic", "api.anthropic.com" ∷ []) ∷ ("openai", "api.openai.com" ∷ []) ∷ [];
}

-- m[k] of a map to lists: nil where the key is missing
unfoldable pub hosts_of : Map (List String) → String → List String
unfolding lookup
hosts_of m k = elim (lookup k m) [ none ↦ [] | some hosts ↦ hosts ]

-- The loop over the providers.
provider_hosts_of : List String → List String
provider_hosts_of [] = []
provider_hosts_of (provider ∷ providers) =
    hosts_of required_hosts.provider_hosts provider ++ provider_hosts_of providers

-- The loop of `uniqueSorted`; `seen` holds the texts of `out`.
unique : List String → List String → List String
unique seen [] = []
unique seen (value ∷ values) =
    let skipped = unique seen values in
    let kept = value ∷ unique (value ∷ seen) values in
    if value == "" then skipped else if contains value seen then skipped else kept

unfoldable pub unique_sorted : List String → List String
unfolding unique
unique_sorted values = sort (unique [] values)

unfoldable pub composed_hosts : String → List String → List String → List String
unfolding provider_hosts_of hosts_of unique_sorted
composed_hosts agent providers extra = unique_sorted (
    required_hosts.common_bootstrap
    ++ (hosts_of required_hosts.agent_required agent ++ (provider_hosts_of providers ++ extra)))

pub record Policy : Type 0 where
  pub allowed_destinations : List String
  pub enforced : Bool

-- `cfg.AgentProviders` and `cfg.ProxyAllowlist` are the first two arguments
unfoldable pub load_policy : Map (List String) → List String → String → Policy
unfolding composed_hosts hosts_of
load_policy agent_providers proxy_allowlist agent_type = record {
  allowed_destinations =
      composed_hosts agent_type (hosts_of agent_providers agent_type) proxy_allowlist;
  enforced = false;
}

unfoldable pub validate : Policy → Option Err
validate p =
    if not p.enforced
    then some (wrapped "%w: will not allow direct outbound access" [] (sentinel proxy_not_active))
    else none

allows : List String → String → Bool
allows [] dest = false
allows (allowed ∷ more) dest = if allowed == dest then true else allows more dest

unfoldable pub allows_destination : Policy → String → Bool
unfolding allows
allows_destination p dest = allows p.allowed_destinations dest
