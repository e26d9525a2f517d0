-- ===== src/Agent/Registry/Laws.antt =====
-- Laws of the table of agents, internal/agent/registry.go.
use kagen.Prelude.{String, ◌≡◌, ◌∙◌, none, some, [], ◌∷◌, ◌==◌, arith, if◌then◌else◌}
use kagen.Prelude.Lists.{contains}
use kagen.Prelude.Maps.{
  lookup, insert, keys, is_some, lookup-insert, contains-keys, insert-HasDistinct,
}
use kagen.Prelude.Sort.{contains-sort, HasDistinct, IsAscending, sort-IsAscending}
use kagen.Errors.{wrapped, sentinel, agent_unknown}
use kagen.Errors.Exec.{ok, err}
use kagen.Agent.{AgentType, RuntimeSpec}
use kagen.Agent.Registry.{
  Factory, Entries, Registration, returned, register_factory, supported_types, type_from_string,
}

-- No agent type stands twice in the table.
abbrev pub IsTable : Entries → Type 0
IsTable entries = HasDistinct (keys entries)

-- A registration that returns has added the specification under its own type, which was free, and has
-- kept every other registration.
pub lookup-register_factory :
    (entries : Entries) (spec : RuntimeSpec) (factory : Factory) (after : Entries) (t : AgentType)
    → register_factory entries (some spec) (some factory) ≡ returned after
    → (lookup spec.agent_type entries ≡ none)
      × (lookup t after ≡ (
          if spec.agent_type == t
          then some (record { spec = spec; factory = factory })
          else lookup t entries))
unfolding register_factory
lookup-register_factory entries spec factory after t h =
    ground
      (arith, lookup-insert spec.agent_type t (record { spec = spec; factory = factory }) entries)

-- A registration that returns leaves a table in which no agent type stands twice, if there was none before.
pub register_factory-IsTable :
    (entries : Entries) (spec : RuntimeSpec) (factory : Factory) (after : Entries)
    → IsTable entries
    → register_factory entries (some spec) (some factory) ≡ returned after
    → IsTable after
unfolding register_factory
register_factory-IsTable entries spec factory after table h =
    rw (← added h) (insert-HasDistinct spec.agent_type registration entries table)
  where
    registration : Registration
    registration = record { spec = spec; factory = factory }

    added :
        register_factory entries (some spec) (some factory) ≡ returned after
        → insert spec.agent_type registration entries ≡ after
    added e = ground arith

-- On a table in which no type stands twice, SupportedTypes lists the registered types, each once and in
-- ascending order.
pub supported_types_lem :
    (entries : Entries)
    → IsTable entries
    → IsAscending (supported_types entries)
      × ((t : AgentType) → contains t (supported_types entries) ≡ is_some (lookup t entries))
unfolding supported_types
supported_types_lem entries table = (
  sort-IsAscending (keys entries) table,
  λ t. contains-sort t (keys entries) ∙ contains-keys t entries,
)

-- TypeFromString accepts the texts that SupportedTypes lists, as they are, and for every other text the
-- error is an unknown agent type.
pub type_from_string-supported_types :
    (entries : Entries) (s : String)
    → type_from_string entries s ≡ (
        if contains s (supported_types entries)
        then ok s
        else err (wrapped "%[2]w: %[1]q" (s ∷ []) (sentinel agent_unknown)))
unfolding type_from_string supported_types
type_from_string-supported_types entries s =
    ground (arith, contains-sort s (keys entries), contains-keys s entries)
