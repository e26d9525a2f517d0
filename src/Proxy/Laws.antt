-- ===== src/Proxy/Laws.antt =====
-- What a policy of internal/proxy allows.
use kagen.Prelude.{
  String, Bool, false, ◌≡◌, refl, ◌∙◌, ◌&&◌, ◌||◌, not, List, [], ◌∷◌, ◌++◌, ◌==◌, arith, eq_iff,
  eq_refl, Bool-cases, inl, inr,
}
use kagen.Prelude.Lists.{contains, contains-append}
use kagen.Prelude.Maps.{Map}
use kagen.Prelude.Sort.{
  contains-sort, IsAscending, HasDistinct, sort-IsAscending, IsAscending-unique,
}
use kagen.Proxy.{
  required_hosts, hosts_of, provider_hosts_of, unique, unique_sorted, composed_hosts, load_policy,
  allows, allows_destination,
}

-- What `unique` keeps: the texts that are neither empty nor seen.
contains-unique :
    (a : String) (seen values : List String)
    → contains a (unique seen values)
      ≡ (not (a == "") && not (contains a seen) && contains a values)
unfolding unique
contains-unique a seen [] = ground arith
contains-unique a seen (v ∷ vs) = ground (
  arith,
  contains-unique a seen vs,
  contains-unique a (v ∷ seen) vs,
  eq_iff a v,
  eq_iff v "",
  eq_iff a "",
)

unique-HasDistinct : (seen values : List String) → HasDistinct (unique seen values)
unfolding unique
unique-HasDistinct seen [] = tt
unique-HasDistinct seen (v ∷ vs) = elim (Bool-cases (v == "")) [
  | inl blank ↦ rw blank (unique-HasDistinct seen vs)
  | inr text ↦ elim (Bool-cases (contains v seen)) [
    | inl old ↦ rw (text, old) (unique-HasDistinct seen vs)
    | inr new ↦
        rw (text, new)
          (
            ground (arith, contains-unique v (v ∷ seen) vs, eq_refl v),
            unique-HasDistinct (v ∷ seen) vs,
          )
  ]
]

-- uniqueSorted returns its texts strictly ascending, so without repetition.
pub unique_sorted-IsAscending : (values : List String) → IsAscending (unique_sorted values)
unfolding unique_sorted
unique_sorted-IsAscending values =
    sort-IsAscending (unique [] values) (unique-HasDistinct [] values)

-- It returns the texts that it was given, but for the empty one.
pub contains-unique_sorted :
    (a : String) (values : List String)
    → contains a (unique_sorted values) ≡ (not (a == "") && contains a values)
unfolding unique_sorted
contains-unique_sorted a values =
    ground (arith, contains-sort a (unique [] values), contains-unique a [] values)

-- Two lists with the same texts, in any order and as often as may be, come out as the same list.
pub unique_sorted_canonical :
    (xs ys : List String)
    → ((a : String) → contains a xs ≡ contains a ys)
    → unique_sorted xs ≡ unique_sorted ys
unique_sorted_canonical xs ys same =
    IsAscending-unique (unique_sorted xs) (unique_sorted ys) (unique_sorted-IsAscending xs)
      (unique_sorted-IsAscending ys)
      λ a. ground (arith, contains-unique_sorted a xs, contains-unique_sorted a ys, same a)

-- Whether one of the providers has the host.
abbrev pub provided : String → List String → Bool
provided dest [] = false
provided dest (p ∷ ps) =
    contains dest (hosts_of required_hosts.provider_hosts p) || provided dest ps

contains-provider_hosts_of :
    (dest : String) (ps : List String) → contains dest (provider_hosts_of ps) ≡ provided dest ps
unfolding provider_hosts_of
contains-provider_hosts_of dest [] = refl
contains-provider_hosts_of dest (p ∷ ps) = ground (
  arith,
  contains-append dest (hosts_of required_hosts.provider_hosts p) (provider_hosts_of ps),
  contains-provider_hosts_of dest ps,
)

allows-eq-contains : (xs : List String) (dest : String) → allows xs dest ≡ contains dest xs
unfolding allows
allows-eq-contains [] dest = refl
allows-eq-contains (x ∷ xs) dest =
    ground (arith, eq_iff x dest, eq_iff dest x, allows-eq-contains xs dest)

contains-composed_hosts :
    (dest agent : String) (providers extra : List String)
    → contains dest (composed_hosts agent providers extra) ≡ (
        not (dest == "")
        && (contains dest (hosts_of required_hosts.agent_required agent)
            || (provided dest providers || contains dest extra)))
unfolding composed_hosts
contains-composed_hosts dest agent providers extra =
    let required = hosts_of required_hosts.agent_required agent in
    let offered = provider_hosts_of providers in
    ground (
      arith,
      contains-unique_sorted dest (required ++ (offered ++ extra)),
      contains-append dest required (offered ++ extra),
      contains-append dest offered extra,
      contains-provider_hosts_of dest providers,
    )

-- The policy of an agent allows a host exactly when it is not empty and the agent requires it, or a
-- provider configured for the agent has it, or the configured allowlist holds it.
pub allows_destination-load_policy :
    (agent_providers : Map (List String)) (allowlist : List String) (agent dest : String)
    → allows_destination (load_policy agent_providers allowlist agent) dest ≡ (
        not (dest == "")
        && (contains dest (hosts_of required_hosts.agent_required agent)
            || (provided dest (hosts_of agent_providers agent) || contains dest allowlist)))
unfolding allows_destination load_policy
allows_destination-load_policy agent_providers allowlist agent dest =
    allows-eq-contains _ dest
    ∙ contains-composed_hosts dest agent (hosts_of agent_providers agent) allowlist
