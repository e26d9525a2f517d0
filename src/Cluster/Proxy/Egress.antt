-- ===== src/Cluster/Proxy/Egress.antt =====
-- What the network policy of internal/cluster/proxy.go lets out of a pod, in the terms in which Kubernetes
-- reads a policy on egress: it holds for the pods of its namespace that it selects, and lets out of those
-- what a rule with a peer that matches the destination and a port that matches lets out. A rule without
-- peers is for every destination, and one without ports for every port.
use kagen.Prelude.{
  ℕ, String, Bool, true, false, ◌&&◌, ◌||◌, Option, none, some, List, [], ◌∷◌, ◌==◌, nat_eq, ◌≡◌,
  ◌⊎◌, arith, not, eq_refl,
}
use kagen.Prelude.Maps.{Map, lookup, lookup_text}
use kagen.Cluster.Objects.{
  Meta, Protocol, tcp, udp, PolicyPort, PolicyPeer, EgressRule, NetworkPolicy,
}
use kagen.Workload.{Request, pod_of}
use kagen.Agent.{RuntimeSpec}
use kagen.Cluster.Proxy.Objects.{agent_network_policy}

-- A pod, with its namespace.
pub record Destination : Type 0 where
  pub namespace : String
  pub namespace_labels : Map String
  pub labels : Map String

-- The labels that a selector names are there. An empty value is not asked for here.
abbrev pub selects : Map String → Map String → Bool
selects [] labels = true
selects ((key, value) ∷ selector) labels =
    lookup_text key labels == value && selects selector labels

abbrev same_protocol : Protocol → Protocol → Bool
same_protocol tcp tcp = true
same_protocol udp udp = true
same_protocol _ _ = false

abbrev in_namespaces : String → Option (Map String) → Destination → Bool
in_namespaces own none d = d.namespace == own
in_namespaces own (some selector) d = selects selector d.namespace_labels

abbrev any_peer : String → List PolicyPeer → Destination → Bool
any_peer own [] d = false
any_peer own (peer ∷ peers) d =
    in_namespaces own peer.namespace_selector d && selects peer.pod_selector d.labels
    || any_peer own peers d

abbrev any_port : List PolicyPort → Protocol → ℕ → Bool
any_port [] protocol port = false
any_port (p ∷ ps) protocol port =
    same_protocol p.protocol protocol && nat_eq p.port port || any_port ps protocol port

abbrev rule_to : String → List PolicyPeer → Destination → Bool
rule_to own [] d = true
rule_to own (peer ∷ peers) d = any_peer own (peer ∷ peers) d

abbrev rule_port : List PolicyPort → Protocol → ℕ → Bool
rule_port [] protocol port = true
rule_port (p ∷ ps) protocol port = any_port (p ∷ ps) protocol port

abbrev any_rule : String → List EgressRule → Destination → Protocol → ℕ → Bool
any_rule own [] d protocol port = false
any_rule own (rule ∷ rules) d protocol port =
    rule_to own rule.to d && rule_port rule.ports protocol port
    || any_rule own rules d protocol port

abbrev holds_for : NetworkPolicy → Meta → Bool
holds_for policy pod =
    pod.namespace == policy.meta.namespace && selects policy.pod_selector pod.labels

-- Whether the policy, alone, lets a packet out of a pod.
abbrev pub permits : NetworkPolicy → Meta → Destination → Protocol → ℕ → Bool
permits policy pod d protocol port =
    not (holds_for policy pod) || any_rule policy.meta.namespace policy.egress d protocol port

-- Whatever the policy of a repository lets out of the pod that the workload builder makes for an agent in the
-- repository's namespace goes to the proxy or to Forgejo in that namespace, by TCP to port 8888, or to 3000 or
-- 22, or to the cluster's name server at port 53.
pub agent_network_policy-permits :
    (spec : RuntimeSpec) (req : Request) (repo_id : String) (d : Destination) (protocol : Protocol)
    (port : ℕ)
    → permits (agent_network_policy req.namespace repo_id) (pod_of req spec).meta d protocol port
      ≡ true
    → ((d.namespace == req.namespace ≡ true)
        × (lookup_text "app.kubernetes.io/name" d.labels == "kagen-proxy" ≡ true)
        × (protocol ≡ tcp)
        × (port ≡ 8888))
      ⊎ (((d.namespace == req.namespace ≡ true)
            × (lookup_text "app" d.labels == "forgejo" ≡ true)
            × (protocol ≡ tcp)
            × ((port ≡ 3000) ⊎ (port ≡ 22)))
          ⊎ ((lookup_text "kubernetes.io/metadata.name" d.namespace_labels == "kube-system" ≡ true)
              × (lookup_text "k8s-app" d.labels == "kube-dns" ≡ true)
              × (port ≡ 53)))
unfolding agent_network_policy pod_of lookup_text lookup
agent_network_policy-permits spec req repo_id d tcp port h = ground (arith, eq_refl req.namespace)
agent_network_policy-permits spec req repo_id d udp port h = ground (arith, eq_refl req.namespace)
