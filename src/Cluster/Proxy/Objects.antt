-- ===== src/Cluster/Proxy/Objects.antt =====
-- internal/cluster/proxy.go: the objects of the proxy, as they are wanted.
use Prim.Native.Char.{code}
use kagen.Prelude.{
  ℕ, String, Bool, true, ◌||◌, none, some, List, [], ◌∷◌, ◌==◌, nat_eq, if◌then◌else◌, ◌≡◌, refl,
}
use kagen.Prelude.Maps.{Map, lookup_text}
use kagen.Prelude.Text.{trim_space, join, decimal, ◌+s◌}
use kagen.Cluster.Objects.{
  Container, config_map, Meta, ConfigMap, Service, Deployment, Protocol, tcp, udp, PolicyPort,
  PolicyPeer, NetworkPolicy,
}
use kagen.Cluster.Runtime.{proxy_service_name, proxy_port}

abbrev pub proxy_deployment_name : String
proxy_deployment_name = "egress-proxy"

abbrev pub proxy_policy_name : String
proxy_policy_name = "egress-proxy-egress"

abbrev pub proxy_config_map_name : String
proxy_config_map_name = "egress-proxy-config"

abbrev pub proxy_config_dir : String
proxy_config_dir = "/etc/kagen-proxy"

abbrev pub proxy_config_checksum : String
proxy_config_checksum = "kagen.io/proxy-config-sha256"

-- The characters that regexp.QuoteMeta puts a backslash before.
unfoldable pub is_special : ℕ → Bool
is_special c =
    nat_eq c b'\\'
    || nat_eq c b'.'
    || nat_eq c b'+'
    || nat_eq c b'*'
    || nat_eq c b'?'
    || nat_eq c b'('
    || nat_eq c b')'
    || nat_eq c b'|'
    || nat_eq c b'['
    || nat_eq c b']'
    || nat_eq c b'{'
    || nat_eq c b'}'
    || nat_eq c b'^'
    || nat_eq c b'$'

-- regexp.QuoteMeta
unfoldable pub quote_meta : String → String
unfolding is_special
quote_meta String.[] = ""
quote_meta (String.◌∷◌ c s) =
    let rest = quote_meta s in
    if is_special (code c) then String.◌∷◌ "\\" (String.◌∷◌ c rest) else String.◌∷◌ c rest

unfoldable pub patterns : List String → List String
unfolding quote_meta
patterns [] = []
patterns (destination ∷ more) =
    let rest = patterns more in
    if trim_space destination == "" then rest else quote_meta (trim_space destination) ∷ rest

unfoldable pub proxy_allowlist : List String → String
unfolding patterns
proxy_allowlist destinations = join (patterns destinations) "\n"

allowlist_test : proxy_allowlist (" github.com " ∷ "" ∷ "a.b" ∷ []) ≡ "github\\.com\na\\.b"
unfolding proxy_allowlist trim_space join
allowlist_test = refl

unfoldable pub tinyproxy_config : String
unfolding decimal
tinyproxy_config =
    "Port "
    +s decimal proxy_port
    +s "\nTimeout 600\nLogLevel Info\nLogFile \"/dev/stdout\"\nPidFile \"/tmp/tinyproxy.pid\"\nMaxClients 100\nStartServers 2\nMinSpareServers 1\nMaxSpareServers 5\nDisableViaHeader Yes\nConnectPort 80\nConnectPort 443\nConnectPort 22\nFilter \""
    +s proxy_config_dir
    +s "/allowlist\"\nFilterDefaultDeny Yes\n"

-- The checksum of the configuration's data, with the hexadecimal SHA-256.
unfoldable pub proxy_config_data_checksum : (String → String) → Map String → String
unfolding lookup_text
proxy_config_data_checksum sha256_hex data_of =
    sha256_hex
      (lookup_text "allowlist" data_of +s "\n---\n" +s lookup_text "tinyproxy.conf" data_of)

abbrev pub proxy_labels : String → Map String
proxy_labels repo_id =
    ("app.kubernetes.io/name", "kagen-proxy") ∷ ("kagen.io/repo-id", repo_id) ∷ []

abbrev proxy_meta : String → String → String → Meta
proxy_meta name namespace repo_id = record {
  name = name;
  namespace = namespace;
  labels = proxy_labels repo_id;
}

unfoldable pub proxy_config : String → String → List String → ConfigMap
unfolding proxy_allowlist tinyproxy_config
proxy_config namespace repo_id destinations = record {
  meta = proxy_meta proxy_config_map_name namespace repo_id;
  data_of = ("allowlist", proxy_allowlist destinations) ∷ ("tinyproxy.conf", tinyproxy_config) ∷ [];
}

unfoldable pub proxy_service : String → String → Service
proxy_service namespace repo_id = record {
  meta = proxy_meta proxy_service_name namespace repo_id;
  selector = ("app.kubernetes.io/name", "kagen-proxy") ∷ [];
  ports = record { name = "http"; port = proxy_port; target_port = proxy_port } ∷ [];
}

unfoldable pub proxy_container : String → Container
proxy_container image_ref = record {
  name = "proxy";
  image = image_ref;
  command = "/bin/sh" ∷ "-lc" ∷ [];
  args = "exec tinyproxy -d -c /etc/kagen-proxy/tinyproxy.conf" ∷ [];
  env = [];
  working_dir = "";
  mounts =
      record { name = "config"; mount_path = proxy_config_dir; sub_path = ""; read_only = true }
      ∷ [];
  run_as = none;
  ports = record { name = "http"; port = proxy_port } ∷ [];
  readiness = some proxy_port;
}

unfoldable pub proxy_deployment : String → String → String → String → Deployment
unfolding proxy_container
proxy_deployment namespace repo_id checksum image_ref = record {
  meta = proxy_meta proxy_deployment_name namespace repo_id;
  replicas = 1;
  selector = ("app.kubernetes.io/name", "kagen-proxy") ∷ [];
  template = record {
    labels = proxy_labels repo_id;
    annotations = (proxy_config_checksum, checksum) ∷ [];
    spec = record {
      init_containers = [];
      containers = proxy_container image_ref ∷ [];
      volumes = record { name = "config"; source = config_map proxy_config_map_name } ∷ [];
    };
  };
  ready_replicas = 0;
}

abbrev policy_port : Protocol → ℕ → PolicyPort
policy_port protocol port = record { protocol = protocol; port = port }

abbrev pods : Map String → PolicyPeer
pods labels = record { pod_selector = labels; namespace_selector = none }

unfoldable pub agent_network_policy : String → String → NetworkPolicy
agent_network_policy namespace repo_id = record {
  meta = proxy_meta proxy_policy_name namespace repo_id;
  pod_selector = ("app.kubernetes.io/name", "kagen-agent") ∷ [];
  egress =
      record {
        to = pods (("app.kubernetes.io/name", "kagen-proxy") ∷ []) ∷ [];
        ports = policy_port tcp proxy_port ∷ [];
      }
      ∷ record {
        to = pods (("app", "forgejo") ∷ []) ∷ [];
        ports = policy_port tcp 3000 ∷ policy_port tcp 22 ∷ [];
      }
      ∷ record {
        to =
            record {
              pod_selector = ("k8s-app", "kube-dns") ∷ [];
              namespace_selector = some (("kubernetes.io/metadata.name", "kube-system") ∷ []);
            }
            ∷ [];
        ports = policy_port udp 53 ∷ policy_port tcp 53 ∷ [];
      }
      ∷ [];
}
