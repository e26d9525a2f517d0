-- ===== src/Tests/Servers.antt =====
-- The theorems of the objects of the cluster at a server of one object of a kind.
use kagen.Prelude.{
  String, Bool, true, false, Option, none, some, List, [], ◌∷◌, ◌≡◌, refl, ◌==◌, arith,
  if◌then◌else◌, eq_iff, eq_refl, ap, sym, ◌∙◌,
}
use kagen.Prelude.Maps.{lookup_text, lookup}
use kagen.Prelude.Sort.{HasDistinct}
use kagen.Errors.{Err, message}
use kagen.Errors.Exec.{Result, ok, err}
use kagen.Agent.{open_code_spec}
use kagen.Agent.Registry.{Entries}
use kagen.Agent.Base.{new_base_agent}
use kagen.Git.{Repository}
use kagen.Git.Config.{UserConfig}
use kagen.Proxy.{Policy}
use kagen.Workload.{Request, build_pod, pod_of, runtime_container, required_env}
use kagen.Cluster.Api.{Api, Resource, create_or_update}
use kagen.Cluster.Api.Laws.{IsStore}
use kagen.Cluster.Objects.{Pod, ConfigMap, Deployment, Container}
use kagen.Cluster.Proxy.{deploy_proxy, namespace_of}
use kagen.Cluster.Proxy.Laws.{IsServer, deploy_proxy-Consistent}
use kagen.Cluster.Proxy.Objects.{
  proxy_config_map_name, proxy_deployment_name, proxy_allowlist, proxy_config_checksum,
  proxy_config_data_checksum,
}
use kagen.Cluster.Kube.{complete_pod, ensure_resources}
use kagen.Cluster.Kube.Laws.{ensure_resources-finds}
use kagen.Cluster.Runtime.{set_environment}
use kagen.Cluster.Runtime.Mounts.{IsMounted}
use kagen.Cluster.Runtime.EnvLaws.{env_value, env_names, last_value, settings, set_environment_lem}

-- The world: at most one object of three kinds.
record Cells : Type 0 where
  config : Option ConfigMap
  deployment : Option Deployment
  pod : Option Pod

abbrev missing_object : Err
missing_object = message "not found" []

module _ {A : Type 0} (name_of : A → String) where
  abbrev show : String → Option A → Option A
  show name none = none
  show name (some a) = if name_of a == name then some a else none

  abbrev answer : (A → A) → Option A → Result A
  answer serve none = err missing_object
  answer serve (some a) = ok (serve a)

-- A kind whose objects are in a cell. What a read serves may differ from what was written.
abbrev cell :
    {A : Type 0}
    → (A → String)
    → (Cells → Option A)
    → (Option A → Cells → Cells)
    → (A → A)
    → Resource Cells A
cell name_of read write serve = record {
  create = λ namespace a w. (ok tt, write (some a) w);
  get = λ namespace name w. (answer name_of serve (show name_of name (read w)), w);
  update = λ namespace a w. (ok tt, write (some a) w);
  delete = λ namespace name w. (ok tt, write none w);
}

show_self : {A : Type 0} (name_of : A → String) (a : A) → show name_of (name_of a) (some a) ≡ some a
show_self name_of a = rw (eq_refl (name_of a)) refl

answer_name :
    {A : Type 0} (name_of : A → String) (serve : A → A) (name : String) (o : Option A) (a : A)
    → ((a : A) → name_of (serve a) ≡ name_of a)
    → answer name_of serve (show name_of name o) ≡ ok a
    → name_of a ≡ name
answer_name name_of serve name none a same h = absurd (ground arith)
answer_name name_of serve name (some b) a same h = ground (arith, eq_iff (name_of b) name, same b)

cell-IsStore :
    {A : Type 0} (name_of : A → String) (read : Cells → Option A) (write : Option A → Cells → Cells)
    (serve : A → A) (is_not_found : Err → Bool)
    → ((o : Option A) (w : Cells) → read (write o w) ≡ o)
    → ((a : A) → name_of (serve a) ≡ name_of a)
    → IsStore
        (cell name_of read write serve)
        is_not_found
        (λ namespace name w. show name_of name (read w))
        name_of
cell-IsStore name_of read write serve is_not_found kept same = record {
  created = λ namespace a w w' h.
      ap (λ p. show name_of (name_of a) (read p.1)) (sym h)
      ∙ ap (show name_of (name_of a)) (kept (some a) w)
      ∙ show_self name_of a;
  got = λ namespace name a w w' h. answer_name name_of serve name (read w) a same (ap (λ p. p.0) h);
  updated = λ namespace a w w' h.
      ap (λ p. show name_of (name_of a) (read p.1)) (sym h)
      ∙ ap (show name_of (name_of a)) (kept (some a) w)
      ∙ show_self name_of a;
  deleted = λ namespace name w w' h.
      ap (λ p. show name_of name (read p.1)) (sym h) ∙ ap (show name_of name) (kept none w);
  missing = λ namespace name e w w' h gone. absurd (ground arith);
}

-- A kind with no objects, which takes what it gets.
abbrev silent : {A : Type 0} → Resource Cells A
silent = record {
  create = λ namespace a w. (ok tt, w);
  get = λ namespace name w. (err missing_object, w);
  update = λ namespace a w. (ok tt, w);
  delete = λ namespace name w. (ok tt, w);
}

-- The proxy's deployment is ready once it is there.
abbrev serve_ready : Deployment → Deployment
serve_ready d = record d { ready_replicas = 1 }

abbrev api : Api Cells
api = record {
  namespaces = silent;
  pods = cell (λ p. p.meta.name) (λ w. w.pod) (λ o w. record w { pod = o }) (λ p. p);
  claims = silent;
  config_maps = cell (λ c. c.meta.name) (λ w. w.config) (λ o w. record w { config = o }) (λ c. c);
  services = silent;
  deployments =
      cell (λ d. d.meta.name) (λ w. w.deployment) (λ o w. record w { deployment = o }) serve_ready;
  policies = silent;
  is_already_exists = λ e. false;
  is_not_found = λ e. true;
  now = λ w. (0, w);
  pause = λ delay w. (none, w);
  context_error = λ w. (none, w);
}

abbrev find_config : String → String → Cells → Option ConfigMap
find_config namespace name w = show (λ c. c.meta.name) name w.config

abbrev find_deployment : String → String → Cells → Option Deployment
find_deployment namespace name w = show (λ d. d.meta.name) name w.deployment

abbrev find_pod : String → String → Cells → Option Pod
find_pod namespace name w = show (λ p. p.meta.name) name w.pod

server : IsServer api find_config find_deployment
server = record {
  config_store =
      cell-IsStore (λ c. c.meta.name) (λ w. w.config) (λ o w. record w { config = o }) (λ c. c)
        api.is_not_found (λ o w. refl) (λ c. refl);
  deployment_store =
      cell-IsStore (λ d. d.meta.name) (λ w. w.deployment) (λ o w. record w { deployment = o })
        serve_ready api.is_not_found (λ o w. refl) (λ d. refl);
  services_keep = λ namespace name. record {
    create_keeps = λ from a w. refl;
    get_keeps = λ from other w. refl;
    update_keeps = λ from a w. refl;
  };
  deployments_keep = λ namespace name. record {
    create_keeps = λ from a w. refl;
    get_keeps = λ from other w. refl;
    update_keeps = λ from a w. refl;
  };
  reads_keep = λ namespace name from other w. refl;
  now_keeps = λ namespace name w. (refl, refl);
  pause_keeps = λ namespace name delay w. (refl, refl);
  context_keeps = λ namespace name w. (refl, refl);
}

abbrev empty : Cells
empty = record { config = none; deployment = none; pod = none }

abbrev policy : Policy
policy = record { allowed_destinations = "github.com" ∷ []; enforced = true }

abbrev hash : String → String
hash s = "5f"

abbrev deployed : Cells
deployed = (deploy_proxy api hash "kagen-1" "1" policy "proxy:1" empty).1

deploys : deploy_proxy api hash "kagen-1" "1" policy "proxy:1" empty ≡ (ok tt, deployed)
unfolding deploy_proxy create_or_update
deploys = refl

deploy_proxy-Consistent_example :
    (c : ConfigMap) × (d : Deployment) × (find_config "kagen-1" proxy_config_map_name deployed
      ≡ some c)
    × (find_deployment "kagen-1" proxy_deployment_name deployed ≡ some d)
    × (lookup_text "allowlist" c.data_of ≡ proxy_allowlist ("github.com" ∷ []))
    × (d.template.annotations
        ≡ (proxy_config_checksum, proxy_config_data_checksum hash c.data_of) ∷ [])
deploy_proxy-Consistent_example =
    deploy_proxy-Consistent api hash find_config find_deployment server "kagen-1" "1" "proxy:1"
      policy empty deployed deploys

abbrev entries : Entries
entries =
    ("opencode", record { spec = open_code_spec; factory = new_base_agent open_code_spec }) ∷ []

abbrev request : Request
request = record {
  name = "agent";
  namespace = "kagen-1";
  runtime = some open_code_spec;
  images = record { workspace = "workspace:1"; toolbox = "toolbox:1" };
}

abbrev built : Pod
built = pod_of request open_code_spec

builds : build_pod request ≡ ok built
unfolding build_pod
builds = refl

abbrev ada : UserConfig
ada = record { name = "Ada"; email = "ada@example.com" }

abbrev repo : Repository
repo = record { path = "/repo"; current_branch = "main"; head_sha = "abc" }

abbrev user : Cells → UserConfig × Cells
user w = (ada, w)

abbrev first_arg : String → List String → String
first_arg format args = format

abbrev ensured : Cells
ensured = (ensure_resources api user entries first_arg hash repo "opencode" none built empty).1

ensures :
    ensure_resources api user entries first_arg hash repo "opencode" none built empty
    ≡ (ok tt, ensured)
unfolding ensure_resources pod_of lookup
ensures = refl

ensure_resources-finds_example :
    let completed = (complete_pod user entries first_arg hash repo "opencode" none built empty).0 in
    (find_pod (namespace_of hash repo) completed.meta.name ensured ≡ some completed)
    × IsMounted completed
ensure_resources-finds_example =
    ensure_resources-finds api user entries first_arg hash find_pod repo "opencode" none request
      built empty ensured
      (cell-IsStore (λ p. p.meta.name) (λ w. w.pod) (λ o w. record w { pod = o }) (λ p. p) _
        (λ o w. refl) (λ p. refl))
      builds ensures

abbrev agent_container : Container
agent_container = runtime_container open_code_spec request.images

distinct : HasDistinct (env_names agent_container.env)
unfolding runtime_container required_env
distinct = (refl, (refl, (refl, tt)))

set_environment_lem_example :
    let after = set_environment ada open_code_spec agent_container in
    (env_value "GIT_AUTHOR_NAME" after.env
      ≡ last_value "GIT_AUTHOR_NAME"
          (settings ada open_code_spec)
          (env_value "GIT_AUTHOR_NAME" agent_container.env))
    × HasDistinct (env_names after.env)
set_environment_lem_example =
    set_environment_lem ada open_code_spec agent_container "GIT_AUTHOR_NAME" distinct
