-- ===== src/Cluster/Kube.antt =====
-- internal/cluster/kube.go: the namespace, the claims, the configuration maps and the pod of a repository.
pub mod Laws
use kagen.Prelude.{
  ℕ, ◌+◌, String, Bool, true, false, Option, none, some, List, [], ◌∷◌, ◌++◌, ◌==◌, if◌then◌else◌,
  ltb,
}
use kagen.Prelude.Lists.{length}
use kagen.Prelude.Maps.{Map, insert}
use kagen.Prelude.Text.{◌+s◌}
use kagen.Errors.{Err, message, wrapped}
use kagen.Errors.Exec.{Result, ok, err, Exec, pure, ◌>>=◌, ◌>>◌, ◌or_wrap◌}
use kagen.Agent.{RuntimeSpec, ConfigFile}
use kagen.Agent.Registry.{Entries, spec_for}
use kagen.Git.{Repository, repo_id}
use kagen.Git.Config.{UserConfig}
use kagen.Proxy.{Policy}
use kagen.Cluster.Api.{Api, Resource}
use kagen.Cluster.Objects.{
  Meta, Namespace, Claim, ConfigMap, Pod, PodSpec, Volume, VolumeSource, memory_dir, claim,
  config_map,
}
use kagen.Cluster.Polling.{poll}
use kagen.Cluster.Proxy.{namespace_of, or_cancelled}
use kagen.Cluster.Runtime.{inject_workspace_sync, inject_agent_runtime, config_map_name}

-- `errors.IsAlreadyExists` is as well as success.
abbrev pub unless_exists :
    {W : Type 0} → (Err → Bool) → (Err → Err) → Result (Unit {0}) × W → Result (Unit {0}) × W
unless_exists is_already_exists wrap (ok u, w) = (ok tt, w)
unless_exists is_already_exists wrap (err e, w) =
    if is_already_exists e then (ok tt, w) else (err (wrap e), w)

-- The namespace, with a label more where the variable KAGEN_E2E is "true".
unfoldable pub repo_namespace : String → Bool → Namespace
repo_namespace name e2e = record {
  meta = record {
    name = name;
    namespace = "";
    labels =
        if e2e
        then ("kagen.io/scope", "repo") ∷ ("kagen.io/e2e", "true") ∷ []
        else ("kagen.io/scope", "repo") ∷ [];
  };
}

unfoldable pub pvc : String → String → Claim
pvc namespace name = record {
  meta = record { name = name; namespace = namespace; labels = [] };
  storage = "1Gi";
}

-- `cm.Data[cf.Name] = cf.Content` for each file
unfoldable pub config_data : List ConfigFile → Map String → Map String
config_data [] m = m
config_data (cf ∷ files) m = config_data files (insert cf.name cf.content m)

unfoldable pub agent_config_map : String → String → List ConfigFile → ConfigMap
unfolding config_data
agent_config_map namespace agent_type files = record {
  meta = record {
    name = config_map_name agent_type;
    namespace = namespace;
    labels = ("kagen.io/component", "agent-config") ∷ ("kagen.io/agent", agent_type) ∷ [];
  };
  data_of = config_data files [];
}

-- `pod.Labels["kagen.io/repo-id"] = repo.ID()`
unfoldable pub label_pod : String → Pod → Pod
unfolding insert
label_pod id pod = record pod {
  meta = record (pod.meta) { labels = insert "kagen.io/repo-id" id pod.meta.labels };
}

module _ {W : Type 0} (api : Api W) where
  abbrev namespace_found : (Err → Bool) → String → Result (Unit {0}) × W → Result (Unit {0}) × W
  namespace_found is_already_exists name (ok u, w) = (ok tt, w)
  namespace_found is_already_exists name (err e, w) =
      if is_already_exists e
      then (ok tt, w)
      else ((api.namespaces.get "" name >> pure tt)
            or_wrap wrapped "creating namespace %s: %w" (name ∷ []))
          w

  -- `EnsureNamespace`
  unfoldable pub ensure_namespace : (String → String) → Bool → Repository → Exec W (Unit {0})
  unfolding repo_namespace
  ensure_namespace sha1_hex e2e repo w =
      let name = namespace_of sha1_hex repo in
      namespace_found api.is_already_exists name
        (api.namespaces.create "" (repo_namespace name e2e) w)

  unfoldable pub ensure_pvc : String → String → Exec W (Unit {0})
  unfolding pvc
  ensure_pvc namespace name w =
      unless_exists api.is_already_exists (wrapped "creating pvc %s/%s: %w" (namespace ∷ name ∷ []))
        (api.claims.create namespace (pvc namespace name) w)

  unfoldable pub ensure_claims : String → List Volume → Exec W (Unit {0})
  unfolding ensure_pvc
  ensure_claims namespace [] = pure tt
  ensure_claims namespace (v ∷ vs) =
      let rest = ensure_claims namespace vs in
      elim v.source [
        | claim name ↦ ensure_pvc namespace name >> rest
        | memory_dir ↦ rest
        | config_map name ↦ rest
      ]

  abbrev pub config_maps_of : String → String → Result RuntimeSpec → Exec W (Unit {0})
  unfolding agent_config_map
  config_maps_of namespace agent_type (err e) w = (ok tt, w)
  config_maps_of namespace agent_type (ok spec) w = elim spec.config_files [
    | [] ↦ (ok tt, w)
    | cf ∷ files ↦
        unless_exists api.is_already_exists
          (wrapped "creating configmap %s/%s: %w" (namespace ∷ config_map_name agent_type ∷ []))
          (api.config_maps.create namespace (agent_config_map namespace agent_type (cf ∷ files)) w)
  ]

  unfoldable pub ensure_agent_config_maps : Entries → String → String → Exec W (Unit {0})
  unfolding config_maps_of
  ensure_agent_config_maps entries namespace agent_type =
      config_maps_of namespace agent_type (spec_for entries agent_type)

  abbrev gone : Result Pod × W → Option (Result (Unit {0})) × W
  gone (ok pod, w) = (none, w)
  gone (err e, w) =
      if api.is_not_found e
      then (some (ok tt), w)
      else (some (err (wrapped "checking pod deletion: %w" [] e)), w)

  unfoldable pub check_gone : String → String → W → Option (Result (Unit {0})) × W
  check_gone namespace name w = gone (api.pods.get namespace name w)

  unfoldable pub pause_deletion : W → Option (Result (Unit {0})) × W
  pause_deletion w = or_cancelled (api.pause 500 w) (λ w1. (none, w1))

  abbrev or_later : Option (Result (Unit {0})) × W → Result (Unit {0}) × W
  or_later (some r, w) = (r, w)
  or_later (none, w) = (ok tt, w)

  -- The wait for the end of the pod, which is over after 30 s too. 60 pauses of 500 ms fit in them, so
  -- 62 rounds are enough.
  unfoldable pub await_deletion : String → String → Exec W (Unit {0})
  unfolding poll check_gone pause_deletion
  await_deletion namespace name w =
      let (started, w1) = api.now w in
      or_later
        (poll api.now (check_gone namespace name) pause_deletion (ok tt) 62 (started + 30000) w1)

  abbrev deleted_pod : Result (Unit {0}) × W → Result (Unit {0}) × W
  deleted_pod (ok u, w) = (ok tt, w)
  deleted_pod (err e, w) =
      if api.is_not_found e then (ok tt, w) else (err (wrapped "deleting existing pod: %w" [] e), w)

  unfoldable pub delete_pod : String → String → Exec W (Unit {0})
  delete_pod namespace name w = deleted_pod (api.pods.delete namespace name w)

  -- `replacePod`
  unfoldable pub replace_pod : String → Pod → Exec W (Unit {0})
  unfolding delete_pod await_deletion
  replace_pod namespace pod =
      delete_pod namespace pod.meta.name
      >> (await_deletion namespace pod.meta.name
          >> (api.pods.create namespace pod or_wrap wrapped "creating replacement pod: %w" []))

  unfoldable pub unless_pod_created : String → Pod → Result (Unit {0}) × W → Result (Unit {0}) × W
  unfolding replace_pod
  unless_pod_created namespace pod (ok u, w) = (ok tt, w)
  unless_pod_created namespace pod (err e, w) =
      let names = namespace ∷ pod.meta.name ∷ [] in
      if api.is_already_exists e
      then (replace_pod namespace pod or_wrap wrapped "replacing pod %s/%s: %w" names) w
      else (err (wrapped "creating pod %s/%s: %w" names e), w)

  unfoldable pub reconcile_pod : String → Pod → Exec W (Unit {0})
  unfolding unless_pod_created
  reconcile_pod namespace pod w = unless_pod_created namespace pod (api.pods.create namespace pod w)

-- The pod that the API server gets.
unfoldable pub complete_pod :
    {W : Type 0}
    → (W → UserConfig × W)
    → Entries
    → (String → List String → String)
    → (String → String)
    → Repository
    → String
    → Option Policy
    → Pod
    → W
    → Pod × W
unfolding label_pod inject_workspace_sync inject_agent_runtime
complete_pod get_host_user entries sprintf sha1_hex repo agent_type policy pod =
    inject_agent_runtime get_host_user entries agent_type (namespace_of sha1_hex repo) policy
      (inject_workspace_sync sprintf repo (label_pod (repo_id sha1_hex repo) pod))

unfoldable pub ensure_objects :
    {W : Type 0} → Api W → Entries → String → String → Pod → Exec W (Unit {0})
unfolding ensure_agent_config_maps ensure_claims reconcile_pod
ensure_objects api entries namespace agent_type pod =
    (ensure_agent_config_maps api entries namespace agent_type
      or_wrap wrapped "ensuring agent config maps: %w" [])
    >> (ensure_claims api namespace pod.spec.volumes >> reconcile_pod api namespace pod)

-- `EnsureResources`
unfoldable pub ensure_resources :
    {W : Type 0}
    → Api W
    → (W → UserConfig × W)
    → Entries
    → (String → List String → String)
    → (String → String)
    → Repository
    → String
    → Option Policy
    → Pod
    → Exec W (Unit {0})
unfolding complete_pod ensure_objects
ensure_resources api get_host_user entries sprintf sha1_hex repo agent_type policy pod w =
    let (completed, w1) =
      complete_pod get_host_user entries sprintf sha1_hex repo agent_type policy pod w in
    ensure_objects api entries (namespace_of sha1_hex repo) agent_type completed w1

-- The stub of `AttachAgent`: `list` gives the names of the agent's pods.
unfoldable pub attach_agent :
    {W : Type 0}
    → (String → Exec W (List String))
    → (String → String)
    → Repository
    → Exec W (Unit {0})
attach_agent list sha1_hex repo w =
    let namespace = namespace_of sha1_hex repo in
    let (pods, w1) = list namespace w in
    elim pods [
      | err e ↦ (err (message "agent pod not found in namespace %s" (namespace ∷ [])), w1)
      | ok names ↦
          if ltb 0 (length names)
          then (ok tt, w1)
          else (err (message "agent pod not found in namespace %s" (namespace ∷ [])), w1)
    ]
