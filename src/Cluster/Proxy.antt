-- ===== src/Cluster/Proxy.antt =====
-- internal/cluster/proxy.go: the proxy of a repository, its configuration, service, deployment and the
-- policy on what leaves the agent's pod.
pub mod Objects
pub mod Egress
pub mod Laws
use kagen.Prelude.{
  ℕ, ◌+◌, String, Bool, true, false, ◌&&◌, not, Option, none, some, List, [], ◌∷◌, if◌then◌else◌,
  ltb,
}
use kagen.Prelude.Text.{◌+s◌}
use kagen.Errors.{Err, message, wrapped}
use kagen.Errors.Exec.{Result, ok, err, Exec, pure, raise, ◌>>=◌, ◌>>◌, ◌or_wrap◌}
use kagen.Git.{Repository, repo_id}
use kagen.Proxy.{Policy}
use kagen.Cluster.Api.{Api, create_or_update, remove}
use kagen.Cluster.Objects.{Meta, ConfigMap, Service, Deployment, PodTemplate, NetworkPolicy}
use kagen.Cluster.Polling.{poll}
use kagen.Cluster.Runtime.{proxy_service_name, policy_enabled}
use kagen.Cluster.Proxy.Objects.{
  proxy_deployment_name, proxy_policy_name, proxy_config_map_name, proxy_config,
  proxy_config_data_checksum, proxy_service, proxy_deployment, agent_network_policy,
}

abbrev pub namespace_of : (String → String) → Repository → String
namespace_of sha1_hex repo = "kagen-" +s repo_id sha1_hex repo

-- What an update writes of each object.
abbrev pub write_config : ConfigMap → ConfigMap → ConfigMap
write_config desired current = record current {
  data_of = desired.data_of;
  meta = record (current.meta) { labels = desired.meta.labels };
}

abbrev pub write_service : Service → Service → Service
write_service desired current = record current {
  meta = record (current.meta) { labels = desired.meta.labels };
  ports = desired.ports;
  selector = desired.selector;
}

abbrev pub write_deployment : Deployment → Deployment → Deployment
write_deployment desired current = record current {
  meta = record (current.meta) { labels = desired.meta.labels };
  template = desired.template;
}

abbrev pub write_policy : NetworkPolicy → NetworkPolicy → NetworkPolicy
write_policy desired current = record current {
  meta = record (current.meta) { labels = desired.meta.labels };
  pod_selector = desired.pod_selector;
  egress = desired.egress;
}

abbrev pub or_timeout : {W : Type 0} → Err → Option (Result (Unit {0})) × W → Result (Unit {0}) × W
or_timeout e (some r, w) = (r, w)
or_timeout e (none, w) = (err e, w)

abbrev pub timed_out : String → Err
timed_out namespace =
    message "timed out waiting for proxy deployment %s/%s to become ready"
      (namespace ∷ proxy_deployment_name ∷ [])

abbrev pub or_cancelled :
    {W : Type 0}
    → Option Err × W
    → (W → Option (Result (Unit {0})) × W)
    → Option (Result (Unit {0})) × W
or_cancelled (none, w) next = next w
or_cancelled (some e, w) next = (some (err e), w)

module _ {W : Type 0} (api : Api W) where
  unfoldable pub ensure_proxy_config : (String → String) → String → String → Policy → Exec W String
  unfolding proxy_config proxy_config_data_checksum create_or_update
  ensure_proxy_config sha256_hex namespace repo_id policy =
      let desired = proxy_config namespace repo_id policy.allowed_destinations in
      create_or_update api.is_already_exists api.config_maps "proxy configmap" namespace
        proxy_config_map_name desired (write_config desired)
      >> pure (proxy_config_data_checksum sha256_hex desired.data_of)

  unfoldable pub ensure_proxy_service : String → String → Exec W (Unit {0})
  unfolding proxy_service create_or_update
  ensure_proxy_service namespace repo_id =
      let desired = proxy_service namespace repo_id in
      create_or_update api.is_already_exists api.services "proxy service" namespace
        proxy_service_name desired (write_service desired)

  unfoldable pub ensure_proxy_deployment : String → String → String → String → Exec W (Unit {0})
  unfolding proxy_deployment create_or_update
  ensure_proxy_deployment namespace repo_id checksum image_ref =
      let desired = proxy_deployment namespace repo_id checksum image_ref in
      create_or_update api.is_already_exists api.deployments "proxy deployment" namespace
        proxy_deployment_name desired (write_deployment desired)

  unfoldable pub ensure_agent_network_policy : String → String → Exec W (Unit {0})
  unfolding agent_network_policy create_or_update
  ensure_agent_network_policy namespace repo_id =
      let desired = agent_network_policy namespace repo_id in
      create_or_update api.is_already_exists api.policies "proxy networkpolicy" namespace
        proxy_policy_name desired (write_policy desired)

  unfoldable pub delete_proxy_resources : String → Exec W (Unit {0})
  unfolding remove
  delete_proxy_resources namespace = do
    remove api.is_not_found api.policies "proxy networkpolicy" namespace proxy_policy_name
    remove api.is_not_found api.services "proxy service" namespace proxy_service_name
    remove api.is_not_found api.deployments "proxy deployment" namespace proxy_deployment_name
    remove api.is_not_found api.config_maps "proxy configmap" namespace proxy_config_map_name

  abbrev pub readiness : Result Deployment × W → Option (Result (Unit {0})) × W
  readiness (ok d, w) = if ltb 0 d.ready_replicas then (some (ok tt), w) else (none, w)
  readiness (err e, w) =
      if api.is_not_found e
      then (none, w)
      else (some (err (wrapped "getting proxy deployment: %w" [] e)), w)

  unfoldable pub try_ready : String → W → Option (Result (Unit {0})) × W
  try_ready namespace w =
      or_cancelled (api.context_error w)
        (λ w1. readiness (api.deployments.get namespace proxy_deployment_name w1))

  -- `waitForRetry` in the loop, with its delay in milliseconds
  unfoldable pub wait_for_retry : ℕ → W → Option (Result (Unit {0})) × W
  wait_for_retry delay w = or_cancelled (api.pause delay w) (λ w1. (none, w1))

  -- The loop has 2 minutes, in which 60 pauses of 2 s fit: 62 rounds are enough.
  unfoldable pub wait_for_proxy_ready : String → Exec W (Unit {0})
  unfolding poll try_ready wait_for_retry
  wait_for_proxy_ready namespace w =
      let (started, w1) = api.now w in
      or_timeout (timed_out namespace) (
        poll api.now (try_ready namespace) (wait_for_retry 2000) (err (timed_out namespace)) 62
          (started + 120000) w1)

module _ {W : Type 0} (api : Api W) (sha256_hex : String → String) where
  unfoldable pub deploy_proxy : String → String → Policy → String → Exec W (Unit {0})
  unfolding ensure_proxy_config ensure_proxy_service ensure_proxy_deployment wait_for_proxy_ready
  deploy_proxy namespace repo_id policy image_ref =
      ensure_proxy_config api sha256_hex namespace repo_id policy >>= λ checksum.
      (ensure_proxy_service api namespace repo_id
        >> (ensure_proxy_deployment api namespace repo_id checksum image_ref
            >> wait_for_proxy_ready api namespace))

  -- `EnsureProxy`, with the hexadecimal SHA-1 that names the repository
  unfoldable pub ensure_proxy :
      (String → String) → Repository → Option Policy → String → Exec W (Unit {0})
  unfolding delete_proxy_resources deploy_proxy policy_enabled
  ensure_proxy sha1_hex repo none image_ref =
      delete_proxy_resources api (namespace_of sha1_hex repo)
  ensure_proxy sha1_hex repo (some policy) image_ref =
      if policy_enabled (some policy)
      then deploy_proxy (namespace_of sha1_hex repo) (repo_id sha1_hex repo) policy image_ref
      else delete_proxy_resources api (namespace_of sha1_hex repo)

module _ {W : Type 0} (api : Api W) (sha1_hex : String → String) where
  -- `EnsureProxyPolicy`
  unfoldable pub ensure_proxy_policy : Repository → Exec W (Unit {0})
  unfolding ensure_agent_network_policy
  ensure_proxy_policy repo =
      ensure_agent_network_policy api (namespace_of sha1_hex repo) (repo_id sha1_hex repo)

  abbrev is_proxy_ready : Result Deployment → Result Bool
  is_proxy_ready (ok d) = ok (ltb 0 d.ready_replicas)
  is_proxy_ready (err e) =
      if api.is_not_found e then ok false else err (wrapped "getting proxy deployment: %w" [] e)

  unfoldable pub proxy_ready : Repository → Exec W Bool
  proxy_ready repo w =
      let (found, w1) = api.deployments.get (namespace_of sha1_hex repo) proxy_deployment_name w in
      (is_proxy_ready found, w1)
