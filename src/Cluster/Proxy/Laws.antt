-- ===== src/Cluster/Proxy/Laws.antt =====
-- Laws of internal/cluster/proxy.go.
use kagen.Prelude.{
  ℕ, ◌+◌, String, Option, none, some, List, [], ◌∷◌, ◌≡◌, refl, sym, ap, ◌∙◌, arith, inl, inr, ◌⊎◌,
  Bool-cases, ltb,
}
use kagen.Prelude.Maps.{lookup_text}
use kagen.Errors.{Err}
use kagen.Errors.Exec.{Result, ok, err, pure, ◌>>◌}
use kagen.Errors.Inversion.{bind-ok}
use kagen.Proxy.{Policy}
use kagen.Cluster.Api.{Api, create_or_update}
use kagen.Cluster.Api.Laws.{IsStore, IsKept, create_or_update-finds, create_or_update-keeps}
use kagen.Cluster.Objects.{ConfigMap, Deployment}
use kagen.Cluster.Polling.{poll-keeps}
use kagen.Cluster.Proxy.Objects.{
  proxy_service, proxy_allowlist, proxy_config_map_name, proxy_deployment_name, proxy_config,
  proxy_deployment, proxy_config_data_checksum, proxy_config_checksum,
}
use kagen.Cluster.Runtime.{proxy_service_name}
use kagen.Cluster.Proxy.{
  or_cancelled, readiness, write_service, write_config, write_deployment, ensure_proxy_config,
  ensure_proxy_service, or_timeout, timed_out, ensure_proxy_deployment, wait_for_proxy_ready,
  try_ready, wait_for_retry, deploy_proxy,
}

-- The documented behaviour of the API server that the proxy relies on: the configuration maps and the deployments
-- are stores, requests on one kind of object leave the other kinds, and waiting changes no object.
pub record IsServer {W : Type 0} (api : Api W)
    (find_config : String → String → W → Option ConfigMap)
    (find_deployment : String → String → W → Option Deployment) : Type 0 where
  pub config_store : IsStore api.config_maps api.is_not_found find_config (λ c. c.meta.name)
  pub deployment_store : IsStore api.deployments api.is_not_found find_deployment (λ d. d.meta.name)
  pub services_keep : (namespace name : String) → IsKept api.services (find_config namespace name)
  pub deployments_keep :
      (namespace name : String) → IsKept api.deployments (find_config namespace name)
  pub reads_keep :
      (namespace name from other : String) (w : W)
      → find_deployment namespace name (api.deployments.get from other w).1
        ≡ find_deployment namespace name w
  pub now_keeps :
      (namespace name : String) (w : W)
      → (find_config namespace name (api.now w).1 ≡ find_config namespace name w)
        × (find_deployment namespace name (api.now w).1 ≡ find_deployment namespace name w)
  pub pause_keeps :
      (namespace name : String) (delay : ℕ) (w : W)
      → (find_config namespace name (api.pause delay w).1 ≡ find_config namespace name w)
        × (find_deployment namespace name (api.pause delay w).1 ≡ find_deployment namespace name w)
  pub context_keeps :
      (namespace name : String) (w : W)
      → (find_config namespace name (api.context_error w).1 ≡ find_config namespace name w)
        × (find_deployment namespace name (api.context_error w).1
            ≡ find_deployment namespace name w)

proxy_config-name :
    (namespace repo_id : String) (destinations : List String)
    → (proxy_config namespace repo_id destinations).meta.name ≡ proxy_config_map_name
unfolding proxy_config
proxy_config-name namespace repo_id destinations = refl

source-data_of :
    (desired c : ConfigMap)
    → (c ≡ desired) ⊎ ((current : ConfigMap) × (c ≡ write_config desired current))
    → c.data_of ≡ desired.data_of
source-data_of desired c (inl e) = ap (λ c. c.data_of) e
source-data_of desired c (inr (current, e)) = ap (λ c. c.data_of) e

source-template :
    (desired d : Deployment)
    → (d ≡ desired) ⊎ ((current : Deployment) × (d ≡ write_deployment desired current))
    → d.template ≡ desired.template
source-template desired d (inl e) = ap (λ d. d.template) e
source-template desired d (inr (current, e)) = ap (λ d. d.template) e

module _ {W : Type 0} (api : Api W) (sha256_hex : String → String)
    (find_config : String → String → W → Option ConfigMap)
    (find_deployment : String → String → W → Option Deployment)
    (server : IsServer api find_config find_deployment) where
  ensure_proxy_config-ok :
      (namespace repo_id : String) (policy : Policy) (w w' : W) (checksum : String)
      → ensure_proxy_config api sha256_hex namespace repo_id policy w ≡ (ok checksum, w')
      → let desired = proxy_config namespace repo_id policy.allowed_destinations in
        (c : ConfigMap) × (find_config namespace proxy_config_map_name w' ≡ some c)
        × (c.data_of ≡ desired.data_of)
        × (checksum ≡ proxy_config_data_checksum sha256_hex c.data_of)
  unfolding ensure_proxy_config
  ensure_proxy_config-ok namespace repo_id policy w w' checksum h =
      let desired = proxy_config namespace repo_id policy.allowed_destinations in
      let write =
        create_or_update api.is_already_exists api.config_maps "proxy configmap" namespace
          proxy_config_map_name desired (write_config desired) in
      let (u, w1, written, rest) =
        bind-ok write (λ _. pure (proxy_config_data_checksum sha256_hex desired.data_of)) w w'
          checksum h in
      let (c, found, source) =
        create_or_update-finds api.is_already_exists api.config_maps api.is_not_found find_config
          (λ c. c.meta.name) "proxy configmap" namespace proxy_config_map_name desired
          (write_config desired) w w1 server.config_store
          (proxy_config-name namespace repo_id policy.allowed_destinations) (λ c. refl) written in
      let same = source-data_of desired c source in
      let end : w1 ≡ w' = ground arith in
      let sum : checksum ≡ proxy_config_data_checksum sha256_hex desired.data_of = ground arith in
      (c, rw (sym end) found, same, rw same sum)

  or_timeout-keeps :
      {B : Type 0} (view : W → B) (e : Err) (o : Option (Result (Unit {0})) × W)
      → view (or_timeout e o).1 ≡ view o.1
  or_timeout-keeps view e (some r, w) = refl
  or_timeout-keeps view e (none, w) = refl

  or_cancelled-keeps :
      {B : Type 0} (view : W → B) (o : Option Err × W) (next : W → Option (Result (Unit {0})) × W)
      → ((w : W) → view (next w).1 ≡ view w)
      → view (or_cancelled o next).1 ≡ view o.1
  or_cancelled-keeps view (none, w) next k = k w
  or_cancelled-keeps view (some e, w) next k = refl

  readiness-keeps :
      {B : Type 0} (view : W → B) (o : Result Deployment × W) → view (readiness api o).1 ≡ view o.1
  readiness-keeps view (ok d, w) = elim (Bool-cases (ltb 0 d.ready_replicas)) [
    | inl ready ↦ rw ready refl
    | inr waiting ↦ rw waiting refl
  ]
  readiness-keeps view (err e, w) = elim (Bool-cases (api.is_not_found e)) [
    | inl gone ↦ rw gone refl
    | inr other ↦ rw other refl
  ]

  wait_for_proxy_ready-keeps :
      {B : Type 0} (view : W → B) (namespace : String) (w : W)
      → ((w : W) → view (api.now w).1 ≡ view w)
      → ((from name : String) (w : W) → view (api.deployments.get from name w).1 ≡ view w)
      → ((delay : ℕ) (w : W) → view (api.pause delay w).1 ≡ view w)
      → ((w : W) → view (api.context_error w).1 ≡ view w)
      → view (wait_for_proxy_ready api namespace w).1 ≡ view w
  unfolding wait_for_proxy_ready try_ready wait_for_retry
  wait_for_proxy_ready-keeps view namespace w kn kg kp kc =
      let loop =
        poll-keeps view api.now (try_ready api namespace) (wait_for_retry api 2000)
          (err (timed_out namespace)) 62 ((api.now w).0 + 120000) kn
          (λ w.
            or_cancelled-keeps view (api.context_error w) _ (λ w1.
              readiness-keeps view (api.deployments.get namespace proxy_deployment_name w1)
              ∙ kg namespace proxy_deployment_name w1)
            ∙ kc w)
          (λ w. or_cancelled-keeps view (api.pause 2000 w) _ (λ w1. refl) ∙ kp 2000 w)
          (api.now w).1 in
      or_timeout-keeps view (timed_out namespace) _ ∙ loop ∙ kn w

  ensure_proxy_deployment-ok :
      (namespace repo_id checksum image_ref : String) (w w' : W)
      → ensure_proxy_deployment api namespace repo_id checksum image_ref w ≡ (ok tt, w')
      → (d : Deployment) × (find_deployment namespace proxy_deployment_name w' ≡ some d)
        × (d.template ≡ (proxy_deployment namespace repo_id checksum image_ref).template)
  unfolding ensure_proxy_deployment proxy_deployment
  ensure_proxy_deployment-ok namespace repo_id checksum image_ref w w' h =
      let desired = proxy_deployment namespace repo_id checksum image_ref in
      let (d, found, source) =
        create_or_update-finds api.is_already_exists api.deployments api.is_not_found
          find_deployment (λ d. d.meta.name) "proxy deployment" namespace proxy_deployment_name
          desired (write_deployment desired) w w' server.deployment_store refl (λ d. refl) h in
      (d, found, source-template desired d source)

  -- A view of the world after a run that keeps it.
  kept :
      {A B : Type 0} (view : W → B) (o : A × W) (w w' : W) (a : A)
      → o ≡ (a, w')
      → view o.1 ≡ view w
      → view w' ≡ view w
  kept view o w w' a same k = ap (λ p. view p.1) (sym same) ∙ k

  -- What follows the configuration leaves it.
  rollout-keeps :
      (namespace repo_id checksum image_ref : String) (w w1 w2 w' : W)
      → ensure_proxy_service api namespace repo_id w ≡ (ok tt, w1)
      → ensure_proxy_deployment api namespace repo_id checksum image_ref w1 ≡ (ok tt, w2)
      → wait_for_proxy_ready api namespace w2 ≡ (ok tt, w')
      → find_config namespace proxy_config_map_name w'
        ≡ find_config namespace proxy_config_map_name w
  unfolding ensure_proxy_service ensure_proxy_deployment
  rollout-keeps namespace repo_id checksum image_ref w w1 w2 w' served deployed waited =
      let view = find_config namespace proxy_config_map_name in
      let name = proxy_config_map_name in
      let service = proxy_service namespace repo_id in
      let deployment = proxy_deployment namespace repo_id checksum image_ref in
      let deployments = server.deployments_keep namespace name in
      let first = kept view _ w w1 (ok tt) served (
        create_or_update-keeps api.is_already_exists api.services view "proxy service" namespace
          proxy_service_name service (write_service service) w
          (server.services_keep namespace name)) in
      let second = kept view _ w1 w2 (ok tt) deployed (
        create_or_update-keeps api.is_already_exists api.deployments view "proxy deployment"
          namespace proxy_deployment_name deployment (write_deployment deployment) w1
          deployments) in
      let third = kept view _ w2 w' (ok tt) waited (
        wait_for_proxy_ready-keeps view namespace w2 (λ w. (server.now_keeps namespace name w).0)
          deployments.get_keeps (λ delay w. (server.pause_keeps namespace name delay w).0)
          (λ w. (server.context_keeps namespace name w).0)) in
      third ∙ second ∙ first

  -- Where the proxy is deployed without an error, its configuration map holds the allowlist of the policy, and the
  -- pods of its deployment are labelled with the checksum of the data that the configuration map holds, whatever
  -- objects were there before and however long the wait for the proxy was.
  pub deploy_proxy-Consistent :
      (namespace repo_id image_ref : String) (policy : Policy) (w w' : W)
      → deploy_proxy api sha256_hex namespace repo_id policy image_ref w ≡ (ok tt, w')
      → (c : ConfigMap) × (d : Deployment) × (find_config namespace proxy_config_map_name w'
          ≡ some c)
        × (find_deployment namespace proxy_deployment_name w' ≡ some d)
        × (lookup_text "allowlist" c.data_of ≡ proxy_allowlist policy.allowed_destinations)
        × (d.template.annotations
            ≡ (proxy_config_checksum, proxy_config_data_checksum sha256_hex c.data_of) ∷ [])
  unfolding deploy_proxy proxy_config proxy_deployment lookup_text
  deploy_proxy-Consistent namespace repo_id image_ref policy w w' h =
      let (checksum, w1, configured, h1) =
        bind-ok (ensure_proxy_config api sha256_hex namespace repo_id policy)
          (λ checksum.
            ensure_proxy_service api namespace repo_id
            >> (ensure_proxy_deployment api namespace repo_id checksum image_ref
                >> wait_for_proxy_ready api namespace))
          w w' tt h in
      let (u, w2, served, h2) =
        bind-ok (ensure_proxy_service api namespace repo_id)
          (λ _.
            ensure_proxy_deployment api namespace repo_id checksum image_ref
            >> wait_for_proxy_ready api namespace)
          w1 w' tt h1 in
      let (v, w3, deployed, waited) =
        bind-ok (ensure_proxy_deployment api namespace repo_id checksum image_ref)
          (λ _. wait_for_proxy_ready api namespace) w2 w' tt h2 in
      let (c, config_found, data_same, sum) =
        ensure_proxy_config-ok namespace repo_id policy w w1 checksum configured in
      let (d, found, made) =
        ensure_proxy_deployment-ok namespace repo_id checksum image_ref w2 w3 deployed in
      let name = proxy_deployment_name in
      let still = kept (find_deployment namespace name) _ w3 w' (ok tt) waited (
        wait_for_proxy_ready-keeps (find_deployment namespace name) namespace w3
          (λ w. (server.now_keeps namespace name w).1) (server.reads_keep namespace name)
          (λ delay w. (server.pause_keeps namespace name delay w).1)
          (λ w. (server.context_keeps namespace name w).1)) in
      let config_kept =
        rollout-keeps namespace repo_id checksum image_ref w1 w2 w3 w' served deployed waited in
      (
        c,
        d,
        config_kept ∙ config_found,
        still ∙ found,
        ap (lookup_text "allowlist") data_same,
        ap (λ t. t.annotations) made ∙ ap (λ x. (proxy_config_checksum, x) ∷ []) sum,
      )
