-- ===== src/Cluster/Kube/Laws.antt =====
-- Laws of internal/cluster/kube.go.
use kagen.Prelude.{
  String, true, Option, some, List, [], ◌∷◌, ◌≡◌, refl, sym, ◌∙◌, arith, inl, inr, Bool-cases,
}
use kagen.Errors.{Err, wrapped}
use kagen.Errors.Exec.{Result, ok, err, ◌>>◌, ◌or_wrap◌}
use kagen.Errors.Inversion.{bind-ok, or_wrap-ok}
use kagen.Agent.Registry.{Entries}
use kagen.Git.{Repository, repo_id}
use kagen.Workload.{Request, build_pod}
use kagen.Cluster.Runtime.{inject_workspace_sync, inject_agent_runtime}
use kagen.Cluster.Runtime.Mounts.{
  IsMounted, build_pod-IsMounted, inject_workspace_sync-IsMounted, inject_unless_empty-IsMounted,
}
use kagen.Git.Config.{UserConfig}
use kagen.Proxy.{Policy}
use kagen.Cluster.Api.{Api}
use kagen.Cluster.Api.Laws.{IsStore}
use kagen.Cluster.Objects.{Pod}
use kagen.Cluster.Proxy.{namespace_of}
use kagen.Cluster.Kube.{
  delete_pod, await_deletion, replace_pod, unless_pod_created, reconcile_pod, complete_pod,
  label_pod, ensure_objects, ensure_resources, ensure_agent_config_maps, ensure_claims,
}

module _ {W : Type 0} (api : Api W) (find : String → String → W → Option Pod)
    (pods : IsStore api.pods api.is_not_found find (λ p. p.meta.name)) where
  replace_pod-finds :
      (namespace : String) (pod : Pod) (w w' : W)
      → replace_pod api namespace pod w ≡ (ok tt, w')
      → find namespace pod.meta.name w' ≡ some pod
  unfolding replace_pod
  replace_pod-finds namespace pod w w' h =
      let last = api.pods.create namespace pod or_wrap wrapped "creating replacement pod: %w" [] in
      let name = pod.meta.name in
      let (u, w1, _, h1) =
        bind-ok (delete_pod api namespace name) (λ _. await_deletion api namespace name >> last) w
          w' tt h in
      let (v, w2, _, h2) = bind-ok (await_deletion api namespace name) (λ _. last) w1 w' tt h1 in
      pods.created namespace pod w2 w' (
        or_wrap-ok (api.pods.create namespace pod) (wrapped "creating replacement pod: %w" []) w2 w'
          tt h2)

  replaced :
      (namespace : String) (pod : Pod) (e : Err) (w w' : W)
      → api.is_already_exists e ≡ true
      → unless_pod_created api namespace pod (err e, w) ≡ (ok tt, w')
      → (replace_pod api namespace pod
            or_wrap wrapped "replacing pod %s/%s: %w" (namespace ∷ pod.meta.name ∷ []))
          w
        ≡ (ok tt, w')
  unfolding unless_pod_created
  replaced namespace pod e w w' there h = sym (rw there refl) ∙ h

  reconcile_pod-finds :
      (namespace : String) (pod : Pod) (w w' : W)
      → reconcile_pod api namespace pod w ≡ (ok tt, w')
      → find namespace pod.meta.name w' ≡ some pod
  unfolding reconcile_pod
  reconcile_pod-finds namespace pod w w' h = go (api.pods.create namespace pod w) refl h
    where
      go :
          (o : Result (Unit {0}) × W)
          → api.pods.create namespace pod w ≡ o
          → unless_pod_created api namespace pod o ≡ (ok tt, w')
          → find namespace pod.meta.name w' ≡ some pod
      go (ok u, w1) same h =
          let end : w1 ≡ w' = ground arith in rw (sym end) (pods.created namespace pod w w1 same)
      go (err e, w1) same h = elim (Bool-cases (api.is_already_exists e)) [
        | inr other ↦ absurd (ground arith)
        | inl there ↦ replace_pod-finds namespace pod w1 w' (
            or_wrap-ok (replace_pod api namespace pod)
              (wrapped "replacing pod %s/%s: %w" (namespace ∷ pod.meta.name ∷ [])) w1 w' tt
              (replaced namespace pod e w1 w' there h))
      ]

  ensure_objects-finds :
      (entries : Entries) (namespace agent_type : String) (pod : Pod) (w w' : W)
      → ensure_objects api entries namespace agent_type pod w ≡ (ok tt, w')
      → find namespace pod.meta.name w' ≡ some pod
  unfolding ensure_objects
  ensure_objects-finds entries namespace agent_type pod w w' h =
      let configs =
        ensure_agent_config_maps api entries namespace agent_type
        or_wrap wrapped "ensuring agent config maps: %w" [] in
      let claims = ensure_claims api namespace pod.spec.volumes in
      let (u, w1, _, h1) =
        bind-ok configs (λ _. claims >> reconcile_pod api namespace pod) w w' tt h in
      let (v, w2, _, h2) = bind-ok claims (λ _. reconcile_pod api namespace pod) w1 w' tt h1 in
      reconcile_pod-finds namespace pod w2 w' h2

-- Where the resources of a repository are there without an error, for a pod that was built, the pod in the cluster is
-- the built pod with all that the program adds to it, even if another pod of its name was there before,
-- and every mount of every container in it names one of its volumes.
pub ensure_resources-finds :
    {W : Type 0} (api : Api W) (get_host_user : W → UserConfig × W) (entries : Entries)
    (sprintf : String → List String → String) (sha1_hex : String → String)
    (find : String → String → W → Option Pod) (repo : Repository) (agent_type : String)
    (policy : Option Policy) (req : Request) (pod : Pod) (w w' : W)
    → IsStore api.pods api.is_not_found find (λ p. p.meta.name)
    → build_pod req ≡ ok pod
    → ensure_resources api get_host_user entries sprintf sha1_hex repo agent_type policy pod w
      ≡ (ok tt, w')
    → let completed =
        (complete_pod get_host_user entries sprintf sha1_hex repo agent_type policy pod w).0 in
      (find (namespace_of sha1_hex repo) completed.meta.name w' ≡ some completed)
      × IsMounted completed
unfolding ensure_resources complete_pod label_pod inject_agent_runtime
ensure_resources-finds api get_host_user entries sprintf sha1_hex find repo agent_type policy req
      pod w w' pods built h =
    let namespace = namespace_of sha1_hex repo in
    let labelled = label_pod (repo_id sha1_hex repo) pod in
    let synced = inject_workspace_sync sprintf repo labelled in
    let (mounted, workspace) = build_pod-IsMounted req pod built in
    let completed =
      complete_pod get_host_user entries sprintf sha1_hex repo agent_type policy pod w in
    (
      ensure_objects-finds api find pods entries namespace agent_type completed.0 completed.1 w' h,
      inject_unless_empty-IsMounted get_host_user entries synced.spec.containers agent_type
          namespace policy synced w
          (inject_workspace_sync-IsMounted sprintf repo labelled mounted workspace),
    )
