-- ===== src/Cluster/Runtime/Mounts.antt =====
-- The volumes of the pod that internal/workload/builder.go makes and internal/cluster/kube.go completes.
use kagen.Prelude.{
  ℕ, zero, suc, String, true, Option, none, some, List, [], ◌∷◌, ◌++◌, ◌≡◌, refl, ap, ◌==◌, arith,
  inl, inr, Bool-cases,
}
use kagen.Prelude.Lists.{All, All-append, contains, contains-append}
use kagen.Errors.{Err}
use kagen.Errors.Exec.{Result, ok, err}
use kagen.Agent.{RuntimeSpec, EnvVar, ConfigFile, container_name}
use kagen.Agent.Registry.{Entries, spec_for}
use kagen.Git.{Repository}
use kagen.Git.Config.{UserConfig}
use kagen.Proxy.{Policy}
use kagen.Workload.{Request, build_pod, build_checked, pod_of}
use kagen.Cluster.Objects.{VolumeMount, Container, Volume, config_map, Pod}
use kagen.Cluster.Runtime.{
  inject_resolved, inject_unless_empty, inject_files, inject_workspace_sync, inject_spec,
  inject_config_files, inject_proxy_env, config_mounts, change_container, modify_at, add_mounts,
  set_environment, set_required_env, set_container_env, inject_git_authorship, or_first,
  runtime_container, policy_enabled, config_map_name,
}

abbrev pub volume_names : List Volume → List String
volume_names [] = []
volume_names (v ∷ vs) = v.name ∷ volume_names vs

abbrev IsNamed : List String → VolumeMount → Type 0
IsNamed names m = contains m.name names ≡ true

-- Every mount of a container names one of the volumes.
abbrev IsMountedIn : List String → Container → Type 0
IsMountedIn names c = All (IsNamed names) c.mounts

-- Every mount of a pod's containers names one of the pod's volumes.
abbrev pub IsMounted : Pod → Type 0
IsMounted pod =
    let names = volume_names pod.spec.volumes in
    All (IsMountedIn names) pod.spec.init_containers × All (IsMountedIn names) pod.spec.containers

-- The pods that the workspace's container can be added to.
abbrev pub HasWorkspace : Pod → Type 0
HasWorkspace pod =
    let names = volume_names pod.spec.volumes in
    (contains "git-workspace" names ≡ true) × (contains "agent-home" names ≡ true)

pod_of-IsMounted :
    (req : Request) (spec : RuntimeSpec)
    → IsMounted (pod_of req spec) × HasWorkspace (pod_of req spec)
unfolding pod_of
pod_of-IsMounted req spec = ((tt, (((refl, tt), ((refl, (refl, tt)), tt)))), (refl, refl))

build_checked-IsMounted :
    (req : Request) (spec : Option RuntimeSpec) (e : Option Err) (pod : Pod)
    → build_checked req spec e ≡ ok pod
    → IsMounted pod × HasWorkspace pod
unfolding build_checked
build_checked-IsMounted req spec (some e) pod h = absurd (ground arith)
build_checked-IsMounted req none none pod h = absurd (ground arith)
build_checked-IsMounted req (some spec) none pod h =
    let same : pod ≡ pod_of req spec = ground arith in rw same (pod_of-IsMounted req spec)

pub build_pod-IsMounted :
    (req : Request) (pod : Pod) → build_pod req ≡ ok pod → IsMounted pod × HasWorkspace pod
unfolding build_pod
build_pod-IsMounted req pod h = build_checked-IsMounted req req.runtime _ pod h

pub inject_workspace_sync-IsMounted :
    (sprintf : String → List String → String) (repo : Repository) (pod : Pod)
    → IsMounted pod
    → HasWorkspace pod
    → IsMounted (inject_workspace_sync sprintf repo pod)
unfolding inject_workspace_sync
inject_workspace_sync-IsMounted sprintf repo pod (inits, mains) (work, home) = (
  All-append (IsMountedIn (volume_names pod.spec.volumes)) pod.spec.init_containers _ inits
      ((work, (home, tt)), tt),
  mains,
)

modify_at-All :
    (P : Container → Type 0) (f : Container → Container) (i : ℕ) (cs : List Container)
    → ((c : Container) → P c → P (f c))
    → All P cs
    → All P (modify_at f i cs)
unfolding modify_at
modify_at-All P f i [] keeps h = h
modify_at-All P f zero (c ∷ cs) keeps (h, hs) = (keeps c h, hs)
modify_at-All P f (suc i) (c ∷ cs) keeps (h, hs) = (h, modify_at-All P f i cs keeps hs)

set_required_env-mounts :
    (vars : List EnvVar) (c : Container) → (set_required_env vars c).mounts ≡ c.mounts
unfolding set_required_env set_container_env
set_required_env-mounts [] c = refl
set_required_env-mounts (v ∷ vars) c =
    set_required_env-mounts vars (set_container_env v.name v.value c)

set_environment-mounts :
    (host_user : UserConfig) (spec : RuntimeSpec) (c : Container)
    → (set_environment host_user spec c).mounts ≡ c.mounts
unfolding set_environment inject_git_authorship set_container_env
set_environment-mounts host_user spec c = set_required_env-mounts spec.required_env c

IsMountedIn-grows :
    (names more : List String) (ms : List VolumeMount)
    → All (IsNamed names) ms
    → All (IsNamed (names ++ more)) ms
IsMountedIn-grows names more [] h = h
IsMountedIn-grows names more (m ∷ ms) (h, hs) =
    (ground (arith, contains-append m.name names more), IsMountedIn-grows names more ms hs)

config_mounts-IsNamed :
    (names : List String) (files : List ConfigFile)
    → contains "agent-config" names ≡ true
    → All (IsNamed names) (config_mounts files)
unfolding config_mounts
config_mounts-IsNamed names [] h = tt
config_mounts-IsNamed names (cf ∷ files) h = (h, config_mounts-IsNamed names files h)

volume_names-append :
    (vs ws : List Volume) → volume_names (vs ++ ws) ≡ volume_names vs ++ volume_names ws
volume_names-append [] ws = refl
volume_names-append (v ∷ vs) ws = ap (λ l. v.name ∷ l) (volume_names-append vs ws)

containers-grow :
    (names more : List String) (cs : List Container)
    → All (IsMountedIn names) cs
    → All (IsMountedIn (names ++ more)) cs
containers-grow names more [] h = h
containers-grow names more (c ∷ cs) (h, hs) =
    (IsMountedIn-grows names more c.mounts h, containers-grow names more cs hs)

-- A change of a container that mounts nothing new.
change_container-IsMounted :
    (f : Container → Container) (i : ℕ) (pod : Pod)
    → ((c : Container) → (f c).mounts ≡ c.mounts)
    → IsMounted pod
    → IsMounted (change_container f i pod)
unfolding change_container
change_container-IsMounted f i pod same (inits, mains) =
    let names = volume_names pod.spec.volumes in
    (inits, modify_at-All (IsMountedIn names) f i pod.spec.containers (λ c h. rw (same c) h) mains)

inject_files-IsMounted :
    (i : ℕ) (agent_type : String) (files : List ConfigFile) (pod : Pod)
    → IsMounted pod
    → IsMounted (inject_files i agent_type files pod)
unfolding inject_files change_container
inject_files-IsMounted i agent_type [] pod h = h
inject_files-IsMounted i agent_type (cf ∷ files) pod (inits, mains) =
    let names = volume_names pod.spec.volumes in
    let here : contains "agent-config" (names ++ "agent-config" ∷ []) ≡ true =
      ground (arith, contains-append "agent-config" names ("agent-config" ∷ [])) in
    let mounted = config_mounts-IsNamed (names ++ "agent-config" ∷ []) (cf ∷ files) here in
    rw
      (volume_names-append pod.spec.volumes
        (record { name = "agent-config"; source = config_map (config_map_name agent_type) } ∷ []))
      (
        containers-grow names ("agent-config" ∷ []) pod.spec.init_containers inits,
        modify_at-All (IsMountedIn (names ++ "agent-config" ∷ []))
            (add_mounts (config_mounts (cf ∷ files))) i pod.spec.containers
            (λ c h. All-append (IsNamed (names ++ "agent-config" ∷ [])) c.mounts _ h mounted)
            (containers-grow names ("agent-config" ∷ []) pod.spec.containers mains),
      )

inject_spec-IsMounted :
    (host_user : UserConfig) (agent_type namespace : String) (spec : RuntimeSpec)
    (policy : Option Policy) (pod : Pod)
    → IsMounted pod
    → IsMounted (inject_spec host_user agent_type namespace spec policy pod)
unfolding inject_spec inject_proxy_env inject_config_files
inject_spec-IsMounted host_user agent_type namespace spec policy pod h =
    let i = or_first (runtime_container pod (container_name spec)) in
    let set =
      change_container-IsMounted (set_environment host_user spec) i pod
        (set_environment-mounts host_user spec) h in
    let configured =
      inject_files-IsMounted i agent_type spec.config_files
        (change_container (set_environment host_user spec) i pod) set in
    elim (Bool-cases (policy_enabled policy)) [
      | inl on ↦
          rw (inject_spec, on)
            (change_container-IsMounted (inject_proxy_env namespace) i
              (inject_files i agent_type spec.config_files
                (change_container (set_environment host_user spec) i pod))
              (λ c. refl) configured)
      | inr off ↦ rw (inject_spec, off) configured
    ]

module _ {W : Type 0} (get_host_user : W → UserConfig × W) (entries : Entries) where
  inject_resolved-IsMounted :
      (agent_type namespace : String) (policy : Option Policy) (pod : Pod)
      (spec : Result RuntimeSpec) (w : W)
      → IsMounted pod
      → IsMounted (inject_resolved get_host_user entries agent_type namespace policy pod spec w).0
  unfolding inject_resolved
  inject_resolved-IsMounted agent_type namespace policy pod (err e) w h = h
  inject_resolved-IsMounted agent_type namespace policy pod (ok spec) w h =
      inject_spec-IsMounted (get_host_user w).0 agent_type namespace spec policy pod h

  pub inject_unless_empty-IsMounted :
      (cs : List Container) (agent_type namespace : String) (policy : Option Policy) (pod : Pod)
      (w : W)
      → IsMounted pod
      → IsMounted (inject_unless_empty get_host_user entries cs agent_type namespace policy pod w).0
  unfolding inject_unless_empty
  inject_unless_empty-IsMounted [] agent_type namespace policy pod w h = h
  inject_unless_empty-IsMounted (c ∷ cs) agent_type namespace policy pod w h =
      elim (Bool-cases (agent_type == "")) [
        | inl blank ↦ rw (inject_unless_empty, blank) h
        | inr given ↦
            rw (inject_unless_empty, given)
              (inject_resolved-IsMounted agent_type namespace policy pod
                (spec_for entries agent_type) w h)
      ]
