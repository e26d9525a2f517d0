-- ===== src/Cluster/Runtime.antt =====
-- internal/cluster/kube.go: what is added to the generated pod before the API server gets it. A pointer
-- to a container of the pod is its index.
pub mod Mounts
pub mod EnvLaws
use kagen.Prelude.{
  ℕ, zero, suc, String, Bool, true, false, ◌&&◌, not, Option, none, some, List, [], ◌∷◌, ◌++◌, ◌==◌,
  ltb, if◌then◌else◌,
}
use kagen.Prelude.Lists.{length, get_elem?}
use kagen.Prelude.Text.{join, decimal, ◌+s◌}
use kagen.Errors.Exec.{Result, ok, err}
use kagen.Agent.{RuntimeSpec, EnvVar, ConfigFile, container_name, default_home_dir}
use kagen.Agent.Registry.{Entries, spec_for}
use kagen.Git.{Repository, kagen_branch}
use kagen.Git.Config.{UserConfig, add_subaddress}
use kagen.Proxy.{Policy}
use kagen.Workload.{mount, plain_env}
use kagen.Cluster.Objects.{
  SecretKey, ContainerEnv, VolumeMount, Container, Volume, config_map, Pod, PodSpec,
}

abbrev pub proxy_service_name : String
proxy_service_name = "egress-proxy"

abbrev pub proxy_port : ℕ
proxy_port = 8888

unfoldable pub policy_enabled : Option Policy → Bool
policy_enabled none = false
policy_enabled (some policy) = ltb 0 (length policy.allowed_destinations)

abbrev first_image : List Container → String
first_image [] = ""
first_image (c ∷ cs) = c.image

workspace_image_of : List Container → String → String
workspace_image_of [] default = default
workspace_image_of (c ∷ cs) default =
    let later = workspace_image_of cs default in
    if c.name == "workspace" && not (c.image == "") then c.image else later

unfoldable pub workspace_sync_image : Pod → String
unfolding workspace_image_of
workspace_sync_image pod = workspace_image_of pod.spec.containers (first_image pod.spec.containers)

abbrev pub secret_env : String → String → ContainerEnv
secret_env name key = record {
  name = name;
  value = "";
  value_from = some (record { secret = "forgejo-bootstrap-auth"; key = key });
}

-- The script of the container that clones the workspace; a format with the branch three times.
abbrev workspace_sync_script : String
workspace_sync_script =
    "set -eu\nexport GIT_TERMINAL_PROMPT=0\ncd /\nrepo_url=\"http://forgejo:3000/kagen/workspace.git\"\nauth_header=\"$(printf '%%s' \"${FORGEJO_USERNAME}:${FORGEJO_PASSWORD}\" | base64 | tr -d '\\n')\"\nworktree=/projects/workspace\nrm -rf \"$worktree\"\nmkdir -p /projects\nmkdir -p /home/kagen\nfor _ in $(seq 1 90); do\n  if git -c \"http.extraHeader=Authorization: Basic ${auth_header}\" ls-remote \"$repo_url\" >/dev/null 2>&1; then\n    break\n  fi\n  sleep 2\ndone\ngit -c \"http.extraHeader=Authorization: Basic ${auth_header}\" clone \"$repo_url\" \"$worktree\"\ncd \"$worktree\"\ngit checkout %q 2>/dev/null || git checkout --track -b %q \"origin/%s\"\nchown -R 1000:1000 /projects /home/kagen\n"

unfoldable pub inject_workspace_sync : (String → List String → String) → Repository → Pod → Pod
unfolding workspace_sync_image
inject_workspace_sync sprintf repo pod =
    let branch = kagen_branch repo in
    record pod {
      spec = record (pod.spec) {
        init_containers =
            pod.spec.init_containers
            ++ record {
              name = "workspace-sync";
              image = workspace_sync_image pod;
              command = "/bin/sh" ∷ "-lc" ∷ [];
              args = sprintf workspace_sync_script (branch ∷ branch ∷ branch ∷ []) ∷ [];
              env =
                  secret_env "FORGEJO_USERNAME" "username"
                  ∷ secret_env "FORGEJO_PASSWORD" "password"
                  ∷ [];
              working_dir = "";
              mounts = mount "git-workspace" "/projects" ∷ mount "agent-home" default_home_dir ∷ [];
              run_as = some (0, 0);
              ports = [];
              readiness = none;
            }
              ∷ [];
      };
    }

unfoldable pub set_env : String → String → List ContainerEnv → List ContainerEnv
set_env name value [] = plain_env name value ∷ []
set_env name value (e ∷ es) =
    let rest = set_env name value es in
    if e.name == name then record e { value = value } ∷ es else e ∷ rest

-- `setContainerEnv`
unfoldable pub set_container_env : String → String → Container → Container
unfolding set_env
set_container_env name value c = record c { env = set_env name value c.env }

unfoldable pub set_required_env : List EnvVar → Container → Container
unfolding set_container_env
set_required_env [] c = c
set_required_env (variable ∷ more) c =
    set_required_env more (set_container_env variable.name variable.value c)

unfoldable pub inject_git_authorship : UserConfig → RuntimeSpec → Container → Container
unfolding set_container_env
inject_git_authorship host_user spec c = set_container_env "GIT_COMMITTER_EMAIL" host_user.email (
    set_container_env "GIT_COMMITTER_NAME" host_user.name (
      set_container_env "GIT_AUTHOR_EMAIL" (add_subaddress host_user.email spec.git_author_name)
        (set_container_env "GIT_AUTHOR_NAME" spec.git_author_name c)))

abbrev pub config_map_name : String → String
config_map_name agent_type = "kagen-agent-config-" +s agent_type

unfoldable pub config_mounts : List ConfigFile → List VolumeMount
config_mounts [] = []
config_mounts (cf ∷ files) =
    record {
      name = "agent-config";
      mount_path = cf.mount_path;
      sub_path = cf.name;
      read_only = true;
    }
    ∷ config_mounts files

unfoldable pub inject_proxy_env : String → Container → Container
unfolding decimal join
inject_proxy_env namespace c =
    let url =
      "http://"
      +s proxy_service_name
      +s "."
      +s namespace
      +s ".svc.cluster.local:"
      +s decimal proxy_port in
    let no_proxy =
      join
        ("127.0.0.1"
          ∷ "localhost"
          ∷ ".svc"
          ∷ ".svc.cluster.local"
          ∷ "forgejo"
          ∷ ("forgejo." +s namespace +s ".svc.cluster.local")
          ∷ (proxy_service_name +s "." +s namespace +s ".svc.cluster.local")
          ∷ [])
        "," in
    record c {
      env =
          c.env
          ++ plain_env "HTTP_PROXY" url
            ∷ plain_env "HTTPS_PROXY" url
            ∷ plain_env "ALL_PROXY" url
            ∷ plain_env "http_proxy" url
            ∷ plain_env "https_proxy" url
            ∷ plain_env "all_proxy" url
            ∷ plain_env "NO_PROXY" no_proxy
            ∷ plain_env "no_proxy" no_proxy
            ∷ [];
    }

-- The index of the first container of a name, of those from the i-th on.
container_index : String → List Container → ℕ → Option ℕ
container_index name [] i = none
container_index name (c ∷ cs) i =
    let later = container_index name cs (suc i) in if c.name == name then some i else later

-- `runtimeContainer`
unfoldable pub runtime_container : Pod → String → Option ℕ
unfolding container_index
runtime_container pod name = container_index name pod.spec.containers 0

unfoldable pub modify_at : (Container → Container) → ℕ → List Container → List Container
modify_at f i [] = []
modify_at f zero (c ∷ cs) = f c ∷ cs
modify_at f (suc i) (c ∷ cs) = c ∷ modify_at f i cs

unfoldable pub change_container : (Container → Container) → ℕ → Pod → Pod
unfolding modify_at
change_container f i pod = record pod {
  spec = record (pod.spec) { containers = modify_at f i pod.spec.containers };
}

abbrev pub add_mounts : List VolumeMount → Container → Container
add_mounts mounts c = record c { mounts = c.mounts ++ mounts }

abbrev pub add_volume : Volume → Pod → Pod
add_volume v pod = record pod { spec = record (pod.spec) { volumes = pod.spec.volumes ++ v ∷ [] } }

abbrev config_volume : String → Volume
config_volume agent_type = record {
  name = "agent-config";
  source = config_map (config_map_name agent_type);
}

unfoldable pub inject_files : ℕ → String → List ConfigFile → Pod → Pod
unfolding change_container config_mounts
inject_files i agent_type [] pod = pod
inject_files i agent_type (cf ∷ files) pod =
    change_container (add_mounts (config_mounts (cf ∷ files))) i
      (add_volume (config_volume agent_type) pod)

-- `injectConfigFiles`
unfoldable pub inject_config_files : ℕ → String → RuntimeSpec → Pod → Pod
unfolding inject_files
inject_config_files i agent_type spec = inject_files i agent_type spec.config_files

abbrev pub or_first : Option ℕ → ℕ
or_first none = 0
or_first (some i) = i

abbrev pub set_environment : UserConfig → RuntimeSpec → Container → Container
unfolding set_required_env inject_git_authorship
set_environment host_user spec c =
    inject_git_authorship host_user spec (set_required_env spec.required_env c)

-- What is injected where the agent has a specification.
unfoldable pub inject_spec : UserConfig → String → String → RuntimeSpec → Option Policy → Pod → Pod
unfolding runtime_container set_environment inject_config_files inject_proxy_env policy_enabled
inject_spec host_user agent_type namespace spec policy pod =
    let i = or_first (runtime_container pod (container_name spec)) in
    let configured =
      inject_config_files i agent_type spec
        (change_container (set_environment host_user spec) i pod) in
    if policy_enabled policy
    then change_container (inject_proxy_env namespace) i configured
    else configured

module _ {W : Type 0} (get_host_user : W → UserConfig × W) (entries : Entries) where
  unfoldable pub inject_resolved :
      String → String → Option Policy → Pod → Result RuntimeSpec → W → Pod × W
  unfolding inject_spec
  inject_resolved agent_type namespace policy pod (err e) w = (pod, w)
  inject_resolved agent_type namespace policy pod (ok spec) w =
      let (host_user, w1) = get_host_user w in
      (inject_spec host_user agent_type namespace spec policy pod, w1)

  unfoldable pub inject_unless_empty :
      List Container → String → String → Option Policy → Pod → W → Pod × W
  unfolding inject_resolved spec_for
  inject_unless_empty [] agent_type namespace policy pod w = (pod, w)
  inject_unless_empty (c ∷ cs) agent_type namespace policy pod w =
      if agent_type == ""
      then (pod, w)
      else inject_resolved agent_type namespace policy pod (spec_for entries agent_type) w

  -- `injectAgentRuntime`
  unfoldable pub inject_agent_runtime : String → String → Option Policy → Pod → W → Pod × W
  unfolding inject_unless_empty
  inject_agent_runtime agent_type namespace policy pod =
      inject_unless_empty pod.spec.containers agent_type namespace policy pod
