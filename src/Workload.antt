-- ===== src/Workload.antt =====
-- internal/workload/builder.go: the pod of a repository, with the workspace's container and the agent's.
use kagen.Prelude.{String, false, Option, none, some, List, [], ◌∷◌, ◌==◌, if◌then◌else◌}
use kagen.Prelude.Text.{◌+s◌}
use kagen.Errors.{Err, message}
use kagen.Errors.Exec.{Result, ok, err, ◌or_else◌}
use kagen.Agent.{RuntimeSpec, EnvVar, container_name, default_home_dir}
use kagen.Cluster.Objects.{Container, ContainerEnv, VolumeMount, Volume, memory_dir, claim, Pod}

pub record Images : Type 0 where
  pub workspace : String
  pub toolbox : String

-- The runtime is none where the interface is nil.
pub record Request : Type 0 where
  pub name : String
  pub namespace : String
  pub runtime : Option RuntimeSpec
  pub images : Images

abbrev pub mount : String → String → VolumeMount
mount name path = record { name = name; mount_path = path; sub_path = ""; read_only = false }

unfoldable pub workspace_container : Images → Container
workspace_container images = record {
  name = "workspace";
  image = images.workspace;
  command = "/bin/sh" ∷ "-lc" ∷ [];
  args = "exec tail -f /dev/null" ∷ [];
  env = [];
  working_dir = "";
  mounts = mount "git-workspace" "/projects" ∷ [];
  run_as = none;
  ports = [];
  readiness = none;
}

abbrev pub plain_env : String → String → ContainerEnv
plain_env name value = record { name = name; value = value; value_from = none }

unfoldable pub required_env : List EnvVar → List ContainerEnv
required_env [] = []
required_env (variable ∷ input) = plain_env variable.name variable.value ∷ required_env input

unfoldable pub runtime_container : RuntimeSpec → Images → Container
unfolding required_env container_name
runtime_container spec images = record {
  name = container_name spec;
  image = images.toolbox;
  command = "/bin/sh" ∷ "-lc" ∷ [];
  args = "exec tail -f /dev/null" ∷ [];
  env = required_env spec.required_env;
  working_dir = "/projects/workspace";
  mounts = mount "git-workspace" "/projects" ∷ mount "agent-home" default_home_dir ∷ [];
  run_as = none;
  ports = [];
  readiness = none;
}

unfoldable pub baseline_volumes : String → List Volume
baseline_volumes workload_name =
    record { name = "git-workspace"; source = memory_dir }
    ∷ record { name = "agent-home"; source = claim (workload_name +s "-agent-home") }
    ∷ []

abbrev pub require_text : String → String → Option Err
require_text text what = if text == "" then some (message what []) else none

abbrev pub require_runtime : Option RuntimeSpec → Option Err
require_runtime none = some (message "runtime type is required" [])
require_runtime (some spec) = require_text spec.agent_type "runtime type is required"

unfoldable pub pod_of : Request → RuntimeSpec → Pod
unfolding workspace_container runtime_container baseline_volumes
pod_of req spec = record {
  meta = record {
    name = req.name;
    namespace = req.namespace;
    labels = ("app.kubernetes.io/name", "kagen-agent") ∷ [];
  };
  spec = record {
    init_containers = [];
    containers = workspace_container req.images ∷ runtime_container spec req.images ∷ [];
    volumes = baseline_volumes req.name;
  };
}

unfoldable pub build_checked : Request → Option RuntimeSpec → Option Err → Result Pod
unfolding pod_of
build_checked req spec (some e) = err e
build_checked req none none = err (message "runtime type is required" [])
build_checked req (some spec) none = ok (pod_of req spec)

-- `BuildPod`
unfoldable pub build_pod : Request → Result Pod
unfolding build_checked
build_pod req = build_checked req req.runtime (
    require_text req.name "workload name is required"
    or_else require_text req.namespace "workload namespace is required"
    or_else require_runtime req.runtime
    or_else require_text req.images.workspace "workspace image is required"
    or_else require_text req.images.toolbox "toolbox image is required")
