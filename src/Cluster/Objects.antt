-- ===== src/Cluster/Objects.antt =====
-- The Kubernetes objects that the program makes, with the fields it reads or writes: those of
-- internal/workload/builder.go, internal/cluster/kube.go and internal/cluster/proxy.go.
use kagen.Prelude.{ℕ, String, Bool, Option, List}
use kagen.Prelude.Maps.{Map}

pub record SecretKey : Type 0 where
  pub secret : String
  pub key : String

-- An environment variable, with its value or the secret that it comes from.
pub record ContainerEnv : Type 0 where
  pub name : String
  pub value : String
  pub value_from : Option SecretKey

pub record VolumeMount : Type 0 where
  pub name : String
  pub mount_path : String
  pub sub_path : String
  pub read_only : Bool

pub record ContainerPort : Type 0 where
  pub name : String
  pub port : ℕ

-- `run_as` is the user and the group, and `readiness` the TCP port that is probed.
pub record Container : Type 0 where
  pub name : String
  pub image : String
  pub command : List String
  pub args : List String
  pub env : List ContainerEnv
  pub working_dir : String
  pub mounts : List VolumeMount
  pub run_as : Option (ℕ × ℕ)
  pub ports : List ContainerPort
  pub readiness : Option ℕ

pub data VolumeSource : Type 0 where
  memory_dir : VolumeSource
  claim : (name : String) → VolumeSource
  config_map : (name : String) → VolumeSource

pub record Volume : Type 0 where
  pub name : String
  pub source : VolumeSource

pub record PodSpec : Type 0 where
  pub init_containers : List Container
  pub containers : List Container
  pub volumes : List Volume

pub record Meta : Type 0 where
  pub name : String
  pub namespace : String
  pub labels : Map String

pub record Pod : Type 0 where
  pub meta : Meta
  pub spec : PodSpec

pub record Namespace : Type 0 where
  pub meta : Meta

-- A volume claim of one writer, with the storage that it asks for.
pub record Claim : Type 0 where
  pub meta : Meta
  pub storage : String

pub record ConfigMap : Type 0 where
  pub meta : Meta
  pub data_of : Map String

pub record ServicePort : Type 0 where
  pub name : String
  pub port : ℕ
  pub target_port : ℕ

pub record Service : Type 0 where
  pub meta : Meta
  pub selector : Map String
  pub ports : List ServicePort

pub record PodTemplate : Type 0 where
  pub labels : Map String
  pub annotations : Map String
  pub spec : PodSpec

pub record Deployment : Type 0 where
  pub meta : Meta
  pub replicas : ℕ
  pub selector : Map String
  pub template : PodTemplate
  pub ready_replicas : ℕ

pub data Protocol : Type 0 where
  tcp udp : Protocol

pub record PolicyPort : Type 0 where
  pub protocol : Protocol
  pub port : ℕ

-- The pods of a peer, by their labels; without a selector of namespaces, those of the policy's own.
pub record PolicyPeer : Type 0 where
  pub pod_selector : Map String
  pub namespace_selector : Option (Map String)

pub record EgressRule : Type 0 where
  pub to : List PolicyPeer
  pub ports : List PolicyPort

-- A policy on what leaves the pods that it selects.
pub record NetworkPolicy : Type 0 where
  pub meta : Meta
  pub pod_selector : Map String
  pub egress : List EgressRule
