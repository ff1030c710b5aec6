-- ===== src/Build/Objects.antt =====
-- What the builders read and write. `P` stands for parts that are only copied: tolerations,
-- secrets,
-- DNS settings. A quantity of a resource is its canonical text.
use cloudpods_operator.Prelude.{ℕ, String, Bool, Option, List}
use cloudpods_operator.Etcd.Types.{Labels, Condition}
use cloudpods_operator.Volumes.{Volume, VolumeMount, VolumeCluster}

-- The fields of an `OnecloudCluster` that the builders use.
pub record BuildCluster : Type 0 where
  pub volumes : VolumeCluster
  pub uid : String
  pub labels : Labels
  pub annotations : Option Labels
  pub disable_resource_management : Bool

-- `ResourceRequirement`, without the storage.
pub record RequiredAmounts : Type 0 where
  pub cpu : Option String
  pub memory : Option String

-- `NodeSelectorRequirement`
pub record NodeSelectorRequirement : Type 0 where
  pub key : String
  pub operator : String
  pub values : List String

pub record NodeAffinity (P : Type 0) : Type 0 where
  pub required : Option (List (List NodeSelectorRequirement))
  pub preferred : Option P

-- The affinities to pods are copied.
pub record Affinity (P : Type 0) : Type 0 where
  pub node_affinity : Option (NodeAffinity P)
  pub pod_affinity : Option P

-- `DeploymentSpec` of v1alpha1, with the embedded `ContainerSpec`.
pub record DeploymentConfig (P : Type 0) : Type 0 where
  pub image : String
  pub image_pull_policy : String
  pub requests : Option RequiredAmounts
  pub limits : Option RequiredAmounts
  pub replicas : ℕ
  pub slave_replicas : ℕ
  pub affinity : Option (Affinity P)
  pub node_selector : Labels
  pub annotations : Option Labels
  pub copied : P

-- `Probe`, over HTTPS.
pub record Probe : Type 0 where
  pub path : String
  pub port : ℕ
  pub initial_delay : ℕ
  pub period : ℕ
  pub failures : ℕ
  pub successes : ℕ
  pub timeout : ℕ

-- `Container`; the ports are the numbers under their names.
pub record Container : Type 0 where
  pub name : String
  pub image : String
  pub image_pull_policy : String
  pub command : List String
  pub ports : List (String × ℕ)
  pub volume_mounts : List VolumeMount
  pub readiness_probe : Option Probe
  pub limits : Labels
  pub requests : Labels

pub record PodSpec (P : Type 0) : Type 0 where
  pub affinity : Option (Affinity P)
  pub node_selector : Labels
  pub init_containers : List Container
  pub containers : List Container
  pub volumes : List Volume
  pub host_network : Bool
  pub dns_policy : String
  pub copied : P

-- A deployment with its pod template; `restartPolicy` is always `Always`.
pub record BuiltDeployment (P : Type 0) : Type 0 where
  pub name : String
  pub owner : String
  pub labels : Labels
  pub replicas : ℕ
  pub strategy : String
  pub selector : Labels
  pub pod_labels : Labels
  pub pod_annotations : Option Labels
  pub pod : PodSpec P

pub record BuiltConfigMap : Type 0 where
  pub name : String
  pub owner : String
  pub labels : Labels
  pub config : String

-- What the node lister knows of a node: its conditions, and `AsInt64` of its capacities.
pub record Node : Type 0 where
  pub conditions : List Condition
  pub cpu : Option ℕ
  pub memory : Option ℕ
