-- ===== src/Defaults/Types.antt =====
-- The fields of pkg/apis/onecloud/v1alpha1/types.go that the defaults read or write. `P` stands for
-- the values that they only copy.
use cloudpods_operator.Prelude.{ℕ, String, Bool, Option, List, str_eq, if◌then◌else◌}
use cloudpods_operator.Etcd.Types.{Labels}

pub record ResourceRequirement (P : Type 0) : Type 0 where
  pub cpu : Option P
  pub memory : Option P
  pub storage : String

pub record ContainerSpec (P : Type 0) : Type 0 where
  pub image : String
  pub repository : String
  pub image_name : String
  pub tag : String
  pub image_pull_policy : String
  pub requests : Option (ResourceRequirement P)
  pub limits : Option (ResourceRequirement P)

-- `corev1.Toleration`
pub record Toleration : Type 0 where
  pub key : String
  pub operator : String
  pub value : String
  pub effect : String
  pub toleration_seconds : Option ℕ

-- `corev1.PodDNSConfig`, whose options are names with values.
pub record DnsConfig : Type 0 where
  pub nameservers : List String
  pub searches : List String
  pub options : List (String × Option String)

-- `rest` holds the affinity, the node selector, the annotations and the pull secrets. `replicas` is
-- the bit pattern of an int32.
pub record DeploymentSpec (P : Type 0) : Type 0 where
  pub container : ContainerSpec P
  pub dns_config : Option DnsConfig
  pub disable : Bool
  pub replicas : ℕ
  pub tolerations : List Toleration
  pub slave_replicas : ℕ
  pub rest : P

pub record StatefulDeploymentSpec (P : Type 0) : Type 0 where
  pub deployment : DeploymentSpec P
  pub storage_class_name : String

pub record DaemonSetSpec (P : Type 0) : Type 0 where
  pub container : ContainerSpec P
  pub disable : Bool
  pub tolerations : List Toleration
  pub rest : P

pub record CronJobSpec (P : Type 0) : Type 0 where
  pub container : ContainerSpec P
  pub disable : Bool
  pub schedule : String
  pub tolerations : List Toleration
  pub rest : P

-- `EChartsSSRSpec` and `CloudmuxSpec`: a deployment that may be switched off by default. They have
-- no
-- DNS configuration and no read-only replicas.
pub record OptionalSpec (P : Type 0) : Type 0 where
  pub container : ContainerSpec P
  pub disable : Option Bool
  pub replicas : ℕ
  pub tolerations : List Toleration
  pub rest : P

-- `Mysql`, which `Clickhouse` and `Dameng` are copies of.
pub record Mysql : Type 0 where
  pub host : String
  pub port : ℕ
  pub username : String
  pub password : String

pub record MonitorStackSpec (P : Type 0) : Type 0 where
  pub minio_access_key : String
  pub minio_secret_key : String
  pub grafana_admin_user : String
  pub grafana_admin_password : String
  pub grafana_subpath : String
  pub oauth_scopes : String
  pub oauth_role_attribute_path : String
  pub loki_bucket : String
  pub prometheus_bucket : String
  pub prometheus_disable : Option Bool
  pub thanos_bucket : String
  pub rest : P

-- A Go struct with a field of one type for each of many components, read by the component's name.
abbrev pub Fields : Type 0 → Type 0
Fields A = String → A

abbrev pub set_at : {A : Type 0} → String → A → Fields A → Fields A
set_at key value fields name = if str_eq key name then value else fields name

-- A component's deployment stands under its `ComponentType` in `deployments`, and those that have a
-- storage in `stateful`; the further containers of a pod stand in `sidecars`, under a name of their
-- own, and the node port of a service in `node_ports`, under the path of its field.
pub record OnecloudClusterSpec (P : Type 0) : Type 0 where
  pub product_version : String
  pub disable_local_vpc : Bool
  pub use_hyper_image : Bool
  pub region : String
  pub zone : String
  pub version : String
  pub image_repository : String
  pub mysql : Mysql
  pub clickhouse : Mysql
  pub dameng : Mysql
  pub deployments : Fields (DeploymentSpec P)
  pub stateful : Fields (StatefulDeploymentSpec P)
  pub daemon_sets : Fields (DaemonSetSpec P)
  pub sidecars : Fields (ContainerSpec P)
  pub node_ports : Fields ℕ
  pub bootstrap_password : String
  pub dns_domain : String
  pub default_qemu_version : String
  pub host_max_unavailable : ℕ
  pub lbagent_max_unavailable : ℕ
  pub telegraf_init_image : String
  pub retention_period_days : ℕ
  pub monitor_stack : MonitorStackSpec P
  pub echarts_ssr : OptionalSpec P
  pub cloudmux : OptionalSpec P

-- `OnecloudCluster`; `none` for the labels and the annotations is Go's nil map.
pub record OnecloudCluster (P : Type 0) : Type 0 where
  pub name : String
  pub labels : Option Labels
  pub annotations : Option Labels
  pub spec : OnecloudClusterSpec P
