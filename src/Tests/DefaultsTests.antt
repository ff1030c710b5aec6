-- ===== src/Tests/DefaultsTests.antt =====
-- The defaults of pkg/apis/onecloud/v1alpha1/defaults.go at a small cluster.
use cloudpods_operator.Prelude.{
  ℕ, ◌≤◌, ◌<◌, String, ◌≡◌, refl, ◌≢◌, true, false, none, some, List, [], ◌∷◌, eq_iff, arith,
}
use cloudpods_operator.Defaults.Types.{
  ContainerSpec, DeploymentSpec, DaemonSetSpec, OptionalSpec, Mysql, MonitorStackSpec,
  OnecloudClusterSpec, OnecloudCluster,
}
use cloudpods_operator.Defaults.Image.{get_edition_image}
use cloudpods_operator.Defaults.Tables.{
  Orders, source_orders, shared_components, edition_components, support_components,
  daemon_components, stateful_components,
}
use cloudpods_operator.Defaults.Spec.{for_range, update, default_spec}
use cloudpods_operator.Defaults.Parts.{set_deployment_spec}
use cloudpods_operator.Defaults.Loops.{entry, Keyed, SameMap, is_keyed-Keyed}
use cloudpods_operator.Defaults.Twice.{IsOrder, default_spec-order}
use cloudpods_operator.Defaults.Cluster.{default_cluster}
use cloudpods_operator.Defaults.Again.{default_cluster-default_cluster}
use cloudpods_operator.Defaults.Options.{
  DbConfig, ServiceCommonOptions, OnecloudClusterConfig, UserDbPort, user_ports, user_db_ports,
}
use cloudpods_operator.Defaults.Config.{default_config}
use cloudpods_operator.Defaults.Configured.{Configured, default_config-Configured}
use cloudpods_operator.Defaults.Keys.{default_config-new_key}

abbrev container : ContainerSpec ℕ
container = record {
  image = "";
  repository = "";
  image_name = "";
  tag = "";
  image_pull_policy = "";
  requests = none;
  limits = none;
}

abbrev deployment : DeploymentSpec ℕ
deployment = record {
  container = container;
  dns_config = none;
  disable = false;
  replicas = 0;
  tolerations = [];
  slave_replicas = 0;
  rest = 0;
}

abbrev daemon_set : DaemonSetSpec ℕ
daemon_set = record { container = container; disable = false; tolerations = []; rest = 0 }

abbrev optional : OptionalSpec ℕ
optional = record {
  container = container;
  disable = none;
  replicas = 0;
  tolerations = [];
  rest = 0;
}

abbrev database : Mysql
database = record { host = "10.0.0.1"; port = 0; username = ""; password = "secret" }

abbrev stack : MonitorStackSpec ℕ
stack = record {
  minio_access_key = "";
  minio_secret_key = "";
  grafana_admin_user = "";
  grafana_admin_password = "";
  grafana_subpath = "";
  oauth_scopes = "";
  oauth_role_attribute_path = "";
  loki_bucket = "";
  prometheus_bucket = "";
  prometheus_disable = none;
  thanos_bucket = "";
  rest = 0;
}

abbrev small : OnecloudClusterSpec ℕ
small = record {
  product_version = "LightEdge";
  disable_local_vpc = false;
  use_hyper_image = true;
  region = "";
  zone = "";
  version = "v3.11";
  image_repository = "registry";
  mysql = database;
  clickhouse = database;
  dameng = database;
  deployments = λ name. deployment;
  stateful = λ name. record { deployment = deployment; storage_class_name = "" };
  daemon_sets = λ name. daemon_set;
  sidecars = λ name. container;
  node_ports = λ name. 0;
  bootstrap_password = "";
  dns_domain = "";
  default_qemu_version = "";
  host_max_unavailable = 0;
  lbagent_max_unavailable = 0;
  telegraf_init_image = "";
  retention_period_days = 0;
  monitor_stack = stack;
  echarts_ssr = optional;
  cloudmux = optional;
}

-- Every password is drawn as the same text.
abbrev draw : ℕ → String
draw n = "password"

drawn : (n : ℕ) → draw n ≢ ""
drawn n e = ground (arith, eq_iff "password" "")

-- Another order of one of the maps.
abbrev other_orders : Orders
other_orders = record source_orders {
  support = ("web", false) ∷ ("apigateway", true) ∷ ("climc", false) ∷ [];
}

same_map : {B : Type 0} (xs : List (String × B)) → Keyed xs → SameMap xs xs
same_map xs k = record { keyed = k; keyed' = k; entries = λ name. refl }

other_support :
    (name : String)
    → entry name (("web", false) ∷ ("apigateway", true) ∷ ("climc", false) ∷ [])
      ≡ entry name support_components
unfolding support_components
other_support name = ground (
  arith,
  eq_iff "web" name,
  eq_iff "apigateway" name,
  eq_iff "climc" name,
  eq_iff "web" "apigateway",
  eq_iff "web" "climc",
  eq_iff "apigateway" "climc",
)

source_IsOrder : IsOrder source_orders
unfolding source_orders shared_components edition_components support_components stateful_components
source_IsOrder = record {
  shared = same_map shared_components (is_keyed-Keyed shared_components refl);
  edition = same_map edition_components (is_keyed-Keyed edition_components refl);
  support = same_map support_components (is_keyed-Keyed support_components refl);
  daemons = same_map daemon_components (is_keyed-Keyed daemon_components refl);
  stateful = same_map stateful_components (is_keyed-Keyed stateful_components refl);
}

other_IsOrder : IsOrder other_orders
unfolding source_orders support_components
other_IsOrder = record {
  shared = source_IsOrder.shared;
  edition = source_IsOrder.edition;
  support = record {
    keyed = is_keyed-Keyed other_orders.support refl;
    keyed' = is_keyed-Keyed support_components refl;
    entries = other_support;
  };
  daemons = source_IsOrder.daemons;
  stateful = source_IsOrder.stateful;
}

abbrev enterprise : OnecloudCluster ℕ
enterprise = record {
  name = "default";
  labels = none;
  annotations = some (("onecloud.yunion.io/edition", "ee") ∷ []);
  spec = small;
}

default_cluster-default_cluster_example :
    default_cluster false other_orders draw
      (default_cluster false source_orders draw (enterprise, 0))
    ≡ default_cluster false source_orders draw (enterprise, 0)
default_cluster-default_cluster_example =
    default_cluster-default_cluster source_orders other_orders draw enterprise 0 source_IsOrder
      other_IsOrder drawn

default_spec-order_example :
    default_spec true other_orders true true draw (small, 0)
    ≡ default_spec true source_orders true true draw (small, 0)
default_spec-order_example =
    default_spec-order true other_orders true true draw (small, 0) other_IsOrder

web_image :
    ((default_spec false source_orders true true draw (small, 0)).0.deployments
      "web").container.image
    ≡ "registry/web-ee:v3.11"
unfolding default_spec source_orders shared_components edition_components support_components
    for_range update get_edition_image set_deployment_spec
web_image = refl

abbrev no_db : DbConfig
no_db = record { database = ""; username = ""; password = "" }

abbrev no_options : ServiceCommonOptions
no_options = record { port = 0; cloud_user = record { username = ""; password = "" } }

abbrev empty_config : OnecloudClusterConfig
empty_config = record {
  common_config = record {
    cron_job_worker_count = 0;
    local_task_worker_count = 0;
    request_worker_count = 0;
    task_worker_count = 0;
  };
  keystone = record { port = 0; db = no_db; clickhouse_conf = no_db };
  services = λ name. no_options;
  db_services = λ name. record { common = no_options; db = no_db; clickhouse_conf = no_db };
  itsm_second_database = "";
  itsm_encryption_key = "old key";
  grafana_db = no_db;
}

same_db_users : SameMap user_db_ports user_db_ports
unfolding user_db_ports
same_db_users = same_map user_db_ports (is_keyed-Keyed user_db_ports refl)

default_config-Configured_example :
    (r : OnecloudClusterConfig × ℕ) × (default_config draw user_ports user_db_ports
        (empty_config, 0)
      ≡ some r)
    × ((name : String) (svc : UserDbPort)
        → entry name user_db_ports ≡ some svc
        → Configured svc (empty_config.db_services name) (r.0.db_services name))
default_config-Configured_example =
    default_config-Configured draw user_ports user_db_ports empty_config 0 drawn same_db_users

-- The configuration of the example.
configured :
    (r : OnecloudClusterConfig × ℕ) × (default_config draw user_ports user_db_ports
        (empty_config, 0)
      ≡ some r)
    × ((name : String) (svc : UserDbPort)
        → entry name user_db_ports ≡ some svc
        → Configured svc (empty_config.db_services name) (r.0.db_services name))
configured =
    default_config-Configured draw user_ports user_db_ports empty_config 0 drawn same_db_users

default_config-new_key_example :
    (k : ℕ) × (0 ≤ k) × (k < configured.0.1) × (configured.0.0.itsm_encryption_key ≡ draw k)
default_config-new_key_example =
    default_config-new_key draw user_ports user_db_ports empty_config 0 configured.0 configured.1
