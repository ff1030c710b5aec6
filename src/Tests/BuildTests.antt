-- ===== src/Tests/BuildTests.antt =====
-- The builders of pkg/manager/component/component.go at concrete inputs.
use Prim.Native.String.{count}
use text.Mathlib.TextLemmas.{length-append}
use cloudpods_operator.Prelude.{
  String, ◌≡◌, refl, ap, ◌∙◌, ◌↔◌, true, false, Option, none, some, [], ◌∷◌, map, arith, select,
  if◌then◌else◌,
}
use cloudpods_operator.Exec.{good, ok, done}
use cloudpods_operator.Etcd.Types.{ServicePort, Labels}
use cloudpods_operator.Etcd.Manager.Services.{decimal}
use cloudpods_operator.Volumes.{VolumeCluster}
use cloudpods_operator.Volumes.Builders.{new_volume_helper}
use cloudpods_operator.Sync.Objects.{selector_matches_labels}
use cloudpods_operator.Build.Objects.{Container, BuildCluster, DeploymentConfig, Node}
use cloudpods_operator.Build.Names.{
  get_zone_component, component_config_map_name, new_pvc_name, get_service_type,
}
use cloudpods_operator.Build.Services.{new_service_with_cluster_ip, new_single_port_service}
use cloudpods_operator.Build.Resources.{
  Quantities, ResourceState, set_container_resources, is_node_ready,
}
use cloudpods_operator.Build.Rollout.{
  RolloutState, RolledOut, deployment_is_rollout, deployment_is_upgrading,
  deployment_is_upgrading_iff,
}
use cloudpods_operator.Build.Deployments.{new_config_map}
use cloudpods_operator.Build.Cloud.{Built, new_cloud_service_single_port_deployment}
use cloudpods_operator.Build.Workloads.{PodConfig, new_daemon_set_with_limits, new_pvc}
use cloudpods_operator.Build.Suffix.{IsPlain}
use cloudpods_operator.Build.Selects.{instance_of, role_deployment, new_service-selects_iff}
use cloudpods_operator.Build.Limits.{set_container_resources-no_master}
use cloudpods_operator.Build.Files.{configs}
use cloudpods_operator.Build.Config.{single_port_deployment-config}

abbrev small_cluster : VolumeCluster
small_cluster = record { name = "one"; etcd_disable = false; etcd_enable_tls = none }

abbrev a_cluster : BuildCluster
a_cluster = record {
  volumes = small_cluster;
  uid = "u1";
  labels = ("app.kubernetes.io/instance", "one") ∷ [];
  annotations = none;
  disable_resource_management = false;
}

abbrev a_config : DeploymentConfig String
a_config = record {
  image = "repo/meter:v1";
  image_pull_policy = "IfNotPresent";
  requests = none;
  limits = none;
  replicas = 1;
  slave_replicas = 2;
  affinity = none;
  node_selector = [];
  annotations = none;
  copied = "";
}

abbrev ready_node : Node
ready_node = record {
  conditions = record { kind = "Ready"; status = "True" } ∷ [];
  cpu = some 6;
  memory = some 16000000000;
}

abbrev tired_node : Node
tired_node = record ready_node { conditions = [] }

abbrev a_world : Quantities
a_world = record {
  list_masters = good (ready_node ∷ []);
  parse_quantity = λ s. good s;
  third_text = λ n. "2.000000";
}

abbrev tired_world : Quantities
tired_world = record a_world { list_masters = good (tired_node ∷ []) }

abbrev node_port : ServicePort
node_port = record { name = "api"; port = 30428; target_port = 30428; node_port = 30428 }

slave_suffix : count "-slave" ≡ 6
slave_suffix = refl

short-IsPlain : (name : String) → count name ≡ 5 → IsPlain name
short-IsPlain name h s e = let len = ap count e ∙ length-append s "-slave" in omega (arith, h, len)

abbrev meter : String
meter = "meter"

meter-IsPlain : IsPlain meter
meter-IsPlain = short-IsPlain "meter" refl

-- The service of the read-only role and the deployment of that role.
new_service-selects_iff_example :
    (selector_matches_labels
        (some
          (new_service_with_cluster_ip meter a_cluster "NodePort"
            (node_port ∷ [])
            ""
            true).selector)
        (role_deployment a_world
          (new_volume_helper small_cluster "c" meter)
          ""
          meter
          a_cluster
          a_config
          none
          none
          true).pod_labels
      ≡ true)
    ↔ ((instance_of a_cluster ≡ instance_of a_cluster) × (meter ≡ meter) × (true ≡ true))
new_service-selects_iff_example =
    new_service-selects_iff a_world (new_volume_helper small_cluster "c" meter) "" a_cluster
      a_cluster meter meter true true meter-IsPlain meter-IsPlain "NodePort" (node_port ∷ []) ""
      a_config none none

single_port_deployment-config_example :
    let wanted : Option (String × String) =
      some ((new_config_map "meter" "z1" a_cluster "port: 1").name, "config") in
    (b : Built String) × (new_cloud_service_single_port_deployment a_world false "meter"
        (get_zone_component "meter" "z1")
        a_cluster
        a_config
        30428
        true
        true
        "/ping"
      ≡ ok b)
    × (configs b.0.pod b.0.pod.containers ≡ wanted ∷ [])
    × (configs b.0.pod b.0.pod.init_containers ≡ (if true then wanted ∷ [] else []))
single_port_deployment-config_example =
    single_port_deployment-config a_world false a_cluster "meter" "z1" "port: 1" a_config 30428 true
      true "/ping"

abbrev a_container : Container
a_container = record {
  name = "host";
  image = "repo/host:v1";
  image_pull_policy = "";
  command = [];
  ports = [];
  volume_mounts = [];
  readiness_probe = none;
  limits = [];
  requests = [];
}

abbrev one_container : ResourceState
one_container = record { limits = none; requests = none; containers = a_container ∷ [] }

set_container_resources-no_master_example :
    ((set_container_resources tired_world false one_container).0 ≡ done)
    × ((set_container_resources tired_world false one_container).1.containers ≡ a_container ∷ [])
unfolding is_node_ready
set_container_resources-no_master_example =
    set_container_resources-no_master tired_world one_container (tired_node ∷ []) refl none_ready
      refl
  where
    none_ready : select is_node_ready (tired_node ∷ []) ≡ []
    none_ready = refl

abbrev complete : RolloutState
complete = record {
  generation = 3;
  wanted = some 2;
  observed_generation = 3;
  replicas = 2;
  updated = 2;
  available = 2;
  conditions = record { kind = "Progressing"; reason = "NewReplicaSetAvailable" } ∷ [];
}

deployment_is_upgrading_iff_example :
    (deployment_is_upgrading complete ≡ false) ↔ RolledOut complete
deployment_is_upgrading_iff_example = deployment_is_upgrading_iff complete

complete_test : deployment_is_rollout complete ≡ ok true
unfolding deployment_is_rollout
complete_test = refl

names_test :
    (component_config_map_name a_cluster "meter" ≡ "one-meter")
    × (new_pvc_name "one" "local-path" "glance" ≡ "one-glance")
    × (get_service_type (("web", "NodePort") ∷ []) "web" ≡ "NodePort")
unfolding component_config_map_name new_pvc_name get_service_type
names_test = (refl, refl, refl)

single_port_test :
    map {B = String × String}
      (λ s. (s.name, s.kind))
      (new_single_port_service "meter" a_cluster false 30428 30428 true)
    ≡ ("one-meter", "NodePort") ∷ ("one-meter-slave", "ClusterIP") ∷ []
unfolding new_single_port_service
single_port_test = refl

abbrev a_pod : PodConfig String
a_pod = record {
  requests = none;
  limits = none;
  affinity = none;
  node_selector = [];
  annotations = none;
  copied = "";
}

-- A third of the node's six cores, and a sixteenth of its memory.
daemon_set_test :
    map {B = Labels}
      (λ c. c.limits)
      (new_daemon_set_with_limits a_world "host" a_cluster
        (new_volume_helper small_cluster "" "host")
        a_pod
        ""
        []
        (λ mounts. a_container ∷ [])
        true).0.pod.containers
    ≡ (("cpu", "2.000000") ∷ ("memory", "1000Mi") ∷ []) ∷ []
unfolding new_daemon_set_with_limits decimal
daemon_set_test = refl

claim_test :
    new_pvc a_world "glance" a_cluster "" "100G"
    ≡ good (record {
      name = "one-glance-";
      access_modes = "ReadWriteOnce" ∷ [];
      storage = "100G";
      storage_class = none;
    })
unfolding new_pvc
claim_test = refl
