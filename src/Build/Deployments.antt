-- ===== src/Build/Deployments.antt =====
-- The deployments of a component, and its config map, in pkg/manager/component/component.go.
use Prim.Native.String.{◌++◌ as join}
use cloudpods_operator.Prelude.{
  String, Bool, true, false, not, ◌&&◌, Option, none, some, is_none, List, [], ◌∷◌, ◌++◌, str_eq,
  if◌then◌else◌,
}
use cloudpods_operator.Etcd.Manager.Run.{new_cluster_component_name}
use cloudpods_operator.Volumes.{VolumeMount, VolumeHelper}
use cloudpods_operator.Build.Labels.{get_component_label, zone_label}
use cloudpods_operator.Build.Names.{get_zone_component, component_config_map_name}
use cloudpods_operator.Build.Objects.{
  BuildCluster, NodeSelectorRequirement, NodeAffinity, Affinity, DeploymentConfig, Container,
  BuiltDeployment, BuiltConfigMap,
}
use cloudpods_operator.Build.Resources.{Quantities, ResourceState, set_container_resources}

unfoldable pub new_config_map : String → String → BuildCluster → String → BuiltConfigMap
unfolding get_component_label zone_label get_zone_component component_config_map_name
new_config_map component zone oc config = record {
  name = component_config_map_name oc (get_zone_component component zone);
  owner = oc.uid;
  labels = zone_label zone (get_component_label oc component false);
  config = config;
}

-- `marshal` is the YAML text of the options.
unfoldable pub new_service_config_map :
    {A : Type 0} (marshal : A → String) → String → String → BuildCluster → A → BuiltConfigMap
unfolding new_config_map
new_service_config_map marshal component zone oc options =
    new_config_map component zone oc (marshal options)

abbrev pub or_component : String → String → String
or_component zone_component component =
    if str_eq zone_component "" then component else zone_component

abbrev pub ContainerFactory : Type 0
ContainerFactory = List VolumeMount → List Container

-- A factory that is nil makes no containers.
abbrev pub containers_of : Option ContainerFactory → List VolumeMount → List Container
containers_of none mounts = []
containers_of (some f) mounts = f mounts

-- The only term of the node selector: the nodes where the platform's controllers may run.
abbrev controller_nodes : List (List NodeSelectorRequirement)
controller_nodes =
    (record { key = "onecloud.yunion.io/controller"; operator = "In"; values = "enable" ∷ [] } ∷ [])
    ∷ []

abbrev append_argument : List Container → List Container
append_argument [] = []
append_argument (c ∷ cs) = (record c { command = c.command ++ ("--is-slave-node" ∷ []) }) ∷ cs

module _ {P : Type 0} where
  abbrev affinity_or_new : Option (Affinity P) → Affinity P
  affinity_or_new none = record { node_affinity = none; pod_affinity = none }
  affinity_or_new (some a) = a

  abbrev node_affinity_or_new : Option (NodeAffinity P) → NodeAffinity P
  node_affinity_or_new none = record { required = none; preferred = none }
  node_affinity_or_new (some a) = a

  abbrev only_on_controllers : Bool → NodeAffinity P → NodeAffinity P
  only_on_controllers disabled a =
      if disabled then a else record a { required = some controller_nodes }

  -- `disabled` is the flag DisableNodeSelectorController.
  unfoldable pub set_component_affinity : Bool → DeploymentConfig P → DeploymentConfig P
  set_component_affinity disabled spec =
      let a = affinity_or_new spec.affinity in
      record spec {
        affinity = some (record a {
          node_affinity =
              some (only_on_controllers disabled (node_affinity_or_new a.node_affinity));
        });
      }

  abbrev default_node_affinity : Bool → Option (NodeAffinity P) → Option (NodeAffinity P)
  default_node_affinity disabled node =
      if is_none node && not disabled
      then some (record { required = some controller_nodes; preferred = none })
      else node

  unfoldable pub default_affinity : Bool → DeploymentConfig P → DeploymentConfig P
  default_affinity disabled spec =
      let a = affinity_or_new spec.affinity in
      record spec {
        affinity =
            some (record a { node_affinity = default_node_affinity disabled a.node_affinity });
      }

  unfoldable pub remove_deployment_affinity : BuiltDeployment P → BuiltDeployment P
  remove_deployment_affinity d = record d { pod = record d.pod { affinity = none } }

  unfoldable pub gen_readonly_deployment :
      String → BuildCluster → BuiltDeployment P → DeploymentConfig P → BuiltDeployment P
  unfolding get_component_label
  gen_readonly_deployment component oc deploy spec =
      let app = get_component_label oc component true in
      record deploy {
        name = join deploy.name "-slave";
        replicas = spec.slave_replicas;
        labels = app;
        selector = app;
        pod_labels = app;
        pod = record deploy.pod {
          init_containers = [];
          containers = append_argument deploy.pod.containers;
        };
      }

  -- The deployment, and the specification that it leaves: an error of the resources is logged.
  unfoldable pub new_deployment :
      Quantities
      → String
      → String
      → BuildCluster
      → VolumeHelper
      → DeploymentConfig P
      → Option ContainerFactory
      → Option ContainerFactory
      → Bool
      → String
      → BuiltDeployment P × DeploymentConfig P
  unfolding get_component_label set_container_resources
  new_deployment world component zone_component oc helper spec init containers host_network dns =
      let app = get_component_label oc component false in
      let before : ResourceState = record {
        limits = spec.limits;
        requests = spec.requests;
        containers = containers_of containers helper.volume_mounts;
      } in
      let after = (set_container_resources world oc.disable_resource_management before).1 in
      (
        record {
          name = new_cluster_component_name oc.volumes.name (or_component zone_component component);
          owner = oc.uid;
          labels = app;
          replicas = spec.replicas;
          strategy = if host_network then "Recreate" else "RollingUpdate";
          selector = app;
          pod_labels = app;
          pod_annotations = spec.annotations;
          pod = record {
            affinity = spec.affinity;
            node_selector = spec.node_selector;
            init_containers = containers_of init helper.volume_mounts;
            containers = after.containers;
            volumes = helper.volumes;
            host_network = host_network;
            dns_policy = dns;
            copied = spec.copied;
          };
        },
        record spec { limits = after.limits; requests = after.requests },
      )
