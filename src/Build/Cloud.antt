-- ===== src/Build/Cloud.antt =====
-- The deployments of the cloud services, in pkg/manager/component/component.go.
use Prim.Native.String.{◌++◌ as join}
use cloudpods_operator.Prelude.{
  ℕ, String, Bool, true, false, Option, none, some, List, [], ◌∷◌, str_eq, if◌then◌else◌,
}
use cloudpods_operator.Exec.{Outcome, ok, err, panic}
use cloudpods_operator.Volumes.{VolumeHelper, VolumeCluster}
use cloudpods_operator.Volumes.Builders.{new_volume_helper, new_volume_helper_with_etcd_tls}
use cloudpods_operator.Build.Names.{component_config_map_name}
use cloudpods_operator.Build.Objects.{BuildCluster, Probe, DeploymentConfig, BuiltDeployment}
use cloudpods_operator.Build.Resources.{Quantities}
use cloudpods_operator.Build.Deployments.{
  ContainerFactory, or_component, default_affinity, remove_deployment_affinity, new_deployment,
}

abbrev pub generate_readiness_probe : String → ℕ → Probe
generate_readiness_probe path port = record {
  path = path;
  port = port;
  initial_delay = 15;
  period = 5;
  failures = 2;
  successes = 3;
  timeout = 3;
}

abbrev first_port : String → List (String × ℕ) → Outcome (Option Probe)
first_port path [] = panic
first_port path ((name, port) ∷ ports) = ok (some (generate_readiness_probe path port))

-- Without ports the index panics.
abbrev pub ready_probe : String → List (String × ℕ) → Outcome (Option Probe)
ready_probe path ports = if str_eq path "" then ok none else first_port path ports

abbrev service_command : String → List String
service_command component =
    join "/opt/yunion/bin/" component
    ∷ "--config"
    ∷ join "/etc/yunion/" (join component ".conf")
    ∷ []

abbrev pub service_helper : Bool → VolumeCluster → String → String → VolumeHelper
service_helper tls oc config_map component =
    if tls
    then new_volume_helper_with_etcd_tls oc config_map component
    else new_volume_helper oc config_map component

-- A deployment, and the specification that its builder leaves.
abbrev pub Built : Type 0 → Type 0
Built P = BuiltDeployment P × DeploymentConfig P

module _ {P : Type 0} where
  abbrev pub service_container :
      String → DeploymentConfig P → List (String × ℕ) → Option Probe → ContainerFactory
  service_container component spec ports probe mounts =
      record {
        name = component;
        image = spec.image;
        image_pull_policy = spec.image_pull_policy;
        command = service_command component;
        ports = ports;
        volume_mounts = mounts;
        readiness_probe = probe;
        limits = [];
        requests = [];
      }
      ∷ []

  abbrev pub init_container : String → DeploymentConfig P → ContainerFactory
  init_container component spec mounts =
      record {
        name = "init";
        image = spec.image;
        image_pull_policy = spec.image_pull_policy;
        command =
            join "/opt/yunion/bin/" component
            ∷ "--config"
            ∷ join "/etc/yunion/" (join component ".conf")
            ∷ "--auto-sync-table"
            ∷ "--exit-after-db-init"
            ∷ [];
        ports = [];
        volume_mounts = mounts;
        readiness_probe = none;
        limits = [];
        requests = [];
      }
      ∷ []

  abbrev with_affinity : Bool → Built P → Built P
  with_affinity true b = b
  with_affinity false b = (remove_deployment_affinity b.0, b.1)

  -- What all these builders are given: the world, the flag DisableNodeSelectorController, the
  -- component, its name in the zone, the cluster and the specification.
  module _ (world : Quantities) (disabled : Bool) (component : String) (zone_component : String)
      (oc : BuildCluster) (spec : DeploymentConfig P) where
    unfoldable pub new_default_deployment :
        VolumeHelper → Option ContainerFactory → Option ContainerFactory → Built P
    unfolding default_affinity new_deployment
    new_default_deployment helper init containers =
        new_deployment world component zone_component oc helper (default_affinity disabled spec)
          init containers false "ClusterFirst"

    unfoldable pub new_default_deployment_no_init : VolumeHelper → Option ContainerFactory → Built P
    unfolding new_default_deployment
    new_default_deployment_no_init helper containers = new_default_deployment helper none containers

    unfoldable pub new_default_deployment_no_init_without_cloud_affinity :
        VolumeHelper → Bool → Option ContainerFactory → Built P
    unfolding new_deployment
    new_default_deployment_no_init_without_cloud_affinity helper host_network containers =
        new_deployment world component zone_component oc helper spec none containers host_network
          (if host_network then "ClusterFirstWithHostNet" else "ClusterFirst")

    abbrev built :
        Option ContainerFactory
        → List (String × ℕ)
        → Bool
        → Bool
        → Outcome (Option Probe)
        → Outcome (Built P)
    built init ports tls keep_affinity (ok probe) =
        let config_map = component_config_map_name oc zone_component in
        let helper = service_helper tls oc.volumes config_map component in
        ok (
          with_affinity keep_affinity (
            new_default_deployment helper init
              (some (service_container component spec ports probe))))
    built init ports tls keep_affinity (err e) = err e
    built init ports tls keep_affinity panic = panic

    unfoldable pub new_cloud_service_deployment :
        Option ContainerFactory → List (String × ℕ) → Bool → Bool → String → Outcome (Built P)
    unfolding new_default_deployment component_config_map_name
    new_cloud_service_deployment init ports tls keep_affinity readiness_path =
        built init ports tls keep_affinity (ready_probe readiness_path ports)

  module _ (world : Quantities) (disabled : Bool) (component : String) (zone_component : String)
      (oc : BuildCluster) (spec : DeploymentConfig P) where
    unfoldable pub new_cloud_service_deployment_with_init :
        List (String × ℕ) → Bool → String → Outcome (Built P)
    unfolding new_cloud_service_deployment
    new_cloud_service_deployment_with_init ports tls readiness_path =
        new_cloud_service_deployment world disabled component
          (or_component zone_component component) oc spec (some (init_container component spec))
          ports tls true readiness_path

    unfoldable pub new_cloud_service_deployment_no_init :
        List (String × ℕ) → Bool → String → Outcome (Built P)
    unfolding new_cloud_service_deployment
    new_cloud_service_deployment_no_init ports tls readiness_path =
        new_cloud_service_deployment world disabled component
          (or_component zone_component component) oc spec none ports tls true readiness_path

    unfoldable pub new_cloud_service_single_port_deployment :
        ℕ → Bool → Bool → String → Outcome (Built P)
    unfolding new_cloud_service_deployment_with_init new_cloud_service_deployment_no_init
    new_cloud_service_single_port_deployment port do_init tls readiness_path =
        let ports = ("api", port) ∷ [] in
        if do_init
        then new_cloud_service_deployment_with_init ports tls readiness_path
        else new_cloud_service_deployment_no_init ports tls readiness_path
