-- ===== src/Build/Config.antt =====
-- The configuration of the cloud services: the config map that a deployment mounts, and the file
-- that its containers read, in pkg/manager/component/component.go.
use cloudpods_operator.Prelude.{
  ℕ, String, ◌≡◌, refl, ap, ◌∙◌, Bool, true, false, Bool-cases, inl, inr, Option, none, some, List,
  [], ◌∷◌, str_eq, if◌then◌else◌,
}
use cloudpods_operator.Exec.{ok}
use cloudpods_operator.Volumes.{VolumeHelper, Volume}
use cloudpods_operator.Build.Objects.{DeploymentConfig, Probe}
use cloudpods_operator.Build.Names.{get_zone_component, component_config_map_name}
use cloudpods_operator.Build.Objects.{BuildCluster}
use cloudpods_operator.Build.Deployments.{ContainerFactory, new_config_map}
use cloudpods_operator.Build.Cloud.{
  Built, service_helper, ready_probe, generate_readiness_probe, service_container, init_container,
  new_default_deployment, new_cloud_service_deployment, new_cloud_service_single_port_deployment,
}
use cloudpods_operator.Build.Resources.{Quantities, with_amounts}
use cloudpods_operator.Build.Limits.{Ignores, map-set_container_resources}
use cloudpods_operator.Build.Files.{
  config_of, config_file, configs, file_at, service_helper-file, component_config_map_name-ne-nil,
  or_component-zone,
}

ready_probe-ok :
    (path name : String) (port : ℕ)
    → (probe : Option Probe) × (ready_probe path ((name, port) ∷ []) ≡ ok probe)
ready_probe-ok path name port = elim (Bool-cases (str_eq path "")) [
  | inl e ↦ (none, rw e)
  | inr e ↦ (some (generate_readiness_probe path port), rw e)
]

config_of-Ignores : (vs : List Volume) → Ignores (config_of vs)
unfolding with_amounts
config_of-Ignores vs key limit request c = refl

module _ {P : Type 0} (world : Quantities) (disabled : Bool) (oc : BuildCluster) where
  module _ (component zone_component : String) (spec : DeploymentConfig P) (helper : VolumeHelper)
      {wanted : Option (String × String)}
      (found : file_at (config_file component) helper.volumes helper.volume_mounts ≡ wanted) where
    containers-config :
        (init : Option ContainerFactory) (ports : List (String × ℕ)) (probe : Option Probe)
        → let d =
            (new_default_deployment world disabled component zone_component oc spec helper init
              (some (service_container component spec ports probe))).0 in
          configs d.pod d.pod.containers ≡ wanted ∷ []
    unfolding new_default_deployment
    containers-config init ports probe =
        map-set_container_resources (config_of helper.volumes) (config_of-Ignores helper.volumes)
          world oc.disable_resource_management _
        ∙ ap (λ f. f ∷ []) found

    init-config :
        (do_init : Bool) (containers : Option ContainerFactory)
        → let d =
            (new_default_deployment world disabled component zone_component oc spec helper
              (if do_init then some (init_container component spec) else none)
              containers).0 in
          configs d.pod d.pod.init_containers ≡ (if do_init then wanted ∷ [] else [])
    unfolding new_default_deployment
    init-config true containers = ap (λ f. f ∷ []) found
    init-config false containers = refl

  abbrev built_deployment :
      String → String → DeploymentConfig P → VolumeHelper → Bool → ℕ → Option Probe → Built P
  built_deployment component zone_component spec helper do_init port probe =
      new_default_deployment world disabled component zone_component oc spec helper
        (if do_init then some (init_container component spec) else none)
        (some (service_container component spec (("api", port) ∷ []) probe))

  service_deployment-built :
      (component z : String) (spec : DeploymentConfig P) (port : ℕ) (do_init tls : Bool)
      → (path : String) (probe : Option Probe) → ready_probe path (("api", port) ∷ []) ≡ ok probe
      → let helper = service_helper tls oc.volumes (component_config_map_name oc z) component in
        new_cloud_service_deployment world disabled component z oc spec
          (if do_init then some (init_container component spec) else none)
          (("api", port) ∷ [])
          tls
          true
          path
        ≡ ok (built_deployment component z spec helper do_init port probe)
  unfolding new_cloud_service_deployment
  service_deployment-built component z spec port do_init tls path probe ready = rw ready

  single_port-service :
      (component zone : String) (spec : DeploymentConfig P) (port : ℕ) (do_init tls : Bool)
      → (path : String)
      → let z = get_zone_component component zone in
        new_cloud_service_single_port_deployment world disabled component z oc spec port do_init tls
          path
        ≡ new_cloud_service_deployment world disabled component z oc spec
            (if do_init then some (init_container component spec) else none)
            (("api", port) ∷ [])
            tls
            true
            path
  unfolding new_cloud_service_single_port_deployment
  single_port-service component zone spec port true tls path =
      ap
        (λ z.
          new_cloud_service_deployment world disabled component z oc spec
            (some (init_container component spec)) (("api", port) ∷ []) tls true path)
        (or_component-zone component zone)
  single_port-service component zone spec port false tls path =
      ap
        (λ z.
          new_cloud_service_deployment world disabled component z oc spec none (("api", port) ∷ [])
            tls true path)
        (or_component-zone component zone)

  -- Every container of a cloud service, the one that prepares the database included, finds the file
  -- that its `--config` names in the config map which the same component and zone are given, for
  -- any port and with or without the certificates of etcd.
  pub single_port_deployment-config :
      (component zone text : String) (spec : DeploymentConfig P) (port : ℕ)
      → (do_init tls : Bool) (path : String)
      → let wanted : Option (String × String) =
          some ((new_config_map component zone oc text).name, "config") in
        (b : Built P) × (new_cloud_service_single_port_deployment world disabled component
            (get_zone_component component zone)
            oc
            spec
            port
            do_init
            tls
            path
          ≡ ok b)
        × (configs b.0.pod b.0.pod.containers ≡ wanted ∷ [])
        × (configs b.0.pod b.0.pod.init_containers ≡ (if do_init then wanted ∷ [] else []))
  unfolding new_config_map
  single_port_deployment-config component zone text spec port do_init tls path =
      let z = get_zone_component component zone in
      let name = component_config_map_name oc z in
      let helper = service_helper tls oc.volumes name component in
      let found =
        service_helper-file tls oc.volumes name component (component_config_map_name-ne-nil oc z) in
      let (probe, ready) = ready_probe-ok path "api" port in
      (
        built_deployment component z spec helper do_init port probe,
        single_port-service component zone spec port do_init tls path
            ∙ service_deployment-built component z spec port do_init tls path probe ready,
        containers-config component z spec helper found _ _ probe,
        init-config component z spec helper found do_init _,
      )
