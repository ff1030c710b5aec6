-- ===== src/Build/Workloads.antt =====
-- Daemon sets, cron jobs and claims, in pkg/manager/component/component.go. The network and the
-- namespaces of the host are fixed for a daemon set.
use cloudpods_operator.Prelude.{
  ℕ, String, Bool, true, false, Option, none, some, List, [], ◌∷◌, str_eq, if◌then◌else◌,
}
use cloudpods_operator.Exec.{Reply, good, bad}
use cloudpods_operator.Etcd.Types.{Labels}
use cloudpods_operator.Etcd.Manager.Run.{new_cluster_component_name}
use cloudpods_operator.Volumes.{VolumeHelper}
use cloudpods_operator.Build.Labels.{get_component_label}
use cloudpods_operator.Build.Names.{new_pvc_name}
use cloudpods_operator.Build.Objects.{BuildCluster, RequiredAmounts, Affinity, Container, PodSpec}
use cloudpods_operator.Build.Resources.{Quantities, ResourceState, set_container_resources}
use cloudpods_operator.Build.Deployments.{ContainerFactory, containers_of}

-- `DaemonSetSpec` of v1alpha1, and `CronJobSpec` without its schedule.
pub record PodConfig (P : Type 0) : Type 0 where
  pub requests : Option RequiredAmounts
  pub limits : Option RequiredAmounts
  pub affinity : Option (Affinity P)
  pub node_selector : Labels
  pub annotations : Option Labels
  pub copied : P

-- The priority class is empty where it is not set.
pub record BuiltDaemonSet (P : Type 0) : Type 0 where
  pub name : String
  pub owner : String
  pub labels : Labels
  pub selector : Labels
  pub update_strategy : String
  pub pod_labels : Labels
  pub pod_annotations : Option Labels
  pub pod : PodSpec P
  pub priority_class : String

-- What a cron job is told of its runs.
pub record CronSettings : Type 0 where
  pub concurrency_policy : String
  pub starting_deadline_seconds : Option ℕ
  pub suspend : Option Bool
  pub successful_jobs_history_limit : Option ℕ
  pub failed_jobs_history_limit : Option ℕ

pub record BuiltCronJob (P : Type 0) : Type 0 where
  pub name : String
  pub owner : String
  pub labels : Labels
  pub schedule : String
  pub settings : CronSettings
  pub job_labels : Labels
  pub job_annotations : Option Labels
  pub backoff_limit : ℕ
  pub pod_labels : Labels
  pub pod_annotations : Option Labels
  pub pod : PodSpec P

pub record BuiltClaim : Type 0 where
  pub name : String
  pub access_modes : List String
  pub storage : String
  pub storage_class : Option String

-- The resources of the containers and of the specification, where they are to be set.
unfoldable pub settle_resources : Quantities → Bool → Bool → ResourceState → ResourceState
unfolding set_container_resources
settle_resources world disable false s = s
settle_resources world disable true s = (set_container_resources world disable s).1

module _ {P : Type 0} where
  abbrev resources_of : PodConfig P → List Container → ResourceState
  resources_of spec containers = record {
    limits = spec.limits;
    requests = spec.requests;
    containers = containers;
  }

  abbrev with_resources : ResourceState → PodConfig P → PodConfig P
  with_resources s spec = record spec { limits = s.limits; requests = s.requests }

  unfoldable pub new_daemon_set_with_limits :
      Quantities
      → String
      → BuildCluster
      → VolumeHelper
      → PodConfig P
      → String
      → List Container
      → ContainerFactory
      → Bool
      → BuiltDaemonSet P × PodConfig P
  unfolding get_component_label settle_resources
  new_daemon_set_with_limits world component oc helper spec strategy init containers set_limits =
      let app = get_component_label oc component false in
      let after =
        settle_resources world oc.disable_resource_management set_limits
          (resources_of spec (containers helper.volume_mounts)) in
      (
        record {
          name = new_cluster_component_name oc.volumes.name component;
          owner = oc.uid;
          labels = app;
          selector = app;
          update_strategy = if str_eq strategy "" then "RollingUpdate" else strategy;
          pod_labels = app;
          pod_annotations = spec.annotations;
          pod = record {
            affinity = spec.affinity;
            node_selector = spec.node_selector;
            init_containers = init;
            containers = after.containers;
            volumes = helper.volumes;
            host_network = true;
            dns_policy = "ClusterFirstWithHostNet";
            copied = spec.copied;
          };
          priority_class = "";
        },
        with_resources after spec,
      )

  unfoldable pub new_daemon_set :
      Quantities
      → String
      → BuildCluster
      → VolumeHelper
      → PodConfig P
      → String
      → List Container
      → ContainerFactory
      → BuiltDaemonSet P
  unfolding new_daemon_set_with_limits
  new_daemon_set world component oc helper spec strategy init containers =
      (new_daemon_set_with_limits world component oc helper spec strategy init containers false).0

  -- `from_v120`: the API server is of version 1.20 or later.
  unfoldable pub apply_host_component_anti_eviction :
      Bool → Option (BuiltDaemonSet P) → Option (BuiltDaemonSet P)
  apply_host_component_anti_eviction from_v120 none = none
  apply_host_component_anti_eviction false (some ds) = some ds
  apply_host_component_anti_eviction true (some ds) =
      some (record ds { priority_class = "system-node-critical" })

  unfoldable pub new_cron_job :
      Quantities
      → String
      → BuildCluster
      → VolumeHelper
      → String
      → PodConfig P
      → Option ContainerFactory
      → ContainerFactory
      → Bool
      → String
      → CronSettings
      → BuiltCronJob P × PodConfig P
  unfolding get_component_label settle_resources
  new_cron_job world component oc helper schedule spec init containers host_network dns settings =
      let app = get_component_label oc component false in
      let after =
        settle_resources world oc.disable_resource_management true
          (resources_of spec (containers helper.volume_mounts)) in
      (
        record {
          name = new_cluster_component_name oc.volumes.name component;
          owner = oc.uid;
          labels = app;
          schedule = schedule;
          settings = settings;
          job_labels = app;
          job_annotations = spec.annotations;
          backoff_limit = 1;
          pod_labels = app;
          pod_annotations = spec.annotations;
          pod = record {
            affinity = spec.affinity;
            node_selector = spec.node_selector;
            init_containers = containers_of init helper.volume_mounts;
            containers = after.containers;
            volumes = helper.volumes;
            host_network = host_network;
            dns_policy = dns;
            copied = spec.copied;
          };
        },
        with_resources after spec,
      )

-- The settings of a run that replaces the one before; `deadline` is the variable
-- StartingDeadlineSeconds.
abbrev replacing : ℕ → CronSettings
replacing deadline = record {
  concurrency_policy = "Replace";
  starting_deadline_seconds = some deadline;
  suspend = none;
  successful_jobs_history_limit = none;
  failed_jobs_history_limit = none;
}

unfoldable pub new_default_cron_job :
    {P : Type 0}
    → Quantities
    → ℕ
    → String
    → BuildCluster
    → VolumeHelper
    → String
    → PodConfig P
    → Option ContainerFactory
    → ContainerFactory
    → BuiltCronJob P × PodConfig P
unfolding new_cron_job
new_default_cron_job world deadline component oc helper schedule spec init containers =
    new_cron_job world component oc helper schedule spec init containers false "ClusterFirst"
      (replacing deadline)

-- An empty storage class is left to the API server; a size that does not parse is an error.
abbrev class_of : String → Option String
class_of storage_class = if str_eq storage_class "" then none else some storage_class

abbrev claim_of : BuildCluster → String → String → Reply String → Reply BuiltClaim
claim_of oc component storage_class (bad e) = bad e
claim_of oc component storage_class (good size) = good (record {
  name = new_pvc_name oc.volumes.name storage_class component;
  access_modes = "ReadWriteOnce" ∷ [];
  storage = size;
  storage_class = class_of storage_class;
})

unfoldable pub new_pvc : Quantities → String → BuildCluster → String → String → Reply BuiltClaim
unfolding new_pvc_name
new_pvc world component oc storage_class size =
    claim_of oc component storage_class (world.parse_quantity size)
