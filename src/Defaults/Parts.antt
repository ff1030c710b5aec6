-- ===== src/Defaults/Parts.antt =====
-- The defaults of the parts of a specification: `SetDefaults_DeploymentSpec` and the like of
-- pkg/apis/onecloud/v1alpha1/defaults.go. `clear` is the flag ClearComponent.
use cloudpods_operator.Prelude.{
  ℕ, String, Bool, true, ◌||◌, Option, none, some, List, [], ◌∷◌, ◌^◌, leb, ◌==◌, if◌then◌else◌,
}
use cloudpods_operator.Defaults.Types.{
  ResourceRequirement, ContainerSpec, Toleration, DnsConfig, DeploymentSpec, StatefulDeploymentSpec,
  DaemonSetSpec, CronJobSpec, OptionalSpec, Mysql,
}
use cloudpods_operator.Defaults.Image.{or_default}

-- `if n == 0 { n = value }`
abbrev pub or_number : ℕ → ℕ → ℕ
or_number n value = if n == 0 then value else n

abbrev pub or_true : Option Bool → Bool
or_true none = true
or_true (some b) = b

abbrev tolerate : String → Toleration
tolerate key = record {
  key = key;
  operator = "";
  value = "";
  effect = "NoSchedule";
  toleration_seconds = none;
}

-- What runs on the master nodes too, where nothing else is said.
unfoldable pub default_tolerations : List Toleration → List Toleration
default_tolerations [] =
    tolerate "node-role.kubernetes.io/master" ∷ tolerate "node-role.kubernetes.io/controlplane" ∷ []
default_tolerations (t ∷ rest) = t ∷ rest

-- Whether a bit pattern is that of an int32 that is zero or negative.
abbrev pub not_positive : ℕ → Bool
not_positive n = n == 0 || leb (2 ^ 31) n

unfoldable pub default_replicas : Bool → ℕ → ℕ
default_replicas disable replicas =
    if disable then 0 else if not_positive replicas then 1 else replicas

-- `newDNSConfig` of the region's pods.
unfoldable pub default_dns_config : Option DnsConfig → Option DnsConfig
default_dns_config none =
    some (record { nameservers = []; searches = []; options = ("ndots", some "2") ∷ [] })
default_dns_config (some c) = some c

-- `setDefaults_Mysql` and its two likes.
unfoldable pub set_mysql : String → ℕ → Mysql → Mysql
set_mysql username port db = record db {
  username = or_default db.username username;
  port = or_number db.port port;
}

module _ {P : Type 0} where
  unfoldable pub clear_container_spec : Bool → ContainerSpec P → ContainerSpec P
  clear_container_spec clear spec =
      if clear then record spec { tag = ""; image_name = ""; repository = "" } else spec

  -- The lines that set a container's image and its pull policy, where it has none.
  unfoldable pub with_image : Bool → String → ContainerSpec P → ContainerSpec P
  unfolding clear_container_spec
  with_image clear image spec = clear_container_spec clear (record spec {
    image = image;
    image_pull_policy = or_default spec.image_pull_policy "IfNotPresent";
  })

  -- The same for a further container of a pod, whose pull policy is always set.
  unfoldable pub set_sidecar : Bool → String → ContainerSpec P → ContainerSpec P
  unfolding clear_container_spec
  set_sidecar clear image spec =
      clear_container_spec clear (record spec { image = image; image_pull_policy = "IfNotPresent" })

  unfoldable pub set_deployment_spec : Bool → String → DeploymentSpec P → DeploymentSpec P
  unfolding default_replicas default_tolerations with_image
  set_deployment_spec clear image spec = record spec {
    container = with_image clear image spec.container;
    replicas = default_replicas spec.disable spec.replicas;
    tolerations = default_tolerations spec.tolerations;
  }

  unfoldable pub set_daemon_set_spec : Bool → String → DaemonSetSpec P → DaemonSetSpec P
  unfolding default_tolerations with_image
  set_daemon_set_spec clear image spec = record spec {
    container = with_image clear image spec.container;
    tolerations = default_tolerations spec.tolerations;
  }

  unfoldable pub set_cron_job_spec : Bool → String → CronJobSpec P → CronJobSpec P
  unfolding default_tolerations with_image
  set_cron_job_spec clear image spec = record spec {
    container = with_image clear image spec.container;
    tolerations = default_tolerations spec.tolerations;
  }

  abbrev with_storage : String → Option (ResourceRequirement P) → Option (ResourceRequirement P)
  with_storage size none = some (record { cpu = none; memory = none; storage = size })
  with_storage size (some r) = some (record r { storage = or_default r.storage size })

  -- `setPVCStoreage`
  unfoldable pub set_pvc_storage : String → ContainerSpec P → ContainerSpec P
  set_pvc_storage size spec = record spec { requests = with_storage size spec.requests }

  unfoldable pub set_stateful_spec :
      Bool → String → String → StatefulDeploymentSpec P → StatefulDeploymentSpec P
  unfolding set_deployment_spec set_pvc_storage
  set_stateful_spec clear size image spec =
      let deployment = set_deployment_spec clear image spec.deployment in
      record spec {
        deployment = record deployment { container = set_pvc_storage size deployment.container };
        storage_class_name = or_default spec.storage_class_name "local-path";
      }

  -- `ToDeploymentSpec`, once `Disable` is set, and `FillBySpec`.
  unfoldable pub to_deployment_spec : OptionalSpec P → DeploymentSpec P
  to_deployment_spec spec = record {
    container = spec.container;
    dns_config = none;
    disable = or_true spec.disable;
    replicas = spec.replicas;
    tolerations = spec.tolerations;
    slave_replicas = 0;
    rest = spec.rest;
  }

  unfoldable pub fill_by_spec : DeploymentSpec P → OptionalSpec P → OptionalSpec P
  fill_by_spec d spec = record spec {
    container = d.container;
    disable = some d.disable;
    replicas = d.replicas;
    tolerations = d.tolerations;
    rest = d.rest;
  }
