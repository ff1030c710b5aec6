-- ===== src/Defaults/Spec.antt =====
-- `SetDefaults_OnecloudClusterSpec` of pkg/apis/onecloud/v1alpha1/defaults.go.
use cloudpods_operator.Prelude.{
  ℕ, ◌+◌, String, Bool, true, false, ◌&&◌, ◌||◌, Option, none, some, List, [], ◌∷◌, str_eq,
  if◌then◌else◌,
}
use cloudpods_operator.Defaults.Types.{
  ContainerSpec, DeploymentSpec, StatefulDeploymentSpec, DaemonSetSpec, OptionalSpec,
  MonitorStackSpec, OnecloudClusterSpec, Fields, set_at,
}
use cloudpods_operator.Defaults.Image.{or_default, get_image, get_edition_image}
use cloudpods_operator.Defaults.Parts.{
  or_number, or_true, set_mysql, set_sidecar, set_deployment_spec, set_daemon_set_spec,
  set_stateful_spec, default_dns_config, to_deployment_spec, fill_by_spec,
}
use cloudpods_operator.Defaults.Tables.{Orders, service_ports}

-- `for name, entry := range entries`, whose body sets the field of its name.
unfoldable pub for_range :
    {A B : Type 0} → List (String × B) → (String → B → A → A) → Fields A → Fields A
for_range [] body fields = fields
for_range ((name, entry) ∷ rest) body fields =
    for_range rest body (set_at name (body name entry (fields name)) fields)

unfoldable pub update : {A : Type 0} → String → (A → A) → Fields A → Fields A
update name f fields = set_at name (f (fields name)) fields

-- `utils.IsInStringArray`, for the daemon sets that a hyper image may stand for.
abbrev pub hyper_daemon : String → Bool
hyper_daemon name = str_eq name "yunionagent" || str_eq name "host" || str_eq name "lbagent"

-- A password where none is set: the `n`-th that `passwd.GeneratePassword` draws.
unfoldable pub fill_password : (ℕ → String) → ℕ → String → String × ℕ
fill_password draw n s = if str_eq s "" then (draw n, n + 1) else (s, n)

unfoldable pub set_monitor_stack :
    {P : Type 0} → (ℕ → String) → MonitorStackSpec P → ℕ → MonitorStackSpec P × ℕ
unfolding fill_password
set_monitor_stack draw stack n =
    let minio = fill_password draw n stack.minio_secret_key in
    let grafana = fill_password draw minio.1 stack.grafana_admin_password in
    (
      record stack {
        minio_access_key = or_default stack.minio_access_key "monitor-admin";
        minio_secret_key = minio.0;
        grafana_admin_user = or_default stack.grafana_admin_user "admin";
        grafana_admin_password = grafana.0;
        grafana_subpath = or_default stack.grafana_subpath "grafana";
        oauth_scopes = or_default stack.oauth_scopes "user";
        oauth_role_attribute_path =
            or_default stack.oauth_role_attribute_path
              "projectName == 'system' && contains(roles, 'admin') && 'Admin' || 'Editor'";
        loki_bucket = or_default stack.loki_bucket "loki";
        prometheus_bucket = or_default stack.prometheus_bucket "thanos";
        prometheus_disable = some (or_true stack.prometheus_disable);
        thanos_bucket = or_default stack.thanos_bucket "thanos";
      },
      grafana.1,
    )

module _ {P : Type 0} where
  -- The databases, and the fields that the images are made of.
  unfoldable pub set_globals : OnecloudClusterSpec P → OnecloudClusterSpec P
  unfolding set_mysql
  set_globals obj =
      let product = or_default obj.product_version "FullStack" in
      record obj {
        mysql = set_mysql "root" 3306 obj.mysql;
        clickhouse = set_mysql "default" 9000 obj.clickhouse;
        dameng = set_mysql "sysdba" 5236 obj.dameng;
        product_version = product;
        disable_local_vpc = str_eq product "LightEdge" || obj.disable_local_vpc;
        region = or_default obj.region "region0";
        zone = or_default obj.zone "zone0";
        version = or_default obj.version "latest";
        image_repository = or_default obj.image_repository "registry.hub.docker.com/yunion";
      }

  abbrev pub stateful_version : OnecloudClusterSpec P → Option String → String
  stateful_version obj none = obj.version
  stateful_version obj (some version) = version

  -- The image of a container, from what its specification says: `getImage` with a version.
  abbrev pub image_of :
      OnecloudClusterSpec P → String → String → Bool → Bool → ContainerSpec P → String
  image_of obj version type hyper ee c =
      get_image obj.image_repository c.repository type c.image_name version c.tag hyper ee

  abbrev pub edition_image_of :
      OnecloudClusterSpec P → String → Bool → Bool → ContainerSpec P → String
  edition_image_of obj type hyper ee c =
      get_edition_image obj.image_repository c.repository type c.image_name obj.version c.tag hyper
        ee

-- The passwords of a specification. `draw` is the source of passwords, of which `n` are drawn
-- before.
unfoldable pub fill_passwords :
    {P : Type 0} → (ℕ → String) → OnecloudClusterSpec P → ℕ → OnecloudClusterSpec P × ℕ
fill_passwords draw obj n =
    let bootstrap = fill_password draw n obj.bootstrap_password in
    let stack = set_monitor_stack draw obj.monitor_stack bootstrap.1 in
    (record obj { bootstrap_password = bootstrap.0; monitor_stack = stack.0 }, stack.1)

module _ {P : Type 0} (clear : Bool) where
  abbrev set_deployment : (ContainerSpec P → String) → DeploymentSpec P → DeploymentSpec P
  set_deployment image d = set_deployment_spec clear (image d.container) d

  abbrev set_daemon_set : (ContainerSpec P → String) → DaemonSetSpec P → DaemonSetSpec P
  set_daemon_set image d = set_daemon_set_spec clear (image d.container) d

  abbrev sidecar : Bool → (ContainerSpec P → String) → ContainerSpec P → ContainerSpec P
  sidecar clears image c = set_sidecar clears (image c) c

  -- `SetDefaults_RegionSpec` on the deployment.
  abbrev set_region : (ContainerSpec P → String) → DeploymentSpec P → DeploymentSpec P
  set_region image d =
      let set = set_deployment image d in
      record set { dns_config = default_dns_config set.dns_config }

  -- The container of `OvnNorth`, once its deployment is set.
  abbrev set_north : (ContainerSpec P → String) → DeploymentSpec P → DeploymentSpec P
  set_north image d = record d { container = sidecar clear image d.container }

  abbrev set_host_image : (ContainerSpec P → String) → DaemonSetSpec P → DaemonSetSpec P
  set_host_image image d = record d { container = sidecar clear image d.container }

  -- `setDefaults_EChartsSpec` and `setDefaults_Cloudmux`.
  unfoldable pub set_optional :
      OnecloudClusterSpec P → String → String → OptionalSpec P → OptionalSpec P
  unfolding to_deployment_spec fill_by_spec
  set_optional obj version type spec =
      fill_by_spec
        (set_deployment (image_of obj version type false false) (to_deployment_spec spec)) spec

  module _ (o : Orders) (ee support : Bool) where
    -- Keystone, the region, the monitor, and the three loops over deployments.
    unfoldable pub set_deployments : OnecloudClusterSpec P → Fields (DeploymentSpec P)
    set_deployments obj =
        let hyper = obj.use_hyper_image in
        let edition = λ (edition : Bool) (name : String) (able : Bool).
          set_deployment (edition_image_of obj name (able && hyper) edition) in
        update "ovn-north" (set_north (image_of obj "2.12.4-20260415" "openvswitch" false ee)) (
          for_range o.support (edition support) (
            for_range o.edition (edition ee) (
              for_range o.shared
                (λ name able. set_deployment (image_of obj obj.version name (able && hyper) ee))
                (update "monitor" (edition ee "monitor" true) (
                  update "region" (set_region (edition_image_of obj "region" hyper ee)) (
                    update "keystone"
                      (set_deployment (image_of obj obj.version "keystone" hyper ee))
                      obj.deployments))))))

    unfoldable pub set_stateful : OnecloudClusterSpec P → Fields (StatefulDeploymentSpec P)
    set_stateful obj =
        for_range o.stateful
          (λ name s spec.
            set_stateful_spec clear s.size
              (image_of obj (stateful_version obj s.own_version) name
                (s.hyper && obj.use_hyper_image) ee spec.deployment.container)
              spec)
          obj.stateful

    -- The DNS of the region, the loop over daemon sets, the image of host-image, and Telegraf.
    unfoldable pub set_daemon_sets : OnecloudClusterSpec P → Fields (DaemonSetSpec P)
    set_daemon_sets obj =
        update "telegraf" (set_daemon_set (image_of obj "release-1.36.4-13" "telegraf" false ee)) (
          update "host-image" (set_host_image (image_of obj "v1.0.10" "host-image" false ee)) (
            for_range o.daemons
              (λ name _.
                set_daemon_set
                  (image_of obj obj.version name (hyper_daemon name && obj.use_hyper_image) ee))
              (update "region-dns"
                (set_daemon_set (image_of obj obj.version "region-dns" false false))
                obj.daemon_sets)))

    -- Only the container of the notify plugins is never cleared.
    unfoldable pub set_sidecars : OnecloudClusterSpec P → Fields (ContainerSpec P)
    set_sidecars obj =
        let hyper = obj.use_hyper_image in
        let ovn = sidecar clear (image_of obj "2.12.4-20260415" "openvswitch" false ee) in
        update "notify.plugins" (sidecar false (image_of obj obj.version "notify-plugins" false ee))
          (update "telegraf.telegraf_raid"
            (sidecar clear (image_of obj "v4.0-20260115.0" "telegraf-raid-plugin" false ee))
            (update "lbagent.ovn_controller" ovn (
              update "host_agent.host_health"
                (sidecar clear (image_of obj "v0.0.5" "host-health" false ee))
                (update "host_agent.ovn_controller" ovn (
                  update "host_agent.sdn_agent"
                    (sidecar clear (image_of obj obj.version "sdnagent" hyper ee))
                    (update "webconsole.guacd"
                      (sidecar clear (image_of obj "1.6.0" "guacd" false false))
                      (update "web.docs"
                        (sidecar clear (image_of obj obj.version "docs-ee" false ee))
                        (update "web.overview"
                          (sidecar clear (image_of obj obj.version "dashboard-overview" false ee))
                          obj.sidecars))))))))

    -- The image of Telegraf's init container takes the repository of its daemon set.
    unfoldable pub init_image : OnecloudClusterSpec P → String
    init_image obj =
        get_image obj.image_repository (obj.daemon_sets "telegraf").container.repository
          "telegraf-init" "" "release-1.36-1" "" false ee

    -- What remains once the globals are set. Every part reads the repository, the version and the
    -- use of hyper images, which no part writes.
    unfoldable pub set_parts : OnecloudClusterSpec P → OnecloudClusterSpec P
    unfolding set_deployments set_stateful set_daemon_sets set_sidecars init_image set_optional
    set_parts obj = record obj {
      deployments = set_deployments obj;
      cloudmux = set_optional obj obj.version "cloudmux" obj.cloudmux;
      dns_domain = or_default obj.dns_domain "";
      default_qemu_version = or_default obj.default_qemu_version "10.0.7";
      host_max_unavailable = or_number obj.host_max_unavailable 3;
      lbagent_max_unavailable = or_number obj.lbagent_max_unavailable 3;
      daemon_sets = set_daemon_sets obj;
      sidecars = set_sidecars obj;
      telegraf_init_image = init_image obj;
      stateful = set_stateful obj;
      retention_period_days = or_number obj.retention_period_days 93;
      node_ports = for_range service_ports (λ name port own. or_number own port) obj.node_ports;
      echarts_ssr = set_optional obj "v0.0.6" "echarts-ssr" obj.echarts_ssr;
    }

    unfoldable pub default_spec :
        (ℕ → String) → OnecloudClusterSpec P × ℕ → OnecloudClusterSpec P × ℕ
    unfolding fill_password set_monitor_stack set_globals set_parts fill_passwords
    default_spec draw s = fill_passwords draw (set_parts (set_globals s.0)) s.1
