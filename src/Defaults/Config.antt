-- ===== src/Defaults/Config.antt =====
-- `SetDefaults_OnecloudClusterConfig` of pkg/apis/onecloud/v1alpha1/defaults.go: the ports, users
-- and databases of the services. `draw` is the source of passwords, and the number beside a value
-- counts those that are drawn.
use Prim.Native.String.{◌++◌ as join}
use mathlib.Core.Option
use cloudpods_operator.Prelude.{
  ℕ, ◌+◌, String, Option, none, some, List, [], ◌∷◌, ◌==◌, some_of, if◌then◌else◌,
}
use cloudpods_operator.Defaults.Types.{Fields, set_at}
use cloudpods_operator.Defaults.Image.{or_default}
use cloudpods_operator.Defaults.Parts.{or_number}
use cloudpods_operator.Defaults.Spec.{fill_password}
use cloudpods_operator.Defaults.Options.{
  DbConfig, CloudUser, ServiceCommonOptions, ServiceDbCommonOptions, GlobalServiceCommonConfig,
  KeystoneConfig, OnecloudClusterConfig, UserPort, UserDbPort,
}

abbrev pub set_global_common_config : GlobalServiceCommonConfig → GlobalServiceCommonConfig
set_global_common_config g = record {
  cron_job_worker_count = or_number g.cron_job_worker_count 4;
  local_task_worker_count = or_number g.local_task_worker_count 4;
  request_worker_count = or_number g.request_worker_count 8;
  task_worker_count = or_number g.task_worker_count 4;
}

module _ (draw : ℕ → String) where
  unfoldable pub set_db_config : String → String → DbConfig → ℕ → DbConfig × ℕ
  unfolding fill_password
  set_db_config database username obj n =
      let password = fill_password draw n obj.password in
      (
        record {
          database = or_default obj.database database;
          username = or_default obj.username username;
          password = password.0;
        },
        password.1,
      )

  unfoldable pub set_cloud_user : String → CloudUser → ℕ → CloudUser × ℕ
  unfolding fill_password
  set_cloud_user username obj n =
      let password = fill_password draw n obj.password in
      (record { username = or_default obj.username username; password = password.0 }, password.1)

  unfoldable pub set_service_common_options :
      String → ℕ → ServiceCommonOptions → ℕ → ServiceCommonOptions × ℕ
  unfolding set_cloud_user
  set_service_common_options user port obj n =
      let set = set_cloud_user user obj.cloud_user n in
      (record { port = or_number obj.port port; cloud_user = set.0 }, set.1)

  unfoldable pub set_service_db_common_options :
      UserDbPort → ServiceDbCommonOptions → ℕ → ServiceDbCommonOptions × ℕ
  unfolding set_db_config set_service_common_options
  set_service_db_common_options svc obj n =
      let db = set_db_config svc.db svc.db_user obj.db n in
      let clickhouse = set_db_config svc.db svc.db_user obj.clickhouse_conf db.1 in
      let common = set_service_common_options svc.user svc.port obj.common clickhouse.1 in
      (record { common = common.0; db = db.0; clickhouse_conf = clickhouse.0 }, common.1)

  unfoldable pub set_keystone_config : KeystoneConfig → ℕ → KeystoneConfig × ℕ
  unfolding set_db_config
  set_keystone_config obj n =
      let db = set_db_config "keystone" "keystone" obj.db n in
      let clickhouse = set_db_config "keystone" "keystone" obj.clickhouse_conf db.1 in
      (
        record { port = or_number obj.port 30500; db = db.0; clickhouse_conf = clickhouse.0 },
        clickhouse.1,
      )

  -- The loop over the services without a database.
  unfoldable pub set_services :
      List (String × UserPort) → Fields ServiceCommonOptions × ℕ → Fields ServiceCommonOptions × ℕ
  unfolding set_service_common_options
  set_services [] s = s
  set_services ((name, svc) ∷ rest) s =
      let set = set_service_common_options svc.user svc.port (s.0 name) s.1 in
      set_services rest (set_at name set.0 s.0, set.1)

  -- The loop over the services with one. `log.Fatalf` ends the program where a port is registered
  -- twice: `none`.
  unfoldable pub set_db_services :
      List (String × UserDbPort)
      → List ℕ
      → Fields ServiceDbCommonOptions × ℕ
      → Option (Fields ServiceDbCommonOptions × ℕ)
  unfolding set_service_db_common_options
  set_db_services [] registry s = some s
  set_db_services ((name, svc) ∷ rest) registry s =
      let set = set_service_db_common_options svc (s.0 name) s.1 in
      let later = set_db_services rest (svc.port ∷ registry) (set_at name set.0 s.0, set.1) in
      if some_of (λ port. port == svc.port) registry then none else later

  -- What follows the two loops: Cloudmon, the second database and the key of itsm, and Grafana.
  unfoldable pub finish_config :
      OnecloudClusterConfig
      → Fields ServiceCommonOptions
      → Fields ServiceDbCommonOptions × ℕ
      → OnecloudClusterConfig × ℕ
  unfolding set_service_common_options set_db_config
  finish_config obj services s =
      let cloudmon = set_service_common_options "cloudmon" 30931 (services "cloudmon") s.1 in
      let grafana = set_db_config "grafana" "grafana" obj.grafana_db (cloudmon.1 + 1) in
      (
        record obj {
          services = set_at "cloudmon" cloudmon.0 services;
          db_services = s.0;
          itsm_second_database = join (s.0 "itsm").db.database "_engine";
          itsm_encryption_key = draw cloudmon.1;
          grafana_db = grafana.0;
        },
        grafana.1,
      )

  -- The two lists are the orders in which Go visits the two maps.
  unfoldable pub default_config :
      List (String × UserPort)
      → List (String × UserDbPort)
      → OnecloudClusterConfig × ℕ
      → Option (OnecloudClusterConfig × ℕ)
  unfolding set_keystone_config set_services set_db_services finish_config
  default_config users db_users (obj, n) =
      let keystone = set_keystone_config obj.keystone n in
      let set = record obj {
        common_config = set_global_common_config obj.common_config;
        keystone = keystone.0;
      } in
      let services = set_services users (obj.services, keystone.1) in
      Option.map (finish_config set services.0)
        (set_db_services db_users [] (obj.db_services, services.1))
