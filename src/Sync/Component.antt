-- ===== src/Sync/Component.antt =====
-- `syncComponent` of pkg/manager/component/sync.go and `multiZoneSync` of component.go: the parts
-- of a component, in their order.
use cloudpods_operator.Prelude.{
  String, Bool, true, false, not, ◌&&◌, ◌||◌, Option, none, some, List, [], ◌∷◌, ◌++◌, str_eq,
  if◌then◌else◌, some_of, select,
}
use cloudpods_operator.Exec.{
  Reply, good, bad, already_exists, api_error, other_error, in_context, wrap, Outcome, ok, err,
  panic, Exec, Void, done, ◌>>=◌, ◌>>◌, annotate, ignore, skip, fail, for_each,
}
use cloudpods_operator.Sync.Objects.{
  ServiceObject, IngressObject, DaemonSet, CronJob, Deployment, ConfigMap, Claim,
}
use cloudpods_operator.Sync.Kube.{Kube, ask, look_up, encoded}
use cloudpods_operator.Sync.Annotate.{set_config_map_last_applied}
use cloudpods_operator.Sync.Kinds.{
  lift, sync_services, sync_ingress, sync_daemon_set, sync_cron_job, sync_claim,
}
use cloudpods_operator.Sync.Deploy.{sync_deployment}

-- The fields of an `OnecloudCluster` that syncing reads itself.
pub record OnecloudCluster : Type 0 where
  pub product_version : String
  pub clickhouse_host : String
  pub zone : String
  pub custom_zones : List String

-- The flags of pkg/controller.
pub record Flags : Type 0 where
  pub stop_services : Bool
  pub disable_sync_ingress : Bool

-- `cloudComponentFactory`: what a component asks for in a zone. `post` is what runs after its
-- deployments are synced.
pub record Factory (kube : Kube) : Type 0 where
  pub component_type : String
  pub product_versions : List String
  pub is_disabled : OnecloudCluster → Bool
  pub database : kube.Config → Option kube.P
  pub is_dameng : OnecloudCluster → Bool
  pub clickhouse : kube.Config → Option kube.P
  pub is_enterprise : OnecloudCluster → Bool
  pub account : kube.Config → Option kube.P
  pub ensure_dameng : kube.P → kube.World → Reply Void × kube.World
  pub ensure_mysql : kube.P → kube.World → Reply Void × kube.World
  pub ensure_clickhouse : kube.P → kube.World → Reply Void × kube.World
  pub ensure_account : kube.P → kube.World → Reply Void × kube.World
  pub config_map :
      OnecloudCluster
      → kube.Config
      → String
      → kube.World
      → Reply (Option (ConfigMap kube.P × Bool)) × kube.World
  pub claim : OnecloudCluster → String → kube.World → Reply (Option (Claim kube.P)) × kube.World
  pub deployment :
      OnecloudCluster
      → kube.Config
      → String
      → kube.World
      → Reply (Option (Deployment kube.P)) × kube.World
  pub read_only : OnecloudCluster → String → Deployment kube.P → Option (Deployment kube.P)
  pub post : OnecloudCluster → String → Exec kube.World Void
  pub daemon_set :
      OnecloudCluster
      → kube.Config
      → String
      → kube.World
      → Reply (Option (DaemonSet kube.P)) × kube.World
  pub cron_job :
      OnecloudCluster
      → kube.Config
      → String
      → kube.World
      → Reply (Option (CronJob kube.P)) × kube.World
  pub service : OnecloudCluster → kube.Config → String → List (ServiceObject kube.P)
  pub ingress : OnecloudCluster → String → Option (IngressObject kube.P)
  pub update_ingress : OnecloudCluster → IngressObject kube.P → IngressObject kube.P
  pub has_phase : OnecloudCluster → String → Bool
  pub setup_phase : kube.World → Reply Void × kube.World
  pub init_system : OnecloudCluster → kube.World → Reply Void × kube.World
  pub sync_client : OnecloudCluster → Option (kube.World → Reply Void × kube.World)

abbrev product_version_list : List String
product_version_list = "FullStack" ∷ "CMP" ∷ "Edge" ∷ "LightEdge" ∷ "AI" ∷ []

unfoldable pub is_valid_product_version : OnecloudCluster → Bool
is_valid_product_version oc = some_of (str_eq oc.product_version) product_version_list

-- `GetZones`
abbrev pub get_zones : OnecloudCluster → List String
get_zones oc = oc.custom_zones ++ (oc.zone ∷ [])

module _ (kube : Kube) (flags : Flags) (f : Factory kube) where
  open kube use {World, P, Config, config_maps, get_config}

  unfoldable pub is_in_product_version : OnecloudCluster → Bool
  is_in_product_version oc = some_of (str_eq oc.product_version) f.product_versions

  -- A nil value of a factory ends the sync of its kind.
  abbrev pub when_some : {A : Type 0} → Option A → (A → Exec World Void) → Exec World Void
  when_some none body = skip
  when_some (some a) body = body a

  unfoldable pub ensure_database : OnecloudCluster → Config → Exec World Void
  ensure_database oc cfg =
      when_some (f.database cfg) (λ db.
        annotate wrap (ask (if f.is_dameng oc then f.ensure_dameng db else f.ensure_mysql db)))

  unfoldable pub ensure_clickhouse : OnecloudCluster → Config → Exec World Void
  ensure_clickhouse oc cfg =
      if str_eq oc.clickhouse_host ""
      then skip
      else when_some (f.clickhouse cfg)
          (λ db. if f.is_enterprise oc then annotate wrap (ask (f.ensure_clickhouse db)) else skip)

  -- The value says whether the sync goes on: with the services stopped, an account that cannot be
  -- ensured ends it without an error.
  abbrev pub ensured : Bool → Outcome Void → Outcome Bool
  ensured stop (ok a) = ok true
  ensured true (err e) = ok false
  ensured false (err e) = err (wrap e)
  ensured stop panic = panic

  unfoldable pub ensure_account : Config → Exec World Bool
  ensure_account cfg s = (
    ensured flags.stop_services (when_some (f.account cfg) (λ a. ask (f.ensure_account a)) s).0,
    (when_some (f.account cfg) (λ a. ask (f.ensure_account a)) s).1,
  )

  -- `CreateOrUpdateConfigMap`
  abbrev pub created_or_updated : Reply Void → Bool
  created_or_updated (bad already_exists) = true
  created_or_updated _ = false

  unfoldable pub create_or_update : ConfigMap P → Exec World Void
  create_or_update cm s =
      let made = config_maps.create cm s in
      elim made.0 [
        | good _ ↦ (done, made.1)
        | bad e ↦
            (if created_or_updated (bad e)
                then annotate wrap (ask (config_maps.update cm))
                else fail (wrap (api_error e)))
              made.1
      ]

  -- An existing config map is left alone, unless the factory insists.
  unfoldable pub settle_config_map : ConfigMap P → Option (ConfigMap P) → Exec World Void
  settle_config_map new none = create_or_update new
  settle_config_map new (some old) = skip

  unfoldable pub write_config_map : ConfigMap P × Bool → Exec World Void
  write_config_map (cm, force) = do
    new ← lift (encoded (set_config_map_last_applied kube cm))
    if force
        then create_or_update new
        else (look_up (config_maps.get new.name) >>= settle_config_map new)

  unfoldable pub sync_config_map : OnecloudCluster → String → Exec World Void
  sync_config_map oc zone = if not (is_in_product_version oc) then skip else (do
    cfg ← annotate wrap (ask get_config)
    ensure_database oc cfg
    ensure_clickhouse oc cfg
    goes_on ← ensure_account cfg
    if goes_on
        then annotate wrap
            (annotate wrap (ask (f.config_map oc cfg zone)) >>= λ cm. when_some cm write_config_map)
        else skip)

  unfoldable pub sync_pvc : OnecloudCluster → String → Exec World Void
  sync_pvc oc zone =
      if not (is_in_product_version oc)
      then skip
      else (ask (f.claim oc zone) >>= λ new. when_some new (sync_claim kube))

  abbrev pub unwanted : List String → OnecloudCluster → Bool
  unwanted exempt oc =
      not (is_in_product_version oc)
      || (flags.stop_services && not (some_of (str_eq f.component_type) exempt))
      || f.is_disabled oc

  unfoldable pub sync_deployments : OnecloudCluster → String → Exec World Void
  sync_deployments oc zone = do
    cfg ← annotate wrap (ask get_config)
    new ← annotate wrap (ask (f.deployment oc cfg zone))
    when_some new (
        sync_deployment kube (f.post oc zone) (unwanted ("ovn-north" ∷ "influxdb" ∷ []) oc)
          (f.read_only oc zone))

  unfoldable pub sync_daemon_sets : OnecloudCluster → String → Exec World Void
  sync_daemon_sets oc zone = do
    cfg ← ask get_config
    new ← ask (f.daemon_set oc cfg zone)
    when_some new (sync_daemon_set kube (unwanted ("host" ∷ []) oc))

  unfoldable pub sync_cron_jobs : OnecloudCluster → String → Exec World Void
  sync_cron_jobs oc zone = do
    cfg ← ask get_config
    new ← ask (f.cron_job oc cfg zone)
    when_some new (sync_cron_job kube (is_in_product_version oc))

  unfoldable pub sync_service : OnecloudCluster → String → Exec World Void
  sync_service oc zone = do
    cfg ← annotate wrap (ask get_config)
    sync_services kube (is_in_product_version oc) (f.service oc cfg zone)

  unfoldable pub sync_ingresses : OnecloudCluster → String → Exec World Void
  sync_ingresses oc zone =
      when_some (f.ingress oc zone)
        (sync_ingress kube (f.update_ingress oc) (is_in_product_version oc))

  unfoldable pub sync_phase : OnecloudCluster → String → Exec World Void
  sync_phase oc zone =
      if flags.stop_services
        || not (f.has_phase oc zone)
        || not (is_in_product_version oc)
        || f.is_disabled oc
      then skip
      else (do
        ask f.setup_phase
        ask (f.init_system oc)
        when_some (f.sync_client oc) (λ run. ignore (ask run)))

  unfoldable pub sync_component : OnecloudCluster → String → Exec World Void
  sync_component oc zone =
      if not (is_valid_product_version oc)
      then fail (wrap (in_context (api_error other_error)))
      else (do
        annotate wrap (sync_config_map oc zone)
        annotate wrap (sync_pvc oc zone)
        annotate wrap (sync_deployments oc zone)
        annotate wrap (sync_daemon_sets oc zone)
        annotate wrap (sync_cron_jobs oc zone)
        annotate wrap (sync_service oc zone)
        if flags.disable_sync_ingress then skip else annotate wrap (sync_ingresses oc zone)
        annotate wrap (sync_phase oc zone))

  -- The zones that are asked for, where any are, must be custom ones.
  unfoldable pub wanted_zones : OnecloudCluster → List String → List String
  wanted_zones oc [] = get_zones oc
  wanted_zones oc (z ∷ zs) = select (λ x. some_of (str_eq x) oc.custom_zones) (z ∷ zs)

  unfoldable pub multi_zone_sync : OnecloudCluster → List String → Exec World Void
  multi_zone_sync oc wanted =
      for_each (wanted_zones oc wanted)
        (λ zone. sync_component oc (if str_eq zone oc.zone then "" else zone))
