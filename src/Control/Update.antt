-- ===== src/Control/Update.antt =====
-- `UpdateOnecloudCluster` and `updateOnecloudCluster` of
-- pkg/controller/cluster/onecloud_cluster_control.go.
use cloudpods_operator.Prelude.{String, Bool, true, false, not, ◌&&◌, List, [], ◌∷◌, if◌then◌else◌}
use cloudpods_operator.Exec.{
  in_context, wrap, Outcome, ok, err, panic, Exec, Void, done, ◌>>◌, annotate, ignore, change, skip,
  for_each,
}

-- What the control calls: the managers of the configuration, of the certificates and of each
-- component, which may change the cluster and the world; the database check; the write of the
-- cluster; the time that has passed. A component stands under the name of its manager.
pub record Managers (S : Type 0) : Type 0 where
  pub sync_config : Exec S Void
  pub sync_certs : Exec S Void
  pub sync_part : String → Exec S Void
  -- the order in which the group's goroutines happen to run
  pub schedule : List String → List String
  -- `oc.Status.SpecChecksum = ...`; the encoding of the specification may fail
  pub put_checksum : Exec S Void
  pub is_check_due : S → Bool
  pub check_mysql : Exec S Void
  pub set_check_time : S → S
  -- `DeepEqual` on the status before and after
  pub is_same_status : S → S → Bool
  pub write_cluster : Exec S Void

abbrev pub component_list : List String
component_list =
    "Keystone" ∷ "VictoriaMetrics" ∷ "Telegraf" ∷ "Region" ∷ "Scheduler" ∷ "KubeServer"
    ∷ "Webconsole" ∷ "Glance" ∷ "RegionDNS" ∷ "Yunionagent" ∷ "AnsibleServer" ∷ "APIGateway"
    ∷ "Meter" ∷ "Billing" ∷ "EsxiAgent" ∷ "OvnNorth" ∷ "APIMap" ∷ "VpcAgent" ∷ "HostDeployer"
    ∷ "HostImage" ∷ "Host" ∷ "HostSdnagent" ∷ "HostOvnController" ∷ "HostOvsdbServer"
    ∷ "HostOvsVswitchd" ∷ "HostHealth" ∷ "Monitor" ∷ "Cloudmon" ∷ "Web" ∷ []

abbrev pub depend_components : List String
depend_components =
    "Logger" ∷ "Climc" ∷ "Cloudmux" ∷ "AutoUpdate" ∷ "Cloudnet" ∷ "Cloudproxy" ∷ "Cloudevent"
    ∷ "Devtool" ∷ "Yunionconf" ∷ "S3gateway" ∷ "Notify" ∷ "Baremetal" ∷ "ServiceOperator" ∷ "Itsm"
    ∷ "CloudId" ∷ "Suggestion" ∷ "Scheduledtask" ∷ "Report" ∷ "Lbgent" ∷ "EChartsSSR"
    ∷ "BastionHost" ∷ "Extdb" ∷ "LLM" ∷ "McpServer" ∷ "AiProxy" ∷ []

abbrev pub addon_components : List String
addon_components = "MonitorStack" ∷ []

-- `errgroup`: every part runs, and the error is that of the first to fail.
abbrev pub first_error : Outcome Void → Outcome Void → Outcome Void
first_error (ok a) r = r
first_error (err e) (ok a) = err e
first_error (err e) (err x) = err e
first_error (err e) panic = panic
first_error panic r = panic

-- The errors of the update and of the write, of which an aggregate shows the first.
abbrev pub aggregate : Outcome Void → Outcome Void → Outcome Void
aggregate (ok a) (ok b) = done
aggregate (ok a) (err e) = err (in_context e)
aggregate (ok a) panic = panic
aggregate (err e) (ok a) = err (in_context e)
aggregate (err e) (err x) = err (in_context e)
aggregate (err e) panic = panic
aggregate panic r = panic

abbrev pub is_stuck : Outcome Void → Bool
is_stuck panic = true
is_stuck _ = false

module _ {S : Type 0} (managers : Managers S) where
  open managers use {
    sync_config, sync_certs, sync_part, schedule, put_checksum, is_check_due, check_mysql,
    set_check_time, is_same_status, write_cluster,
  }

  unfoldable pub reconcile_component : String → Exec S Void
  reconcile_component c = annotate wrap (sync_part c)

  -- With the services being stopped, an error is logged.
  unfoldable pub sync_listed : Bool → String → Exec S Void
  sync_listed stop c =
      if stop then ignore (reconcile_component c) else annotate wrap (reconcile_component c)

  unfoldable pub run_group : List String → Exec S Void
  run_group [] s = (done, s)
  run_group (c ∷ cs) s = (
    first_error (reconcile_component c s).0 (run_group cs (reconcile_component c s).1).0,
    (run_group cs (reconcile_component c s).1).1,
  )

  unfoldable pub check_when_due : Exec S Void
  check_when_due s =
      (if is_check_due s then ignore check_mysql >> change set_check_time else skip) s

  unfoldable pub update_onecloud_cluster : Bool → Exec S Void
  update_onecloud_cluster stop = do
    annotate wrap sync_config
    annotate wrap sync_certs
    annotate wrap (sync_part "Etcd")
    for_each component_list (sync_listed stop)
    run_group (schedule depend_components)
    for_each addon_components (λ c. ignore (reconcile_component c))
    annotate wrap put_checksum
    check_when_due

  -- `clear` is the flag ClearComponent. The cluster is written where its status has changed, also
  -- after an error.
  unfoldable pub write_if_changed : Bool → S → Exec S Void
  write_if_changed clear before s =
      (if is_same_status s before && not clear then skip else write_cluster) s

  unfoldable pub update_cluster : Bool → Bool → Exec S Void
  update_cluster stop clear s =
      let r = update_onecloud_cluster stop s in
      if is_stuck r.0
      then r
      else (aggregate r.0 (write_if_changed clear s r.1).0, (write_if_changed clear s r.1).1)
