-- ===== src/Tests/OtherTests.antt =====
-- The volumes of pkg/manager/component/utils.go and the loop of pkg/controller/cluster at concrete
-- inputs.
use cloudpods_operator.Prelude.{
  Option, ◌↔◌, if◌then◌else◌, String, ◌≡◌, refl, true, false, none, some, List, [], ◌∷◌, str_eq,
  is_none,
}
use cloudpods_operator.Exec.{ok, done, skip, change}
use cloudpods_operator.Etcd.Types.{Labels}
use cloudpods_operator.Volumes.{VolumeCluster, get_config_volume_mount}
use cloudpods_operator.Volumes.Builders.{
  new_volume_helper, new_volume_helper_with_etcd_tls, new_host_volume, new_ovs_volume_helper,
  new_host_image_volume_helper, new_host_deployer_volume,
}
use cloudpods_operator.Volumes.Sound.{
  is_sound, volume_helpers_sound, get_config_volume_mount-new_volume_helper,
}
use cloudpods_operator.Control.Queue.{
  ClusterMeta, DeploymentMeta, key_of, resolve_onecloud_cluster_from_deployment, update_deployment,
}
use cloudpods_operator.Control.Resolve.{Owns, resolve_iff, update_deployment-Owns}
use cloudpods_operator.Control.Update.{
  Managers, update_onecloud_cluster, reconcile_component, sync_listed, run_group, check_when_due,
}
use cloudpods_operator.Control.Mysql.{second_statuses, reports}
use cloudpods_operator.Control.Complete.{Completed, update_onecloud_cluster-Completed}
use cloudpods_operator.Control.Notify.{failed_entry, reports-lost}

abbrev one_cluster : VolumeCluster
one_cluster = record { name = "one"; etcd_disable = false; etcd_enable_tls = none }

volume_helpers_sound_example :
    (is_sound (new_volume_helper one_cluster "one-region" "region") ≡ true)
    × (is_sound (new_volume_helper_with_etcd_tls one_cluster "one-region" "region") ≡ true)
    × (is_sound (new_host_volume "region" one_cluster "one-region") ≡ true)
    × (is_sound (new_ovs_volume_helper "region" one_cluster "one-region") ≡ true)
    × (is_sound (new_host_image_volume_helper "region" one_cluster "one-region") ≡ true)
    × (is_sound (new_host_deployer_volume "region" one_cluster "one-region") ≡ true)
volume_helpers_sound_example = volume_helpers_sound one_cluster "one-region" "region"

get_config_volume_mount-new_volume_helper_example :
    is_none (get_config_volume_mount (new_volume_helper one_cluster "" "climc").volume_mounts)
    ≡ str_eq "" ""
get_config_volume_mount-new_volume_helper_example =
    get_config_volume_mount-new_volume_helper one_cluster "" "climc"

-- Managers that keep the list of what was synced, the last first.
abbrev listing : Managers (List String)
listing = record {
  sync_config = change (λ s. "config" ∷ s);
  sync_certs = change (λ s. "certs" ∷ s);
  sync_part = λ c. change (λ s. c ∷ s);
  schedule = λ cs. cs;
  put_checksum = change (λ s. "checksum" ∷ s);
  is_check_due = λ s. false;
  check_mysql = skip;
  set_check_time = λ s. s;
  is_same_status = λ s t. false;
  write_cluster = skip;
}

listing-done : (update_onecloud_cluster listing false []).0 ≡ done
unfolding update_onecloud_cluster sync_listed reconcile_component run_group check_when_due
listing-done = refl

update_onecloud_cluster-Completed_example : Completed listing []
update_onecloud_cluster-Completed_example =
    update_onecloud_cluster-Completed listing [] listing-done

abbrev stopped_status : Labels
stopped_status =
    ("Slave_IO_Running", "No") ∷ ("Last_Error", "duplicate entry") ∷ ("IP", "10.0.0.1") ∷ []

reports-lost_example :
    reports (second_statuses "10.0.0.2" (some stopped_status) ("", none, some "connection refused"))
    ≡ failed_entry "10.0.0.2" "connection refused"
      ∷ failed_entry "10.0.0.2" "connection refused"
      ∷ []
reports-lost_example = reports-lost "10.0.0.2" "" "connection refused" stopped_status none

-- The lister knows one cluster.
abbrev one_listed : String → String → Option ClusterMeta
one_listed namespace name =
    if str_eq name "one"
    then some (record { namespace = "onecloud"; name = "one"; uid = "u1" })
    else none

abbrev region_version : String → DeploymentMeta
region_version version = record {
  namespace = "onecloud";
  deleting = false;
  resource_version = version;
  controller = some (record { kind = "OnecloudCluster"; name = "one"; uid = "u1" });
}

region-enqueued :
    update_deployment one_listed (region_version "1") (region_version "2")
    ≡ ok (some "onecloud/one")
unfolding update_deployment resolve_onecloud_cluster_from_deployment
region-enqueued = refl

update_deployment-Owns_example :
    (str_eq "2" "1" ≡ false)
    × ((oc : ClusterMeta) × (key_of oc ≡ "onecloud/one") × Owns one_listed oc (region_version "2"))
update_deployment-Owns_example =
    update_deployment-Owns one_listed (region_version "1") (region_version "2") "onecloud/one"
      region-enqueued

resolve_iff_example :
    (resolve_onecloud_cluster_from_deployment one_listed "onecloud" (region_version "2")
      ≡ some (record { namespace = "onecloud"; name = "one"; uid = "u1" }))
    ↔ Owns one_listed
        (record { namespace = "onecloud"; name = "one"; uid = "u1" })
        (region_version "2")
resolve_iff_example =
    resolve_iff one_listed (region_version "2")
      (record { namespace = "onecloud"; name = "one"; uid = "u1" })
