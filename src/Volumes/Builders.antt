-- ===== src/Volumes/Builders.antt =====
-- The methods and constructors of `VolumeHelper`, in pkg/manager/component/utils.go.
use Prim.Native.String.{◌++◌ as join}
use cloudpods_operator.Prelude.{
  String, Bool, true, false, not, ◌&&◌, Option, none, some, [], ◌∷◌, str_eq, if◌then◌else◌,
}
use cloudpods_operator.Volumes.{
  directory, directory_or_create, VolumeSource, secret, config_map, host_path, persistent_claim,
  Volume, VolumeMount, VolumeCluster, VolumeHelper, cluster_cert_secret_name, append_volumes,
}

abbrev volume : String → VolumeSource → Volume
volume name source = record { name = name; source = source }

abbrev mount : String → Bool → String → VolumeMount
mount name read_only path = record {
  name = name;
  read_only = read_only;
  mount_path = path;
  bidirectional = false;
}

abbrev shared_mount : String → String → VolumeMount
shared_mount name path = record {
  name = name;
  read_only = false;
  mount_path = path;
  bidirectional = true;
}

-- The secret with the certificates of the cluster, as a volume.
abbrev certs_volume : VolumeCluster → Volume
certs_volume oc = volume "certs" (
    secret (cluster_cert_secret_name oc) (
      record { key = "ca.crt"; path = "ca.crt" }
      ∷ record { key = "service.crt"; path = "service.crt" }
      ∷ record { key = "service.key"; path = "service.key" }
      ∷ []))

abbrev certs_mount : VolumeMount
certs_mount = mount "certs" true "/etc/yunion/pki"

abbrev config_volume : String → String → Volume
config_volume cfg_map file =
    volume "config" (config_map cfg_map (record { key = "config"; path = file } ∷ []))

-- path.Join(constants.ConfigDir, "common")
abbrev common_mount : VolumeMount
common_mount = mount "config" true "/etc/yunion/common"

abbrev empty_helper : String → VolumeCluster → String → VolumeHelper
empty_helper component oc cfg_map = record {
  cluster = oc;
  option_cfg_map = cfg_map;
  component = component;
  volumes = [];
  volume_mounts = [];
}

unfoldable pub new_volume_helper : VolumeCluster → String → String → VolumeHelper
new_volume_helper oc cfg_map component =
    let h =
      append_volumes (certs_volume oc ∷ []) (certs_mount ∷ [])
        (empty_helper component oc cfg_map) in
    if not (str_eq cfg_map "")
    then append_volumes (config_volume cfg_map (join component ".conf") ∷ [])
        (mount "config" true "/etc/yunion" ∷ []) h
    else h

unfoldable pub add_vmware_volumes : VolumeHelper → VolumeHelper
add_vmware_volumes =
    append_volumes (volume "var-run-vmware" (host_path "/var/run/vmware" directory_or_create) ∷ [])
      (shared_mount "var-run-vmware" "/var/run/vmware" ∷ [])

unfoldable pub add_onecloud_volumes : VolumeHelper → VolumeHelper
add_onecloud_volumes =
    append_volumes
      (volume "var-run-onecloud" (host_path "/var/run/onecloud" directory_or_create) ∷ [])
      (shared_mount "var-run-onecloud" "/var/run/onecloud" ∷ [])

abbrev pub tls_enabled : Option Bool → Bool
tls_enabled none = true
tls_enabled (some b) = b

unfoldable pub add_etcd_client_tls_volumes : VolumeCluster → VolumeHelper → VolumeHelper
add_etcd_client_tls_volumes oc h =
    if not oc.etcd_disable && tls_enabled oc.etcd_enable_tls
    then append_volumes (volume "etcd-client" (secret "etcd-client" []) ∷ [])
        (mount "etcd-client" true "/etc/etcdtls/operator/etcd-tls" ∷ []) h
    else h

unfoldable pub add_lib_modules_volume : VolumeHelper → VolumeHelper
add_lib_modules_volume =
    append_volumes (volume "lib-modules" (host_path "/lib/modules" directory_or_create) ∷ [])
      (mount "lib-modules" false "/lib/modules" ∷ [])

unfoldable pub add_ovs_volumes : VolumeHelper → VolumeHelper
add_ovs_volumes =
    append_volumes
      (volume "var-run-openvswitch" (host_path "/var/run/openvswitch" directory_or_create)
        ∷ volume "var-log-openvswitch" (host_path "/var/log/openvswitch" directory_or_create)
        ∷ volume "etc-openvswitch" (host_path "/etc/openvswitch" directory_or_create)
        ∷ [])
      (mount "var-run-openvswitch" false "/var/run/openvswitch"
        ∷ mount "var-log-openvswitch" false "/var/log/openvswitch"
        ∷ mount "etc-openvswitch" false "/etc/openvswitch"
        ∷ [])

unfoldable pub new_volume_helper_with_etcd_tls : VolumeCluster → String → String → VolumeHelper
unfolding new_volume_helper add_etcd_client_tls_volumes
new_volume_helper_with_etcd_tls oc cfg_map component =
    add_etcd_client_tls_volumes oc (new_volume_helper oc cfg_map component)

-- A volume of a claim, with its mount.
pub record PvcVolumePair : Type 0 where
  pub name : String
  pub mount_path : String
  pub claim_name : String

unfoldable pub get_volume : PvcVolumePair → Volume
get_volume p = volume p.name (persistent_claim p.claim_name)

unfoldable pub get_pair_mount : PvcVolumePair → VolumeMount
get_pair_mount p = mount p.name false p.mount_path

unfoldable pub new_host_volume : String → VolumeCluster → String → VolumeHelper
unfolding add_etcd_client_tls_volumes add_ovs_volumes add_vmware_volumes add_onecloud_volumes
new_host_volume component oc cfg_map = add_etcd_client_tls_volumes oc (
    add_ovs_volumes (
      add_vmware_volumes (
        add_onecloud_volumes (record (empty_helper component oc cfg_map) {
          volume_mounts =
              mount "etc-yunion" false "/etc/yunion"
              ∷ certs_mount
              ∷ common_mount
              ∷ shared_mount "cloud" "/opt/cloud"
              ∷ mount "usr" false "/usr/local"
              ∷ mount "dev" false "/dev"
              ∷ mount "sys" false "/sys"
              ∷ shared_mount "tmp" "/tmp"
              ∷ [];
          volumes =
              volume "etc-yunion" (host_path "/etc/yunion" directory)
              ∷ certs_volume oc
              ∷ config_volume cfg_map "common.conf"
              ∷ volume "cloud" (host_path "/opt/cloud" directory)
              ∷ volume "usr" (host_path "/usr/local" directory)
              ∷ volume "dev" (host_path "/dev" directory)
              ∷ volume "sys" (host_path "/sys" directory)
              ∷ volume "tmp" (host_path "/tmp" directory)
              ∷ [];
        }))))

unfoldable pub new_ovs_volume_helper : String → VolumeCluster → String → VolumeHelper
unfolding add_lib_modules_volume add_ovs_volumes
new_ovs_volume_helper component oc cfg_map =
    add_lib_modules_volume (add_ovs_volumes (empty_helper component oc cfg_map))

unfoldable pub new_host_image_volume_helper : String → VolumeCluster → String → VolumeHelper
unfolding add_onecloud_volumes
new_host_image_volume_helper component oc cfg_map =
    add_onecloud_volumes (record (empty_helper component oc cfg_map) {
      volumes =
          volume "etc-yunion" (host_path "/etc/yunion" directory)
          ∷ certs_volume oc
          ∷ config_volume cfg_map "common.conf"
          ∷ [];
      volume_mounts = mount "etc-yunion" false "/etc/yunion" ∷ certs_mount ∷ common_mount ∷ [];
    })

unfoldable pub new_host_deployer_volume : String → VolumeCluster → String → VolumeHelper
unfolding add_vmware_volumes add_onecloud_volumes
new_host_deployer_volume component oc cfg_map = add_vmware_volumes (
    add_onecloud_volumes (record (empty_helper component oc cfg_map) {
      volume_mounts =
          mount "etc-yunion" false "/etc/yunion"
          ∷ common_mount
          ∷ shared_mount "cloud" "/opt/cloud"
          ∷ mount "usr" false "/usr/local"
          ∷ mount "dev" false "/dev"
          ∷ mount "sys" false "/sys"
          ∷ [];
      volumes =
          volume "etc-yunion" (host_path "/etc/yunion" directory_or_create)
          ∷ config_volume cfg_map "common.conf"
          ∷ volume "cloud" (host_path "/opt/cloud" directory_or_create)
          ∷ volume "dev" (host_path "/dev" directory)
          ∷ volume "usr" (host_path "/usr/local" directory)
          ∷ volume "sys" (host_path "/sys" directory)
          ∷ [];
    }))
