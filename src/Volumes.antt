-- ===== src/Volumes.antt =====
-- The volumes of the components' pods: `VolumeHelper` of pkg/manager/component/utils.go.
pub mod Builders
pub mod Sound
use Prim.Native.String.{◌++◌ as join}
use cloudpods_operator.Prelude.{
  ℕ, String, Bool, true, false, not, ◌&&◌, Option, none, some, List, [], ◌∷◌, ◌++◌, str_eq,
  if◌then◌else◌,
}

-- `HostPathType`
pub data HostPathKind : Type 0 where
  directory directory_or_create : HostPathKind

-- A key of a secret or a config map, and the file it becomes.
pub record KeyToPath : Type 0 where
  pub key : String
  pub path : String

pub data VolumeSource : Type 0 where
  secret : String → List KeyToPath → VolumeSource
  config_map : String → List KeyToPath → VolumeSource
  host_path : String → HostPathKind → VolumeSource
  -- The claim is mounted for reading and writing.
  persistent_claim : String → VolumeSource

pub record Volume : Type 0 where
  pub name : String
  pub source : VolumeSource

-- `bidirectional` is the mount propagation, where the source sets it.
pub record VolumeMount : Type 0 where
  pub name : String
  pub read_only : Bool
  pub mount_path : String
  pub bidirectional : Bool

-- The fields of the cluster that the volumes depend on.
pub record VolumeCluster : Type 0 where
  pub name : String
  pub etcd_disable : Bool
  pub etcd_enable_tls : Option Bool

pub record VolumeHelper : Type 0 where
  pub cluster : VolumeCluster
  pub option_cfg_map : String
  pub component : String
  pub volumes : List Volume
  pub volume_mounts : List VolumeMount

-- `ClustercertSecretName`
abbrev pub cluster_cert_secret_name : VolumeCluster → String
cluster_cert_secret_name oc = join oc.name (join "-" "certs")

-- `getVolumeMount`: the first mount of the name.
unfoldable pub get_volume_mount : List VolumeMount → String → Option VolumeMount
get_volume_mount [] name = none
get_volume_mount (vm ∷ rest) name =
    let found = get_volume_mount rest name in if str_eq vm.name name then some vm else found

unfoldable pub get_config_volume_mount : List VolumeMount → Option VolumeMount
unfolding get_volume_mount
get_config_volume_mount mounts = get_volume_mount mounts "config"

-- `append` on both lists.
abbrev pub append_volumes : List Volume → List VolumeMount → VolumeHelper → VolumeHelper
append_volumes vs ms h = record h {
  volumes = h.volumes ++ vs;
  volume_mounts = h.volume_mounts ++ ms;
}
