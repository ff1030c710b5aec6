-- ===== src/Volumes/Sound.antt =====
-- What a pod needs of its volumes, for every helper of pkg/manager/component/utils.go.
use cloudpods_operator.Prelude.{
  String, ◌≡◌, refl, inl, inr, Bool, true, Bool-cases, not, ◌&&◌, List, [], ◌∷◌, map, str_eq,
  some_of, every, is_none,
}
use cloudpods_operator.Volumes.{VolumeCluster, VolumeHelper, get_config_volume_mount}
use cloudpods_operator.Volumes.Builders.{
  tls_enabled, new_volume_helper, new_volume_helper_with_etcd_tls, new_host_volume,
  new_ovs_volume_helper, new_host_image_volume_helper, new_host_deployer_volume,
}

abbrev pub all_distinct : List String → Bool
all_distinct [] = true
all_distinct (x ∷ xs) = not (some_of (str_eq x) xs) && all_distinct xs

-- Every mount is of a volume of the pod, every volume is mounted, and neither two volumes share a
-- name nor two mounts a path: what the API server asks of a pod, and that no volume is idle.
abbrev pub is_sound : VolumeHelper → Bool
is_sound h =
    every (λ m. some_of (λ v. str_eq m.name v.name) h.volumes) h.volume_mounts
    && (every (λ v. some_of (λ m. str_eq m.name v.name) h.volume_mounts) h.volumes
        && (all_distinct (map (λ v. v.name) h.volumes)
            && all_distinct (map (λ m. m.mount_path) h.volume_mounts)))

new_volume_helper_sound :
    (oc : VolumeCluster) (cfg component : String)
    → is_sound (new_volume_helper oc cfg component) ≡ true
unfolding new_volume_helper
new_volume_helper_sound oc cfg component = elim (Bool-cases (str_eq cfg "")) [
  | inl e ↦ rw e
  | inr e ↦ rw e
]

abbrev wants_tls : VolumeCluster → Bool
wants_tls oc = not oc.etcd_disable && tls_enabled oc.etcd_enable_tls

with_etcd_tls_sound :
    (oc : VolumeCluster) (cfg component : String)
    → is_sound (new_volume_helper_with_etcd_tls oc cfg component) ≡ true
unfolding new_volume_helper_with_etcd_tls
with_etcd_tls_sound oc cfg component = elim (Bool-cases (str_eq cfg "")) [
  | inl e ↦ elim (Bool-cases (wants_tls oc)) [ inl d ↦ rw (e, d) | inr d ↦ rw (e, d) ]
  | inr e ↦ elim (Bool-cases (wants_tls oc)) [ inl d ↦ rw (e, d) | inr d ↦ rw (e, d) ]
]

new_host_volume_sound :
    (oc : VolumeCluster) (cfg component : String)
    → is_sound (new_host_volume component oc cfg) ≡ true
unfolding new_host_volume
new_host_volume_sound oc cfg component = elim (Bool-cases (wants_tls oc)) [
  | inl d ↦ rw d
  | inr d ↦ rw d
]

fixed_sound :
    (oc : VolumeCluster) (cfg component : String)
    → (is_sound (new_ovs_volume_helper component oc cfg) ≡ true)
      × (is_sound (new_host_image_volume_helper component oc cfg) ≡ true)
      × (is_sound (new_host_deployer_volume component oc cfg) ≡ true)
unfolding new_ovs_volume_helper new_host_image_volume_helper new_host_deployer_volume
fixed_sound oc cfg component = (refl, refl, refl)

-- The volumes of every kind of pod fit: of each helper, the mounts are of volumes the pod has,
-- every volume is mounted, no two volumes share a name, and no two mounts a path, whatever the
-- cluster, the config map and the component.
pub volume_helpers_sound :
    (oc : VolumeCluster) (cfg component : String)
    → (is_sound (new_volume_helper oc cfg component) ≡ true)
      × (is_sound (new_volume_helper_with_etcd_tls oc cfg component) ≡ true)
      × (is_sound (new_host_volume component oc cfg) ≡ true)
      × (is_sound (new_ovs_volume_helper component oc cfg) ≡ true)
      × (is_sound (new_host_image_volume_helper component oc cfg) ≡ true)
      × (is_sound (new_host_deployer_volume component oc cfg) ≡ true)
volume_helpers_sound oc cfg component = (
  new_volume_helper_sound oc cfg component,
  with_etcd_tls_sound oc cfg component,
  new_host_volume_sound oc cfg component,
  (fixed_sound oc cfg component).0,
  (fixed_sound oc cfg component).1,
  (fixed_sound oc cfg component).2,
)

-- The mount of the configuration is there exactly where the helper was given a config map.
pub get_config_volume_mount-new_volume_helper :
    (oc : VolumeCluster) (cfg component : String)
    → is_none (get_config_volume_mount (new_volume_helper oc cfg component).volume_mounts)
      ≡ str_eq cfg ""
unfolding get_config_volume_mount new_volume_helper
get_config_volume_mount-new_volume_helper oc cfg component = elim (Bool-cases (str_eq cfg "")) [
  | inl e ↦ rw e
  | inr e ↦ rw e
]
