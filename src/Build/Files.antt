-- ===== src/Build/Files.antt =====
-- The files that a container finds in the config maps of its pod, with the volumes of
-- pkg/manager/component/utils.go.
use Prim.Native.String.{◌++◌ as join}
use text.Mathlib.TextLemmas.{append_assoc, append-eq-nil_iff}
use mathlib.Core.Bool.{false≢true}
use cloudpods_operator.Prelude.{
  String, ◌≡◌, sym, ap, ◌∙◌, Bool, true, false, Bool-cases, inl, inr, Option, none, some, List, [],
  ◌∷◌, map, str_eq, eq_iff, eq_refl, if◌then◌else◌, not, ◌&&◌,
}
use cloudpods_operator.Volumes.{
  KeyToPath, VolumeSource, secret, config_map, host_path, persistent_claim, Volume, VolumeMount,
  VolumeCluster,
}
use cloudpods_operator.Volumes.Builders.{
  new_volume_helper, new_volume_helper_with_etcd_tls, tls_enabled,
}
use cloudpods_operator.Build.Objects.{Container, PodSpec}
use cloudpods_operator.Build.Names.{
  get_zone_component, component_config_map_name, get_config_map_suffix,
}
use cloudpods_operator.Build.Objects.{BuildCluster}
use cloudpods_operator.Build.Deployments.{or_component}
use cloudpods_operator.Build.Cloud.{service_helper}

-- The key of a config map whose file has the path, where the files are put under `dir`.
abbrev key_at : String → String → List KeyToPath → Option String
key_at path dir [] = none
key_at path dir (k ∷ ks) =
    let later = key_at path dir ks in
    if str_eq (join dir (join "/" k.path)) path then some k.key else later

abbrev with_name : String → Option String → Option (String × String)
with_name name none = none
with_name name (some key) = some (name, key)

abbrev file_of : String → String → VolumeSource → Option (String × String)
file_of path dir (config_map name items) = with_name name (key_at path dir items)
file_of path dir (secret name items) = none
file_of path dir (host_path p kind) = none
file_of path dir (persistent_claim name) = none

abbrev file_in : String → String → String → List Volume → Option (String × String)
file_in path name dir [] = none
file_in path name dir (v ∷ vs) =
    let later = file_in path name dir vs in
    if str_eq v.name name then file_of path dir v.source else later

abbrev first_of : Option (String × String) → Option (String × String) → Option (String × String)
first_of none b = b
first_of (some a) b = some a

-- The config map and the key that a container finds at the path, if any.
abbrev pub file_at : String → List Volume → List VolumeMount → Option (String × String)
file_at path vs [] = none
file_at path vs (m ∷ ms) = first_of (file_in path m.name m.mount_path vs) (file_at path vs ms)

-- The argument after `--config`.
abbrev pub config_argument : List String → String
config_argument [] = ""
config_argument (program ∷ []) = ""
config_argument (program ∷ flag ∷ []) = ""
config_argument (program ∷ flag ∷ path ∷ rest) = if str_eq flag "--config" then path else ""

abbrev pub config_of : List Volume → Container → Option (String × String)
config_of vs c = file_at (config_argument c.command) vs c.volume_mounts

config_path :
    (component : String)
    → join "/etc/yunion" (join "/" (join component ".conf"))
      ≡ join "/etc/yunion/" (join component ".conf")
config_path component = sym (append_assoc "/etc/yunion" "/" (join component ".conf"))

helper-file :
    (oc : VolumeCluster) (cfg component : String)
    → str_eq cfg "" ≡ false
    → let h = new_volume_helper oc cfg component in
      file_at (join "/etc/yunion/" (join component ".conf")) h.volumes h.volume_mounts
      ≡ some (cfg, "config")
unfolding new_volume_helper
helper-file oc cfg component e =
    rw (e, config_path component, eq_refl (join "/etc/yunion/" (join component ".conf")))

helper_with_tls-file :
    (oc : VolumeCluster) (cfg component : String)
    → str_eq cfg "" ≡ false
    → let h = new_volume_helper_with_etcd_tls oc cfg component in
      file_at (join "/etc/yunion/" (join component ".conf")) h.volumes h.volume_mounts
      ≡ some (cfg, "config")
unfolding new_volume_helper_with_etcd_tls
helper_with_tls-file oc cfg component e =
    elim (Bool-cases (not oc.etcd_disable && tls_enabled oc.etcd_enable_tls)) [
      | inl d ↦
          rw (d, e, config_path component, eq_refl (join "/etc/yunion/" (join component ".conf")))
      | inr d ↦ rw (d, helper-file oc cfg component e)
    ]

dash-ne-nil : (s t : String) → str_eq (join s (join "-" t)) "" ≡ false
dash-ne-nil s t = elim (Bool-cases (str_eq (join s (join "-" t)) "")) [
  | inl e ↦
      let tail = (append-eq-nil_iff.0 ((eq_iff (join s (join "-" t)) "").0 e)).1 in
      absurd (false≢true (ap (λ s. str_eq s "") (append-eq-nil_iff.0 tail).0))
  | inr e ↦ e
]

pub or_component-zone :
    (component zone : String)
    → or_component (get_zone_component component zone) component ≡ get_zone_component component zone
unfolding get_zone_component
or_component-zone component zone = elim (Bool-cases (str_eq zone "")) [
  | inl e ↦ elim (Bool-cases (str_eq component "")) [ inl d ↦ rw (e, d) | inr d ↦ rw (e, d) ]
  | inr e ↦ rw (e, dash-ne-nil component zone)
]

-- The config map of a component has a name.
pub component_config_map_name-ne-nil :
    (oc : BuildCluster) (component : String)
    → str_eq (component_config_map_name oc component) "" ≡ false
unfolding component_config_map_name
component_config_map_name-ne-nil oc component =
    let key = join oc.volumes.name (join "-" component) in
    let suffix = get_config_map_suffix oc.annotations component key in
    ap (λ s. str_eq s "")
      (append_assoc oc.volumes.name (join "-" component) suffix
        ∙ ap (join oc.volumes.name) (append_assoc "-" component suffix))
    ∙ dash-ne-nil oc.volumes.name (join component suffix)

-- The file that `--config` names, in each container of a list, and where it comes from.
abbrev pub configs : {P : Type 0} → PodSpec P → List Container → List (Option (String × String))
configs pod cs = map (config_of pod.volumes) cs

-- The path that `--config` names.
abbrev pub config_file : String → String
config_file component = join "/etc/yunion/" (join component ".conf")

pub service_helper-file :
    (tls : Bool) (oc : VolumeCluster) (cfg component : String)
    → str_eq cfg "" ≡ false
    → let h = service_helper tls oc cfg component in
      file_at (config_file component) h.volumes h.volume_mounts ≡ some (cfg, "config")
service_helper-file true oc cfg component e = helper_with_tls-file oc cfg component e
service_helper-file false oc cfg component e = helper-file oc cfg component e
