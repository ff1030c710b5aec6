-- ===== src/Build/Names.antt =====
-- The names of a component's objects: pkg/controller/utils.go and
-- pkg/manager/component/component.go.
use Prim.Native.String.{◌++◌ as join}
use cloudpods_operator.Prelude.{String, Option, none, some, List, [], ◌∷◌, str_eq, if◌then◌else◌}
use cloudpods_operator.Etcd.Types.{Labels}
use cloudpods_operator.Sync.Objects.{find}
use cloudpods_operator.Etcd.Manager.Run.{new_cluster_component_name}
use cloudpods_operator.Build.Labels.{text_or_empty}
use cloudpods_operator.Build.Objects.{BuildCluster}

unfoldable pub get_zone_component : String → String → String
get_zone_component component zone =
    if str_eq zone "" then component else join component (join "-" zone)

abbrev suffix_of : String → String
suffix_of sha = if str_eq sha "" then "" else join "-" sha

unfoldable pub get_config_map_suffix : Option Labels → String → String → String
unfolding find
get_config_map_suffix none component name = ""
get_config_map_suffix (some annotations) component name = suffix_of (
    text_or_empty (
      find (join "onecloud.yunion.io/" (join component (join "." (join name ".sha")))) annotations))

unfoldable pub component_config_map_name : BuildCluster → String → String
unfolding get_config_map_suffix
component_config_map_name oc component =
    let name_key = join oc.volumes.name (join "-" component) in
    join name_key (get_config_map_suffix oc.annotations component name_key)

unfoldable pub new_pvc_name : String → String → String → String
new_pvc_name cluster storage_class component =
    let prefix = new_cluster_component_name cluster component in
    if str_eq storage_class "local-path" then prefix else join prefix (join "-" storage_class)

abbrev service_kind : String → String
service_kind kind =
    if str_eq kind "NodePort"
    then "NodePort"
    else if str_eq kind "LoadBalancer"
    then "LoadBalancer"
    else "ClusterIP"

-- `GetServiceType`, of the list of names and types in the specification.
unfoldable pub get_service_type : List (String × String) → String → String
get_service_type [] name = "ClusterIP"
get_service_type ((n, kind) ∷ rest) name =
    let later = get_service_type rest name in if str_eq n name then service_kind kind else later
