-- ===== src/Build/Services.antt =====
-- The services of a component, in pkg/manager/component/component.go and utils.go.
use Prim.Native.String.{◌++◌ as join}
use cloudpods_operator.Prelude.{ℕ, String, Bool, true, false, List, [], ◌∷◌, map, if◌then◌else◌}
use cloudpods_operator.Etcd.Types.{ServicePort, Service}
use cloudpods_operator.Etcd.Manager.Run.{new_cluster_component_name}
use cloudpods_operator.Build.Labels.{get_component_label}
use cloudpods_operator.Build.Objects.{BuildCluster}

abbrev without_node_port : ServicePort → ServicePort
without_node_port p = record p { node_port = 0 }

unfoldable pub new_service_with_cluster_ip :
    String → BuildCluster → String → List ServicePort → String → Bool → Service
unfolding get_component_label
new_service_with_cluster_ip component oc kind ports cluster_ip read_only =
    let name = new_cluster_component_name oc.volumes.name component in
    let app = get_component_label oc component read_only in
    record {
      name = if read_only then join name "-slave" else name;
      labels = app;
      annotations = [];
      owner = oc.uid;
      ports = if read_only then map without_node_port ports else ports;
      selector = app;
      cluster_ip = cluster_ip;
      kind = if read_only then "ClusterIP" else kind;
    }

unfoldable pub new_service : String → BuildCluster → String → List ServicePort → Bool → Service
unfolding new_service_with_cluster_ip
new_service component oc kind ports read_only =
    new_service_with_cluster_ip component oc kind ports "" read_only

unfoldable pub new_node_port_service :
    String → BuildCluster → Bool → List ServicePort → Bool → List Service
unfolding new_service
new_node_port_service component oc internal_only ports ro_service =
    let kind = if internal_only then "ClusterIP" else "NodePort" in
    new_service component oc kind ports false
    ∷ (if ro_service then new_service component oc kind ports true ∷ [] else [])

unfoldable pub new_service_node_port : String → Bool → ℕ → ℕ → ServicePort
new_service_node_port name internal_only node_port target_port = record {
  name = name;
  port = node_port;
  target_port = target_port;
  node_port = if internal_only then 0 else node_port;
}

unfoldable pub new_single_port_service : String → BuildCluster → Bool → ℕ → ℕ → Bool → List Service
unfolding new_node_port_service new_service_node_port
new_single_port_service component oc internal_only node_port target_port ro_service =
    new_node_port_service component oc internal_only
      (new_service_node_port "api" internal_only node_port target_port ∷ []) ro_service

unfoldable pub new_single_node_port_service : String → BuildCluster → ℕ → ℕ → Bool → List Service
unfolding new_single_port_service
new_single_node_port_service component oc node_port target_port ro_service =
    new_single_port_service component oc false node_port target_port ro_service

abbrev etcd_port : String → ℕ → ServicePort
etcd_port name port = record { name = name; port = port; target_port = port; node_port = 0 }

unfoldable pub new_etcd_client_service : String → BuildCluster → Service
unfolding new_service
new_etcd_client_service component oc =
    new_service component oc "ClusterIP" (etcd_port "client" 2379 ∷ []) false

-- A service without an address of its own.
unfoldable pub new_etcd_service : String → BuildCluster → Service
unfolding new_service_with_cluster_ip
new_etcd_service component oc =
    new_service_with_cluster_ip component oc "ClusterIP"
      (etcd_port "client" 2379 ∷ etcd_port "peer" 2380 ∷ []) "None" false
