-- ===== src/Tests/Fixtures.antt =====
-- A cluster of three etcd members, of which one runs, and services that answer to it:
-- for pkg/manager/component/etcd.go.
use cloudpods_operator.Prelude.{String, true, false, Option, none, some, List, [], ◌∷◌}
use cloudpods_operator.Exec.{good, bad, not_found}
use cloudpods_operator.Etcd.Member.{Member}
use cloudpods_operator.Etcd.MemberSet.{MemberSet}
use cloudpods_operator.Etcd.Types.{
  Phase, running, EtcdSpec, EtcdStatus, Cluster, pod_running, PodPhase, Pod,
}
use cloudpods_operator.Etcd.Api.{Api, Manager, State}

abbrev pub three_spec : EtcdSpec
three_spec = record {
  size = 3;
  repository = "registry/etcd";
  version = "3.5.12";
  pod = none;
  disable = false;
  enable_tls = some false;
  client_node_port = 30379;
  backend_quota_size = some 256;
}

abbrev pub status_in : Phase → EtcdStatus
status_in phase = record {
  phase = phase;
  reason = none;
  size = 3;
  service_name = "one-etcd-client";
  client_port = 2379;
  client_node_port = 30379;
  ready = [];
  unready = [];
  current_version = "";
  target_version = "";
}

abbrev pub cluster_in : Phase → Cluster
cluster_in phase = record {
  name = "one";
  namespace = "onecloud";
  uid = "u1";
  ipv6_cluster = false;
  etcd = three_spec;
  status = status_in phase;
}

abbrev pub pod_named : String → PodPhase → Pod
pod_named name phase = record {
  name = name;
  namespace = "onecloud";
  deleting = false;
  owners = "u1" ∷ [];
  phase = phase;
  conditions = [];
  version = "3.5.12";
  image = "registry/etcd:v3.5.12";
}

abbrev pub member_named : String → Member
member_named name = record {
  name = name;
  namespace = "onecloud";
  id = 7;
  secure_peer = false;
  secure_client = false;
  ipv6_cluster = false;
}

abbrev pub three_members : MemberSet
three_members =
    member_named "one-etcd-a" ∷ member_named "one-etcd-b" ∷ member_named "one-etcd-c" ∷ []

abbrev pub one_pod : List Pod
one_pod = pod_named "one-etcd-a" pod_running ∷ []

abbrev pub two_pods : List Pod
two_pods = pod_named "one-etcd-a" pod_running ∷ pod_named "one-etcd-b" pod_running ∷ []

-- The world is the list of the pods; every other call succeeds and changes nothing.
abbrev pub small_api : Api
small_api = record {
  World = List Pod;
  member_suffix = λ w. ("dddddddddd", w);
  new_token = λ w. ("token", w);
  sync_component = λ oc w. (good tt, w);
  count_master_nodes = λ w. (good 3, w);
  get_cluster = λ ns name w. (good (cluster_in running), w);
  update_cluster = λ oc w. (good oc, w);
  get_tls_secret = λ ns w. (good "tls", w);
  new_tls_config = λ secret w. (good secret, w);
  create_claim = λ name w. (good tt, w);
  delete_claim = λ name w. (good tt, w);
  create_pod = λ request w. (good tt, w);
  delete_pod = λ name w. (good tt, w);
  list_pods = λ name w. (good w, w);
  get_pod = λ name w. (bad not_found, w);
  patch_pod = λ pod w. (good tt, w);
  new_client = λ urls w. (good tt, w);
  member_add = λ urls url w. (good 9, w);
  member_remove = λ urls id w. (good tt, w);
  member_list = λ urls w. (good [], w);
  get_service = λ name w. (bad not_found, w);
  create_service = λ service w. (good tt, w);
  update_service = λ service w. (good tt, w);
  marshal_port = λ port. port.name;
  labels_equal = λ a b. true;
}

abbrev pub manager_in : Phase → Option MemberSet → Manager
manager_in phase members = record {
  oc = cluster_in phase;
  status = status_in phase;
  members = members;
  tls_config = none;
  syncing = true;
}

abbrev pub state_with : List Pod → State (List Pod)
state_with pods = record { manager = manager_in running (some three_members); world = pods }
