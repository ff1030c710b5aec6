-- ===== src/Etcd/Manager/Services.antt =====
-- The two services of the etcd cluster: `setupServices`, `createService` and the manifests of
-- pkg/manager/component/etcd.go.
use Prim.Native.String.{◌++◌ as join}
use cloudpods_operator.Prelude.{
  ℕ, zero, suc, ◌+◌, ◌/◌, ◌%◌, String, Bool, true, false, not, ltb, ◌==◌, List, [], ◌∷◌, ◌++◌,
  if◌then◌else◌,
}
use cloudpods_operator.Exec.{
  Reply, good, bad, not_found, already_exists, api_error, in_context, wrap, Outcome, ok, err, panic,
  Exec, Void, done, skip, fail,
}
use cloudpods_operator.Etcd.Types.{Cluster, Service, ServicePort, Labels}
use cloudpods_operator.Etcd.Api.{Api, State, call}
use cloudpods_operator.Etcd.Manager.Spec.{client_port, etcd_cluster_prefix}

-- `LabelsForCluster` of pkg/util/k8sutil/k8sutil.go
abbrev pub labels_for_cluster : String → Labels
labels_for_cluster name = ("etcd_cluster", name) ∷ ("app", "etcd") ∷ []

digit : ℕ → String
digit zero = "0"
digit (suc zero) = "1"
digit (suc (suc n)) =
    if n == 0
    then "2"
    else if n == 1
    then "3"
    else if n == 2
    then "4"
    else if n == 3
    then "5"
    else if n == 4
    then "6"
    else if n == 5
    then "7"
    else if n == 6
    then "8"
    else "9"

-- The verb %d; a number has fewer digits than its value and one.
decimal_on : ℕ → ℕ → String
unfolding digit
decimal_on zero n = ""
decimal_on (suc fuel) n =
    let front = decimal_on fuel (n / 10) in
    if ltb n 10 then digit n else join front (digit (n % 10))

unfoldable pub decimal : ℕ → String
unfolding decimal_on
decimal n = decimal_on (suc n) n

-- The port's JSON under its number.
unfoldable pub port_annotations : (ServicePort → String) → ℕ → List ServicePort → Labels
unfolding decimal
port_annotations marshal i [] = []
port_annotations marshal i (p ∷ ps) =
    (join "onecloud.etcd.io/port" (decimal i), marshal p) ∷ port_annotations marshal (i + 1) ps

abbrev tolerated : Bool → Labels
tolerated true = ("service.alpha.kubernetes.io/tolerate-unready-endpoints", "true") ∷ []
tolerated false = []

-- `newEtcdServiceManifest`, with the owner that `createService` adds
unfoldable pub new_etcd_service_manifest :
    (ServicePort → String)
    → String
    → String
    → String
    → List ServicePort
    → String
    → Bool
    → Bool
    → Service
unfolding port_annotations
new_etcd_service_manifest marshal name cluster ip ports owner tolerate use_node_port = record {
  name = name;
  labels = labels_for_cluster cluster;
  annotations = tolerated tolerate ++ port_annotations marshal 0 ports;
  owner = owner;
  ports = ports;
  selector = labels_for_cluster cluster;
  cluster_ip = ip;
  kind = if use_node_port then "NodePort" else "ClusterIP";
}

abbrev pub renewed : Service → Service → Service
renewed svc old = record old { annotations = svc.annotations; ports = svc.ports; kind = svc.kind }

abbrev client_ports : ℕ → List ServicePort
client_ports node_port =
    record { name = "client"; port = client_port; target_port = client_port; node_port = node_port }
    ∷ []

abbrev peer_ports : List ServicePort
peer_ports =
    record { name = "client"; port = client_port; target_port = client_port; node_port = 0 }
    ∷ record { name = "peer"; port = 2380; target_port = 2380; node_port = 0 }
    ∷ []

-- `ClientServiceName`
abbrev pub client_service_name : String → String
client_service_name cluster = join cluster "-client"

-- A service that another run has created meanwhile is no error.
abbrev created : Reply Void → Outcome Void
created (good _) = done
created (bad already_exists) = done
created (bad e) = err (wrap (api_error e))

module _ (api : Api) where
  open api use {World, get_service, create_service, update_service, marshal_port, labels_equal}

  unfoldable pub settle_service : Service → Reply Service → Exec (State World) Void
  settle_service svc (good old) s =
      (if not (labels_equal old.annotations svc.annotations)
          then call (update_service (renewed svc old))
          else skip)
        s
  settle_service svc (bad not_found) s =
      (created (create_service svc s.world).0, record s { world = (create_service svc s.world).1 })
  settle_service svc (bad e) s = fail (wrap (api_error e)) s

  unfoldable pub ensure_service : Service → Exec (State World) Void
  ensure_service svc s =
      settle_service svc (get_service svc.name s.world).0
        (record s { world = (get_service svc.name s.world).1 })

  unfoldable pub client_service : Cluster → Service
  client_service oc =
      new_etcd_service_manifest marshal_port (client_service_name (etcd_cluster_prefix oc))
        (etcd_cluster_prefix oc) "" (client_ports oc.etcd.client_node_port) oc.uid false true

  unfoldable pub peer_service : Cluster → Service
  peer_service oc =
      new_etcd_service_manifest marshal_port (etcd_cluster_prefix oc) (etcd_cluster_prefix oc)
        "None" peer_ports oc.uid true false

  abbrev both_errors : Outcome Void → Outcome Void → Outcome Void
  both_errors (ok a) (ok b) = done
  both_errors (ok a) (err e) = err (in_context (wrap e))
  both_errors (ok a) panic = panic
  both_errors (err e) (ok a) = err (in_context (wrap e))
  both_errors (err e) (err x) = err (in_context (wrap e))
  both_errors (err e) panic = panic
  both_errors panic r = panic

  -- The peer service is made also where the client service failed.
  unfoldable pub setup_services : Exec (State World) Void
  setup_services s =
      let first = ensure_service (client_service s.manager.oc) s in
      let second = ensure_service (peer_service s.manager.oc) first.1 in
      (both_errors first.0 second.0, second.1)
