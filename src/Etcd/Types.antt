-- ===== src/Etcd/Types.antt =====
-- The parts of pkg/apis/onecloud/v1alpha1/types.go and of the Kubernetes objects that the etcd
-- manager reads and writes. A size of Go's `int` is a natural number: `Sync` raises what is
-- below 1 by `fixEtcdSize`, and a specification that a later round reads again is taken to have no
-- negative size either.
use cloudpods_operator.Prelude.{ℕ, String, Bool, Option, List}
use cloudpods_operator.Exec.{Err}
use cloudpods_operator.Etcd.Member.{Member}

pub data Phase : Type 0 where
  unset creating running failed : Phase
  other : String → Phase

-- `PersistentVolumeClaimSpec != nil` is the one fact of a pod policy that the manager tests.
pub record PodPolicy : Type 0 where
  pub has_claim_spec : Bool

-- `Etcd`, with the embedded `EtcdClusterSpec`. The quota is the bit pattern of an `int64`.
pub record EtcdSpec : Type 0 where
  pub size : ℕ
  pub repository : String
  pub version : String
  pub pod : Option PodPolicy
  pub disable : Bool
  pub enable_tls : Option Bool
  pub client_node_port : ℕ
  pub backend_quota_size : Option ℕ

-- `EctdStatus`; the reason is the error whose text the source stores.
pub record EtcdStatus : Type 0 where
  pub phase : Phase
  pub reason : Option Err
  pub size : ℕ
  pub service_name : String
  pub client_port : ℕ
  pub client_node_port : ℕ
  pub ready : List String
  pub unready : List String
  pub current_version : String
  pub target_version : String

-- The fields of an `OnecloudCluster` that the etcd manager uses.
pub record Cluster : Type 0 where
  pub name : String
  pub namespace : String
  pub uid : String
  pub ipv6_cluster : Bool
  pub etcd : EtcdSpec
  pub status : EtcdStatus

pub data PodPhase : Type 0 where
  pod_running pod_pending pod_succeeded pod_failed pod_unknown : PodPhase

pub record Condition : Type 0 where
  pub kind : String
  pub status : String

pub record Pod : Type 0 where
  pub name : String
  pub namespace : String
  pub deleting : Bool
  pub owners : List String
  pub phase : PodPhase
  pub conditions : List Condition
  pub version : String
  pub image : String

-- What `createPod` sends: the member, the initial cluster and its state, the token, and the claim
-- that holds the data, if it is not a memory volume.
pub record PodRequest : Type 0 where
  pub member : Member
  pub initial_cluster : List (String × String)
  pub state : String
  pub token : String
  pub claim : Option String

pub record ServicePort : Type 0 where
  pub name : String
  pub port : ℕ
  pub target_port : ℕ
  pub node_port : ℕ

-- A Go map of labels or annotations, its keys distinct.
abbrev pub Labels : Type 0
Labels = List (String × String)

pub record Service : Type 0 where
  pub name : String
  pub labels : Labels
  pub annotations : Labels
  pub owner : String
  pub ports : List ServicePort
  pub selector : Labels
  pub cluster_ip : String
  pub kind : String
