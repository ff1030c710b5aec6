-- ===== src/Etcd/Api.antt =====
-- What the etcd manager calls outside itself: the Kubernetes API server and its cached lister, the
-- etcd cluster, random names. Nothing is assumed of their answers, nor of what they do to the
-- world.
use cloudpods_operator.Prelude.{ℕ, String, Bool, Option, none, some, List}
use cloudpods_operator.Exec.{Reply, good, bad, Outcome, ok, err, panic, api_error, Exec, Void}
use cloudpods_operator.Etcd.MemberSet.{MemberSet}
use cloudpods_operator.Etcd.Types.{
  EtcdStatus, Cluster, Pod, PodRequest, Service, ServicePort, Labels,
}

pub record Api : Type 1 where
  pub World : Type 0
  pub member_suffix : World → String × World
  pub new_token : World → String × World
  pub sync_component : Cluster → World → Reply Void × World
  pub count_master_nodes : World → Reply ℕ × World
  pub get_cluster : String → String → World → Reply Cluster × World
  pub update_cluster : Cluster → World → Reply Cluster × World
  pub get_tls_secret : String → World → Reply String × World
  pub new_tls_config : String → World → Reply String × World
  pub create_claim : String → World → Reply Void × World
  pub delete_claim : String → World → Reply Void × World
  pub create_pod : PodRequest → World → Reply Void × World
  pub delete_pod : String → World → Reply Void × World
  pub list_pods : String → World → Reply (List Pod) × World
  pub get_pod : String → World → Reply Pod × World
  pub patch_pod : Pod → World → Reply Void × World
  pub new_client : List String → World → Reply Void × World
  pub member_add : List String → String → World → Reply ℕ × World
  pub member_remove : List String → ℕ → World → Reply Void × World
  pub member_list : List String → World → Reply (List (ℕ × List String)) × World
  pub get_service : String → World → Reply Service × World
  pub create_service : Service → World → Reply Void × World
  pub update_service : Service → World → Reply Void × World
  -- `jsonutils.Marshal(p).String()`, and `reflect.DeepEqual` on annotations
  pub marshal_port : ServicePort → String
  pub labels_equal : Labels → Labels → Bool

-- The fields of `etcdManager`. `none` for the members is Go's nil map.
pub record Manager : Type 0 where
  pub oc : Cluster
  pub status : EtcdStatus
  pub members : Option MemberSet
  pub tls_config : Option String
  pub syncing : Bool

pub record State (W : Type 0) : Type 0 where
  pub manager : Manager
  pub world : W

abbrev pub from_reply {ℓ} : {A : Type ℓ} → Reply A → Outcome A
from_reply (good a) = ok a
from_reply (bad e) = err (api_error e)

abbrev pub call : {W A : Type 0} → (W → Reply A × W) → Exec (State W) A
call f s = (from_reply (f s.world).0, record s { world = (f s.world).1 })

abbrev pub draw : {W A : Type 0} → (W → A × W) → Exec (State W) A
draw f s = (ok (f s.world).0, record s { world = (f s.world).1 })

abbrev pub get : {W : Type 0} → Exec (State W) Manager
get s = (ok s.manager, s)

abbrev pub modify : {W : Type 0} → (Manager → Manager) → Exec (State W) Void
modify f s = (ok tt, record s { manager = f s.manager })

abbrev pub modify_status : {W : Type 0} → (EtcdStatus → EtcdStatus) → Exec (State W) Void
modify_status f = modify (λ m. record m { status = f m.status })

abbrev pub or_panic : {S A : Type 0} → Option A → Exec S A
or_panic (some a) s = (ok a, s)
or_panic none s = (panic, s)
