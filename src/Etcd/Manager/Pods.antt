-- ===== src/Etcd/Manager/Pods.antt =====
-- Pods and status of pkg/manager/component/etcd.go: creating and removing them, sorting those that
-- the API server lists by phase, and writing the status back.
use cloudpods_operator.Prelude.{
  String, Bool, true, false, not, ◌&&◌, Option, none, some, List, [], ◌∷◌, str_eq, if◌then◌else◌,
}
use cloudpods_operator.Exec.{
  Reply, good, bad, not_found, api_error, in_context, Outcome, err, Exec, Void, done, ◌>>=◌, ◌>>◌,
  annotate, pure,
}
use cloudpods_operator.Etcd.Member.{Member}
use cloudpods_operator.Etcd.MemberSet.{MemberSet, peer_url_pairs}
use cloudpods_operator.Etcd.Types.{
  EtcdStatus, Pod, Condition, PodPhase, pod_running, pod_pending, pod_failed, pod_unknown,
  pod_succeeded,
}
use cloudpods_operator.Etcd.Api.{Api, State, call, draw, get, modify, or_panic}
use cloudpods_operator.Etcd.Manager.Spec.{is_pod_pv_enabled, etcd_cluster_prefix}

-- `getPodReadyCondition` and `IsPodReady` of pkg/util/k8sutil/pod_util.go: the first condition of
-- type Ready decides.
is_ready : List Condition → Bool
is_ready [] = false
is_ready (c ∷ cs) =
    let rest = is_ready cs in if str_eq c.kind "Ready" then str_eq c.status "True" else rest

unfoldable pub is_pod_ready : Pod → Bool
unfolding is_ready
is_pod_ready p = is_ready p.conditions

pub record Polled : Type 0 where
  pub running : List Pod
  pub pending : List Pod
  pub failed : List Pod

abbrev first_owner_is : String → List String → Bool
first_owner_is uid [] = false
first_owner_is uid (o ∷ os) = str_eq o uid

-- Deleted pods, and those of another owner, are passed over.
abbrev pub is_own : String → Pod → Bool
is_own uid p = not p.deleting && first_owner_is uid p.owners

file : PodPhase → Pod → Polled → Polled
file pod_running p rest = record rest { running = p ∷ rest.running }
file pod_pending p rest = record rest { pending = p ∷ rest.pending }
file pod_failed p rest = record rest { failed = p ∷ rest.failed }
file pod_unknown p rest = record rest { failed = p ∷ rest.failed }
file pod_succeeded p rest = rest

-- The loop of `pollPods`.
unfoldable pub sort_pods : String → List Pod → Polled
unfolding file
sort_pods uid [] = record { running = []; pending = []; failed = [] }
sort_pods uid (p ∷ ps) =
    let rest = sort_pods uid ps in if is_own uid p then file p.phase p rest else rest

-- A resource that is gone already is no error.
abbrev pub settle : Reply Void → Outcome Void
settle (good _) = done
settle (bad not_found) = done
settle (bad e) = err (api_error e)

abbrev pub call_settled : {W : Type 0} → (W → Reply Void × W) → Exec (State W) Void
call_settled f s = (settle (f s.world).0, record s { world = (f s.world).1 })

unfoldable pub ready_names : List Pod → List String
unfolding is_pod_ready
ready_names [] = []
ready_names (p ∷ ps) = let rest = ready_names ps in if is_pod_ready p then p.name ∷ rest else rest

unfoldable pub unready_names : List Pod → List String
unfolding is_pod_ready
unready_names [] = []
unready_names (p ∷ ps) =
    let rest = unready_names ps in if is_pod_ready p then rest else p.name ∷ rest

-- `updateMemberStatus`
abbrev pub with_member_status : List Pod → EtcdStatus → EtcdStatus
with_member_status pods st = record st { ready = ready_names pods; unready = unready_names pods }

module _ (api : Api) where
  open api use {
    World, new_token, create_claim, delete_claim, list_pods, get_cluster, update_cluster,
  }

  unfoldable pub remove_pod : String → Exec (State World) Void
  remove_pod name = call_settled (api.delete_pod name)

  unfoldable pub remove_claim : String → Exec (State World) Void
  remove_claim name = annotate in_context (call_settled (delete_claim name))

  -- The claim is named after the member (`PVCNameFromMember`).
  unfoldable pub make_claim : Bool → String → Exec (State World) (Option String)
  make_claim true name = do annotate in_context (call (create_claim name)); pure (some name)
  make_claim false name = pure none

  unfoldable pub create_pod : MemberSet → Member → String → Exec (State World) Void
  create_pod members mb state = do
    m ← get
    token ← draw new_token
    pairs ← or_panic (peer_url_pairs members)
    claim ← make_claim (is_pod_pv_enabled m.oc) mb.name
    call (
        api.create_pod (record {
          member = mb;
          initial_cluster = pairs;
          state = state;
          token = token;
          claim = claim;
        }))

  unfoldable pub poll_pods : Exec (State World) Polled
  poll_pods = do
    m ← get
    pods ← annotate in_context (call (list_pods (etcd_cluster_prefix m.oc)))
    pure (sort_pods m.oc.uid pods)

  unfoldable pub fetch_cluster : Exec (State World) Void
  fetch_cluster = do
    m ← get
    oc ← call (get_cluster m.oc.namespace m.oc.name)
    modify (λ r. record r { oc = oc })

  unfoldable pub update_etcd_status : Exec (State World) Void
  update_etcd_status = do
    m ← get
    oc ← call (get_cluster m.oc.namespace m.oc.name)
    written ← call (update_cluster (record oc { status = m.status }))
    modify (λ r. record r { oc = written })

  unfoldable pub update_member_status : List Pod → Exec (State World) Void
  update_member_status pods = modify (λ r. record r { status = with_member_status pods r.status })
