-- ===== src/Etcd/Manager/Members.antt =====
-- Changing the membership: adding, removing and upgrading one member, and cleaning all of them,
-- in pkg/manager/component/etcd.go.
use Prim.Native.String.{◌++◌}
use cloudpods_operator.Prelude.{
  ℕ, String, Bool, true, false, ltb, ◌==◌, Option, none, some, List, [], ◌∷◌, if◌then◌else◌,
}
use cloudpods_operator.Exec.{
  Reply, good, bad, member_not_found, api_error, in_context, wrap, fatal_error, Outcome, ok, err,
  panic, Exec, Void, done, ◌>>=◌, ◌>>◌, annotate, skip, pure, for_each,
}
use cloudpods_operator.Etcd.Member.{Member, peer_url, unique_member_name}
use cloudpods_operator.Etcd.PeerUrl.{member_name_from_peer_url}
use cloudpods_operator.Etcd.MemberSet.{MemberSet, add, remove, size, client_urls, pick_one}
use cloudpods_operator.Etcd.Types.{Cluster, failed, Pod}
use cloudpods_operator.Etcd.Api.{
  Api, Manager, State, call, draw, get, modify, modify_status, or_panic,
}
use cloudpods_operator.Etcd.Manager.Spec.{is_secure, is_pod_pv_enabled, etcd_cluster_prefix}
use cloudpods_operator.Etcd.Manager.Pods.{remove_pod, remove_claim, create_pod, update_etcd_status}

-- A nil map reads as the empty one.
abbrev pub members_of : Manager → MemberSet
members_of m = elim m.members [ none ↦ [] | some ms ↦ ms ]

-- `delete` on a nil map does nothing, and a write to it panics.
abbrev pub drop_member : String → Manager → Manager
drop_member name m = record m {
  members = elim m.members [ none ↦ none | some ms ↦ some (remove name ms) ];
}

abbrev pub member_for : Cluster → String → ℕ → Member
member_for oc name id = record {
  name = name;
  namespace = oc.namespace;
  id = id;
  secure_peer = is_secure oc;
  secure_client = is_secure oc;
  ipv6_cluster = oc.ipv6_cluster;
}

-- The `switch` on the error of `etcdutil.RemoveMember`.
abbrev pub settle_removal : Reply Void → Outcome Void
settle_removal (good _) = done
settle_removal (bad member_not_found) = done
settle_removal (bad e) = err (api_error e)

-- The loop of `updateMembers` over the members that etcd lists; a member with no peer URL panics.
member_named : Cluster → ℕ → Option String → Outcome Member
member_named oc id (some name) = ok (member_for oc name id)
member_named oc id none = err (wrap fatal_error)

listed_member : Cluster → ℕ × List String → Outcome Member
unfolding member_named
listed_member oc (id, []) = panic
listed_member oc (id, url ∷ urls) = member_named oc id (member_name_from_peer_url url)

unfoldable pub listed_members : Cluster → List (ℕ × List String) → MemberSet → Outcome MemberSet
unfolding listed_member
listed_members oc [] ms = ok ms
listed_members oc (x ∷ xs) ms = elim (listed_member oc x) [
  | ok mb ↦ listed_members oc xs (add mb ms)
  | err e ↦ err e
  | panic ↦ panic
]

-- `ImageName` and `SetEtcdVersion` of pkg/util/k8sutil/k8sutil.go.
abbrev pub upgraded : Cluster → Pod → Pod
upgraded oc pod = record pod {
  image = oc.etcd.repository ++ (":v" ++ oc.etcd.version);
  version = oc.etcd.version;
}

module _ (api : Api) where
  open api use {
    World, member_suffix, new_client, member_add, member_remove, member_list, get_pod, patch_pod,
  }

  -- `newMember`
  unfoldable pub new_member : Exec (State World) Member
  new_member = do
    m ← get
    suffix ← draw member_suffix
    pure (member_for m.oc (unique_member_name (etcd_cluster_prefix m.oc) suffix) 0)

  unfoldable pub insert_member : Member → Exec (State World) MemberSet
  insert_member mb = do
    m ← get
    ms ← or_panic m.members
    modify (λ r. record r { members = some (add mb ms) })
    pure (add mb ms)

  unfoldable pub add_one_member : Exec (State World) Void
  add_one_member = do
    m ← get
    urls ← or_panic (client_urls (members_of m))
    annotate in_context (call (new_client urls))
    mb ← new_member
    url ← or_panic (peer_url mb)
    id ← annotate in_context (call (member_add urls url))
    ms ← insert_member (record mb { id = id })
    annotate in_context (create_pod api ms (record mb { id = id }) "existing")

  unfoldable pub remove_claim_if : Bool → String → Exec (State World) Void
  remove_claim_if true name = remove_claim api name
  remove_claim_if false name = skip

  -- `etcdutil.RemoveMember`: the client, then the call.
  unfoldable pub expel : List String → ℕ → Exec (State World) Void
  expel urls id = do
    call (new_client urls)
    λ s. (
      settle_removal (member_remove urls id s.world).0,
      record s { world = (member_remove urls id s.world).1 },
    )

  -- The body of `removeMember`; the deferred function wraps its error.
  unfoldable pub take_out : Member → Exec (State World) Void
  take_out mb = do
    m ← get
    urls ← or_panic (client_urls (members_of m))
    expel urls mb.id
    modify (drop_member mb.name)
    remove_pod api mb.name
    remove_claim_if (is_pod_pv_enabled m.oc) mb.name

  unfoldable pub remove_member : Member → Exec (State World) Void
  remove_member mb = annotate in_context (take_out mb)

  unfoldable pub remove_one_member : Exec (State World) Void
  remove_one_member = do m ← get; mb ← or_panic (pick_one (members_of m)); remove_member mb

  unfoldable pub resize : Exec (State World) Void
  resize = do
    m ← get
    if size (members_of m) == m.oc.etcd.size
        then skip
        else if ltb (size (members_of m)) m.oc.etcd.size
        then add_one_member
        else remove_one_member

  unfoldable pub clean_member : Member → Exec (State World) Void
  clean_member mb = do
    m ← get
    remove_pod api mb.name
    modify (drop_member mb.name)
    remove_claim_if (is_pod_pv_enabled m.oc) mb.name

  unfoldable pub clean_all_members : Exec (State World) Void
  clean_all_members = do
    m ← get
    for_each (members_of m) clean_member
    modify_status (λ st. record st { phase = failed; size = 0; ready = []; unready = [] })
    update_etcd_status api

  unfoldable pub update_members : MemberSet → Exec (State World) Void
  update_members known = do
    urls ← or_panic (client_urls known)
    call (new_client urls)
    resp ← call (member_list urls)
    m ← get
    ms ← (λ s. (listed_members m.oc resp [], s))
    modify (λ r. record r { members = some ms })

  unfoldable pub upgrade_one_member : String → Exec (State World) Void
  upgrade_one_member name = do
    m ← get
    pod ← annotate in_context (call (get_pod name))
    annotate in_context (call (patch_pod (upgraded m.oc pod)))
