-- ===== src/Etcd/Manager/Reconcile.antt =====
-- `reconcile` and `reconcileMembers` of pkg/manager/component/etcd.go.
use cloudpods_operator.Prelude.{
  ◌+◌, ◌/◌, String, Bool, false, not, ◌&&◌, ◌||◌, ltb, ◌==◌, Option, none, some, List, [], ◌∷◌,
  str_eq, if◌then◌else◌, length, is_some,
}
use cloudpods_operator.Exec.{lost_quorum, Exec, Void, ◌>>=◌, ◌>>◌, fail, for_each}
use cloudpods_operator.Etcd.MemberSet.{MemberSet, add, size, diff, is_equal, pick_one}
use cloudpods_operator.Etcd.Types.{Cluster, Pod}
use cloudpods_operator.Etcd.Api.{Api, Manager, State, get, modify_status, or_panic}
use cloudpods_operator.Etcd.Manager.Spec.{is_secure}
use cloudpods_operator.Etcd.Manager.Pods.{remove_pod}
use cloudpods_operator.Etcd.Manager.Members.{members_of, remove_member, resize, upgrade_one_member}

-- `podsToMemberSet`: the ID and `SecurePeer` keep their zero values.
unfoldable pub pods_to_member_set : Cluster → List Pod → MemberSet → MemberSet
pods_to_member_set oc [] ms = ms
pods_to_member_set oc (p ∷ ps) ms = pods_to_member_set oc ps (
    add
      (record {
        name = p.name;
        namespace = p.namespace;
        id = 0;
        secure_peer = false;
        secure_client = is_secure oc;
        ipv6_cluster = oc.ipv6_cluster;
      })
      ms)

unfoldable pub pick_one_old_member : List Pod → String → Option String
pick_one_old_member [] version = none
pick_one_old_member (p ∷ ps) version =
    let rest = pick_one_old_member ps version in
    if str_eq p.version version then rest else some p.name

unfoldable pub need_upgrade : List Pod → Cluster → Bool
need_upgrade pods oc =
    length pods == oc.etcd.size && is_some (pick_one_old_member pods oc.etcd.version)

abbrev pub refresh_size : Manager → Manager
refresh_size m = record m { status = record (m.status) { size = size (members_of m) } }

-- The deferred assignment of `reconcile`: it runs whatever the outcome.
abbrev pub finally_size : {W : Type 0} → Exec (State W) Void → Exec (State W) Void
finally_size m s = ((m s).0, record ((m s).1) { manager = refresh_size (m s).1.manager })

module _ (api : Api) where
  open api use {World}

  -- Steps 3 to 5 of `reconcileMembers`: `live` are the members that run.
  unfoldable pub settle_members : MemberSet → MemberSet → Exec (State World) Void
  settle_members members live =
      if size live == size members
      then resize api
      else if ltb (size live) (size members / 2 + 1)
      then fail lost_quorum
      else (do mb ← or_panic (pick_one (diff members live)); remove_member api mb)

  unfoldable pub reconcile_members : MemberSet → Exec (State World) Void
  reconcile_members found = do
    m ← get
    for_each (diff found (members_of m)) (λ mb. remove_pod api mb.name)
    settle_members (members_of m) (diff found (diff found (members_of m)))

  unfoldable pub upgrade : List Pod → Exec (State World) Void
  upgrade pods = do
    m ← get
    modify_status (λ st. record st { target_version = m.oc.etcd.version })
    name ← or_panic (pick_one_old_member pods m.oc.etcd.version)
    upgrade_one_member api name

  unfoldable pub up_to_date : Exec (State World) Void
  up_to_date = do
    m ← get
    modify_status (λ st. record st { target_version = ""; current_version = m.oc.etcd.version })

  -- The body of `reconcile`, for the members that run.
  unfoldable pub reconcile_to : List Pod → MemberSet → Exec (State World) Void
  reconcile_to pods found = do
    m ← get
    if not (is_equal found (members_of m)) || not (size (members_of m) == m.oc.etcd.size)
        then reconcile_members found
        else if need_upgrade pods m.oc
        then upgrade pods
        else up_to_date

  unfoldable pub reconcile : List Pod → Exec (State World) Void
  reconcile pods = finally_size (do m ← get; reconcile_to pods (pods_to_member_set m.oc pods []))
