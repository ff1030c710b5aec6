-- ===== src/Tests/EtcdTests.antt =====
-- The etcd manager of pkg/manager/component/etcd.go on the cluster of three members.
use cloudpods_operator.Prelude.{
  Option, List, ◌+◌, ◌/◌, ◌<◌, arith, String, ◌≡◌, refl, ◌≢◌, ◌↔◌, true, false, some, [], ◌∷◌,
}
use cloudpods_operator.Exec.{good, bad, not_found, done, ok, cause}
use cloudpods_operator.Exec.Rules.{Holds}
use cloudpods_operator.Etcd.Member.{Member, addr, cluster_name_from_member_name, unique_member_name}
use cloudpods_operator.Etcd.Member.Names.{cluster_name-unique_member_name}
use cloudpods_operator.Etcd.MemberSet.{pick_one, size, has, is_equal, diff, add, IsMap}
use cloudpods_operator.Etcd.MemberSet.Sizes.{running_members, is_equal_iff, dead_member_exists}
use cloudpods_operator.Etcd.MemberSet.Addresses.{HasAddresses}
use cloudpods_operator.Etcd.Types.{running, Pod, Service}
use cloudpods_operator.Etcd.Api.{Api, State}
use cloudpods_operator.Etcd.Manager.Reconcile.{
  pods_to_member_set, reconcile, reconcile_to, reconcile_members, settle_members,
}
use cloudpods_operator.Etcd.Membership.Reconcile.{Counted, AllowedFrom, reconcile-Change}
use cloudpods_operator.Etcd.Membership.Quorum.{lost, reconcile-lost}
use cloudpods_operator.Etcd.Behaviour.Run.{
  KeepsAnnotations, LeftAlone, sync_etcd-started, settle_service-Settled,
}
use cloudpods_operator.Etcd.Manager.Run.{
  sync_etcd, adjusted_sync, or_nothing, write_adjusted, start_unless_syncing,
}
use cloudpods_operator.Etcd.Manager.Services.{settle_service, peer_service, client_service}
use cloudpods_operator.Etcd.Manager.Spec.{
  adjust_spec, fix_etcd_size, fill_version, fill_node_port, fixed_size,
}
use cloudpods_operator.Tests.Fixtures.{
  small_api, member_named, three_members, one_pod, two_pods, cluster_in, state_with,
}

three_members-HasAddresses : HasAddresses three_members
unfolding addr
three_members-HasAddresses = (refl, (refl, (refl, tt)))

three_members-IsMap : IsMap three_members
unfolding has
three_members-IsMap = (refl, (refl, (refl, tt)))

reconcile-Change_example :
    Holds
      (Counted (AllowedFrom small_api (state_with two_pods) two_pods three_members))
      (reconcile small_api two_pods (state_with two_pods))
reconcile-Change_example =
    reconcile-Change small_api (state_with two_pods) two_pods three_members refl
      three_members-HasAddresses three_members-IsMap

one_pod-lost : lost (reconcile small_api one_pod (state_with one_pod)).0 ≡ true
unfolding reconcile reconcile_to is_equal pods_to_member_set add reconcile_members diff has
    settle_members cause
one_pod-lost = refl

reconcile-lost_example :
    size (running_members (pods_to_member_set (cluster_in running) one_pod []) three_members)
    < size three_members / 2 + 1
reconcile-lost_example = reconcile-lost small_api one_pod (state_with one_pod) one_pod-lost

abbrev idle_state : State (List Pod)
idle_state = record (state_with []) {
  manager = record ((state_with []).manager) { syncing = false };
}

idle_state-starts :
    (sync_etcd small_api (cluster_in running) idle_state).0 ≡ ok (some (cluster_in running))
unfolding sync_etcd adjusted_sync or_nothing write_adjusted start_unless_syncing adjust_spec
    fix_etcd_size fill_version fill_node_port fixed_size
idle_state-starts = refl

sync_etcd-started_example :
    (false ≡ false)
    × ((sync_etcd small_api (cluster_in running) idle_state).1.manager.syncing ≡ false)
sync_etcd-started_example =
    sync_etcd-started small_api (cluster_in running) idle_state (cluster_in running)
      idle_state-starts

abbrev holding_api : Api
holding_api = record {
  World = Option Service;
  member_suffix = λ w. ("dddddddddd", w);
  new_token = λ w. ("token", w);
  sync_component = λ oc w. (good tt, w);
  count_master_nodes = λ w. (good 3, w);
  get_cluster = λ ns name w. (good (cluster_in running), w);
  update_cluster = λ oc w. (good oc, w);
  get_tls_secret = λ ns w. (good "tls", w);
  new_tls_config = λ secret w. (good secret, w);
  create_claim = λ name w. (good tt, w);
  delete_claim = λ name w. (good tt, w);
  create_pod = λ request w. (good tt, w);
  delete_pod = λ name w. (good tt, w);
  list_pods = λ name w. (good [], w);
  get_pod = λ name w. (bad not_found, w);
  patch_pod = λ pod w. (good tt, w);
  new_client = λ urls w. (good tt, w);
  member_add = λ urls url w. (good 9, w);
  member_remove = λ urls id w. (good tt, w);
  member_list = λ urls w. (good [], w);
  get_service = λ name w. (bad not_found, w);
  create_service = λ service w. (good tt, some service);
  update_service = λ service w. (good tt, some service);
  marshal_port = λ port. port.name;
  labels_equal = λ a b. true;
}

holding_api-KeepsAnnotations : KeepsAnnotations holding_api (λ w. w)
holding_api-KeepsAnnotations = record {
  created = λ svc w e. (svc, refl, refl);
  updated = λ svc w e. (svc, refl, refl);
}

abbrev peers : Service
peers = peer_service holding_api (cluster_in running)

abbrev serving_state : State (Option Service)
serving_state = record {
  manager = (state_with []).manager;
  world = some (client_service holding_api (cluster_in running));
}

settle_service-Settled_example :
    ((old : Service)
      → serving_state.world ≡ some old
      → (settle_service holding_api peers (good old) serving_state).0 ≡ done
      → LeftAlone holding_api
          (λ w. w)
          peers
          (settle_service holding_api peers (good old) serving_state).1.world)
    × ((holding_api.create_service peers serving_state.world).0 ≡ good tt
        → LeftAlone holding_api
            (λ w. w)
            peers
            (settle_service holding_api peers (bad not_found) serving_state).1.world)
settle_service-Settled_example =
    settle_service-Settled holding_api (λ w. w) holding_api-KeepsAnnotations peers refl
      serving_state

is_equal_iff_example :
    (is_equal three_members three_members ≡ true)
    ↔ ((n : String) → has n three_members ≡ has n three_members)
is_equal_iff_example =
    is_equal_iff three_members three_members three_members-IsMap three_members-IsMap

one_is_not_three :
    size (running_members (member_named "one-etcd-a" ∷ []) three_members) ≢ size three_members
unfolding diff has
one_is_not_three e = omega (arith, e)

dead_member_exists_example :
    (m : Member) × (pick_one
        (diff three_members (running_members (member_named "one-etcd-a" ∷ []) three_members))
      ≡ some m)
    × (has m.name three_members ≡ true)
    × (has m.name (member_named "one-etcd-a" ∷ []) ≡ false)
unfolding has
dead_member_exists_example =
    dead_member_exists (member_named "one-etcd-a" ∷ []) three_members (refl, tt) three_members-IsMap
      one_is_not_three

cluster_name-unique_member_name_example :
    cluster_name_from_member_name (unique_member_name "one-etcd" "dddddddddd") ≡ some "one-etcd"
cluster_name-unique_member_name_example =
    cluster_name-unique_member_name "one-etcd" "dddddddddd" (omega arith)
      ((refl, (refl, (refl, (refl, (refl, (refl, (refl, (refl, (refl, (refl, tt)))))))))))
