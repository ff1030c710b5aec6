-- ===== src/Tests/RoundTests.antt =====
-- A round of `reconcile` of pkg/manager/component/etcd.go that brings two members to three.
use cloudpods_operator.Prelude.{List, [], ◌∷◌, ◌≡◌, refl, some, arith}
use cloudpods_operator.Exec.{done}
use cloudpods_operator.Etcd.Member.{addr, unique_member_name, peer_url, client_url}
use cloudpods_operator.Etcd.MemberSet.{
  MemberSet, size, has, add, diff, is_equal, client_urls, peer_url_pairs,
}
use cloudpods_operator.Etcd.Types.{Pod, running}
use cloudpods_operator.Etcd.Api.{State}
use cloudpods_operator.Etcd.Manager.Pods.{create_pod, make_claim}
use cloudpods_operator.Etcd.Manager.Members.{add_one_member, new_member, insert_member, resize}
use cloudpods_operator.Etcd.Manager.Reconcile.{
  pods_to_member_set, reconcile, reconcile_to, reconcile_members, settle_members,
}
use cloudpods_operator.Etcd.Membership.Rounds.{Ready, Rounds, over, round, Rounds-reach_size}
use cloudpods_operator.Tests.Fixtures.{small_api, member_named, two_pods, manager_in}

abbrev two_members : MemberSet
two_members = member_named "one-etcd-a" ∷ member_named "one-etcd-b" ∷ []

abbrev two_state : State (List Pod)
two_state = record { manager = manager_in running (some two_members); world = two_pods }

two_state-Ready : Ready small_api 3 two_state two_pods
unfolding addr has is_equal pods_to_member_set add unique_member_name
two_state-Ready = record {
  members = two_members;
  known = refl;
  addressed = (refl, (refl, tt));
  mapped = (refl, (refl, tt));
  wanted = refl;
  running = refl;
  unused = λ urls e. refl;
}

two_state-grows : (reconcile small_api two_pods two_state).0 ≡ done
unfolding reconcile reconcile_to is_equal pods_to_member_set add reconcile_members diff has
    settle_members resize add_one_member client_urls client_url new_member peer_url
    unique_member_name insert_member create_pod peer_url_pairs make_claim
two_state-grows = refl

one_round : Rounds small_api 3 1 two_state (reconcile small_api two_pods two_state).1
one_round = round two_pods two_state-Ready two_state-grows refl over

Rounds-reach_size_example :
    (after : MemberSet) × ((reconcile small_api two_pods two_state).1.manager.members ≡ some after)
    × (size after ≡ 3)
Rounds-reach_size_example = Rounds-reach_size small_api 3 two_members one_round refl (omega arith)
