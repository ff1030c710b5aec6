-- ===== src/Etcd/Membership/Change.antt =====
-- The specification of one `reconcile` of pkg/manager/component/etcd.go: which changes of the
-- membership it may make, and that the methods which add and remove a member make only those.
use cloudpods_operator.Prelude.{ℕ, ◌+◌, ◌/◌, ◌≤◌, ◌<◌, ◌≡◌, true, false, some, arith}
use cloudpods_operator.Etcd.Member.{Member}
use cloudpods_operator.Etcd.Member.Names.{has_address}
use cloudpods_operator.Etcd.MemberSet.{MemberSet, has, add, remove, size}
use cloudpods_operator.Etcd.MemberSet.Sizes.{running_members}
use cloudpods_operator.Etcd.Api.{Manager, State}
use cloudpods_operator.Etcd.Manager.Members.{members_of}

-- From the members `ms` to the members after, where the pods `found` run and `goal` is the size
-- that is asked for: nothing changes; one new member joins, below the goal; one leaves, above the
-- goal; or one that does not run is given up, while a quorum of the others runs.
pub data Change (goal : ℕ) (found ms : MemberSet) (after : MemberSet) : Type 0 where
  kept : after ≡ ms → Change goal found ms after
  grown :
      (mb : Member)
      → size ms < goal
      → has_address mb ≡ true
      → after ≡ add mb ms
      → Change goal found ms after
  shrunk :
      (mb : Member)
      → goal < size ms
      → has mb.name ms ≡ true
      → after ≡ remove mb.name ms
      → Change goal found ms after
  buried :
      (mb : Member)
      → size ms / 2 + 1 ≤ size (running_members found ms)
      → has mb.name ms ≡ true
      → has mb.name found ≡ false
      → after ≡ remove mb.name ms
      → Change goal found ms after

-- The manager is `m` but for its members, of which `R` holds.
pub record Moved {W : Type 0} (m : Manager) (R : MemberSet → Type 0) (t : State W) : Type 0 where
  pub members : MemberSet
  pub moved : t.manager ≡ record m { members = some members }
  pub fact : R members

pub members_of-known : (m : Manager) (ms : MemberSet) → m.members ≡ some ms → members_of m ≡ ms
members_of-known m ms h = ground arith

pub same_manager :
    (m : Manager) (ms : MemberSet) → m.members ≡ some ms → m ≡ record m { members = some ms }
same_manager m ms h = ground arith
