-- ===== src/Etcd.antt =====
-- The etcd component: pkg/manager/component/etcd.go and pkg/util/etcdutil/member.go.
pub mod Member
pub mod PeerUrl
pub mod MemberSet
pub mod Types
pub mod Api
pub mod Manager
pub mod Membership
pub mod Behaviour
