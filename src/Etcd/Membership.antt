-- ===== src/Etcd/Membership.antt =====
-- How the membership of the etcd cluster changes: the specification of one `reconcile` of
-- pkg/manager/component/etcd.go, and the proof that the code keeps to it.
pub mod Quiet
pub mod Change
pub mod Grow
pub mod Shrink
pub mod Refine
pub mod Reconcile
pub mod Quorum
pub mod Progress
pub mod Converge
pub mod Rounds
