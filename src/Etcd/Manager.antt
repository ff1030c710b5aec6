-- ===== src/Etcd/Manager.antt =====
-- The etcd manager, pkg/manager/component/etcd.go. A method is an `Exec` over the manager and the
-- world; `api` stands for what it calls outside this repository.
pub mod Spec
pub mod Pods
pub mod Members
pub mod Reconcile
pub mod Setup
pub mod Loop
pub mod Services
pub mod Run
