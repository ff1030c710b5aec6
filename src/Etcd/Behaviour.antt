-- ===== src/Etcd/Behaviour.antt =====
-- What single methods of pkg/manager/component/etcd.go do: the specification that a sync starts
-- from, the pods it sorts, the outcome of a setup, and the rounds of the loop.
pub mod Spec
pub mod Pods
pub mod Setup
pub mod Begin
pub mod Loop
pub mod Run
