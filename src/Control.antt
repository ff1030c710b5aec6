-- ===== src/Control.antt =====
-- The control loop of the cluster: pkg/controller/cluster/onecloud_cluster_control.go and
-- onecloud_cluster_controller.go.
pub mod Update
pub mod Mysql
pub mod Queue
pub mod Resolve
pub mod Complete
pub mod Notify
