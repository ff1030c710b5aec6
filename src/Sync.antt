-- ===== src/Sync.antt =====
-- How a component of the cluster is brought to its wanted state:
-- pkg/manager/component/component.go, sync.go and utils.go.
pub mod Objects
pub mod Kube
pub mod Annotate
pub mod Kinds
pub mod Deploy
pub mod Component
pub mod Maps
pub mod Held
pub mod Converge
pub mod Redeploy
pub mod Keeps
pub mod Services
pub mod Outside
