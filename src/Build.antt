-- ===== src/Build.antt =====
-- The builders of the components' objects: pkg/label/label.go, and the builders of
-- pkg/manager/component/component.go that every component calls.
pub mod Objects
pub mod Labels
pub mod Names
pub mod Services
pub mod Resources
pub mod Rollout
pub mod Deployments
pub mod Cloud
pub mod Workloads
pub mod Suffix
pub mod Selects
pub mod Limits
pub mod Files
pub mod Config
