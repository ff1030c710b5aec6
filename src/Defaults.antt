-- ===== src/Defaults.antt =====
-- The defaults of a cluster's specification and configuration:
-- pkg/apis/onecloud/v1alpha1/defaults.go.
pub mod Types
pub mod Image
pub mod Parts
pub mod Tables
pub mod Spec
pub mod Loops
pub mod Effects
pub mod Passes
pub mod Settled
pub mod Twice
pub mod Options
pub mod Config
pub mod Registry
pub mod Configured
pub mod Keys
pub mod Cluster
pub mod Again
