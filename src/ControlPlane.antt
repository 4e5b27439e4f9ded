-- ===== src/ControlPlane.antt =====
-- The control plane's desired state: what the store keeps, who may write it, and what is shown of it.
pub mod Memory
pub mod Assign
pub mod View
pub mod SetSpec
pub mod Sets
pub mod OwnedSlots
pub mod Rollout
pub mod Candidates
pub mod Survey
pub mod Roll
pub mod Reconcile
pub mod Template
pub mod Expand
pub mod Config
