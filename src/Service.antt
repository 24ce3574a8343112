-- ===== src/Service.antt =====
-- controllers/gitopsservice_controller.go: the reconciler of the GitopsService.
pub mod Namespaces
pub mod Labels
pub mod Objects
pub mod Backend
pub mod Cleanup
pub mod Amendments
pub mod Provision
pub mod Steps
pub mod Restore
pub mod Instance
pub mod Absence
pub mod Default
pub mod Upkeep
pub mod Panic
pub mod Installed
pub mod Reconcile
pub mod Spares
pub mod Kept
pub mod Safety
pub mod SafeInstance
pub mod SafeBackend
pub mod SafeReconcile
pub mod Removal
pub mod Disabled
pub mod SetUp
pub mod Examples
pub mod InstanceExamples
pub mod ReconcileExamples
