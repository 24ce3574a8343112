-- ===== src/Plugin.antt =====
-- controllers/consoleplugin.go
pub mod Objects
pub mod Httpd
pub mod Sorting
pub mod Equality
pub mod Reconcile
pub mod Old
pub mod Amendments
pub mod Rest
pub mod Stored
pub mod Provision
pub mod Removal
pub mod Reordering
pub mod Examples
pub mod StoredExamples
