-- ===== src/Controller.antt =====
-- internal/controller/oidcclient_controller.go: the reconciler. `Environment` is what it acts on,
-- `Names` the names that it derives, `Secrets` the Secret that it keeps, and `Registration`,
-- `Normal`, `Deletion` and `Reconcile` its passes.
pub mod Environment
pub mod Names
pub mod Secrets
pub mod Status
pub mod Registration
pub mod Normal
pub mod Store
pub mod Deletion
pub mod Reconcile
pub mod Lifecycle
