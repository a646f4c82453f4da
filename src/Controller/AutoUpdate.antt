-- ===== src/Controller/AutoUpdate.antt =====
-- The reconciler of automatic updates: internal/controller/autoupdate_controller.go. Times are in
-- nanoseconds since the zero time.
pub mod Status
pub mod Cluster
pub mod Reconcile
pub mod Decoding
pub mod Rollback
pub mod Version
pub mod Guards
pub mod Health
mod Tests
