-- ===== src/Controller.antt =====
-- The operator's reconcilers: internal/controller.
pub mod AutoUpdate
pub mod Intent
pub mod Channels
pub mod Ops
pub mod SelfConfig
