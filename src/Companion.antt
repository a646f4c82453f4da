-- ===== src/Companion.antt =====
-- The companion that analyses escalations: cmd/claw4k8s.
pub mod Pipeline
pub mod Prompt
pub mod Gateway
pub mod Namespaces
pub mod Watcher
pub mod Retries
pub mod Proposals
pub mod Scopes
mod Tests
