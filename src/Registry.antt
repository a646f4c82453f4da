-- ===== src/Registry.antt =====
-- Image tags and references: internal/registry/resolver.go.
pub mod Image
pub mod Client
pub mod Resolver
