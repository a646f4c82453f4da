-- ===== src/Rules.antt =====
-- Deterministic remediation rules: internal/rules, and the severities of api/v1alpha1.
pub mod Types
pub mod Builtin
pub mod Engine
