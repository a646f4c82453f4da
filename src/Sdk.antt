-- ===== src/Sdk.antt =====
-- The library for channel sidecars and other programs: sdk.
pub mod Channel
