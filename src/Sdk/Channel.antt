-- ===== src/Sdk/Channel.antt =====
-- The client of the bus in a channel sidecar: sdk/channel.
pub mod Buffer
pub mod Wire
pub mod Options
pub mod Client
mod Tests
