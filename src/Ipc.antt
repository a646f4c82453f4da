-- ===== src/Ipc.antt =====
-- The IPC bus: internal/ipcbus.
pub mod Message
pub mod Framing
pub mod Float
pub mod Ring
pub mod Wal
pub mod Dlq
pub mod Router
