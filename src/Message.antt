-- ===== src/Message.antt =====
-- internal/service/message: the message service. Message/Service is what it calls; Bounds, Window,
-- Events and Replay are its files of those names, and Read its reading commands.
pub mod Service
pub mod Bounds
pub mod Window
pub mod Events
pub mod Replay
pub mod Read
pub mod Produce
pub mod Tombstone
pub mod BulkBody
