-- ===== src/ActiveMessages.antt =====
-- Active messages: src/active_messaging/registered_active_message.rs and
-- src/active_messaging/batching/simple_batcher.rs.
pub mod Messages
pub mod Batcher
pub mod Registered
pub mod Wire
pub mod Serialized
pub mod Batches
pub mod Tasks
pub mod Pending
pub mod Delivery
pub mod Process
mod Tests
