-- ===== src/CommandQueues.antt =====
-- The command queue of src/lamellae/command_queues.rs: the commands, the hash that guards them, and the
-- buffers of commands that a PE fills, sends and takes back. The hash of a command and the one of a region of
-- memory have the same name in the source; here `Hash.calc_hash` is the region's.
pub mod Hash
pub mod Messages
pub mod Bufs
pub mod Link
mod Places
mod Owned
mod Pushing
mod Sending
mod Freeing
pub mod Exchange
mod Turns
mod Overwrite
mod Conserved
mod Drained
mod Progress
mod Single
pub mod Transfers
pub mod Data
mod Tests
