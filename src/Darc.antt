-- ===== src/Darc.antt =====
-- src/darc: the locks behind the distributed reference counted pointers.
pub mod RwLock
pub mod Counts
