-- ===== src/Kv.antt =====
-- cs537/P6: a key-value store behind a ring buffer in shared memory.
pub mod Request
pub mod Table
pub mod Server
pub mod Client
pub mod Ring
