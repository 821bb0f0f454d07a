-- ===== src/Net.antt =====
-- include/mzx/net: connection ids and buffers.
pub mod Ids
pub mod Buffer
pub mod Master
mod Tests
