-- ===== src/Spsc.antt =====
-- include/mzx/spsc_queue.h: a ring of slots for one producer and one consumer. `size_t` has 64 bits.
--
-- A slot is `none` when it holds no object. Index i of the ring is index i of Data().
pub mod Ops
pub mod Ring
pub mod Laws
pub mod Available
pub mod Threads
pub mod Fifo
pub mod Schedule
mod Tests
