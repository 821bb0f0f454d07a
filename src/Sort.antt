-- ===== src/Sort.antt =====
-- include/mzx/algorithm/sort: the sorts over a range [begin, end), each a child module.
pub mod Moves
pub mod Insert
pub mod Select
pub mod Buddle
pub mod Heap
pub mod Quick
pub mod Shell
mod Tests
