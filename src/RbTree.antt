-- ===== src/RbTree.antt =====
-- include/mzx/data_structure/rbtree.h and src/data_structure/rbtree.cpp: the red-black tree.
--
-- A node is named by a number, and nullptr is `none`. The word parent_color_ is the pair of a parent
-- and a color; a node that is in no tree has itself for a parent and is red. Where the code repeats
-- a case with left and right exchanged, the model has the side as an argument.
pub mod Store
pub mod Insert
mod Tests
mod Examples
pub mod Search
pub mod Erase
pub mod Steps
pub mod Shape
pub mod Writes
pub mod TurnInner
pub mod TurnOuter
pub mod Repair
pub mod Rotate
pub mod Rounds
pub mod Around
pub mod Passes
pub mod Loop
pub mod Balance
pub mod Recolored
pub mod Inorder
pub mod Sequence
pub mod Descent
pub mod Place
pub mod Refines
pub mod Visit
pub mod Lookup
pub mod Queries
