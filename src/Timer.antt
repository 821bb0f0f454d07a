-- ===== src/Timer.antt =====
-- include/mzx/timer_manager.h and src/timer_manager.cpp: timers on a wheel of five levels.
--
-- A timer node is named by its place in `node_list`, and a List of nodes is the list of these names
-- in order; a node's Erase takes it out of whatever list it is in. Times, delays and intervals are
-- not negative and do not overflow, and the callbacks given to SetTimer are not empty. A shift is a
-- quotient and a mask a remainder by the power of two that it stands for.
pub mod Defs
pub mod Ops
pub mod Update
pub mod Wheel
pub mod Slots
pub mod Held
pub mod Kept
pub mod Cascade
pub mod Firing
pub mod NodeList
pub mod Arm
pub mod Actions
pub mod Scripts
pub mod Ticks
pub mod InUse
pub mod Idle
pub mod Calls
pub mod Deleted
pub mod Runs
mod Tests
