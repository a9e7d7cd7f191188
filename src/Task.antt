-- ===== src/Task.antt =====
-- src/lib/task.c and src/lib/task.h: the table of tasks. The definitions are in Types, Queue,
-- Describe and Status, and the other children prove what they are named for.
pub mod Types
pub mod Queue
pub mod Describe
pub mod Received
pub mod Status
pub mod Table
pub mod Cases
pub mod Slots
pub mod Counts
pub mod Steps
pub mod Impossible
pub mod Marking
pub mod Recursion
pub mod Text
