-- ===== src/Durable/Moves.antt =====
-- How an operation of the store moves the tables, in one rule for each way to build an operation. A
-- relation between databases with these laws then holds across every operation.
pub mod Basic
pub mod Publisher
pub mod Worker
pub mod Outcome
pub mod Scheduler
pub mod Completion
