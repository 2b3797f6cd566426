-- ===== src/Scheduler.antt =====
-- packages/evoid-scheduler: the priority queue with deferral.
pub mod Heap
pub mod Priority
pub mod Engine
pub mod Processor
