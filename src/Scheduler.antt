-- ===== src/Scheduler.antt =====
-- src/orchestrator/scheduler.rs: tests are put into batches once, and workers take batches from a
-- queue. `Batch` and `Assign` build the batches, `Build` is the constructor, `Queue` the operations of
-- the running queue; the other children prove.
pub mod Batch
pub mod Assign
pub mod Build
pub mod Queue
pub mod Coverage
pub mod Limits
pub mod Draining
pub mod Handout
pub mod Makespan
pub mod Factor
mod Samples
