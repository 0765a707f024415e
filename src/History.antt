-- ===== src/History.antt =====
-- src/history.rs and src/history/: the durations of past test attempts, kept in bounded reservoirs.
pub mod Data
pub mod Reservoir
pub mod Bounds
pub mod Merging
pub mod Store
pub mod Recording
pub mod Counters
pub mod Merge
pub mod Merged
pub mod Union
pub mod Files
pub mod Saved
pub mod Stats
mod Rankings
mod Scheduled
mod Samples
