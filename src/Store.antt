-- ===== src/Store.antt =====
-- The package store, store/*.go: its events and their history.
pub mod Event
pub mod History
pub mod Stats
pub mod Node
pub mod TtlHeap
pub mod Watchers
pub mod State
pub mod Get
pub mod Create
pub mod Swap
pub mod Delete
pub mod Save
pub mod Watch
pub mod Expiry
mod Runs
mod Tests
