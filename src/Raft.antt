-- ===== src/Raft.antt =====
-- The consensus package, raft/*.go: its messages, its log, the state machine of one member, and
-- the loop that drives it.
pub mod Pb
pub mod Log
pub mod Machine
pub mod Step
pub mod Member
pub mod Holds
pub mod Evolution
pub mod Frame
pub mod Votes
pub mod Voters
pub mod Follower
pub mod Ballot
pub mod Relapse
pub mod Node
pub mod Samples
mod Tests
