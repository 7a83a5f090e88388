-- ===== src/Raft/Accord.antt =====
-- What a cluster has agreed on: entries that a majority has taken from a leader stay in the logs of all
-- later leaders, and committed entries are the same on all nodes (kvcluster/raft/raft.cpp).
pub mod Defs
pub mod Complete
pub mod Keeper
pub mod Moves
pub mod Shapes
pub mod Still
pub mod Crowns
pub mod Starts
pub mod Stands
pub mod Votes
pub mod Steps
pub mod Rounds
pub mod Calls
pub mod Runs
pub mod Starting
pub mod Safety
pub mod Accepts
