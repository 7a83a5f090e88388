-- ===== src/Raft.antt =====
-- kvcluster/raft: the consensus node.
pub mod Types
pub mod State
pub mod Persist
pub mod Roles
pub mod Append
pub mod Leader
pub mod Snapshot
pub mod Loop
pub mod Invariant
pub mod Step
pub mod Ballot
pub mod Cluster
pub mod Net
pub mod Accord
pub mod Candidacy
pub mod Durable
pub mod Start
pub mod Vote
pub mod Restart
pub mod Commit
