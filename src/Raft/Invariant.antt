-- ===== src/Raft/Invariant.antt =====
-- What holds of a node between any two handlers.
pub mod Replies
pub mod Rounds
mod Valid
pub mod Starts
pub mod Steps
use raft_drive.Prelude.{◌+◌, ◌^◌, ◌≤◌, ◌<◌, ◌≡◌, length}
use raft_drive.Raft.State.{Node}

-- The log has its dummy entry, its indices are words, everything up to the snapshot is applied, what
-- is committed is applied, and the leader's two vectors have an entry for each peer.
pub record IsValid (n : Node) : Type 0 where
  pub nonempty : 0 < length n.logs
  pub fits : n.last_included_index + length n.logs < 2 ^ 64
  pub applied_from : n.last_included_index ≤ n.last_applied
  pub committed : n.commit_index ≤ n.last_applied
  pub next_length : length n.next_index ≡ n.peers
  pub match_length : length n.match_index ≡ n.peers
