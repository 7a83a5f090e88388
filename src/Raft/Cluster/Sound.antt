-- ===== src/Raft/Cluster/Sound.antt =====
-- What holds of each node of a cluster (kvcluster/raft/raft.cpp).
use raft_drive.Prelude.{
  ℕ, ◌+◌, ◌≤◌, ◌<◌, ◌≡◌, ◌≢◌, Bool, true, false, ◌||◌, if◌then◌else◌, ◌==◌, pos, minus_one,
}
use raft_drive.Raft.Types.{RequestVoteArgs}
use raft_drive.Raft.State.{leader, follower, is_majority}
use raft_drive.Raft.Ballot.{vote_queue}
use raft_drive.Raft.Ballot.Asking.{asks, AllAsk}
use raft_drive.Raft.Cluster.{VoteCall, idle, asked, answered, Member}
use raft_drive.Raft.Cluster.Tally.{tally}

abbrev pub is_busy : VoteCall → Bool
is_busy idle = false
is_busy (asked args) = true
is_busy (answered args reply) = true

abbrev pub is_granted : VoteCall → Bool
is_granted idle = false
is_granted (asked args) = false
is_granted (answered args reply) = reply.vote_granted

abbrev pub bit : Bool → ℕ
bit b = if b then 1 else 0

-- How often the vote of peer `j` in term `t` is in the queue, under way, or counted.
abbrev pub load : Member → ℕ → ℕ → ℕ
load x t j = asks t j (vote_queue x.node.tasks) + bit (is_busy (x.calls t j)) + bit (x.counted t j)

-- The node has the vote of peer `j` in term `t`, or a reply that says so.
abbrev pub claims : Member → ℕ → ℕ → Bool
claims x t j = x.counted t j || is_granted (x.calls t j)

-- The nodes that back node `i` in term `t`.
abbrev pub backs : ℕ → Member → ℕ → ℕ → Bool
backs i x t j = j == i || x.counted t j

pub record Sound (peers i : ℕ) (x : Member) : Type 0 where
  pub id : x.node.id ≡ pos i
  pub size : x.node.peers ≡ peers
  pub vote : x.votes x.node.current_term ≡ x.node.voted_for
  pub no_vote : (t : ℕ) → x.node.current_term < t → x.votes t ≡ minus_one
  pub no_load : (t j : ℕ) → x.node.current_term < t → load x t j ≡ 0
  pub once : (t j : ℕ) → load x t j ≤ 1
  pub not_itself : (t : ℕ) → load x t i ≡ 0
  pub all_ask : AllAsk (pos i) peers (vote_queue x.node.tasks)
  pub asked_well :
      (t j : ℕ) (args : RequestVoteArgs)
      → x.calls t j ≡ asked args
      → (j < peers) × (args.term ≡ t) × (args.candidate_id ≡ pos i)
  pub own_vote : x.node.state ≢ follower → x.node.voted_for ≡ pos i
  pub support :
      x.node.state ≢ follower → x.node.votes_granted ≡ tally (backs i x x.node.current_term) peers
  pub majority : x.node.state ≡ leader → is_majority peers x.node.votes_granted ≡ true
