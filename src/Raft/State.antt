-- ===== src/Raft/State.antt =====
-- The state of a node (`class Raft`, kvcluster/raft/raft.hpp), and its storage (persister.hpp).
use raft_drive.Prelude.{
  ℕ, ◌/◌, Bool, true, false, List, Option, none, some, ltb, Bytes, length, get_elem?, ℤ, sub64,
}
use raft_drive.Raft.Types.{
  LogEntry, AppendEntriesArgs, RequestVoteArgs, InstallSnapshotArgs, ApplyChannel,
}

-- `Raft::State`.
pub data State : Type 0 where
  leader candidate follower : State

-- `Persister`: two texts in memory.
pub record Persister : Type 0 where
  pub raftstate : Bytes
  pub snapshot : Bytes

unfoldable pub save_raft_state : Bytes → Persister → Persister
save_raft_state st p = record p { raftstate = st }

unfoldable pub read_raft_state : Persister → Bytes
read_raft_state p = p.raftstate

unfoldable pub save_state_and_snapshot : Bytes → Bytes → Persister → Persister
save_state_and_snapshot st snap p = record p { raftstate = st; snapshot = snap }

unfoldable pub read_snapshot : Persister → Bytes
read_snapshot p = p.snapshot

unfoldable pub raft_state_size : Persister → ℕ
raft_state_size p = length p.raftstate

unfoldable pub snapshot_size : Persister → ℕ
snapshot_size p = length p.snapshot

-- What a handler hands to the thread pool: the call of a peer, with what its lambda captures.
pub data Task : Type 0 where
  send_request_vote : ℕ → RequestVoteArgs → Task
  send_append_entries : (id last_abs_index_sent term_started : ℕ) → AppendEntriesArgs → Task
  send_install_snapshot : ℕ → InstallSnapshotArgs → Task

-- The fields of `class Raft`. `peers` is `m_peers.size()`; the transports themselves, the mutex and
-- the condition variable have no part in the model, and `m_last_vector_addr` is never used. `tasks`
-- is the queue of `m_threadPool`, its front at the head. Times are milliseconds of the steady clock.
pub record Node : Type 0 where
  pub id : ℤ
  pub peers : ℕ
  pub voted_for : ℤ
  pub votes_granted : ℕ
  pub current_term : ℕ
  pub commit_index : ℕ
  pub last_applied : ℕ
  pub last_included_index : ℕ
  pub last_included_term : ℕ
  pub state : State
  pub logs : List LogEntry
  pub next_index : List ℕ
  pub match_index : List ℕ
  pub persister : Persister
  pub apply_channel : ApplyChannel
  pub last_heartbeat : ℕ
  pub election_timeout : ℕ
  pub new_log_arrive : Bool
  pub dead : Bool
  pub tasks : List Task

-- What a handler takes from outside: the clock, and the number that `helperGenerateTimeout` draws
-- from 700 to 900.
pub record Env : Type 0 where
  pub now : ℕ
  pub timeout : ℕ

abbrev pub is_leader_state : State → Bool
is_leader_state leader = true
is_leader_state candidate = false
is_leader_state follower = false

abbrev pub is_candidate_state : State → Bool
is_candidate_state leader = false
is_candidate_state candidate = true
is_candidate_state follower = false

abbrev pub is_follower_state : State → Bool
is_follower_state leader = false
is_follower_state candidate = false
is_follower_state follower = true

-- `m_logs[i]->term`; `none` is a read outside of the vector.
unfoldable pub log_term : List LogEntry → ℕ → Option ℕ
log_term logs i = elim (get_elem? logs i) [ none ↦ none | some e ↦ some e.term ]

-- `helperGetRelativeIndex`.
unfoldable pub relative_index : Node → ℕ → ℕ
relative_index n absolute = sub64 absolute n.last_included_index

-- `votes > static_cast<int>(m_peers.size()/2)`.
unfoldable pub is_majority : ℕ → ℕ → Bool
is_majority peers votes = ltb (peers / 2) votes
