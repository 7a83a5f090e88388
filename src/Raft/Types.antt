-- ===== src/Raft/Types.antt =====
-- kvcluster/raft/raft_types.hpp and apply_channel.hpp: the log entry, the arguments and replies of the
-- three calls between nodes, and the queue of applied entries. `uint8_t`, `uint32_t` and `uint64_t`
-- are numbers below their modulus, `int` is ℤ, and a text is its bytes.
use raft_drive.Prelude.{ℕ, Bool, true, false, List, [], ◌∷◌, ◌++◌, Bytes, ℤ}

pub record LogEntry : Type 0 where
  pub command : Bytes
  pub term : ℕ

pub record AppendEntriesArgs : Type 0 where
  pub term : ℕ
  pub leader_id : ℤ
  pub pre_log_index : ℕ
  pub pre_log_term : ℕ
  pub entries : List LogEntry
  pub leader_commit : ℕ

pub record AppendEntriesReply : Type 0 where
  pub term : ℕ
  pub success : Bool
  pub conflict_index : ℕ
  pub conflict_term : ℕ

pub record RequestVoteArgs : Type 0 where
  pub term : ℕ
  pub candidate_id : ℤ
  pub last_log_index : ℕ
  pub last_log_term : ℕ

pub record RequestVoteReply : Type 0 where
  pub term : ℕ
  pub vote_granted : Bool

-- The field `data` of the source is `content` here.
pub record InstallSnapshotArgs : Type 0 where
  pub term : ℕ
  pub leader_id : ℤ
  pub last_included_index : ℕ
  pub last_included_term : ℕ
  pub offset : ℤ
  pub content : Bytes
  pub done : Bool

pub record InstallSnapshotReply : Type 0 where
  pub term : ℕ

pub record ApplyMsg : Type 0 where
  pub command_valid : Bool
  pub command_index : ℕ
  pub command_term : ℕ
  pub command : Bytes
  pub snapshot_valid : Bool
  pub snapshot : Bytes
  pub last_included_index : ℕ
  pub last_included_term : ℕ

-- `ApplyChannel`. The front of the queue is the head of the list.
pub record ApplyChannel : Type 0 where
  pub queue : List ApplyMsg
  pub closed : Bool

unfoldable pub push : ApplyMsg → ApplyChannel → ApplyChannel
push m c = record c { queue = c.queue ++ m ∷ [] }

-- What `pop` does when its wait is over: `blocked` while the queue is empty and not closed.
pub data Popped : Type 0 where
  blocked : Popped
  closed_out : Popped
  popped : ApplyMsg → ApplyChannel → Popped

abbrev pop_from : List ApplyMsg → ApplyChannel → Popped
pop_from [] c = elim c.closed [ true ↦ closed_out | false ↦ blocked ]
pop_from (m ∷ rest) c = popped m (record c { queue = rest })

unfoldable pub pop : ApplyChannel → Popped
pop c = pop_from c.queue c

unfoldable pub close : ApplyChannel → ApplyChannel
close c = record c { closed = true }
