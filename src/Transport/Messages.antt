-- ===== src/Transport/Messages.antt =====
-- The messages of proto/raft.proto. The classes that gRPC generates from them are no part of the
-- repository; a message is the record of its fields.
use raft_drive.Prelude.{ℕ, Bool, List, Bytes, ℤ}

pub record PbLogEntry : Type 0 where
  pub command : Bytes
  pub term : ℕ

pub record PbAppendEntriesArgs : Type 0 where
  pub term : ℕ
  pub leader_id : ℤ
  pub pre_log_index : ℕ
  pub pre_log_term : ℕ
  pub entries : List PbLogEntry
  pub leader_commit : ℕ

pub record PbAppendEntriesReply : Type 0 where
  pub term : ℕ
  pub success : Bool
  pub conflict_index : ℕ
  pub conflict_term : ℕ

pub record PbRequestVoteArgs : Type 0 where
  pub term : ℕ
  pub candidate_id : ℤ
  pub last_log_index : ℕ
  pub last_log_term : ℕ

pub record PbRequestVoteReply : Type 0 where
  pub term : ℕ
  pub vote_granted : Bool

-- The field `data` of the message is `content` here.
pub record PbInstallSnapshotArgs : Type 0 where
  pub term : ℕ
  pub leader_id : ℤ
  pub last_included_index : ℕ
  pub last_included_term : ℕ
  pub offset : ℤ
  pub content : Bytes
  pub done : Bool

pub record PbInstallSnapshotReply : Type 0 where
  pub term : ℕ
