-- ===== src/Transport/Client.antt =====
-- `GrpcRaftClient` (kvcluster/transport/client_raft_grpc.hpp). The stub is generated code, and a
-- function on the world outside: `none` is a status that is not ok. The deadlines are the stub's.
use raft_drive.Prelude.{Bool, true, false, List, [], ◌∷◌, Option, none, some}
use raft_drive.Raft.Types.{
  LogEntry, AppendEntriesArgs, AppendEntriesReply, RequestVoteArgs, RequestVoteReply,
  InstallSnapshotArgs, InstallSnapshotReply,
}
use raft_drive.Transport.Messages.{
  PbLogEntry, PbAppendEntriesArgs, PbAppendEntriesReply, PbRequestVoteArgs, PbRequestVoteReply,
  PbInstallSnapshotArgs, PbInstallSnapshotReply,
}

pub record RaftStub (W : Type 0) : Type 0 where
  pub request_vote : PbRequestVoteArgs → W → W × Option PbRequestVoteReply
  pub append_entries : PbAppendEntriesArgs → W → W × Option PbAppendEntriesReply
  pub install_snapshot : PbInstallSnapshotArgs → W → W × Option PbInstallSnapshotReply

-- The loop over `args.entries`.
unfoldable pub write_pb_entries : List LogEntry → List PbLogEntry
write_pb_entries [] = []
write_pb_entries (e ∷ es) = record { command = e.command; term = e.term } ∷ write_pb_entries es

abbrev pub pb_append_args : AppendEntriesArgs → PbAppendEntriesArgs
pb_append_args args = record {
  term = args.term;
  leader_id = args.leader_id;
  pre_log_index = args.pre_log_index;
  pre_log_term = args.pre_log_term;
  entries = write_pb_entries args.entries;
  leader_commit = args.leader_commit;
}

abbrev pub pb_vote_args : RequestVoteArgs → PbRequestVoteArgs
pb_vote_args args = record {
  term = args.term;
  candidate_id = args.candidate_id;
  last_log_index = args.last_log_index;
  last_log_term = args.last_log_term;
}

abbrev pub pb_install_args : InstallSnapshotArgs → PbInstallSnapshotArgs
pb_install_args args = record {
  term = args.term;
  leader_id = args.leader_id;
  last_included_index = args.last_included_index;
  last_included_term = args.last_included_term;
  offset = args.offset;
  content = args.content;
  done = args.done;
}

-- The result of a call: whether it succeeded, and the reply, which stays as it was if it did not.
abbrev vote_received :
    {W : Type 0} → RequestVoteReply → W × Option PbRequestVoteReply → W × Bool × RequestVoteReply
vote_received reply (w, none) = (w, false, reply)
vote_received reply (w, some resp) =
    (w, true, record { term = resp.term; vote_granted = resp.vote_granted })

abbrev append_received :
    {W : Type 0}
    → AppendEntriesReply
    → W × Option PbAppendEntriesReply
    → W × Bool × AppendEntriesReply
append_received reply (w, none) = (w, false, reply)
append_received reply (w, some resp) = (
  w,
  true,
  record {
    term = resp.term;
    success = resp.success;
    conflict_index = resp.conflict_index;
    conflict_term = resp.conflict_term;
  },
)

abbrev install_received :
    {W : Type 0}
    → InstallSnapshotReply
    → W × Option PbInstallSnapshotReply
    → W × Bool × InstallSnapshotReply
install_received reply (w, none) = (w, false, reply)
install_received reply (w, some resp) = (w, true, record { term = resp.term })

module _ {W : Type 0} (stub : RaftStub W) where
  unfoldable pub client_request_vote :
      RequestVoteArgs → RequestVoteReply → W → W × Bool × RequestVoteReply
  client_request_vote args reply w = vote_received reply (stub.request_vote (pb_vote_args args) w)

  unfoldable pub client_append_entries :
      AppendEntriesArgs → AppendEntriesReply → W → W × Bool × AppendEntriesReply
  unfolding write_pb_entries
  client_append_entries args reply w =
      append_received reply (stub.append_entries (pb_append_args args) w)

  unfoldable pub client_install_snapshot :
      InstallSnapshotArgs → InstallSnapshotReply → W → W × Bool × InstallSnapshotReply
  client_install_snapshot args reply w =
      install_received reply (stub.install_snapshot (pb_install_args args) w)
