-- ===== src/Transport/Service.antt =====
-- `RaftServiceImpl` (kvcluster/service_raft_grpc.hpp): each call copies its message, calls the node and
-- copies the reply. Its log output is left out.
use raft_drive.Prelude.{List, [], ◌∷◌, Option, some, ◌>>=◌}
use raft_drive.Json.{JsonLib}
use raft_drive.Raft.Types.{
  LogEntry, AppendEntriesArgs, AppendEntriesReply, RequestVoteArgs, InstallSnapshotArgs,
  InstallSnapshotReply,
}
use raft_drive.Raft.State.{Node, Env}
use raft_drive.Raft.Roles.{request_vote}
use raft_drive.Raft.Append.{append_entries}
use raft_drive.Raft.Snapshot.{install_snapshot}
use raft_drive.Transport.Messages.{
  PbLogEntry, PbAppendEntriesArgs, PbAppendEntriesReply, PbRequestVoteArgs, PbRequestVoteReply,
  PbInstallSnapshotArgs, PbInstallSnapshotReply,
}

-- The loop over `req->entries()`.
unfoldable pub read_pb_entries : List PbLogEntry → List LogEntry
read_pb_entries [] = []
read_pb_entries (p ∷ ps) = record { command = p.command; term = p.term } ∷ read_pb_entries ps

abbrev pub append_args_of : PbAppendEntriesArgs → AppendEntriesArgs
append_args_of req = record {
  term = req.term;
  leader_id = req.leader_id;
  pre_log_index = req.pre_log_index;
  pre_log_term = req.pre_log_term;
  entries = read_pb_entries req.entries;
  leader_commit = req.leader_commit;
}

abbrev pub vote_args_of : PbRequestVoteArgs → RequestVoteArgs
vote_args_of req = record {
  term = req.term;
  candidate_id = req.candidate_id;
  last_log_index = req.last_log_index;
  last_log_term = req.last_log_term;
}

abbrev pub install_args_of : PbInstallSnapshotArgs → InstallSnapshotArgs
install_args_of req = record {
  term = req.term;
  leader_id = req.leader_id;
  last_included_index = req.last_included_index;
  last_included_term = req.last_included_term;
  offset = req.offset;
  content = req.content;
  done = req.done;
}

module _ ⦃json : JsonLib⦄ where
  unfoldable pub service_request_vote :
      Env → PbRequestVoteArgs → Node → Option (Node × PbRequestVoteReply)
  service_request_vote env req n = do
    (m, reply) ← request_vote env (vote_args_of req) n
    some (m, record { term = reply.term; vote_granted = reply.vote_granted })

  -- `reply` is what the memory of the uninitialised reply holds.
  unfoldable pub service_append_entries :
      Env → AppendEntriesReply → PbAppendEntriesArgs → Node → Option (Node × PbAppendEntriesReply)
  unfolding read_pb_entries
  service_append_entries env reply req n = do
    (m, r) ← append_entries env (append_args_of req) reply n
    some (
      m,
      record {
        term = r.term;
        success = r.success;
        conflict_index = r.conflict_index;
        conflict_term = r.conflict_term;
      },
    )

  unfoldable pub service_install_snapshot :
      Env → InstallSnapshotReply → PbInstallSnapshotArgs → Node → Node × PbInstallSnapshotReply
  service_install_snapshot env reply req n =
      let (m, r) = install_snapshot env (install_args_of req) reply n in
      (m, record { term = r.term })
