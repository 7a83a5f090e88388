-- ===== src/Tests/Transport.antt =====
-- Calls through gRPC, the transports of a node, and the thread pool, on concrete inputs.
use raft_drive.Prelude.{
  ℕ, ◌≡◌, ◌≤◌, ◌<◌, refl, ◌⊎◌, true, false, [], ◌∷◌, ◌++◌, none, some, map, take, drop, length,
  Bytes, bytes, pos, List,
}
use raft_drive.Raft.Types.{RequestVoteReply, InstallSnapshotArgs, InstallSnapshotReply}
use raft_drive.Raft.Roles.{request_vote, last_log_index, last_log_term}
use raft_drive.Raft.Snapshot.{install_snapshot}
use raft_drive.Transport.Client.{
  client_request_vote, client_append_entries, client_install_snapshot,
}
use raft_drive.Transport.Loopback.{peer_stub, calls-handlers}
use raft_drive.Transport.Peers.{transports, transports-Layout}
use raft_drive.Pool.{
  Pool, new_pool, pool_enqueue, wake, Run, started, enqueued, took, taken_in_order,
}
use raft_drive.Tests.JsonText.{plain_json}
use raft_drive.Tests.Raft.{clock, behind, ballot, request, no_reply, after, after_runs, voted}

abbrev blank_vote : RequestVoteReply
blank_vote = record { term = 9; vote_granted = false }

abbrev granted_vote : RequestVoteReply
granted_vote = record { term = 1; vote_granted = true }

abbrev unset : InstallSnapshotReply
unset = record { term = 7 }

abbrev install : InstallSnapshotArgs
install = record {
  term = 2;
  leader_id = pos 1;
  last_included_index = 4;
  last_included_term = 1;
  offset = pos 0;
  content = bytes "s";
  done = true;
}

vote_runs : request_vote clock ballot behind ≡ some (voted, granted_vote)
unfolding request_vote last_log_index last_log_term
vote_runs = refl

calls-handlers_example :
    (client_request_vote (peer_stub clock no_reply unset) ballot blank_vote behind
      ≡ (voted, true, granted_vote))
    × (client_append_entries (peer_stub clock no_reply unset) request no_reply behind
        ≡ (after.0, true, after.1))
    × (client_install_snapshot (peer_stub clock no_reply unset) install unset behind ≡ (
      (install_snapshot clock install unset behind).0,
      true,
      (install_snapshot clock install unset behind).1,
    ))
calls-handlers_example =
    calls-handlers clock no_reply unset behind ballot request install blank_vote granted_vote
      no_reply after.1 unset voted after.0 vote_runs after_runs

abbrev addresses : List Bytes
addresses = bytes "a:1" ∷ bytes "b:2" ∷ []

transports-Layout_example :
    ((1 ≤ length addresses)
      × (transports (pos 1) addresses
          ≡ some (map some (take 1 addresses) ++ none ∷ map some (drop 1 addresses))))
    ⊎ ((length addresses < 1) × (transports (pos 1) addresses ≡ none))
transports-Layout_example = transports-Layout 1 addresses

transports_of_one :
    transports (pos 1) addresses ≡ some (some (bytes "a:1") ∷ none ∷ some (bytes "b:2") ∷ [])
unfolding transports
transports_of_one = refl

-- Two tasks are enqueued, and one is taken.
abbrev one_left : Pool ℕ
one_left = record { workers = 2; tasks = 6 ∷ []; stop = false }

one_left-Run : Run 2 one_left (5 ∷ 6 ∷ []) (5 ∷ [])
unfolding new_pool pool_enqueue wake
one_left-Run = took 5 (enqueued 6 (enqueued 5 started)) refl

taken_in_order_example : 5 ∷ 6 ∷ [] ≡ (5 ∷ []) ++ one_left.tasks
taken_in_order_example = taken_in_order one_left-Run
