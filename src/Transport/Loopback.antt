-- ===== src/Transport/Loopback.antt =====
-- A call through the client (kvcluster/transport/client_raft_grpc.hpp) and the service
-- (kvcluster/service_raft_grpc.hpp) of a peer, over a network that delivers it.
use raft_drive.Prelude.{◌≡◌, refl, ap, true, List, [], ◌∷◌, Option, none, some}
use raft_drive.Json.{JsonLib}
use raft_drive.Raft.Types.{
  LogEntry, AppendEntriesArgs, AppendEntriesReply, RequestVoteArgs, RequestVoteReply,
  InstallSnapshotArgs, InstallSnapshotReply,
}
use raft_drive.Raft.State.{Node, Env}
use raft_drive.Raft.Roles.{request_vote}
use raft_drive.Raft.Append.{append_entries}
use raft_drive.Raft.Snapshot.{install_snapshot}
use raft_drive.Transport.Service.{
  read_pb_entries, service_request_vote, service_append_entries, service_install_snapshot,
}
use raft_drive.Transport.Client.{
  RaftStub, write_pb_entries, client_request_vote, client_append_entries, client_install_snapshot,
}

-- A call that faults on the peer has no reply.
abbrev delivered : {R : Type 0} → Node → Option (Node × R) → Node × Option R
delivered n none = (n, none)
delivered n (some (m, r)) = (m, some r)

abbrev answered : {R : Type 0} → Node × R → Node × Option R
answered (m, r) = (m, some r)

read_pb_entries-write_pb_entries : (es : List LogEntry) → read_pb_entries (write_pb_entries es) ≡ es
unfolding read_pb_entries write_pb_entries
read_pb_entries-write_pb_entries [] = refl
read_pb_entries-write_pb_entries (e ∷ es) = ap (◌∷◌ e) (read_pb_entries-write_pb_entries es)

module _ ⦃json : JsonLib⦄ where
  -- The stub of a peer: the world outside is the peer's node. `blank` and `unset` are what the memory
  -- of the service's uninitialised replies holds.
  abbrev pub peer_stub : Env → AppendEntriesReply → InstallSnapshotReply → RaftStub Node
  peer_stub env blank unset = record {
    request_vote = λ req n. delivered n (service_request_vote env req n);
    append_entries = λ req n. delivered n (service_append_entries env blank req n);
    install_snapshot = λ req n. answered (service_install_snapshot env unset req n);
  }

  -- A call that reaches a peer, whose handler runs without a fault, changes the peer as the handler
  -- does and brings back the handler's reply, for each of the three calls: nothing is lost or altered
  -- between the messages of the nodes and those of gRPC.
  pub calls-handlers :
      (env : Env) (blank : AppendEntriesReply) (unset : InstallSnapshotReply) (n : Node)
      (va : RequestVoteArgs) (aa : AppendEntriesArgs) (ia : InstallSnapshotArgs)
      (vr vr' : RequestVoteReply) (ar ar' : AppendEntriesReply) (ir : InstallSnapshotReply)
      (vn an : Node)
      → request_vote env va n ≡ some (vn, vr')
      → append_entries env aa blank n ≡ some (an, ar')
      → let stub = peer_stub env blank unset in
        let installed = install_snapshot env ia unset n in
        (client_request_vote stub va vr n ≡ (vn, true, vr'))
        × (client_append_entries stub aa ar n ≡ (an, true, ar'))
        × (client_install_snapshot stub ia ir n ≡ (installed.0, true, installed.1))
  unfolding client_request_vote client_append_entries client_install_snapshot service_request_vote
      service_append_entries service_install_snapshot
  calls-handlers env blank unset n va aa ia vr vr' ar ar' ir vn an v a =
      (rw v refl, rw (read_pb_entries-write_pb_entries aa.entries, a) refl, refl)
