-- ===== src/Lib.antt =====
-- RaftDrive: a drive whose directories and files are kept in a replicated key-value store and whose
-- contents are kept in S3. This library models its C++ code, and proves what its parts promise.
--
-- The parts, from the bottom up. A node of the cluster (kvcluster/) runs the consensus algorithm Raft
-- (kvcluster/raft/): it calls its peers over gRPC, persists its term, vote and log, and sends each
-- committed entry through a channel. The key-value server (kvcluster/kvserver/) starts an entry for
-- each request, applies the entries that come through the channel, and answers the request that waits
-- for one; kvcluster/service_kv_grpc.hpp is its gRPC service. The drive (raftdrive/) is an HTTP server:
-- its handlers call the file system service, that calls the metadata and the storage service, and the
-- metadata service calls the cluster through a client that looks for the leader.
--
-- The files:
--   Prelude and below: Boolean tests, lists over the native numbers, words of fixed width.
--   Json: JSON values and objects, and the JSON library (include/json.hpp) as the interface JsonLib.
--   Raft/Types, Raft/State: the messages (raft_types.hpp, apply_channel.hpp), the fields of `Raft`
--     (raft.hpp) and the persister (persister.cpp).
--   Raft/Persist: `helperPersist`, `helperReadPersist`; Raft/Restart is about both, and Raft/Durable about
--     what stands on the persister between handlers.
--   Raft/Roles: the constructor, the changes of role, `start`, `requestVote`, `startElection`;
--     Raft/Start is about the calls of the client, Raft/Vote and Raft/Ballot about votes and terms
--     (below Ballot, what each handler, the loop that asks for votes and a round do to them).
--   Raft/Append: `appendEntries`, in the steps that the source does under one lock; below it,
--     Reconcile and Merge are about the log, Apply about the apply loop, Check about the checks, Finish
--     about the node that an accepted request leaves, and Handler about the whole.
--   Raft/Leader: `broadcastAppendEntries`, the lambdas on the replies, `helperUpdateLeaderCommitIndex`,
--     `helperTriggerInstallSnapshot`; Raft/Commit is about the commit index.
--   Raft/Snapshot: `installSnapshot`, `snapshot`. Raft/Loop: a round of `startRaft` for each state.
--   Raft/Cluster: the nodes of a cluster with their requests for votes under way. Below it, Sound says
--     what holds of each node, Kept, Elections, Calls, Replies and Restarts that what happens to a node
--     keeps it, Granted and Good are about a node and the votes of the others, Tally counts votes, and
--     Safety is about the leaders.
--   Raft/Net: a cluster with its calls of `appendEntries` under way. Below it, Queue, Store, Accept, Turns
--     and Reload say what each handler makes of a node's log and of its calls that wait, Ledger keeps the
--     leaders' logs by their terms, Merging is about a call that is merged, Logged, Keeps, Elects,
--     Commands and Delivers are about what holds of all logs, and Safety is about Log Matching.
--   Raft/Accord: what the nodes have taken from the leaders of a cluster. Below it, Defs and Complete say
--     what stays, Keeper, Moves and Still what holds of each node, Shapes is about the terms in a leader's
--     log, Accepts, Starts, Stands, Votes and Crowns are about a call that is taken, a command, an election
--     that is opened, a vote and an election that is won, Steps, Rounds, Calls and Runs put them together,
--     Starting is about the start, and Safety about Leader Completeness.
--   Raft/Invariant: what holds of a node between handlers; below it, Replies is about the replies to a
--     leader, Rounds and Valid about a round of the thread, Starts about the constructor, and Steps
--     about all of Raft/Step, which is all that happens to a node. Raft/Candidacy is about `startElection`.
--   Kv/Models: kvcluster/kvserver/models.hpp and kvhelper.hpp; Kv/Codec is about the encodings.
--   Kv/Server: `KVServer` (kvserver.cpp); Kv/Once, Kv/Register, Kv/History, Kv/Begin and
--     Kv/Request are about it.
--   Kv/Service: `KVStoreServiceImpl`.
--   Transport: `GrpcRaftClient` and `RaftServiceImpl`, in Messages, Client and Service; Loopback puts them
--     together; Peers is the table of transports of kvcluster/main.cpp.
--   Pool: `ThreadPool` (kvcluster/raft/threadpool.hpp). Logger: kvcluster/raft/logger.hpp.
--   Drive/Effect: what the services call outside of the process, and how a call ends.
--   Drive/Client: `KVStoreClient` (raftdrive/clients/kv_grpc_client.hpp); Drive/Answers and
--     Drive/Reach are about it.
--   Drive/Metadata, Drive/Fs: the services (raftdrive/services/). Drive/Handlers: the handlers and the
--     routes (raftdrive/handlers/, raftdrive/api/); Drive/Keys is about the keys of the metadata,
--     Drive/Refusals about requests that are turned down behind an upload or a deletion,
--     Drive/Documents about the stored documents, and Drive/Upload about an upload and the download
--     behind it, on what Drive/Faithful says of the cluster and of S3.
--   Tests and below: a JSON library, and each theorem at a concrete input.
--
-- The state of a component is a record of its fields, and a handler is a function on it. What a handler
-- does under one lock is one step; where the source unlocks and waits, there are two functions. The
-- steps of a cluster take a handler whole, also one that lets go of the lock between its sections. A
-- result `none` is an access outside of a vector or an exception that nothing catches. Unsigned words
-- wrap as in C++. The tasks of the thread pool stand in a queue of messages to send. Random time-outs
-- and the clock are arguments. Texts are lists of bytes.
--
-- Bounds: loops are structural recursion on what they walk over. The client's rounds count down from
-- the 25 of the source. The hexadecimal digits of a 64-bit number are at most 16. `deleteDir` recurses
-- on a bound of its depth, and says so in its result where it does not suffice.
--
-- A step of the cluster is a handler of one node, or a request for a vote that is sent, answered, lost
-- or received; messages stay under way for any time and come in any order. All other messages may
-- arrive at any time with any contents; in Raft/Net a call of `appendEntries` is one that a worker has
-- made, may come any number of times, and there are no snapshots, since nothing in the program calls
-- `Raft::snapshot`. A node may stop, and start again on its persister. The last vote of a node in each
-- term, and the votes that a candidate has counted, are noted beside the state.
--
-- Not modelled: include/json.hpp, whose documented behaviour is the interface JsonLib, with the exception
-- that `json::dump` throws on a text that is not UTF-8 left out (JsonLib.dump always gives a text, so the
-- model goes on where the code stops: a command that is not UTF-8 at `helperPersist`, which the requests
-- of the service cannot make, or a path, a name or a content type that is not at the metadata service);
-- what the tasks of the thread pool do, which Pool takes for values; gRPC, the AWS client and crow,
-- which are parameters; the log lines of the handlers; what the two main.cpp read from their arguments
-- and the environment; the web frontend, the build and the deployment files.
pub mod Prelude
pub mod Json
pub mod Raft
pub mod Kv
pub mod Transport
pub mod Pool
pub mod Logger
pub mod Drive
mod Tests
