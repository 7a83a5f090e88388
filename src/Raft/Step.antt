-- ===== src/Raft/Step.antt =====
-- Everything that happens to a node, one step for each handler: the calls of its peers and of the
-- client, the replies to its own calls, the rounds of its thread, and a worker that takes a task.
use raft_drive.Prelude.{ℕ, ◌+◌, ◌^◌, ◌<◌, ◌≡◌, List, ◌∷◌, some, Bytes, Bool, true, false}
use raft_drive.Json.{JsonLib}
use raft_drive.Raft.Types.{
  AppendEntriesArgs, AppendEntriesReply, RequestVoteArgs, RequestVoteReply, InstallSnapshotArgs,
  InstallSnapshotReply, ApplyChannel,
}
use raft_drive.Raft.State.{State, Task, Node, Env}
use raft_drive.Raft.Roles.{start, kill, request_vote, on_vote_reply}
use raft_drive.Raft.Append.{append_entries}
use raft_drive.Raft.Leader.{on_append_reply, on_append_success, on_append_reject, on_install_reply}
use raft_drive.Raft.Snapshot.{install_snapshot, snapshot}
use raft_drive.Raft.Loop.{main_round}

module _ ⦃json : JsonLib⦄ where
  pub data Step (n : Node) : Node → Type 0 where
    append_called :
        (env : Env) (args : AppendEntriesArgs) (reply : AppendEntriesReply) {m : Node}
        {r : AppendEntriesReply}
        → append_entries env args reply n ≡ some (m, r)
        → Step n m
    vote_called :
        (env : Env) (args : RequestVoteArgs) {m : Node} {r : RequestVoteReply}
        → request_vote env args n ≡ some (m, r)
        → Step n m
    install_called :
        (env : Env) (args : InstallSnapshotArgs) (reply : InstallSnapshotReply)
        → Step n (install_snapshot env args reply n).0
    vote_replied : (env : Env) (reply : RequestVoteReply) → Step n (on_vote_reply env reply n)
    append_replied :
        (env : Env) (id term_started : ℕ) (args : AppendEntriesArgs) (reply : AppendEntriesReply)
        {m : Node}
        → on_append_reply env id term_started args reply n ≡ some m
        → Step n m
    -- The second section of the lambda of `broadcastAppendEntries`, which other handlers may come before.
    append_accepted :
        (id : ℕ) (args : AppendEntriesArgs) {m : Node}
        → on_append_success id args n ≡ some m
        → Step n m
    append_refused :
        (id : ℕ) (reply : AppendEntriesReply) {m : Node}
        → on_append_reject id reply n ≡ some m
        → Step n m
    install_replied :
        (env : Env) (id : ℕ) (reply : InstallSnapshotReply) {m : Node}
        → on_install_reply env id reply n ≡ some m
        → Step n m
    client_started : (command : Bytes) → Step n (start command n).0
    snapshot_taken :
        (index : ℕ) (content : Bytes) {m : Node} → snapshot index content n ≡ some m → Step n m
    round : (env : Env) (head : State) {m : Node} → main_round env head n ≡ some m → Step n m
    killed : Step n (kill n)
    task_taken :
        (t : Task) (rest : List Task) → n.tasks ≡ t ∷ rest → Step n (record n { tasks = rest })
    channel_read : (c : ApplyChannel) → Step n (record n { apply_channel = c })

  -- The step neither opens an election, nor counts a vote, nor takes a task: it is no reply to a request
  -- for a vote, and no round of the thread.
  abbrev pub is_local : {n m : Node} → Step n m → Bool
  is_local (vote_called env args h) = true
  is_local (vote_replied env reply) = false
  is_local (round env head h) = false
  is_local (task_taken t rest h) = false
  is_local (append_called env args reply h) = true
  is_local (install_called env args reply) = true
  is_local (append_replied env id started args reply h) = true
  is_local (append_accepted id args h) = true
  is_local (append_refused id reply h) = true
  is_local (install_replied env id reply h) = true
  is_local (client_started command) = true
  is_local (snapshot_taken index content h) = true
  is_local killed = true
  is_local (channel_read c) = true

  -- A history in which the term stays below the largest `uint32_t`.
  pub data History (n : Node) : Node → Type 0 where
    here : History n n
    later : {m k : Node} → History n m → m.current_term + 1 < 2 ^ 32 → Step m k → History n k
