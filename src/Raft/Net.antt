-- ===== src/Raft/Net.antt =====
-- A cluster with its calls of `appendEntries` (kvcluster/raft/raft.cpp). A worker takes such a call
-- from a node's queue; from then on it may come to the node that it is for at any time, any number of
-- times, and in any order, or never. No node takes a snapshot or is sent one: nothing in the program
-- calls `Raft::snapshot`. A handler is one step, also `appendEntries`, which lets go of the mutex between
-- its sections.
pub mod Queue
pub mod Store
pub mod Accept
pub mod Turns
pub mod Ledger
pub mod Merging
pub mod Logged
pub mod Keeps
pub mod Elects
pub mod Commands
pub mod Delivers
pub mod Reload
pub mod Safety
use raft_drive.Prelude.{
  if◌then◌else◌, true, false, ℕ, ◌+◌, ◌^◌, ◌≤◌, ◌<◌, ◌≡◌, List, [], ◌∷◌, ◌++◌, some, length,
  get_elem?,
}
use raft_drive.Json.{JsonLib}
use raft_drive.Raft.Types.{AppendEntriesArgs}
use raft_drive.Raft.State.{State, follower, Node}
use raft_drive.Raft.Persist.{dummy}
use raft_drive.Raft.Step.{
  Step, append_called, vote_called, install_called, vote_replied, append_replied, append_accepted,
  append_refused, install_replied, client_started, snapshot_taken, round, killed, task_taken,
  channel_read,
}
use raft_drive.Raft.Cluster.{
  Member, ClusterStep, moved, turned, taken, sent, called, lost, restarted, received, Resting,
}
use raft_drive.Raft.Net.Queue.{append_queue}

-- The nodes; the calls of `appendEntries` that have been made, and those that have been answered with
-- success, each with the peer that is called.
pub record Net : Type 0 where
  pub members : ℕ → Member
  pub calls : List (ℕ × AppendEntriesArgs)
  pub accepted : List (ℕ × AppendEntriesArgs)

module _ ⦃json : JsonLib⦄ where
  -- A call that comes to node `i` is one that was made for it, and its entries have room in the index
  -- space; there are no snapshots.
  abbrev pub Delivered : List (ℕ × AppendEntriesArgs) → ℕ → {n m : Node} → Step n m → Type 0
  Delivered calls i {n} (append_called env args reply h) =
      (k : ℕ) × (get_elem? calls k ≡ some (i, args))
      × (length n.logs + length args.entries < 2 ^ 64)
  Delivered calls i (install_called env args reply) = ⊥
  Delivered calls i (snapshot_taken index content h) = ⊥
  Delivered calls i (vote_called env args h) = Unit {0}
  Delivered calls i (vote_replied env reply) = Unit {0}
  Delivered calls i (append_replied env id started args reply h) = Unit {0}
  Delivered calls i (append_accepted id args h) = Unit {0}
  Delivered calls i (append_refused id reply h) = Unit {0}
  Delivered calls i (install_replied env id reply h) = Unit {0}
  Delivered calls i (client_started command) = Unit {0}
  Delivered calls i (round env head h) = Unit {0}
  Delivered calls i killed = Unit {0}
  Delivered calls i (task_taken t rest h) = Unit {0}
  Delivered calls i (channel_read c) = Unit {0}

  -- The index space has room for the log of a node that broadcasts it, or is asked for its vote.
  abbrev pub Allowed :
      {peers : ℕ} {c d : ℕ → Member} → List (ℕ × AppendEntriesArgs) → ClusterStep peers c d → Type 0
  Allowed calls (moved i s b local) = Delivered calls i s
  Allowed {c = c} calls (turned i env head b room h) = length (c i).node.logs < 2 ^ 64
  Allowed calls (taken i t rest b h quiet) = Unit {0}
  Allowed calls (sent i j args rest b h) = Unit {0}
  Allowed {c = c} calls (called i t j env args b h answer) = length (c j).node.logs < 2 ^ 64
  Allowed calls (lost i t j b) = Unit {0}
  Allowed calls (restarted i env channel b h texts term vote e) = Unit {0}
  Allowed calls (received i t j env args r b h now) = Unit {0}

  -- The call that a worker makes.
  abbrev pub made :
      {peers : ℕ} {c d : ℕ → Member} → ClusterStep peers c d → List (ℕ × AppendEntriesArgs)
  made (taken i t rest b h quiet) = append_queue (t ∷ [])
  made (moved i s b local) = []
  made (turned i env head b room h) = []
  made (sent i j args rest b h) = []
  made (called i t j env args b h answer) = []
  made (lost i t j b) = []
  made (restarted i env channel b h texts term vote e) = []
  made (received i t j env args r b h now) = []

  -- The call that a node answers with success.
  abbrev pub accepted_by : ℕ → {n m : Node} → Step n m → List (ℕ × AppendEntriesArgs)
  accepted_by i (append_called env args reply {m} {r} h) = if r.success then (i, args) ∷ [] else []
  accepted_by i (install_called env args reply) = []
  accepted_by i (snapshot_taken index content h) = []
  accepted_by i (vote_called env args h) = []
  accepted_by i (vote_replied env reply) = []
  accepted_by i (append_replied env id started args reply h) = []
  accepted_by i (append_accepted id args h) = []
  accepted_by i (append_refused id reply h) = []
  accepted_by i (install_replied env id reply h) = []
  accepted_by i (client_started command) = []
  accepted_by i (round env head h) = []
  accepted_by i killed = []
  accepted_by i (task_taken t rest h) = []
  accepted_by i (channel_read c) = []

  abbrev pub accepts :
      {peers : ℕ} {c d : ℕ → Member} → ClusterStep peers c d → List (ℕ × AppendEntriesArgs)
  accepts (moved i s b local) = accepted_by i s
  accepts (taken i t rest b h quiet) = []
  accepts (turned i env head b room h) = []
  accepts (sent i j args rest b h) = []
  accepts (called i t j env args b h answer) = []
  accepts (lost i t j b) = []
  accepts (restarted i env channel b h texts term vote e) = []
  accepts (received i t j env args r b h now) = []

  pub data NetStep (peers : ℕ) (d : Net) : Net → Type 0 where
    net_step :
        {c : ℕ → Member} (s : ClusterStep peers d.members c)
        → Allowed d.calls s
        → NetStep peers d
            (record { members = c; calls = d.calls ++ made s; accepted = d.accepted ++ accepts s })

  pub data NetRun (peers : ℕ) (d : Net) : Net → Type 0 where
    net_here : NetRun peers d d
    net_later : {e f : Net} → NetRun peers d e → NetStep peers e f → NetRun peers d f

-- A cluster that starts: no node has an entry, and nothing is under way.
pub record Starting (peers : ℕ) (d : Net) : Type 0 where
  pub resting : (i : ℕ) → i < peers → Resting peers i (d.members i)
  pub empty : (i : ℕ) → i < peers → (d.members i).node.logs ≡ dummy 0 ∷ []
  pub whole : (i : ℕ) → i < peers → (d.members i).node.last_included_index ≡ 0
  pub no_snapshot : (i : ℕ) → i < peers → (d.members i).node.persister.snapshot ≡ []
  pub no_tasks : (i : ℕ) → i < peers → (d.members i).node.tasks ≡ []
  pub no_calls : d.calls ≡ []
  pub none_accepted : d.accepted ≡ []
