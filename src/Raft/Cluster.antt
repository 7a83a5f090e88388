-- ===== src/Raft/Cluster.antt =====
-- The nodes of a cluster and their requests for votes. A worker takes such a request from a node's
-- queue and calls the peer, the peer answers, and the reply comes back to the lambda of
-- `startElection`, or the call is lost (kvcluster/raft/raft.cpp). A node may stop and start again. All
-- else that happens to a node, the calls of its peers included, may happen at any time with any
-- arguments, also a request for its vote whose reply nobody gets.
pub mod Tally
pub mod Sound
pub mod Kept
pub mod Elections
pub mod Calls
mod Replies
pub mod Restarts
pub mod Granted
pub mod Good
pub mod Safety
use raft_drive.Prelude.{
  IsInt, drop, ℕ, ◌+◌, ◌^◌, ◌<◌, ◌≡◌, List, [], ◌∷◌, some, Bool, true, false, not, ◌&&◌, ◌||◌,
  if◌then◌else◌, ◌==◌, ℤ, pos, minus_one,
}
use raft_drive.Json.{JsonLib}
use raft_drive.Raft.Types.{RequestVoteArgs, RequestVoteReply, ApplyChannel}
use raft_drive.Raft.State.{State, follower, Node, Env, Task, send_request_vote, is_candidate_state}
use raft_drive.Raft.Roles.{init, request_vote, on_vote_reply}
use raft_drive.Raft.Loop.{main_round}
use raft_drive.Raft.Step.{Step, is_local}
use raft_drive.Raft.Restart.{storable}
use raft_drive.Raft.Durable.{Persisted}
use raft_drive.Raft.Ballot.{vote_queue}

-- A call of a peer's `requestVote`.
pub data VoteCall : Type 0 where
  idle : VoteCall
  asked : RequestVoteArgs → VoteCall
  answered : RequestVoteArgs → RequestVoteReply → VoteCall

-- A node with its calls, by the term of the request and the peer that is called. Two things that no
-- code keeps are noted: the last vote in each term, and the votes counted, by term and peer.
pub record Member : Type 0 where
  pub node : Node
  pub votes : ℕ → ℤ
  pub calls : ℕ → ℕ → VoteCall
  pub counted : ℕ → ℕ → Bool

abbrev pub put {ℓ} : {A : Type ℓ} → (ℕ → A) → ℕ → A → ℕ → A
put f i x k = if k == i then x else f k

abbrev pub become : Node → Member → Member
become m x = record x { node = m; votes = put x.votes m.current_term m.voted_for }

abbrev pub set_call : ℕ → ℕ → VoteCall → Member → Member
set_call t j call x = record x { calls = put x.calls t (put (x.calls t) j call) }

-- The reply is one that `on_vote_reply` counts.
abbrev pub is_counted : RequestVoteReply → Node → Bool
is_counted reply n = not (n.dead || not (is_candidate_state n.state)) && reply.vote_granted

abbrev pub count_vote : ℕ → ℕ → Bool → Member → Member
count_vote t j b x = record x {
  counted = put x.counted t (put (x.counted t) j (x.counted t j || b));
}

module _ ⦃json : JsonLib⦄ where
  abbrev pub receive : Env → ℕ → ℕ → RequestVoteReply → Member → Member
  receive env t j reply x =
      become (on_vote_reply env reply x.node)
        (count_vote t j (is_counted reply x.node) (set_call t j idle x))

  -- What happens in a cluster of `peers` nodes. A vote that comes back is one that was asked for in
  -- the term the node is in then: the code does not see to that. A node that starts again finds its
  -- state on its persister: `snapshot` does not see to that.
  pub data ClusterStep (peers : ℕ) (c : ℕ → Member) : (ℕ → Member) → Type 0 where
    moved :
        (i : ℕ) {m : Node} (s : Step (c i).node m)
        → i < peers
        → is_local s ≡ true
        → ClusterStep peers c (put c i (become m (c i)))
    turned :
        (i : ℕ) (env : Env) (head : State) {m : Node}
        → i < peers
        → (c i).node.current_term + 1 < 2 ^ 32
        → main_round env head (c i).node ≡ some m
        → ClusterStep peers c (put c i (become m (c i)))
    -- A worker takes a task that is no request for a vote.
    taken :
        (i : ℕ) (t : Task) (rest : List Task)
        → i < peers
        → (c i).node.tasks ≡ t ∷ rest
        → vote_queue (t ∷ []) ≡ []
        → ClusterStep peers c (put c i (become (record (c i).node { tasks = rest }) (c i)))
    sent :
        (i j : ℕ) (args : RequestVoteArgs) (rest : List Task)
        → i < peers
        → (c i).node.tasks ≡ send_request_vote j args ∷ rest
        → ClusterStep peers c (
            put c i (
              set_call args.term j
                (asked args)
                (become (record (c i).node { tasks = rest }) (c i))))
    called :
        (i t j : ℕ) (env : Env) (args : RequestVoteArgs) {m : Node} {r : RequestVoteReply}
        → i < peers
        → (c i).calls t j ≡ asked args
        → request_vote env args (c j).node ≡ some (m, r)
        → ClusterStep peers c
            (let d = put c j (become m (c j)) in put d i (set_call t j (answered args r) (d i)))
    lost : (i t j : ℕ) → i < peers → ClusterStep peers c (put c i (set_call t j idle (c i)))
    -- A node stops, with its tasks and its calls, and starts again on its persister.
    restarted :
        (i : ℕ) (env : Env) (channel : ApplyChannel) {m : Node}
        → i < peers
        → Persisted (c i).node
        → storable json.is_text (drop 1 (c i).node.logs) ≡ true
        → (c i).node.current_term < 2 ^ 32
        → IsInt (c i).node.voted_for
        → init (pos i) peers (c i).node.persister channel env ≡ some m
        → ClusterStep peers c (put c i (record (c i) { node = m; calls = λ t j. idle }))
    received :
        (i t j : ℕ) (env : Env) (args : RequestVoteArgs) (r : RequestVoteReply)
        → i < peers
        → (c i).calls t j ≡ answered args r
        → (r.vote_granted ≡ true → t ≡ (c i).node.current_term)
        → ClusterStep peers c (put c i (receive env t j r (c i)))

  pub data Run (peers : ℕ) (c : ℕ → Member) : (ℕ → Member) → Type 0 where
    here : Run peers c c
    later : {d e : ℕ → Member} → Run peers c d → ClusterStep peers d e → Run peers c e

-- A node with no election under way, which may have voted.
pub record Resting (peers i : ℕ) (x : Member) : Type 0 where
  pub id : x.node.id ≡ pos i
  pub size : x.node.peers ≡ peers
  pub state : x.node.state ≡ follower
  pub queue : vote_queue x.node.tasks ≡ []
  pub vote : x.votes x.node.current_term ≡ x.node.voted_for
  pub no_vote : (t : ℕ) → x.node.current_term < t → x.votes t ≡ minus_one
  pub no_calls : (t j : ℕ) → x.calls t j ≡ idle
  pub no_count : (t j : ℕ) → x.counted t j ≡ false

abbrev pub AllResting : ℕ → (ℕ → Member) → Type 0
AllResting peers c = (i : ℕ) → i < peers → Resting peers i (c i)
