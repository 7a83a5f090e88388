-- ===== src/Raft/Roles.antt =====
-- The constructor of `Raft`, the changes of role, the client's calls, and the elections
-- (kvcluster/raft/raft.cpp).
use raft_drive.Prelude.{
  ℕ, zero, suc, ◌+◌, ◌-◌, ◌^◌, Bool, true, false, not, ◌&&◌, ◌||◌, [], ◌∷◌, ◌++◌, Option, some,
  ◌>>=◌, if◌then◌else◌, ltb, leb, ◌==◌, Bytes, length, replicate, get_last?, ℤ, minus_one, int_eq,
  u32, u64, to_int,
}
use raft_drive.Json.{JsonLib}
use raft_drive.Raft.Types.{RequestVoteArgs, RequestVoteReply, ApplyChannel}
use raft_drive.Raft.State.{
  State, leader, candidate, follower, Persister, Task, send_request_vote, Node, Env,
  is_leader_state, is_candidate_state,
}
use raft_drive.Raft.Persist.{persist, read_persist}

-- `m_logs.size() - 1 + m_lastIncludedIndex`.
unfoldable pub last_log_index : Node → ℕ
last_log_index n = u64 (length n.logs + (2 ^ 64 - 1) + n.last_included_index)

-- `m_logs.back()->term`.
unfoldable pub last_log_term : Node → Option ℕ
last_log_term n = do e ← get_last? n.logs; some e.term

unfoldable pub promote_to_candidate : Node → Node
promote_to_candidate n = record n { state = candidate }

-- `helperPromoteToLeader` and the two fills behind it.
unfoldable pub promote_to_leader : Node → Node
unfolding last_log_index
promote_to_leader n = record n {
  state = leader;
  next_index = replicate (length n.next_index) (u64 (last_log_index n + 1));
  match_index = replicate (length n.match_index) 0;
}

unfoldable pub is_leader : Node → Bool
is_leader n = is_leader_state n.state

unfoldable pub kill : Node → Node
kill n = record n { dead = true }

unfoldable pub get_term_state : Node → ℕ × State
get_term_state n = (n.current_term, n.state)

abbrev pub is_up_to_date : RequestVoteArgs → ℕ → ℕ → Bool
is_up_to_date args last_index last_term =
    ltb last_term args.last_log_term
    || (args.last_log_term == last_term && leb last_index args.last_log_index)

abbrev pub fresh_node : ℤ → ℕ → Persister → ApplyChannel → Env → Node
fresh_node id peers persister channel env = record {
  id = id;
  peers = peers;
  voted_for = minus_one;
  votes_granted = 0;
  current_term = 0;
  commit_index = 0;
  last_applied = 0;
  last_included_index = 0;
  last_included_term = 0;
  state = follower;
  logs = [];
  next_index = replicate peers 0;
  match_index = replicate peers 0;
  persister = persister;
  apply_channel = channel;
  last_heartbeat = env.now;
  election_timeout = env.timeout;
  new_log_arrive = false;
  dead = false;
  tasks = [];
}

abbrev pub enqueue : Task → Node → Node
enqueue t n = record n { tasks = n.tasks ++ t ∷ [] }

-- The loop over the peers: `k` of them are left, `id` is the next.
unfoldable pub ask_votes : ℕ → ℕ → Node → Option Node
ask_votes zero id n = some n
ask_votes (suc k) id n =
    if int_eq (to_int id) n.id
    then ask_votes k (id + 1) n
    else if n.dead || not (is_candidate_state n.state)
    then some n
    else do
      t ← last_log_term n
      ask_votes k (id + 1) (
          enqueue
            (send_request_vote id (record {
              term = n.current_term;
              candidate_id = n.id;
              last_log_index = last_log_index n;
              last_log_term = t;
            }))
            n)

module _ ⦃json : JsonLib⦄ where
  -- `Raft::Raft`.
  unfoldable pub init : ℤ → ℕ → Persister → ApplyChannel → Env → Option Node
  init id peers persister channel env = read_persist (fresh_node id peers persister channel env)

  unfoldable pub step_down : Env → ℕ → Node → Node
  unfolding persist
  step_down env term n = persist (record n {
    current_term = term;
    voted_for = minus_one;
    state = follower;
    last_heartbeat = env.now;
    election_timeout = env.timeout;
  })

  -- `start`: the index and the term are -1 on a node that does not lead.
  unfoldable pub start : Bytes → Node → Node × ℤ × ℤ × Bool
  unfolding persist
  start command n =
      if is_leader_state n.state
      then (let m = persist (record n {
        logs = n.logs ++ record { command = command; term = n.current_term } ∷ [];
        new_log_arrive = true;
      }) in
          (m, to_int (last_log_index m), to_int m.current_term, true))
      else (n, minus_one, minus_one, false)

  -- The answer and the vote, once the terms have been compared.
  abbrev pub decide_vote :
      Env → RequestVoteArgs → RequestVoteReply → Node → ℕ → Node × RequestVoteReply
  decide_vote env args reply n last_term =
      if (int_eq n.voted_for minus_one || int_eq n.voted_for args.candidate_id)
        && is_up_to_date args (last_log_index n) last_term
      then (
        persist (record n {
          voted_for = args.candidate_id;
          last_heartbeat = env.now;
          election_timeout = env.timeout;
        }),
        record reply { vote_granted = true },
      )
      else (persist n, reply)

  abbrev vote_in_term :
      Env → RequestVoteArgs → RequestVoteReply → Node → Option (Node × RequestVoteReply)
  vote_in_term env args reply n = do t ← last_log_term n; some (decide_vote env args reply n t)

  unfoldable pub request_vote : Env → RequestVoteArgs → Node → Option (Node × RequestVoteReply)
  unfolding step_down persist
  request_vote env args n =
      let reply : RequestVoteReply = record { term = n.current_term; vote_granted = false } in
      if ltb args.term n.current_term
      then some (n, reply)
      else vote_in_term env args reply
          (if ltb n.current_term args.term then step_down env args.term n else n)

  -- The first section of `startElection`.
  unfoldable pub open_election : Env → Node → Node
  unfolding persist
  open_election env n = persist (record n {
    current_term = u32 (n.current_term + 1);
    voted_for = n.id;
    votes_granted = 1;
    last_heartbeat = env.now;
    election_timeout = env.timeout;
  })

  unfoldable pub start_election : Env → Node → Option Node
  start_election env n =
      if n.dead || not (is_candidate_state n.state)
      then some n
      else ask_votes n.peers 0 (open_election env n)

  -- The lambda of `startElection`, on a reply that arrived.
  unfoldable pub on_vote_reply : Env → RequestVoteReply → Node → Node
  unfolding step_down
  on_vote_reply env reply n =
      if n.dead || not (is_candidate_state n.state)
      then n
      else if reply.vote_granted
      then record n { votes_granted = n.votes_granted + 1 }
      else if ltb n.current_term reply.term
      then step_down env reply.term n
      else n
