-- ===== src/Raft/Loop.antt =====
-- The thread of a node (`Raft::startRaft`, kvcluster/raft/raft.cpp): what one round does once its
-- wait is over. The state may have changed during the wait.
use raft_drive.Prelude.{◌+◌, Bool, false, not, ◌||◌, Option, some, if◌then◌else◌, ltb}
use raft_drive.Json.{JsonLib}
use raft_drive.Raft.State.{
  State, leader, candidate, follower, Node, Env, is_leader_state, is_follower_state, is_majority,
}
use raft_drive.Raft.Roles.{promote_to_candidate, promote_to_leader, start_election}
use raft_drive.Raft.Leader.{broadcast_append_entries}

-- `std::chrono::steady_clock::now() > m_lastHeartbeat + m_electionTimeout`.
abbrev pub timed_out : Env → Node → Bool
timed_out env n = ltb (n.last_heartbeat + n.election_timeout) env.now

module _ ⦃json : JsonLib⦄ where
  unfoldable pub follower_round : Env → Node → Option Node
  unfolding promote_to_candidate
  follower_round env n =
      if n.dead
      then some n
      else if timed_out env n
      then start_election env (promote_to_candidate n)
      else some n

  unfoldable pub candidate_round : Env → Node → Option Node
  unfolding promote_to_leader
  candidate_round env n =
      if n.dead || is_follower_state n.state
      then some n
      else if is_majority n.peers n.votes_granted
      then some (promote_to_leader n)
      else if timed_out env n
      then start_election env n
      else some n

  unfoldable pub leader_round : Node → Option Node
  leader_round n =
      let m = record n { new_log_arrive = false } in
      if m.dead || not (is_leader_state m.state) then some m else broadcast_append_entries m

  -- The round that began in a given state.
  unfoldable pub main_round : Env → State → Node → Option Node
  main_round env follower n = follower_round env n
  main_round env candidate n = candidate_round env n
  main_round env leader n = leader_round n
