-- ===== src/Tests/Cluster.antt =====
-- A cluster of three elects a leader: node 0 stands, asks node 1, and has its vote.
use raft_drive.Prelude.{
  ℕ, ◌≤◌, ◌≡◌, refl, false, [], ◌∷◌, List, Option, none, some, arith, bytes, pos, minus_one,
}
use raft_drive.Raft.Types.{RequestVoteArgs, RequestVoteReply}
use raft_drive.Raft.State.{candidate, follower, Node, Env, Task, is_majority, send_request_vote}
use raft_drive.Raft.Persist.{dummy, persist, state_json}
use raft_drive.Raft.Candidacy.{start_election_lem, vote_request}
use raft_drive.Raft.Roles.{
  fresh_node, request_vote, on_vote_reply, last_log_index, last_log_term, step_down, start_election,
  open_election, ask_votes, promote_to_candidate, promote_to_leader, start,
}
use raft_drive.Raft.Loop.{main_round, follower_round, candidate_round}
use raft_drive.Raft.Step.{client_started}
use raft_drive.Raft.Cluster.{
  idle, asked, answered, Member, put, become, set_call, receive, turned, sent, called, received,
  moved, Run, here, later, AllResting,
}
use raft_drive.Raft.Cluster.Safety.{one_leader_per_term, votes_granted-le_peers}
use raft_drive.Tests.JsonText.{plain_json}
use raft_drive.Tests.Raft.{clock}

-- When the time of the followers is over.
abbrev pub late : Env
late = record { now = 2000; timeout = 800 }

abbrev pub member : ℕ → Member
member i = record {
  node =
      record (fresh_node (pos i) 3 (record { raftstate = []; snapshot = [] })
        (record { queue = []; closed = false }) clock) { logs = dummy 0 ∷ [] };
  votes = λ t. minus_one;
  calls = λ t j. idle;
  counted = λ t j. false;
}

pub member-AllResting : AllResting 3 member
member-AllResting i b = record {
  id = refl;
  size = refl;
  state = refl;
  queue = refl;
  vote = refl;
  no_vote = λ t lt. refl;
  no_calls = λ t j. refl;
  no_count = λ t j. refl;
}

abbrev pub node_of : Option Node → Node
node_of none = (member 0).node
node_of (some n) = n

abbrev pub standing : Node
standing = node_of (main_round late follower (member 0).node)

abbrev pub stood : ℕ → Member
stood = put member 0 (become standing (member 0))

abbrev pub first_call : RequestVoteArgs
first_call = record { term = 1; candidate_id = pos 0; last_log_index = 0; last_log_term = 0 }

abbrev pub all_but_first : List Task → List Task
all_but_first [] = []
all_but_first (t ∷ ts) = ts

abbrev pub waiting : Node
waiting = record standing { tasks = all_but_first standing.tasks }

abbrev pub asking : ℕ → Member
asking = put stood 0 (set_call 1 1 (asked first_call) (become waiting (stood 0)))

abbrev pub vote_of : Option (Node × RequestVoteReply) → Node × RequestVoteReply
vote_of none = ((member 1).node, record { term = 0; vote_granted = false })
vote_of (some r) = r

abbrev pub vote : Node × RequestVoteReply
vote = vote_of (request_vote clock first_call (member 1).node)

abbrev pub voting : ℕ → Member
voting = put asking 1 (become vote.0 (asking 1))

abbrev pub answering : ℕ → Member
answering = put voting 0 (set_call 1 1 (answered first_call vote.1) (voting 0))

abbrev pub counting : ℕ → Member
counting = put answering 0 (receive clock 1 1 vote.1 (answering 0))

abbrev pub crowned_node : Node
crowned_node = node_of (main_round clock candidate (counting 0).node)

abbrev pub elected : ℕ → Member
elected = put counting 0 (become crowned_node (counting 0))

abbrev pub serving : ℕ → Member
serving = put elected 0 (become (start (bytes "set") (elected 0).node).0 (elected 0))

stood-Run : Run 3 member stood
unfolding main_round follower_round start_election open_election ask_votes promote_to_candidate
    last_log_index last_log_term persist
stood-Run = later here (turned 0 late follower (omega arith) (omega arith) refl)

asking-Run : Run 3 member asking
unfolding main_round follower_round start_election open_election ask_votes promote_to_candidate
    last_log_index last_log_term persist
asking-Run = later stood-Run (sent 0 1 first_call (all_but_first standing.tasks) (omega arith) refl)

answering-Run : Run 3 member answering
unfolding main_round follower_round start_election open_election ask_votes promote_to_candidate
    last_log_index last_log_term persist request_vote step_down
answering-Run = later asking-Run (called 0 1 1 clock first_call (omega arith) refl refl)

counting-Run : Run 3 member counting
unfolding main_round follower_round start_election open_election ask_votes promote_to_candidate
    last_log_index last_log_term persist request_vote step_down on_vote_reply
counting-Run =
    later answering-Run
      (received 0 1 1 clock first_call vote.1 (omega arith) refl (λ granted. refl))

elected-Run : Run 3 member elected
unfolding main_round follower_round start_election open_election ask_votes promote_to_candidate
    last_log_index last_log_term persist request_vote step_down on_vote_reply candidate_round
    promote_to_leader is_majority
elected-Run = later counting-Run (turned 0 clock candidate (omega arith) (omega arith) refl)

abbrev winner : ℕ
winner = 0

-- The leader takes a command, and leads on.
one_leader_per_term_example : winner ≡ winner
unfolding main_round follower_round start_election open_election ask_votes promote_to_candidate
    last_log_index last_log_term persist request_vote step_down on_vote_reply candidate_round
    promote_to_leader is_majority start
one_leader_per_term_example =
    one_leader_per_term {d = serving} winner winner (omega arith) member-AllResting elected-Run
      (later here (moved 0 (client_started (bytes "set")) (omega arith) refl)) (omega arith)
      (omega arith) refl refl refl

votes_granted-le_peers_example : (elected 0).node.votes_granted ≤ 3
unfolding main_round follower_round start_election open_election ask_votes promote_to_candidate
    last_log_index last_log_term persist request_vote step_down on_vote_reply candidate_round
    promote_to_leader is_majority
votes_granted-le_peers_example =
    votes_granted-le_peers winner (omega arith) member-AllResting elected-Run (omega arith)
      (λ e. cc e)

abbrev standing_by : Node
standing_by = record (member 0).node { state = candidate }

start_election_lem_example :
    (m : Node) × (start_election late standing_by ≡ some m)
    × (m.current_term ≡ 1)
    × (m.voted_for ≡ pos 0)
    × (m.votes_granted ≡ 1)
    × (m.tasks
        ≡ send_request_vote 1 (vote_request (open_election late standing_by) 0)
          ∷ send_request_vote 2 (vote_request (open_election late standing_by) 0)
          ∷ [])
    × (m.persister.raftstate ≡ plain_json.dump (state_json m))
unfolding last_log_term
start_election_lem_example = start_election_lem late standing_by 0 refl refl refl (omega arith)
