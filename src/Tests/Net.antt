-- ===== src/Tests/Net.antt =====
-- A cluster of three with a leader, which takes a command and sends it to node 1.
use raft_drive.Prelude.{ℕ, ◌≡◌, refl, [], ◌∷◌, Option, none, some, arith, bytes, pos, get_elem?}
use raft_drive.Raft.Types.{AppendEntriesArgs, AppendEntriesReply, LogEntry}
use raft_drive.Raft.State.{
  leader, candidate, follower, Node, is_majority, log_term, relative_index, send_append_entries,
}
use raft_drive.Raft.Persist.{persist}
use raft_drive.Raft.Roles.{
  request_vote, on_vote_reply, last_log_index, last_log_term, step_down, start_election,
  open_election, ask_votes, promote_to_candidate, promote_to_leader, start,
}
use raft_drive.Raft.Append.{
  append_entries, merge_logs, find_mark, check_term, check_log, merge_entries, commit_entries,
  apply_committed, apply_rounds,
}
use raft_drive.Raft.Leader.{
  broadcast_append_entries, broadcast_from, broadcast_one, build_append_entries, collect_entries,
  needs_snapshot,
}
use raft_drive.Raft.Loop.{main_round, follower_round, candidate_round, leader_round}
use raft_drive.Raft.Step.{client_started, append_called}
use raft_drive.Raft.Cluster.{
  Member, put, become, set_call, asked, turned, sent, called, received, moved, taken,
}
use raft_drive.Raft.Net.{Net, NetRun, net_here, net_later, net_step, Starting}
use raft_drive.Raft.Net.Safety.{log_matching}
use raft_drive.Tests.JsonText.{plain_json}
use raft_drive.Tests.Raft.{clock, no_reply}
use raft_drive.Tests.Cluster.{
  late, member, member-AllResting, node_of, standing, stood, first_call, all_but_first, asking,
  vote, answering, counting, elected, serving,
}

abbrev pub net : (ℕ → Member) → Net
net c = record { members = c; calls = []; accepted = [] }

pub net-Starting : Starting 3 (net member)
net-Starting = record {
  resting = member-AllResting;
  empty = λ i b. refl;
  whole = λ i b. refl;
  no_snapshot = λ i b. refl;
  no_tasks = λ i b. refl;
  no_calls = refl;
  none_accepted = refl;
}

abbrev leading : Node
leading = node_of (main_round clock leader (serving 0).node)

abbrev broadcast : ℕ → Member
broadcast = put serving 0 (become leading (serving 0))

abbrev waiting : Node
waiting = record leading { tasks = all_but_first leading.tasks }

-- The request for the vote of node 2 goes out late.
abbrev asked_all : ℕ → Member
asked_all = put broadcast 0 (set_call 1 2 (asked first_call) (become waiting (broadcast 0)))

abbrev pub command_entry : LogEntry
command_entry = record { command = bytes "set"; term = 1 }

abbrev pub first_append : AppendEntriesArgs
first_append = record {
  term = 1;
  leader_id = pos 0;
  pre_log_index = 0;
  pre_log_term = 0;
  entries = command_entry ∷ [];
  leader_commit = 0;
}

abbrev all_waiting : Node
all_waiting = record waiting { tasks = all_but_first waiting.tasks }

abbrev calling : ℕ → Member
calling = put asked_all 0 (become all_waiting (asked_all 0))

abbrev called_once : Net
called_once = record { members = calling; calls = (1, first_append) ∷ []; accepted = [] }

abbrev pub reply_node : Option (Node × AppendEntriesReply) → Node × AppendEntriesReply
reply_node none = ((member 1).node, no_reply)
reply_node (some r) = r

abbrev reached : Node × AppendEntriesReply
reached = reply_node (append_entries clock first_append no_reply (calling 1).node)

abbrev pub delivered : Net
delivered = record {
  members = put calling 1 (become reached.0 (calling 1));
  calls = (1, first_append) ∷ [];
  accepted = (1, first_append) ∷ [];
}

go_on : {d e f : Net} → NetRun 3 d e → NetRun 3 e f → NetRun 3 d f
go_on r net_here = r
go_on r (net_later q s) = net_later (go_on r q) s

stood-NetRun : NetRun 3 (net member) (net stood)
unfolding main_round follower_round start_election open_election ask_votes promote_to_candidate
    last_log_index last_log_term persist
stood-NetRun =
    net_later net_here
      (net_step (turned 0 late follower (omega arith) (omega arith) refl) (omega arith))

asking-NetRun : NetRun 3 (net member) (net asking)
unfolding main_round follower_round start_election open_election ask_votes promote_to_candidate
    last_log_index last_log_term persist
asking-NetRun =
    net_later stood-NetRun
      (net_step (sent 0 1 first_call (all_but_first standing.tasks) (omega arith) refl) tt)

answering-NetRun : NetRun 3 (net member) (net answering)
unfolding main_round follower_round start_election open_election ask_votes promote_to_candidate
    last_log_index last_log_term persist request_vote step_down
answering-NetRun =
    net_later asking-NetRun
      (net_step (called 0 1 1 clock first_call (omega arith) refl refl) (omega arith))

counting-NetRun : NetRun 3 (net member) (net counting)
unfolding main_round follower_round start_election open_election ask_votes promote_to_candidate
    last_log_index last_log_term persist request_vote step_down on_vote_reply
counting-NetRun =
    net_later answering-NetRun
      (net_step (received 0 1 1 clock first_call vote.1 (omega arith) refl (λ granted. refl)) tt)

elected-NetRun : NetRun 3 (net member) (net elected)
unfolding main_round follower_round start_election open_election ask_votes promote_to_candidate
    last_log_index last_log_term persist request_vote step_down on_vote_reply candidate_round
    promote_to_leader is_majority
elected-NetRun =
    net_later counting-NetRun
      (net_step (turned 0 clock candidate (omega arith) (omega arith) refl) (omega arith))

pub serving-NetRun : NetRun 3 (net member) (net serving)
unfolding main_round follower_round start_election open_election ask_votes promote_to_candidate
    last_log_index last_log_term persist request_vote step_down on_vote_reply candidate_round
    promote_to_leader is_majority start
serving-NetRun =
    net_later elected-NetRun
      (net_step (moved 0 (client_started (bytes "set")) (omega arith) refl) tt)

broadcast-NetRun : NetRun 3 (net serving) (net broadcast)
unfolding main_round follower_round start_election open_election ask_votes promote_to_candidate
    last_log_index last_log_term persist request_vote step_down on_vote_reply candidate_round
    promote_to_leader is_majority start leader_round broadcast_append_entries broadcast_from
    broadcast_one build_append_entries collect_entries needs_snapshot log_term relative_index
broadcast-NetRun =
    net_later net_here
      (net_step (turned 0 clock leader (omega arith) (omega arith) refl) (omega arith))

asked_all-NetRun : NetRun 3 (net serving) (net asked_all)
unfolding main_round follower_round start_election open_election ask_votes promote_to_candidate
    last_log_index last_log_term persist request_vote step_down on_vote_reply candidate_round
    promote_to_leader is_majority start leader_round broadcast_append_entries broadcast_from
    broadcast_one build_append_entries collect_entries needs_snapshot log_term relative_index
asked_all-NetRun =
    net_later broadcast-NetRun
      (net_step (sent 0 2 first_call (all_but_first leading.tasks) (omega arith) refl) tt)

called_once-NetRun : NetRun 3 (net serving) called_once
unfolding main_round follower_round start_election open_election ask_votes promote_to_candidate
    last_log_index last_log_term persist request_vote step_down on_vote_reply candidate_round
    promote_to_leader is_majority start leader_round broadcast_append_entries broadcast_from
    broadcast_one build_append_entries collect_entries needs_snapshot log_term relative_index
called_once-NetRun = net_later asked_all-NetRun (
    net_step
      (taken 0 (send_append_entries 1 1 1 first_append) (all_but_first waiting.tasks) (omega arith)
        refl refl)
      tt)

pub delivered-NetRun : NetRun 3 (net serving) delivered
unfolding main_round follower_round start_election open_election ask_votes promote_to_candidate
    last_log_index last_log_term persist request_vote step_down on_vote_reply candidate_round
    promote_to_leader is_majority start leader_round broadcast_append_entries broadcast_from
    broadcast_one build_append_entries collect_entries needs_snapshot log_term relative_index
    append_entries check_term check_log merge_entries merge_logs find_mark commit_entries
    apply_committed apply_rounds
delivered-NetRun = net_later called_once-NetRun (
    net_step (moved 1 (append_called clock first_append no_reply refl) (omega arith) refl)
      (0, refl, omega arith))

abbrev leader_id : ℕ
leader_id = 0

abbrev follower_id : ℕ
follower_id = 1

abbrev place : ℕ
place = 1

-- The command stands in both logs, and before it the dummy.
log_matching_example :
    get_elem? (delivered.members leader_id).node.logs 0
    ≡ get_elem? (delivered.members follower_id).node.logs 0
unfolding main_round follower_round start_election open_election ask_votes promote_to_candidate
    last_log_index last_log_term persist request_vote step_down on_vote_reply candidate_round
    promote_to_leader is_majority start leader_round broadcast_append_entries broadcast_from
    broadcast_one build_append_entries collect_entries needs_snapshot log_term relative_index
    append_entries check_term check_log merge_entries merge_logs find_mark commit_entries
    apply_committed apply_rounds
log_matching_example =
    log_matching leader_id follower_id place command_entry command_entry (omega arith) net-Starting
      (go_on serving-NetRun delivered-NetRun) (omega arith) (omega arith) refl refl refl 0
      (omega arith)
