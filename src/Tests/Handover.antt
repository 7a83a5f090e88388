-- ===== src/Tests/Handover.antt =====
-- Node 1, which has taken the leader's entry, is elected in the next term.
use raft_drive.Prelude.{
  ℕ, zero, suc, ◌≡◌, refl, inl, inr, Bool, true, [], ◌∷◌, arith, pos, get_elem?, ltb, ltb→lt,
}
use raft_drive.Raft.Types.{RequestVoteArgs, RequestVoteReply}
use raft_drive.Raft.State.{candidate, follower, Node, is_majority, log_term, relative_index}
use raft_drive.Raft.Persist.{persist}
use raft_drive.Raft.Roles.{
  request_vote, on_vote_reply, last_log_index, last_log_term, step_down, start_election,
  open_election, ask_votes, promote_to_candidate, promote_to_leader, start,
}
use raft_drive.Raft.Append.{
  append_entries, merge_logs, find_mark, check_term, check_log, merge_entries, commit_entries,
  apply_committed, apply_rounds,
}
use raft_drive.Raft.Leader.{
  broadcast_append_entries, broadcast_from, broadcast_one, build_append_entries, collect_entries,
  needs_snapshot,
}
use raft_drive.Raft.Loop.{main_round, follower_round, candidate_round, leader_round}
use raft_drive.Raft.Cluster.{
  Member, put, become, set_call, asked, answered, receive, turned, sent, called, received,
}
use raft_drive.Raft.Net.{Net, NetRun, net_later, net_step}
use raft_drive.Raft.Accord.Safety.{HasTaken, leader_completeness}
use raft_drive.Tests.JsonText.{plain_json}
use raft_drive.Tests.Raft.{clock}
use raft_drive.Tests.Cluster.{late, node_of, all_but_first, vote_of, serving}
use raft_drive.Tests.Net.{
  net, net-Starting, command_entry, first_append, delivered, delivered-NetRun, serving-NetRun,
}

-- Node 1 stands for the next term.
abbrev next_standing : Node
next_standing = node_of (main_round late follower (delivered.members 1).node)

abbrev net_after : (ℕ → Member) → Net
net_after c = record {
  members = c;
  calls = (1, first_append) ∷ [];
  accepted = (1, first_append) ∷ [];
}

abbrev next_stood : ℕ → Member
next_stood = put delivered.members 1 (become next_standing (delivered.members 1))

abbrev next_call : RequestVoteArgs
next_call = record { term = 2; candidate_id = pos 1; last_log_index = 1; last_log_term = 1 }

abbrev next_waiting : Node
next_waiting = record next_standing { tasks = all_but_first next_standing.tasks }

abbrev next_asking : ℕ → Member
next_asking = put next_stood 1 (set_call 2 0 (asked next_call) (become next_waiting (next_stood 1)))

abbrev next_vote : Node × RequestVoteReply
next_vote = vote_of (request_vote clock next_call (next_asking 0).node)

abbrev next_voting : ℕ → Member
next_voting = put next_asking 0 (become next_vote.0 (next_asking 0))

abbrev next_answering : ℕ → Member
next_answering = put next_voting 1 (set_call 2 0 (answered next_call next_vote.1) (next_voting 1))

abbrev next_counting : ℕ → Member
next_counting = put next_answering 1 (receive clock 2 0 next_vote.1 (next_answering 1))

abbrev next_crowned : Node
next_crowned = node_of (main_round clock candidate (next_counting 1).node)

abbrev next_elected : ℕ → Member
next_elected = put next_counting 1 (become next_crowned (next_counting 1))

next_stood-NetRun : NetRun 3 (net serving) (net_after next_stood)
unfolding main_round follower_round start_election open_election ask_votes promote_to_candidate
    last_log_index last_log_term persist request_vote step_down on_vote_reply candidate_round
    promote_to_leader is_majority start leader_round broadcast_append_entries broadcast_from
    broadcast_one build_append_entries collect_entries needs_snapshot log_term relative_index
    append_entries check_term check_log merge_entries merge_logs find_mark commit_entries
    apply_committed apply_rounds
next_stood-NetRun =
    net_later delivered-NetRun
      (net_step (turned 1 late follower (omega arith) (omega arith) refl) (omega arith))

next_asking-NetRun : NetRun 3 (net serving) (net_after next_asking)
unfolding main_round follower_round start_election open_election ask_votes promote_to_candidate
    last_log_index last_log_term persist request_vote step_down on_vote_reply candidate_round
    promote_to_leader is_majority start leader_round broadcast_append_entries broadcast_from
    broadcast_one build_append_entries collect_entries needs_snapshot log_term relative_index
    append_entries check_term check_log merge_entries merge_logs find_mark commit_entries
    apply_committed apply_rounds
next_asking-NetRun =
    net_later next_stood-NetRun
      (net_step (sent 1 0 next_call (all_but_first next_standing.tasks) (omega arith) refl) tt)

next_answering-NetRun : NetRun 3 (net serving) (net_after next_answering)
unfolding main_round follower_round start_election open_election ask_votes promote_to_candidate
    last_log_index last_log_term persist request_vote step_down on_vote_reply candidate_round
    promote_to_leader is_majority start leader_round broadcast_append_entries broadcast_from
    broadcast_one build_append_entries collect_entries needs_snapshot log_term relative_index
    append_entries check_term check_log merge_entries merge_logs find_mark commit_entries
    apply_committed apply_rounds
next_answering-NetRun =
    net_later next_asking-NetRun
      (net_step (called 1 2 0 clock next_call (omega arith) refl refl) (omega arith))

next_counting-NetRun : NetRun 3 (net serving) (net_after next_counting)
unfolding main_round follower_round start_election open_election ask_votes promote_to_candidate
    last_log_index last_log_term persist request_vote step_down on_vote_reply candidate_round
    promote_to_leader is_majority start leader_round broadcast_append_entries broadcast_from
    broadcast_one build_append_entries collect_entries needs_snapshot log_term relative_index
    append_entries check_term check_log merge_entries merge_logs find_mark commit_entries
    apply_committed apply_rounds
next_counting-NetRun =
    net_later next_answering-NetRun (
      net_step (received 1 2 0 clock next_call next_vote.1 (omega arith) refl (λ granted. refl)) tt)

next_elected-NetRun : NetRun 3 (net serving) (net_after next_elected)
unfolding main_round follower_round start_election open_election ask_votes promote_to_candidate
    last_log_index last_log_term persist request_vote step_down on_vote_reply candidate_round
    promote_to_leader is_majority start leader_round broadcast_append_entries broadcast_from
    broadcast_one build_append_entries collect_entries needs_snapshot log_term relative_index
    append_entries check_term check_log merge_entries merge_logs find_mark commit_entries
    apply_committed apply_rounds
next_elected-NetRun =
    net_later next_counting-NetRun
      (net_step (turned 1 clock candidate (omega arith) (omega arith) refl) (omega arith))

abbrev chief : ℕ
chief = 0

abbrev successor : ℕ
successor = 1

-- Nodes 0 and 1 have the entry.
abbrev have_entry : ℕ → Bool
have_entry j = ltb j 2

have_entry-HasTaken : (j : ℕ) → have_entry j ≡ true → HasTaken (net_after next_elected) chief 1 1 j
have_entry-HasTaken zero h = inl refl
have_entry-HasTaken (suc zero) h = inr (0, first_append, refl, refl, omega arith)
have_entry-HasTaken (suc (suc j)) h = absurd (omega (arith, ltb→lt (suc (suc j)) 2 h))

leader_completeness_example :
    get_elem? (next_elected successor).node.logs 1 ≡ get_elem? (serving chief).node.logs 1
unfolding main_round follower_round start_election open_election ask_votes promote_to_candidate
    last_log_index last_log_term persist request_vote step_down on_vote_reply candidate_round
    promote_to_leader is_majority start leader_round broadcast_append_entries broadcast_from
    broadcast_one build_append_entries collect_entries needs_snapshot log_term relative_index
    append_entries check_term check_log merge_entries merge_logs find_mark commit_entries
    apply_committed apply_rounds
leader_completeness_example =
    leader_completeness chief successor 1 command_entry have_entry (omega arith) net-Starting
      serving-NetRun next_elected-NetRun (omega arith) (omega arith) refl refl refl (omega arith)
      have_entry-HasTaken refl (omega arith) 1 (omega arith)
