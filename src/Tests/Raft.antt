-- ===== src/Tests/Raft.antt =====
-- The consensus node on a cluster of three: node 0 follows, gets an entry and votes.
use raft_drive.Prelude.{
  ℕ, ◌≤◌, ◌≡◌, refl, true, false, [], ◌∷◌, Option, none, some, arith, bytes, take, drop, ◌↔◌, pos,
}
use raft_drive.Raft.Types.{
  LogEntry, AppendEntriesArgs, AppendEntriesReply, RequestVoteArgs, RequestVoteReply,
}
use raft_drive.Raft.State.{log_term, Node, Env, leader}
use raft_drive.Raft.Persist.{dummy, persist, read_persist, state_json}
use raft_drive.Raft.Restart.{storable}
use raft_drive.Raft.Durable.{Persisted}
use raft_drive.Raft.Durable.Steps.{Session, begun, goes_on, restart_resumes}
use raft_drive.Raft.Roles.{init, fresh_node, request_vote, last_log_index, last_log_term, step_down}
use raft_drive.Raft.Invariant.{IsValid}
use raft_drive.Raft.Append.{
  append_entries, merge_logs, check_term, check_log, merge_entries, commit_entries, apply_committed,
  apply_rounds,
}
use raft_drive.Raft.Append.Check.{PrevMatches}
use raft_drive.Raft.Append.Reconcile.{reconcile}
use raft_drive.Raft.Append.Merge.{merge_logs-eq-reconcile}
use raft_drive.Raft.Append.Finish.{Fits}
use raft_drive.Raft.Append.Handler.{append_entries-IsValid, append_entries-holds}
use raft_drive.Raft.Step.{History, here, later, vote_called, append_called}
use raft_drive.Raft.Leader.{on_append_reply}
use raft_drive.Raft.Invariant.Replies.{on_append_reply-IsValid}
use raft_drive.Raft.Invariant.Starts.{init-IsValid}
use raft_drive.Raft.Invariant.Steps.{Step-IsValid}
use raft_drive.Raft.Ballot.{term_mono, one_vote_per_term}
use raft_drive.Tests.JsonText.{plain_json}

abbrev pub entry : ℕ → LogEntry
entry t = record { command = bytes "set"; term = t }

abbrev pub clock : Env
clock = record { now = 1000; timeout = 800 }

abbrev pub empty_node : Node
empty_node =
    record (fresh_node (pos 0) 3 (record { raftstate = []; snapshot = [] })
      (record { queue = []; closed = false }) clock) { logs = dummy 0 ∷ [] }

-- A log with an entry of term 1 that the leader of term 2 replaces.
abbrev pub behind : Node
behind = record empty_node { logs = dummy 0 ∷ entry 1 ∷ entry 1 ∷ []; current_term = 1 }

abbrev pub request : AppendEntriesArgs
request = record {
  term = 2;
  leader_id = pos 1;
  pre_log_index = 1;
  pre_log_term = 1;
  entries = entry 2 ∷ entry 2 ∷ [];
  leader_commit = 2;
}

abbrev pub no_reply : AppendEntriesReply
no_reply = record { term = 0; success = false; conflict_index = 0; conflict_term = 0 }

merge_logs-eq-reconcile_example :
    merge_logs behind.logs 2 request.entries
    ≡ dummy 0 ∷ entry 1 ∷ reconcile (entry 1 ∷ []) request.entries
merge_logs-eq-reconcile_example =
    merge_logs-eq-reconcile behind.logs 2 request.entries ((λ same. absurd (omega arith)), tt)

behind-IsValid : IsValid behind
behind-IsValid = omega arith

request-Fits : Fits request behind
request-Fits = omega arith

append_entries-IsValid_example :
    (m : Node) × (r : AppendEntriesReply) × (append_entries clock request no_reply behind
      ≡ some (m, r))
    × IsValid m
    × ((r.success ≡ true) ↔ ((1 ≤ 2) × PrevMatches request behind))
    × (r.term ≡ 1)
append_entries-IsValid_example =
    append_entries-IsValid clock request no_reply behind behind-IsValid request-Fits

abbrev result : Option (Node × AppendEntriesReply) → Node × AppendEntriesReply
result none = (behind, no_reply)
result (some r) = r

abbrev pub after : Node × AppendEntriesReply
after = result (append_entries clock request no_reply behind)

pub after_runs : append_entries clock request no_reply behind ≡ some (after.0, after.1)
unfolding append_entries check_term check_log log_term merge_entries merge_logs commit_entries
    apply_committed apply_rounds
after_runs = refl

after_logs : after.0.logs ≡ dummy 0 ∷ entry 1 ∷ entry 2 ∷ entry 2 ∷ []
unfolding append_entries check_term check_log log_term merge_entries merge_logs commit_entries
    apply_committed apply_rounds
after_logs = refl

append_entries-holds_example :
    (take 2 (drop 2 after.0.logs) ≡ request.entries)
    × (take 2 after.0.logs ≡ take 2 behind.logs)
    × (merge_logs after.0.logs 2 request.entries ≡ after.0.logs)
unfolding append_entries check_term check_log log_term merge_entries merge_logs commit_entries
    apply_committed apply_rounds
append_entries-holds_example =
    append_entries-holds clock request no_reply behind behind-IsValid request-Fits
      ((λ same. absurd (omega arith)), tt) after_runs refl

-- Node 0 votes for node 2 in term 2; node 1 then asks in the same term.
abbrev pub ballot : RequestVoteArgs
ballot = record { term = 2; candidate_id = pos 2; last_log_index = 5; last_log_term = 1 }

abbrev late_ballot : RequestVoteArgs
late_ballot = record ballot { candidate_id = pos 1 }

abbrev vote_result : Option (Node × RequestVoteReply) → Node
vote_result none = behind
vote_result (some r) = r.0

abbrev pub voted : Node
voted = vote_result (request_vote clock ballot behind)

abbrev asked_again : Node
asked_again = vote_result (request_vote clock late_ballot voted)

asked_again-History : History voted asked_again
unfolding request_vote last_log_index last_log_term
asked_again-History = later here (omega arith) (vote_called clock late_ballot refl)

term_mono_example : voted.current_term ≤ asked_again.current_term
term_mono_example = term_mono asked_again-History

one_vote_per_term_example : asked_again.voted_for ≡ voted.voted_for
unfolding request_vote last_log_index last_log_term
one_vote_per_term_example = one_vote_per_term asked_again-History (λ e. cc) refl

-- The same node as the leader of a cluster, when node 1 has stored the entries of a call.
abbrev leading : Node
leading = record behind { state = leader }

abbrev stored : AppendEntriesReply
stored = record { term = 1; success = true; conflict_index = 0; conflict_term = 0 }

leading-IsValid : IsValid leading
leading-IsValid = omega arith

on_append_reply-IsValid_example :
    (m : Node) × (on_append_reply clock 1 1 request stored leading ≡ some m) × IsValid m
on_append_reply-IsValid_example =
    on_append_reply-IsValid clock 1 1 request stored leading leading-IsValid (omega arith)

Step-IsValid_example : IsValid after.0
Step-IsValid_example =
    Step-IsValid (append_called clock request no_reply after_runs) request-Fits behind-IsValid

-- Node 0 votes, and is started again on its persister.
abbrev settled : Node
settled = persist behind

settled-Persisted : Persisted settled
unfolding persist state_json
settled-Persisted = record { state = refl }

abbrev settled_vote : Node
settled_vote = vote_result (request_vote clock ballot settled)

settled_vote-Session : Session settled settled_vote
unfolding request_vote last_log_index last_log_term persist
settled_vote-Session = goes_on begun (vote_called clock ballot refl) refl

restart_resumes_example :
    (r : Node) × (read_persist (record empty_node { persister = settled_vote.persister }) ≡ some r)
    × (r.current_term ≡ 2)
    × (r.voted_for ≡ pos 2)
    × (drop 1 r.logs ≡ entry 1 ∷ entry 1 ∷ [])
unfolding request_vote last_log_index last_log_term persist storable step_down
restart_resumes_example =
    restart_resumes (record empty_node { persister = settled_vote.persister }) settled-Persisted
      settled_vote-Session refl refl (omega arith) (omega arith)

empty_start :
    init
      (pos 0)
      3
      (record { raftstate = []; snapshot = [] })
      (record { queue = []; closed = false })
      clock
    ≡ some empty_node
unfolding init read_persist
empty_start = refl

init-IsValid_example : IsValid empty_node
init-IsValid_example =
    init-IsValid (pos 0) 3 (record { raftstate = []; snapshot = [] })
      (record { queue = []; closed = false }) clock empty_start (omega arith)
