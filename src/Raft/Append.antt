-- ===== src/Raft/Append.antt =====
-- `Raft::appendEntries` (kvcluster/raft/raft.cpp): its four sections, each of which holds the lock,
-- and the handler that runs them one after the other.
pub mod Reconcile
pub mod Merge
pub mod Apply
pub mod Check
pub mod Finish
pub mod Handler
use raft_drive.Prelude.{
  ℕ, zero, suc, ◌+◌, ◌-◌, ◌^◌, Bool, true, false, not, ◌&&◌, List, [], ◌∷◌, ◌++◌, Option, none,
  some, ◌>>=◌, if◌then◌else◌, ltb, leb, ◌==◌, min, bytes_eq, length, get_elem?, take, drop, u64,
  sub64,
}
use raft_drive.Json.{JsonLib}
use raft_drive.Raft.Types.{LogEntry, AppendEntriesArgs, AppendEntriesReply, ApplyMsg, push}
use raft_drive.Raft.State.{State, follower, Node, Env, is_candidate_state, log_term}
use raft_drive.Raft.Persist.{persist}
use raft_drive.Raft.Roles.{step_down, last_log_index}

-- `while (relConflictIndex > 0 && m_logs[relConflictIndex-1]->term == conflictTerm)`: the two indices
-- go down together.
unfoldable pub scan_conflict : List LogEntry → ℕ → ℕ → ℕ → Option ℕ
unfolding log_term
scan_conflict logs term index zero = some index
scan_conflict logs term index (suc rel) = do
  t ← log_term logs rel
  elim (t == term) [ true ↦ scan_conflict logs term (index - 1) rel | false ↦ some index ]

-- The second section, once the relative index of the entry before is known; the reply, and whether
-- the handler goes on.
abbrev pub check_entry :
    AppendEntriesArgs → AppendEntriesReply → Node → ℕ → Option (AppendEntriesReply × Bool)
check_entry args reply n rel =
    if leb (length n.logs) rel
    then some (
      record reply {
        conflict_index = last_log_index n;
        conflict_term = 2 ^ 32 - 1;
        success = false;
      },
      false,
    )
    else (do
      t ← log_term n.logs rel
      if t == args.pre_log_term then some (reply, true) else do
        c ← scan_conflict n.logs t args.pre_log_index rel
        some (record reply { conflict_index = c; conflict_term = t; success = false }, false))

unfoldable pub check_log :
    AppendEntriesArgs → AppendEntriesReply → Node → Option (AppendEntriesReply × Bool)
check_log args reply n =
    if ltb args.pre_log_index n.last_included_index
    then some (record reply { success = false }, false)
    else check_entry args reply n (sub64 args.pre_log_index n.last_included_index)

-- The first loop of the third section, at entry `i`, with the entries from there on: the log and the
-- final `mark`. The read at `i + adj` is one with the test `i + adj < m_logs.size()`.
unfoldable pub find_mark : List LogEntry → ℕ → ℕ → List LogEntry → ℕ → List LogEntry × ℕ
unfolding bytes_eq
find_mark logs adj i [] mark = (logs, mark)
find_mark logs adj i (e ∷ es) mark = elim (get_elem? logs (i + adj)) [
  | none ↦ find_mark logs adj (i + 1) es mark
  | some l ↦ elim (l.term == e.term) [
    | false ↦ (take (i + adj) logs, i)
    | true ↦ find_mark logs adj (i + 1) es (if bytes_eq l.command e.command then mark + 1 else mark)
  ]
]

unfoldable pub merge_logs : List LogEntry → ℕ → List LogEntry → List LogEntry
unfolding find_mark
merge_logs logs adj entries =
    let marked = find_mark logs adj 0 entries 0 in marked.0 ++ drop marked.1 entries

-- `size_t adj{args.preLogIndex + 1 - m_lastIncludedIndex}`.
abbrev pub adjustment : AppendEntriesArgs → Node → ℕ
adjustment args n = sub64 (u64 (args.pre_log_index + 1)) n.last_included_index

abbrev pub command_msg : ℕ → LogEntry → ApplyMsg
command_msg index e = record {
  command_valid = true;
  command_index = index;
  command_term = e.term;
  command = e.command;
  snapshot_valid = false;
  snapshot = [];
  last_included_index = 0;
  last_included_term = 0;
}

-- One round of `while (m_commitIndex > m_lastApplied)`.
unfoldable pub apply_one : Node → Option Node
unfolding push
apply_one n =
    let index = n.last_applied + 1 in
    do
      e ← get_elem? n.logs (sub64 index n.last_included_index)
      some (record n {
        last_applied = index;
        apply_channel = push (command_msg index e) n.apply_channel;
      })

unfoldable pub apply_rounds : ℕ → Node → Option Node
unfolding apply_one
apply_rounds zero n = some n
apply_rounds (suc k) n = do m ← apply_one n; apply_rounds k m

-- The loop: each round takes `m_lastApplied` one step nearer to `m_commitIndex`.
unfoldable pub apply_committed : Node → Option Node
apply_committed n = apply_rounds (n.commit_index - n.last_applied) n

-- The fourth section.
unfoldable pub commit_entries : AppendEntriesArgs → Node → Option Node
commit_entries args n = apply_committed (record n {
  commit_index =
      if ltb n.commit_index args.leader_commit
      then min args.leader_commit (u64 (args.pre_log_index + length args.entries))
      else n.commit_index;
})

module _ ⦃json : JsonLib⦄ where
  -- The first section: the node, the reply, and whether the handler goes on.
  unfoldable pub check_term :
      Env → AppendEntriesArgs → AppendEntriesReply → Node → Node × AppendEntriesReply × Bool
  unfolding step_down
  check_term env args reply n =
      let answer = record reply { term = n.current_term; success = false } in
      if ltb args.term n.current_term
      then (n, answer, false)
      else if ltb n.current_term args.term
      then (step_down env args.term n, answer, true)
      else (
        record n {
          last_heartbeat = env.now;
          election_timeout = env.timeout;
          state = if is_candidate_state n.state then follower else n.state;
        },
        answer,
        true,
      )

  -- The third section.
  unfoldable pub merge_entries : AppendEntriesArgs → Node → Node
  unfolding persist
  merge_entries args n =
      persist (record n { logs = merge_logs n.logs (adjustment args n) args.entries })

  abbrev pub finish_append :
      AppendEntriesArgs → Node → AppendEntriesReply × Bool → Option (Node × AppendEntriesReply)
  finish_append args n (reply, false) = some (n, reply)
  finish_append args n (reply, true) = do
    m ← commit_entries args (merge_entries args n)
    some (m, record reply { success = true })

  abbrev pub after_term :
      AppendEntriesArgs → Node × AppendEntriesReply × Bool → Option (Node × AppendEntriesReply)
  after_term args (n, reply, false) = some (n, reply)
  after_term args (n, reply, true) = do
    checked ← check_log args reply n
    finish_append args n checked

  unfoldable pub append_entries :
      Env → AppendEntriesArgs → AppendEntriesReply → Node → Option (Node × AppendEntriesReply)
  append_entries env args reply n = after_term args (check_term env args reply n)
