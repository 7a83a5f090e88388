-- ===== src/Tests/Race.antt =====
-- `appendEntries` lets go of the mutex between its sections (kvcluster/raft/raft.cpp): a call of a later
-- leader comes between the check and the merge of an earlier one.
use raft_drive.Prelude.{◌≡◌, refl, Bool, true, [], ◌∷◌, Option, none, some, pos}
use raft_drive.Raft.Types.{AppendEntriesArgs, AppendEntriesReply}
use raft_drive.Raft.State.{Node, log_term}
use raft_drive.Raft.Persist.{dummy}
use raft_drive.Raft.Append.{
  append_entries, check_term, check_log, merge_entries, merge_logs, find_mark, commit_entries,
  apply_committed, apply_rounds,
}
use raft_drive.Tests.JsonText.{plain_json}
use raft_drive.Tests.Raft.{clock, entry, empty_node, no_reply}

-- The leader of term 1 sends an entry, and then the leader of term 2 one of its own.
abbrev early_call : AppendEntriesArgs
early_call = record {
  term = 1;
  leader_id = pos 1;
  pre_log_index = 0;
  pre_log_term = 0;
  entries = entry 1 ∷ [];
  leader_commit = 0;
}

abbrev later_call : AppendEntriesArgs
later_call = record early_call { term = 2; leader_id = pos 2; entries = entry 2 ∷ [] }

-- The first call goes on to its merge.
abbrev checked : Node × AppendEntriesReply × Bool
checked = check_term clock early_call no_reply empty_node

checked_passes :
    (checked.2 ≡ true) × (check_log early_call checked.1 checked.0 ≡ some (checked.1, true))
unfolding check_term check_log log_term
checked_passes = (refl, refl)

abbrev between : Option (Node × AppendEntriesReply) → Node × AppendEntriesReply
between none = (empty_node, no_reply)
between (some r) = r

abbrev meanwhile : Node × AppendEntriesReply
meanwhile = between (append_entries clock later_call no_reply checked.0)

-- The node tells the leader of term 2 that it has the entry, and then cuts it off.
race_logs :
    (meanwhile.1.success ≡ true)
    × (meanwhile.0.logs ≡ dummy 0 ∷ entry 2 ∷ [])
    × ((merge_entries early_call meanwhile.0).logs ≡ dummy 0 ∷ entry 1 ∷ [])
unfolding append_entries check_term check_log log_term merge_entries merge_logs find_mark
    commit_entries apply_committed apply_rounds
race_logs = (refl, refl, refl)
