-- ===== src/Tests/Node.antt =====
-- The node on concrete states: a vote, a commit by a leader, and restarts.
use raft_drive.Prelude.{
  ℕ, bytes, get_elem?, take, ◌≤◌, ◌<◌, ◌≡◌, ◌↔◌, refl, ◌⊎◌, true, false, [], ◌∷◌, some, arith,
  Bytes, drop, pos, minus_one,
}
use raft_drive.Raft.Types.{RequestVoteReply}
use raft_drive.Raft.State.{Node, leader, log_term, relative_index, is_majority}
use raft_drive.Raft.Persist.{state_json, persist, read_persist, snapshot_json, snapshot_meta, dummy}
use raft_drive.Raft.Invariant.{IsValid}
use raft_drive.Raft.Start.{start_lem}
use raft_drive.Raft.Roles.{start, request_vote, last_log_index, last_log_term}
use raft_drive.Raft.Leader.{update_commit_index, can_commit, find_commit, count_replicated}
use raft_drive.Raft.Vote.{FreeFor, UpToDate, Recorded, request_vote-granted_iff}
use raft_drive.Raft.Commit.{Committable, update_commit_index_lem, update_commit_index-maximal}
use raft_drive.Raft.Restart.{storable, read_persist-persist, read_persist-snapshot_json}
use raft_drive.Tests.JsonText.{plain_json, dump_text}
use raft_drive.Tests.Raft.{clock, behind, ballot, entry, empty_node}

request_vote-granted_iff_example :
    (m : Node) × (r : RequestVoteReply) × (request_vote clock ballot behind ≡ some (m, r))
    × ((r.vote_granted ≡ true) ↔ (FreeFor ballot behind × UpToDate ballot 1 behind))
    × ((r.vote_granted ≡ false) ⊎ Recorded ballot m)
    × (r.term ≡ behind.current_term)
unfolding last_log_term
request_vote-granted_iff_example = request_vote-granted_iff clock ballot behind 1 refl

-- The leader of three nodes: node 1 stores two entries of its term, node 2 one.
abbrev leading : Node
leading = record empty_node {
  state = leader;
  current_term = 1;
  logs = dummy 0 ∷ entry 1 ∷ entry 1 ∷ entry 1 ∷ [];
  next_index = 0 ∷ 3 ∷ 2 ∷ [];
  match_index = 0 ∷ 2 ∷ 1 ∷ [];
}

update_commit_index_lem_example :
    (update_commit_index leading ≡ leading)
    ⊎ ((index : ℕ) × (update_commit_index leading ≡ record leading { commit_index = index })
        × (leading.commit_index < index)
        × (index ≤ last_log_index leading)
        × (leading.dead ≡ false)
        × (leading.state ≡ leader)
        × Committable index leading)
update_commit_index_lem_example = update_commit_index_lem leading

committed_two : (update_commit_index leading).commit_index ≡ 2
unfolding update_commit_index last_log_index find_commit can_commit count_replicated log_term
    relative_index is_majority
committed_two = refl

update_commit_index-maximal_example : can_commit 3 leading ≡ false
unfolding update_commit_index last_log_index find_commit can_commit count_replicated log_term
    relative_index is_majority
update_commit_index-maximal_example =
    update_commit_index-maximal leading 3 (omega arith) (omega arith) (omega arith)

abbrev restarted : Bytes → Node
restarted state = record empty_node { persister = record { raftstate = state; snapshot = [] } }

abbrev voter : Node
voter = record behind { voted_for = pos 2 }

abbrev from_state : Node
from_state = restarted (persist voter).persister.raftstate

read_persist-persist_example :
    read_persist from_state
    ≡ some (record from_state {
      current_term = 1;
      voted_for = pos 2;
      last_included_index = (snapshot_meta []).0;
      last_included_term = (snapshot_meta []).1;
      last_applied = (snapshot_meta []).0;
      logs = dummy (snapshot_meta []).1 ∷ drop 1 voter.logs;
    })
unfolding storable
read_persist-persist_example =
    read_persist-persist voter from_state refl (omega arith) (omega arith) refl

abbrev from_snapshot : Node
from_snapshot = restarted (dump_text (snapshot_json voter))

read_persist-snapshot_json_example :
    read_persist from_snapshot
    ≡ some (record from_snapshot {
      current_term = 1;
      voted_for = minus_one;
      last_included_index = (snapshot_meta []).0;
      last_included_term = (snapshot_meta []).1;
      last_applied = (snapshot_meta []).0;
      logs = dummy (snapshot_meta []).1 ∷ drop 1 voter.logs;
    })
unfolding storable
read_persist-snapshot_json_example =
    read_persist-snapshot_json voter from_snapshot refl (omega arith) refl

leading-IsValid : IsValid leading
leading-IsValid = omega arith

start_lem_example :
    IsValid (start (bytes "set") leading).0
    × ((start (bytes "set") leading).1 ≡ pos 4)
    × (get_elem? (start (bytes "set") leading).0.logs 4 ≡ some (entry 1))
    × (take 4 (start (bytes "set") leading).0.logs ≡ leading.logs)
    × ((start (bytes "set") leading).0.persister.raftstate
        ≡ dump_text (state_json (start (bytes "set") leading).0))
start_lem_example = start_lem (bytes "set") leading refl leading-IsValid (omega arith)
