-- ===== src/Raft/Append/Finish.antt =====
-- The last two sections of `appendEntries`: the node that an accepted request leaves.
use raft_drive.Prelude.{
  ℕ, ◌+◌, ◌-◌, ◌^◌, ◌≤◌, ◌<◌, ◌≡◌, inl, inr, some, if◌then◌else◌, arith, ltb, Bool-cases, length,
  min, u64,
}
use raft_drive.Json.{JsonLib}
use raft_drive.Raft.Types.{AppendEntriesArgs}
use raft_drive.Raft.State.{Node}
use raft_drive.Raft.Invariant.{IsValid}
use raft_drive.Raft.Append.{merge_entries, commit_entries, adjustment}
use raft_drive.Raft.Append.Merge.{merge_logs-bounds}
use raft_drive.Raft.Append.Apply.{applied_by, apply_committed_lem}
use raft_drive.Raft.Append.Check.{PrevMatches, log_term-lt}

-- The words of the request, and room in the index space for its entries.
pub record Fits (args : AppendEntriesArgs) (n : Node) : Type 0 where
  pub word : args.pre_log_index < 2 ^ 64
  pub room : n.last_included_index + length n.logs + length args.entries < 2 ^ 64

-- The commit index that the fourth section sets.
abbrev pub new_commit : AppendEntriesArgs → Node → ℕ
new_commit args n =
    if ltb n.commit_index args.leader_commit
    then min args.leader_commit (u64 (args.pre_log_index + length args.entries))
    else n.commit_index

module _ ⦃json : JsonLib⦄ where
  -- What the last two sections do to the node.
  abbrev pub merged : AppendEntriesArgs → Node → Node
  merged args n = record (merge_entries args n) { commit_index = new_commit args n }

  abbrev pub finished : AppendEntriesArgs → Node → Node
  finished args n = applied_by (new_commit args n - n.last_applied) (merged args n)

  module _ (args : AppendEntriesArgs) (n : Node) (v : IsValid n) (f : Fits args n)
      (m : PrevMatches args n) where
    pub adjustment-eq : adjustment args n ≡ args.pre_log_index + 1 - n.last_included_index
    adjustment-eq = omega (arith, f.word, f.room, m.0, log_term-lt n.logs _ m.1)

    adjustment-le : adjustment args n ≤ length n.logs
    adjustment-le = omega (arith, f.word, f.room, m.0, log_term-lt n.logs _ m.1)

    pub commit_entries_lem : commit_entries args (merge_entries args n) ≡ some (finished args n)
    unfolding commit_entries merge_entries
    commit_entries_lem =
        let merge = merge_logs-bounds n.logs (adjustment args n) args.entries adjustment-le in
        apply_committed_lem (merged args n) v.applied_from (omega (arith, merge, f.room))
          (elim (Bool-cases (ltb n.commit_index args.leader_commit)) [
            | inl later ↦ rw later (
                inr (
                  omega
                    (arith, merge, adjustment-eq, m.0, log_term-lt n.logs _ m.1, f.word, f.room)))
            | inr same ↦ rw same (inl v.committed)
          ])

    pub finished-IsValid : IsValid (finished args n)
    unfolding merge_entries
    finished-IsValid =
        let merge = merge_logs-bounds n.logs (adjustment args n) args.entries adjustment-le in
        record {
          nonempty =
              omega (arith, merge, adjustment-eq, m.0, f.word, f.room, log_term-lt n.logs _ m.1);
          fits = omega (arith, merge, f.room);
          applied_from = omega (arith, v.applied_from);
          committed = omega arith;
          next_length = v.next_length;
          match_length = v.match_length;
        }
