-- ===== src/Raft/Append/Apply.antt =====
-- What the loop over `m_lastApplied` puts on the apply channel.
use native.Mathlib.Nat.{add-zero}
use raft_drive.Prelude.{
  ◌⊎◌, inl, inr, ltb, ltb→lt, ltb→le, Bool-cases, ℕ, zero, suc, ◌+◌, ◌-◌, ◌^◌, ◌≤◌, ◌<◌, ◌≡◌, refl,
  ap, ◌∙◌, List, [], ◌∷◌, ◌++◌, some, append_assoc, append-nil, arith, length, get_elem?, take,
  drop, drop-cons, get_elem?-some, sub64,
}
use raft_drive.Raft.Types.{LogEntry, ApplyMsg, push}
use raft_drive.Raft.State.{Node}
use raft_drive.Raft.Append.{command_msg, apply_one, apply_rounds, apply_committed}

-- The messages for consecutive entries, the first of them at `index`.
unfoldable pub messages : ℕ → List LogEntry → List ApplyMsg
messages index [] = []
messages index (e ∷ es) = command_msg index e ∷ messages (index + 1) es

-- The entries at the indices from `last_applied + 1` on, `k` of them.
abbrev pub next_entries : ℕ → Node → List LogEntry
next_entries k n = take k (drop (n.last_applied + 1 - n.last_included_index) n.logs)

-- The node with `k` more entries applied.
abbrev pub applied_by : ℕ → Node → Node
applied_by k n = record n {
  last_applied = n.last_applied + k;
  apply_channel = record n.apply_channel {
    queue = n.apply_channel.queue ++ messages (n.last_applied + 1) (next_entries k n);
  };
}

-- The node after one round that applies `e`.
abbrev applied_one : LogEntry → Node → Node
applied_one e n = record n {
  last_applied = n.last_applied + 1;
  apply_channel = push (command_msg (n.last_applied + 1) e) n.apply_channel;
}

applied_by-suc :
    (k : ℕ) (n : Node) (e : LogEntry)
    → n.last_included_index ≤ n.last_applied
    → get_elem? n.logs (n.last_applied + 1 - n.last_included_index) ≡ some e
    → applied_by k (applied_one e n) ≡ applied_by (suc k) n
unfolding messages push
applied_by-suc k n e low hit =
    let at = n.last_applied + 1 - n.last_included_index in
    let later : n.last_applied + 1 + 1 - n.last_included_index ≡ suc at = omega arith in
    let total : n.last_applied + 1 + k ≡ n.last_applied + suc k = omega arith in
    rw (drop-cons at n.logs hit, later, total, append_assoc) refl

-- The loop reads no entry outside of the log, and sends each entry once, in the order of the log.
pub apply_rounds_lem :
    (k : ℕ) (n : Node)
    → n.last_included_index ≤ n.last_applied
    → n.last_included_index + length n.logs < 2 ^ 64
    → (k ≡ 0) ⊎ (n.last_applied + k < n.last_included_index + length n.logs)
    → apply_rounds k n ≡ some (applied_by k n)
unfolding apply_rounds messages
apply_rounds_lem zero n low fits h = rw (add-zero, append-nil) refl
apply_rounds_lem (suc k) n low fits (inl h) = absurd (omega arith)
apply_rounds_lem (suc k) n low fits (inr h) =
    let at = n.last_applied + 1 - n.last_included_index in
    let (e, hit) = get_elem?-some n.logs at (omega arith) in
    let here : sub64 (n.last_applied + 1) n.last_included_index ≡ at = omega arith in
    let one : apply_one n ≡ some (applied_one e n) = unfold apply_one push in rw (here, hit) in
    rw one (
      apply_rounds_lem k (applied_one e n) (omega arith) fits (inr (omega arith))
      ∙ ap some (applied_by-suc k n e low hit))

-- With the snapshot applied, the log's indices words, and the commit index inside the log or not above
-- what is applied: the apply loop reads no entry outside of the log, and sends each entry from the
-- first that is not applied up to the commit index once, in the order of the log.
pub apply_committed_lem :
    (n : Node)
    → n.last_included_index ≤ n.last_applied
    → n.last_included_index + length n.logs < 2 ^ 64
    → (n.commit_index ≤ n.last_applied) ⊎ (n.commit_index < n.last_included_index + length n.logs)
    → apply_committed n ≡ some (applied_by (n.commit_index - n.last_applied) n)
unfolding apply_committed
apply_committed_lem n low fits (inl h) = apply_rounds_lem _ n low fits (inl (omega arith))
apply_committed_lem n low fits (inr h) = elim (Bool-cases (ltb n.last_applied n.commit_index)) [
  | inl more ↦ apply_rounds_lem _ n low fits (inr (omega (arith, ltb→lt _ _ more)))
  | inr none_left ↦ apply_rounds_lem _ n low fits (inl (omega (arith, ltb→le _ _ none_left)))
]
