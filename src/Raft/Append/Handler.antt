-- ===== src/Raft/Append/Handler.antt =====
-- The whole handler `appendEntries`: it never reads outside of the log, keeps the invariant, and what
-- an acceptance means.
use raft_drive.Prelude.{
  ◌↔◌, ◌+◌, ◌-◌, ◌≤◌, ◌<◌, ◌≡◌, refl, sym, ap, ◌∙◌, ◌⊎◌, inl, inr, true, false, Option, some, arith,
  ltb, ltb→lt, ltb→le, Bool-cases, eq_of_some-eq, length, take, drop,
}
use raft_drive.Json.{JsonLib}
use raft_drive.Raft.Types.{AppendEntriesArgs, AppendEntriesReply}
use raft_drive.Raft.State.{Node, Env}
use raft_drive.Raft.Invariant.{IsValid}
use raft_drive.Raft.Append.{append_entries, check_term, merge_entries, after_term, merge_logs}
use raft_drive.Raft.Append.Reconcile.{Agree}
use raft_drive.Raft.Append.Merge.{merge_logs-holds, merge_logs_idem}
use raft_drive.Raft.Append.Check.{PrevMatches, log_term-lt, check_log-Checked}
use raft_drive.Raft.Append.Finish.{
  Fits, finished, adjustment-eq, commit_entries_lem, finished-IsValid,
}

module _ ⦃json : JsonLib⦄ where
  -- How the handler ends once the terms have been compared, at the node that the comparison left.
  abbrev After :
      AppendEntriesArgs → AppendEntriesReply → Node → Option (Node × AppendEntriesReply) → Type 0
  After args answer n o =
      ((¬ PrevMatches args n)
        × ((r : AppendEntriesReply) × (o ≡ some (n, r))
            × (r.success ≡ false)
            × (r.term ≡ answer.term)))
      ⊎ (PrevMatches args n × (o ≡ some (finished args n, record answer { success = true })))

  after_term-After :
      (args : AppendEntriesArgs) (answer : AppendEntriesReply) (n : Node)
      → IsValid n
      → Fits args n
      → After args answer n (after_term args (n, answer, true))
  after_term-After args answer n v f = elim (check_log-Checked args answer n f.word) [
    | inl (m, e) ↦ rw (e, commit_entries_lem args n v f m) (inr (m, refl))
    | inr (mismatch, (r, e, refused, same)) ↦ rw e (inl (mismatch, (r, refl, refused, same)))
  ]

  -- What the comparison of the terms leaves alone.
  pub record SameLog (n m : Node) : Type 0 where
    pub logs : m.logs ≡ n.logs
    pub last_included_index : m.last_included_index ≡ n.last_included_index
    pub last_applied : m.last_applied ≡ n.last_applied
    pub commit_index : m.commit_index ≡ n.commit_index
    pub apply_channel : m.apply_channel ≡ n.apply_channel

  Fits-to : {args : AppendEntriesArgs} {n m : Node} → SameLog n m → Fits args n → Fits args m
  Fits-to s f = record { word = f.word; room = rw (s.logs, s.last_included_index) f.room }

  PrevMatches-to :
      (args : AppendEntriesArgs) {n m : Node}
      → SameLog n m
      → PrevMatches args n
      → PrevMatches args m
  PrevMatches-to args s h = rw (s.logs, s.last_included_index) h

  PrevMatches-from :
      (args : AppendEntriesArgs) {n m : Node}
      → SameLog n m
      → PrevMatches args m
      → PrevMatches args n
  PrevMatches-from args s h = rw (← s.logs, ← s.last_included_index) h

  abbrev pub Outcome :
      AppendEntriesArgs → AppendEntriesReply → Node → Option (Node × AppendEntriesReply) → Type 0
  Outcome args reply n o =
      let answer : AppendEntriesReply = record reply { term = n.current_term; success = false } in
      ((args.term < n.current_term) × (o ≡ some (n, answer)))
      ⊎ ((m : Node) × (n.current_term ≤ args.term)
          × SameLog n m
          × IsValid m
          × After args answer m o)

  append_entries-Outcome :
      (env : Env) (args : AppendEntriesArgs) (reply : AppendEntriesReply) (n : Node)
      → IsValid n
      → Fits args n
      → Outcome args reply n (append_entries env args reply n)
  unfolding append_entries check_term
  append_entries-Outcome env args reply n v f = elim (Bool-cases (ltb args.term n.current_term)) [
    | inl stale ↦ rw stale (inl (ltb→lt _ _ stale, refl))
    | inr current ↦ elim (Bool-cases (ltb n.current_term args.term)) [
      | inl newer ↦
          rw (current, newer)
            (inr (
              _,
              omega (arith, ltb→le _ _ current),
              record {
                logs = refl;
                last_included_index = refl;
                last_applied = refl;
                commit_index = refl;
                apply_channel = refl;
              },
              omega arith,
              after_term-After args _ _ (omega arith) (omega arith),
            ))
      | inr same ↦
          rw (current, same)
            (inr (
              _,
              omega (arith, ltb→le _ _ current),
              record {
                logs = refl;
                last_included_index = refl;
                last_applied = refl;
                commit_index = refl;
                apply_channel = refl;
              },
              omega arith,
              after_term-After args _ _ (omega arith) (omega arith),
            ))
    ]
  ]

  -- `appendEntries` on a node that satisfies the invariant, with room for the request's entries: it
  -- returns a node that satisfies it too, reading no entry outside of the log; and it accepts exactly
  -- when the term is not behind the node's and the previous entry is in the log with its term. The
  -- reply has the term that the node was in before.
  pub append_entries-IsValid :
      (env : Env) (args : AppendEntriesArgs) (reply : AppendEntriesReply) (n : Node)
      → IsValid n
      → Fits args n
      → (m : Node) × (r : AppendEntriesReply) × (append_entries env args reply n ≡ some (m, r))
        × IsValid m
        × ((r.success ≡ true) ↔ ((n.current_term ≤ args.term) × PrevMatches args n))
        × (r.term ≡ n.current_term)
  append_entries-IsValid env args reply n v f = elim (append_entries-Outcome env args reply n v f) [
    | inl (stale, e) ↦ (_, _, e, v, ((λ h. cc), (λ h. absurd (omega (arith, h.0)))), refl)
    | inr (m, current, same, v', inl (mismatch, (r, e, refused, term))) ↦
        (m, r, e, v', ((λ h. cc), (λ h. absurd (mismatch (PrevMatches-to args same h.1)))), term)
    | inr (m, current, same, v', inr (matches, e)) ↦ (
      finished args m,
      _,
      e,
      finished-IsValid args m v' (Fits-to same f) matches,
      ((λ h. (current, PrevMatches-from args same matches)), (λ h. refl)),
      refl,
    )
  ]

  accepted_not_refused :
      (o : Option (Node × AppendEntriesReply)) {m m' : Node} {r r' : AppendEntriesReply}
      → o ≡ some (m, r)
      → o ≡ some (m', r')
      → r.success ≡ true
      → r'.success ≡ false
      → ⊥
  accepted_not_refused o e e' ok refused =
      let same = ap (λ (x : Node × AppendEntriesReply). x.1.success) (eq_of_some-eq (sym e ∙ e')) in
      cc (same, ok, refused)

  accepted_logs :
      (args : AppendEntriesArgs) (n k : Node) (o : Option (Node × AppendEntriesReply)) {m : Node}
      {r r' : AppendEntriesReply}
      → SameLog n k
      → IsValid k
      → Fits args k
      → PrevMatches args k
      → o ≡ some (m, r)
      → o ≡ some (finished args k, r')
      → m.logs ≡ merge_logs n.logs (args.pre_log_index + 1 - n.last_included_index) args.entries
  unfolding merge_entries
  accepted_logs args n k o same v f matches e e' =
      ap (λ (x : Node × AppendEntriesReply). x.0.logs) (eq_of_some-eq (sym e ∙ e'))
      ∙ (rw (adjustment-eq args k v f matches, same.logs, same.last_included_index) refl)

  -- An accepted request under Log Matching: the follower's log holds every entry of the request in its
  -- place, everything before them is as it was, and a second delivery would change nothing.
  pub append_entries-holds :
      (env : Env) (args : AppendEntriesArgs) (reply : AppendEntriesReply) (n : Node) {m : Node}
      {r : AppendEntriesReply}
      → IsValid n
      → Fits args n
      → Agree (drop (args.pre_log_index + 1 - n.last_included_index) n.logs) args.entries
      → append_entries env args reply n ≡ some (m, r)
      → r.success ≡ true
      → let at = args.pre_log_index + 1 - n.last_included_index in
        (take (length args.entries) (drop at m.logs) ≡ args.entries)
        × (take at m.logs ≡ take at n.logs)
        × (merge_logs m.logs at args.entries ≡ m.logs)
  append_entries-holds env args reply n {m} {r} v f agree e ok =
      let at = args.pre_log_index + 1 - n.last_included_index in
      elim (append_entries-Outcome env args reply n v f) [
        | inl (stale, e') ↦ absurd (accepted_not_refused _ e e' ok refl)
        | inr (k, current, same, v', inl (mismatch, (r', e', refused, term))) ↦
            absurd (accepted_not_refused _ e e' ok refused)
        | inr (k, current, same, v', inr (matches, e')) ↦
            let merged_logs : m.logs ≡ merge_logs n.logs at args.entries =
              accepted_logs args n k _ same v' (Fits-to same f) matches e e' in
            let at-le : at ≤ length n.logs =
              let here = PrevMatches-from args same matches in
              omega (arith, here.0, log_term-lt n.logs _ here.1) in
            let held = merge_logs-holds n.logs at args.entries at-le agree in
            rw merged_logs (held.0, held.1, merge_logs_idem n.logs at args.entries at-le agree)
      ]
