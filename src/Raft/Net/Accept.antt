-- ===== src/Raft/Net/Accept.antt =====
-- What `appendEntries` makes of a node's log (kvcluster/raft/raft.cpp).
use raft_drive.Prelude.{
  ◌^◌, ◌≤◌, ◌<◌, ◌≡◌, refl, sym, subst, ◌∙◌, ◌≢◌, ◌⊎◌, inl, inr, Bool, true, false, some, arith,
  eq_of_some-eq, >>=-eq-some,
}
use raft_drive.Json.{JsonLib}
use raft_drive.Raft.Types.{AppendEntriesArgs, AppendEntriesReply}
use raft_drive.Raft.State.{candidate, leader, Node, Env, save_raft_state}
use raft_drive.Raft.Persist.{persist}
use raft_drive.Raft.Roles.{step_down}
use raft_drive.Raft.Append.{
  append_entries, check_term, merge_entries, commit_entries, after_term, merge_logs, adjustment,
}
use raft_drive.Raft.Append.Check.{PrevMatches, check_log-Checked}
use raft_drive.Raft.Ballot.Moves.{after_term-SameBallot}
use raft_drive.Raft.Ballot.Defs.{SameBallot}
use raft_drive.Raft.Net.Queue.{append_queue}
use raft_drive.Raft.Net.Store.{SameStore, SameStore-refl, SameStore-trans, commit_entries-SameStore}

-- The node has merged the entries of the request into its log.
pub record Merged (args : AppendEntriesArgs) (n m : Node) : Type 0 where
  pub included : m.last_included_index ≡ n.last_included_index
  pub snapshot : m.persister.snapshot ≡ n.persister.snapshot
  pub queue : append_queue m.tasks ≡ append_queue n.tasks
  pub previous : PrevMatches args n
  pub logs : m.logs ≡ merge_logs n.logs (adjustment args n) args.entries

Merged-of_same :
    {args : AppendEntriesArgs} {n k m : Node} → SameStore n k → Merged args k m → Merged args n m
Merged-of_same {args} {n} {k} {m} s g = record {
  included = g.included ∙ s.included;
  snapshot = g.snapshot ∙ s.snapshot;
  queue = g.queue ∙ s.queue;
  previous = rw (← s.logs, ← s.included) g.previous;
  logs = rw (← s.logs, ← s.included) g.logs;
}

-- A call that goes on is of no earlier term; the node is in its term then, and stands for no election.
pub record Met (args : AppendEntriesArgs) (n m : Node) : Type 0 where
  pub current : n.current_term ≤ args.term
  pub term : m.current_term ≡ args.term
  pub quiet : m.state ≢ candidate
  pub leads : m.state ≡ leader → (n.state ≡ leader) × (n.current_term ≡ args.term)

Met-then_same :
    {args : AppendEntriesArgs} {n k m : Node} → Met args n k → SameBallot k m → Met args n m
Met-then_same t s = record {
  current = t.current;
  term = s.current_term ∙ t.term;
  quiet = λ e. t.quiet (sym s.state ∙ e);
  leads = λ e. t.leads (sym s.state ∙ e);
}

module _ ⦃json : JsonLib⦄ where
  first_node :
      {p : Node × AppendEntriesReply} {m : Node} {r : AppendEntriesReply} {n : Node}
      → some p ≡ some (m, r)
      → SameStore n p.0
      → SameStore n m
  first_node {n} e s =
      subst (λ (x : Node × AppendEntriesReply). SameStore n x.0) (eq_of_some-eq e) s

  last_success :
      {p : Node × AppendEntriesReply} {m : Node} {r : AppendEntriesReply}
      → some p ≡ some (m, r)
      → p.1.success ≡ false
      → r.success ≡ false
  last_success e s =
      subst (λ (x : Node × AppendEntriesReply). x.1.success ≡ false) (eq_of_some-eq e) s

  merge_entries-Merged :
      (args : AppendEntriesArgs) (n : Node)
      → PrevMatches args n
      → Merged args n (merge_entries args n)
  unfolding merge_entries persist save_raft_state
  merge_entries-Merged args n h = record {
    included = refl;
    snapshot = refl;
    queue = refl;
    previous = h;
    logs = refl;
  }

  Merged-then_same :
      {args : AppendEntriesArgs} {n k m : Node} → Merged args n k → SameStore k m → Merged args n m
  Merged-then_same g s = record {
    included = s.included ∙ g.included;
    snapshot = s.snapshot ∙ g.snapshot;
    queue = s.queue ∙ g.queue;
    previous = g.previous;
    logs = s.logs ∙ g.logs;
  }

  after_term-Merged :
      (args : AppendEntriesArgs) (n : Node) (reply : AppendEntriesReply) (goes_on : Bool) {m : Node}
      {r : AppendEntriesReply}
      → args.pre_log_index < 2 ^ 64
      → reply.success ≡ false
      → after_term args (n, reply, goes_on) ≡ some (m, r)
      → (SameStore n m × (r.success ≡ false)) ⊎ ((goes_on ≡ true) × Merged args n m)
  after_term-Merged args n reply false word fresh h =
      inl (first_node h (SameStore-refl n), last_success h fresh)
  after_term-Merged args n reply true word fresh h = elim (check_log-Checked args reply n word) [
    | inl (matches, found) ↦
        let (k, done, e) =
          >>=-eq-some (commit_entries args (merge_entries args n)) _ (rw found at h) in
        inr (
          refl,
          subst (λ (x : Node × AppendEntriesReply). Merged args n x.0) (eq_of_some-eq e)
              (Merged-then_same (merge_entries-Merged args n matches)
                (commit_entries-SameStore args (merge_entries args n) done)),
        )
    | inr (mismatch, (refusal, found, refused, term)) ↦
        inl (first_node (rw found at h) (SameStore-refl n), last_success (rw found at h) refused)
  ]

  check_term-SameStore :
      (env : Env) (args : AppendEntriesArgs) (reply : AppendEntriesReply) (n : Node)
      → SameStore n (check_term env args reply n).0
  unfolding check_term step_down persist save_raft_state
  check_term-SameStore env args reply n = ground arith

  check_term-Met :
      (env : Env) (args : AppendEntriesArgs) (reply : AppendEntriesReply) (n : Node)
      → let c = check_term env args reply n in (c.1.success ≡ false) × (c.2 ≡ true → Met args n c.0)
  unfolding check_term step_down persist
  check_term-Met env args reply n = (
    ground arith,
    λ h. record {
      current = ground arith;
      term = ground arith;
      quiet = ground arith;
      leads = ground arith;
    },
  )

  -- A request leaves the log alone and is refused, or is merged into it.
  pub append_entries-Merged :
      (env : Env) (args : AppendEntriesArgs) (reply : AppendEntriesReply) (n : Node) {m : Node}
      {r : AppendEntriesReply}
      → args.pre_log_index < 2 ^ 64
      → append_entries env args reply n ≡ some (m, r)
      → (SameStore n m × (r.success ≡ false)) ⊎ (Merged args n m × Met args n m)
  unfolding append_entries
  append_entries-Merged env args reply n {m} word h =
      let c = check_term env args reply n in
      let same = check_term-SameStore env args reply n in
      let (fresh, met) = check_term-Met env args reply n in
      elim (after_term-Merged args c.0 c.1 c.2 word fresh h) [
        | inl (kept, refused) ↦ inl (SameStore-trans same kept, refused)
        | inr (goes_on, g) ↦ inr (
          Merged-of_same same g,
          Met-then_same (met goes_on) (after_term-SameBallot args c.0 c.1 c.2 h),
        )
      ]
