-- ===== src/Raft/Net/Turns.antt =====
-- What a round of the thread makes of a node's log and of its calls of `appendEntries`
-- (kvcluster/raft/raft.cpp).
use raft_drive.Prelude.{
  ℕ, ◌+◌, ◌^◌, ◌<◌, ◌≡◌, refl, sym, ap, subst, ◌∙◌, ◌≢◌, inl, inr, false, not, ◌||◌, List, [], ◌∷◌,
  some, arith, Bool-cases, Option-cases, eq_of_some-eq, >>=-eq-some, get_elem?, drop, length, sub64,
  int_eq, to_int, append-nil, lt→ltb,
}
use raft_drive.Json.{JsonLib}
use raft_drive.Raft.Types.{LogEntry, AppendEntriesArgs, RequestVoteArgs}
use raft_drive.Raft.State.{
  leader, Node, Env, send_request_vote, save_raft_state, log_term, relative_index, is_leader_state,
}
use raft_drive.Raft.Persist.{persist}
use raft_drive.Raft.Roles.{enqueue, open_election, promote_to_candidate, promote_to_leader}
use raft_drive.Raft.Append.Check.{log_term-lt}
use raft_drive.Raft.Leader.{broadcast_one, build_append_entries, needs_snapshot, collect_entries}
use raft_drive.Raft.Loop.{follower_round, candidate_round, leader_round}
use raft_drive.Raft.Ballot.Defs.{SameBallot}
use raft_drive.Raft.Ballot.Frames.{trigger_install_snapshot-SameBallot}
use raft_drive.Raft.Invariant.Rounds.{
  follower_round-keeps, candidate_round-keeps, leader_round-keeps,
}
use raft_drive.Raft.Net.Queue.{append_queue, append_queue-append, All, All-append}
use raft_drive.Raft.Net.Store.{
  SameStore, SameStore-refl, SameStore-trans, trigger_install_snapshot-SameStore,
}

-- The arguments of a call, as the leader of a log makes them: the entry before, and all behind it.
pub record Built (n : Node) (args : AppendEntriesArgs) : Type 0 where
  pub term : args.term ≡ n.current_term
  pub word : args.pre_log_index < 2 ^ 64
  pub previous : log_term n.logs args.pre_log_index ≡ some args.pre_log_term
  pub entries : args.entries ≡ drop (args.pre_log_index + 1) n.logs

collect_entries-all :
    (included i : ℕ) (es : List LogEntry) (last : ℕ)
    → 0 < i
    → (collect_entries included i es last).0 ≡ es
unfolding collect_entries
collect_entries-all included i [] last h = refl
collect_entries-all included i (e ∷ es) last h =
    rw (lt→ltb 0 i h) (ap (◌∷◌ e) (collect_entries-all included (i + 1) es _ (omega arith)))

pub build_append_entries-Built :
    (next : ℕ) (n : Node) {args : AppendEntriesArgs} {last : ℕ}
    → n.last_included_index ≡ 0
    → length n.logs < 2 ^ 64
    → build_append_entries next n ≡ some (args, last)
    → Built n args
unfolding build_append_entries relative_index
build_append_entries-Built next n whole room h =
    let (t, found, e) = >>=-eq-some (log_term n.logs (relative_index n (sub64 next 1))) _ h in
    let at : relative_index n (sub64 next 1) ≡ sub64 next 1 = omega (arith, whole) in
    let inside : sub64 next 1 < length n.logs =
      omega (arith, at, log_term-lt n.logs (relative_index n (sub64 next 1)) found) in
    let behind : relative_index n next ≡ sub64 next 1 + 1 = omega (arith, whole, room, inside) in
    subst (λ (x : AppendEntriesArgs × ℕ). Built n x.0) (eq_of_some-eq e)
      (record {
        term = refl;
        word = omega arith;
        previous = ap (log_term n.logs) (sym at) ∙ found;
        entries =
            collect_entries-all n.last_included_index (relative_index n next)
              (drop (relative_index n next) n.logs) 0 (omega (arith, behind))
            ∙ ap (λ k. drop k n.logs) behind;
      })

-- A round in which the node does not broadcast.
request-SameStore :
    (id : ℕ) (args : RequestVoteArgs) (n : Node)
    → SameStore n (enqueue (send_request_vote id args) n)
request-SameStore id args n = record {
  logs = refl;
  included = refl;
  snapshot = refl;
  queue =
      append_queue-append n.tasks (send_request_vote id args ∷ [])
      ∙ append-nil (append_queue n.tasks);
}

promote_to_candidate-SameStore : (n : Node) → SameStore n (promote_to_candidate n)
unfolding promote_to_candidate
promote_to_candidate-SameStore n = ground arith

promote_to_leader-SameStore : (n : Node) → SameStore n (promote_to_leader n)
unfolding promote_to_leader
promote_to_leader-SameStore n = ground arith

-- The node has broadcast its log: each call that waits is one that waited, or has what `Built` says.
pub record Sent (Q : ℕ × AppendEntriesArgs → Type 0) (n m : Node) : Type 0 where
  pub logs : m.logs ≡ n.logs
  pub included : m.last_included_index ≡ n.last_included_index
  pub snapshot : m.persister.snapshot ≡ n.persister.snapshot
  pub id : m.id ≡ n.id
  pub current_term : m.current_term ≡ n.current_term
  pub queue : All Q (append_queue m.tasks)

Sent-same :
    (Q : ℕ × AppendEntriesArgs → Type 0) {n k m : Node}
    → Sent Q n k
    → SameStore k m
    → SameBallot k m
    → Sent Q n m
Sent-same Q s t b = record {
  logs = t.logs ∙ s.logs;
  included = t.included ∙ s.included;
  snapshot = t.snapshot ∙ s.snapshot;
  id = b.id ∙ s.id;
  current_term = b.current_term ∙ s.current_term;
  queue = subst (All Q) (sym t.queue) s.queue;
}

Built-to :
    {n k : Node} (args : AppendEntriesArgs)
    → k.logs ≡ n.logs
    → k.current_term ≡ n.current_term
    → Built k args
    → Built n args
Built-to args e f b = record {
  term = b.term ∙ f;
  word = b.word;
  previous = ap (λ l. log_term l args.pre_log_index) (sym e) ∙ b.previous;
  entries = b.entries ∙ ap (drop (args.pre_log_index + 1)) e;
}

module _ (Q : ℕ × AppendEntriesArgs → Type 0) (n : Node) (whole : n.last_included_index ≡ 0)
    (room : length n.logs < 2 ^ 64)
    (good : (id : ℕ) (args : AppendEntriesArgs)
      → int_eq (to_int id) n.id ≡ false
      → Built n args
      → Q (id, args)) where
  broadcast_one-Sent :
      (id : ℕ) (k m : Node)
      → int_eq (to_int id) k.id ≡ false
      → broadcast_one id k ≡ some m
      → Sent Q n k
      → Sent Q n m
  unfolding broadcast_one
  broadcast_one-Sent id k m peer h s = elim (Option-cases (get_elem? k.next_index id)) [
    | inl miss ↦ cc (rw (broadcast_one, miss) at h)
    | inr (next, hit) ↦ elim (Bool-cases (needs_snapshot next k)) [
      | inl behind ↦ subst (Sent Q n) (eq_of_some-eq (rw (broadcast_one, hit, behind) at h)) (
          Sent-same Q s (trigger_install_snapshot-SameStore id k)
            (trigger_install_snapshot-SameBallot id k))
      | inr ahead ↦ elim (Option-cases (build_append_entries next k)) [
        | inl fault ↦ cc (rw (broadcast_one, hit, ahead, fault) at h)
        | inr ((args, last), built) ↦
            let b =
              build_append_entries-Built next k (s.included ∙ whole)
                (omega (arith, room, ap (length {A = LogEntry}) s.logs)) built in
            subst (Sent Q n) (eq_of_some-eq (rw (broadcast_one, hit, ahead, built) at h)) (record {
              logs = s.logs;
              included = s.included;
              snapshot = s.snapshot;
              id = s.id;
              current_term = s.current_term;
              queue = subst (All Q) (sym (append_queue-append k.tasks _)) (
                  All-append Q (append_queue k.tasks) ((id, args) ∷ []) s.queue (
                    good id args (ap (int_eq (to_int id)) (sym s.id) ∙ peer)
                        (Built-to args s.logs s.current_term b),
                    tt,
                  ));
            })
      ]
    ]
  ]

module _ ⦃json : JsonLib⦄ where
  open_election-SameStore : (env : Env) (n : Node) → SameStore n (open_election env n)
  unfolding open_election persist save_raft_state
  open_election-SameStore env n = ground arith

  -- A round that began as a follower or as a candidate.
  pub follower_round-SameStore :
      (env : Env) (n : Node) {m : Node} → follower_round env n ≡ some m → SameStore n m
  follower_round-SameStore env n h =
      follower_round-keeps (SameStore n)
        (λ id args k s. SameStore-trans s (request-SameStore id args k))
        (λ k s. SameStore-trans s (promote_to_candidate-SameStore k))
        (λ k s. SameStore-trans s (promote_to_leader-SameStore k))
        (λ env k s. SameStore-trans s (open_election-SameStore env k)) env n h (SameStore-refl n)

  pub candidate_round-SameStore :
      (env : Env) (n : Node) {m : Node} → candidate_round env n ≡ some m → SameStore n m
  candidate_round-SameStore env n h =
      candidate_round-keeps (SameStore n)
        (λ id args k s. SameStore-trans s (request-SameStore id args k))
        (λ k s. SameStore-trans s (promote_to_candidate-SameStore k))
        (λ k s. SameStore-trans s (promote_to_leader-SameStore k))
        (λ env k s. SameStore-trans s (open_election-SameStore env k)) env n h (SameStore-refl n)

  pub leader_round-Sent :
      (Q : ℕ × AppendEntriesArgs → Type 0) (n : Node) {m : Node}
      → n.last_included_index ≡ 0
      → length n.logs < 2 ^ 64
      → ((id : ℕ) (args : AppendEntriesArgs)
          → int_eq (to_int id) n.id ≡ false
          → Built n args
          → Q (id, args))
      → All Q (append_queue n.tasks)
      → leader_round n ≡ some m
      → Sent Q n m
  leader_round-Sent Q n whole room good q h =
      leader_round-keeps (Sent Q n) (λ k s. Sent-same Q s (ground arith) (ground arith))
        (broadcast_one-Sent Q n whole room good) n h
        (record {
          logs = refl;
          included = refl;
          snapshot = refl;
          id = refl;
          current_term = refl;
          queue = q;
        })

  pub leader_round-idle :
      (n : Node) {m : Node} → n.state ≢ leader → leader_round n ≡ some m → SameStore n m
  unfolding leader_round
  leader_round-idle n rests h = elim (Bool-cases (n.dead || not (is_leader_state n.state))) [
    | inl over ↦ subst (SameStore n) (eq_of_some-eq (rw (leader_round, over) at h)) (ground arith)
    | inr leads ↦ absurd (rests (ground arith))
  ]
