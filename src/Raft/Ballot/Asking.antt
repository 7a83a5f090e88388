-- ===== src/Raft/Ballot/Asking.antt =====
-- What the loop of `startElection` over the peers puts into the queue (kvcluster/raft/raft.cpp).
use raft_drive.Prelude.{
  ℕ, zero, suc, ◌+◌, ◌≤◌, ◌<◌, ◌≡◌, refl, sym, ap, subst, ◌∙◌, ◌≢◌, inl, inr, not, ◌&&◌, ◌||◌, some,
  arith, Bool-cases, Option-cases, eq_of_some-eq, List, [], ◌∷◌, ◌++◌, ℤ, int_eq, int_eq_iff,
  to_int, ℕ-cases, bit_le, ◌==◌, if◌then◌else◌,
}
use raft_drive.Raft.Types.{RequestVoteArgs}
use raft_drive.Raft.State.{Node, send_request_vote, is_candidate_state}
use raft_drive.Raft.Roles.{ask_votes, enqueue, last_log_term}
use raft_drive.Raft.Ballot.Defs.{vote_queue, vote_queue-append}

-- How often the queue asks peer `j` for its vote in term `t`.
abbrev pub asks : ℕ → ℕ → List (ℕ × RequestVoteArgs) → ℕ
asks t j [] = 0
asks t j ((id, args) ∷ q) = (if id == j && args.term == t then 1 else 0) + asks t j q

-- Every entry asks one of the peers, for the candidate.
pub data AllAsk (candidate_id : ℤ) (peers : ℕ) : List (ℕ × RequestVoteArgs) → Type 0 where
  nobody : AllAsk candidate_id peers []
  one_more :
      (j : ℕ) (args : RequestVoteArgs) (q : List (ℕ × RequestVoteArgs))
      → j < peers
      → args.candidate_id ≡ candidate_id
      → AllAsk candidate_id peers q
      → AllAsk candidate_id peers ((j, args) ∷ q)

pub AllAsk-head :
    {z : ℤ} {peers j : ℕ} {args : RequestVoteArgs} {q : List (ℕ × RequestVoteArgs)}
    → AllAsk z peers ((j, args) ∷ q)
    → (j < peers) × (args.candidate_id ≡ z) × AllAsk z peers q
AllAsk-head (one_more j args q b e rest) = (b, e, rest)

AllAsk-snoc :
    {z : ℤ} {peers : ℕ} (j : ℕ) (args : RequestVoteArgs) {q : List (ℕ × RequestVoteArgs)}
    → j < peers
    → args.candidate_id ≡ z
    → AllAsk z peers q
    → AllAsk z peers (q ++ (j, args) ∷ [])
AllAsk-snoc j args b e nobody = one_more j args [] b e nobody
AllAsk-snoc j args b e (one_more i other q c f rest) =
    one_more i other (q ++ (j, args) ∷ []) c f (AllAsk-snoc j args b e rest)

asks-snoc :
    (t j i : ℕ) (args : RequestVoteArgs) (q : List (ℕ × RequestVoteArgs))
    → asks t j (q ++ (i, args) ∷ []) ≡ asks t j q + (if i == j && args.term == t then 1 else 0)
asks-snoc t j i args [] = omega arith
asks-snoc t j i args ((id, other) ∷ q) = omega (arith, asks-snoc t j i args q)

-- The node has asked each of the peers from `id` to `last` at most once more, itself not at all, and
-- is otherwise as it was where elections are concerned.
pub record Asked (id last : ℕ) (n m : Node) : Type 0 where
  pub same_id : m.id ≡ n.id
  pub same_peers : m.peers ≡ n.peers
  pub same_term : m.current_term ≡ n.current_term
  pub same_vote : m.voted_for ≡ n.voted_for
  pub same_state : m.state ≡ n.state
  pub same_votes : m.votes_granted ≡ n.votes_granted
  pub all_ask : AllAsk n.id last (vote_queue n.tasks) → AllAsk n.id last (vote_queue m.tasks)
  pub at_most_once : (t j : ℕ) → asks t j (vote_queue m.tasks) ≤ asks t j (vote_queue n.tasks) + 1
  not_before : (t j : ℕ) → j < id → asks t j (vote_queue m.tasks) ≡ asks t j (vote_queue n.tasks)
  pub only_in_term :
      (t j : ℕ) → t ≢ n.current_term → asks t j (vote_queue m.tasks) ≡ asks t j (vote_queue n.tasks)
  pub not_itself :
      (t j : ℕ) → to_int j ≡ n.id → asks t j (vote_queue m.tasks) ≡ asks t j (vote_queue n.tasks)

Asked-refl : (id last : ℕ) (n : Node) → Asked id last n n
Asked-refl id last n = record {
  same_id = refl;
  same_peers = refl;
  same_term = refl;
  same_vote = refl;
  same_state = refl;
  same_votes = refl;
  all_ask = λ a. a;
  at_most_once = λ t j. omega arith;
  not_before = λ t j b. refl;
  only_in_term = λ t j d. refl;
  not_itself = λ t j e. refl;
}

-- One peer is passed over.
Asked-skip : {id last : ℕ} {n m : Node} → Asked (id + 1) last n m → Asked id last n m
Asked-skip a = record {
  same_id = a.same_id;
  same_peers = a.same_peers;
  same_term = a.same_term;
  same_vote = a.same_vote;
  same_state = a.same_state;
  same_votes = a.same_votes;
  all_ask = a.all_ask;
  at_most_once = a.at_most_once;
  not_before = λ t j b. a.not_before t j (omega arith);
  only_in_term = a.only_in_term;
  not_itself = a.not_itself;
}

-- One peer is asked, and then the others.
Asked-one :
    {id last : ℕ} (n : Node) (args : RequestVoteArgs) {m : Node}
    → id < last
    → args.term ≡ n.current_term
    → args.candidate_id ≡ n.id
    → to_int id ≢ n.id
    → Asked (id + 1) last (enqueue (send_request_vote id args) n) m
    → Asked id last n m
Asked-one {id} {last} n args {m} b term own other a = record {
  same_id = a.same_id;
  same_peers = a.same_peers;
  same_term = a.same_term;
  same_vote = a.same_vote;
  same_state = a.same_state;
  same_votes = a.same_votes;
  all_ask = λ q. a.all_ask (
      subst (λ x. AllAsk n.id last x) (sym (vote_queue-append n.tasks _))
        (AllAsk-snoc id args b own q));
  at_most_once = λ t j. elim (ℕ-cases id j) [
    | inl here ↦
        omega
          (arith, a.not_before t j (omega arith), queued t j, bit_le (id == j && args.term == t))
    | inr there ↦ omega (arith, a.at_most_once t j, unqueued t j there)
  ];
  not_before = λ t j lt. a.not_before t j (omega arith) ∙ unqueued t j (λ e. omega arith);
  only_in_term = λ t j d. a.only_in_term t j d ∙ untermed t j d;
  not_itself = λ t j e. a.not_itself t j e ∙ unqueued t j (λ same. other (ap to_int same ∙ e));
}
  where
    queued :
        (t j : ℕ)
        → asks t j (vote_queue (n.tasks ++ send_request_vote id args ∷ []))
          ≡ asks t j (vote_queue n.tasks) + (if id == j && args.term == t then 1 else 0)
    queued t j =
        ap (asks t j) (vote_queue-append n.tasks (send_request_vote id args ∷ []))
        ∙ asks-snoc t j id args (vote_queue n.tasks)

    untermed :
        (t j : ℕ)
        → t ≢ n.current_term
        → asks t j (vote_queue (n.tasks ++ send_request_vote id args ∷ []))
          ≡ asks t j (vote_queue n.tasks)
    untermed t j d = grind (arith, queued t j)

    unqueued :
        (t j : ℕ)
        → id ≢ j
        → asks t j (vote_queue (n.tasks ++ send_request_vote id args ∷ []))
          ≡ asks t j (vote_queue n.tasks)
    unqueued t j d = grind (arith, queued t j)

pub ask_votes-Asked :
    (k id last : ℕ) (n : Node) {m : Node}
    → id + k ≤ last
    → ask_votes k id n ≡ some m
    → Asked id last n m
unfolding ask_votes
ask_votes-Asked zero id last n b h =
    subst (λ x. Asked id last n x) (eq_of_some-eq h) (Asked-refl id last n)
ask_votes-Asked (suc k) id last n b h = elim (Bool-cases (int_eq (to_int id) n.id)) [
  | inl self ↦
      Asked-skip (ask_votes-Asked k (id + 1) last n (omega arith) (rw (ask_votes, self) at h))
  | inr peer ↦ elim (Bool-cases (n.dead || not (is_candidate_state n.state))) [
    | inl over ↦
        subst (λ x. Asked id last n x) (eq_of_some-eq (rw (ask_votes, peer, over) at h))
          (Asked-refl id last n)
    | inr goes_on ↦ elim (Option-cases (last_log_term n)) [
      | inl fault ↦ cc (rw (ask_votes, peer, goes_on, fault) at h)
      | inr (t, found) ↦
          Asked-one n _ (omega arith) refl refl (λ e. cc (peer, (int_eq_iff (to_int id) n.id).1 e))
            (ask_votes-Asked k (id + 1) last _ (omega arith)
              (rw (ask_votes, peer, goes_on, found) at h))
    ]
  ]
]
