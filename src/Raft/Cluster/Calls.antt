-- ===== src/Raft/Cluster/Calls.antt =====
-- The calls for votes of a node of a cluster, and the replies, keep what holds of the node
-- (kvcluster/raft/raft.cpp).
use raft_drive.Prelude.{
  ℕ, ◌+◌, ◌≤◌, ◌<◌, ◌≡◌, refl, sym, ap, ap₂, subst, ◌∙◌, ◌≢◌, ◌⊎◌, inl, inr, Bool, ◌&&◌, ◌||◌,
  if◌then◌else◌, ◌==◌, pos, ℕ-cases, arith, List, [], ◌∷◌, ◌++◌, ==_iff,
}
use raft_drive.Raft.Types.{RequestVoteArgs}
use raft_drive.Raft.State.{Node, Task, send_request_vote}
use raft_drive.Raft.Ballot.{vote_queue, vote_queue-append, Calm}
use raft_drive.Raft.Ballot.Asking.{asks, AllAsk, AllAsk-head}
use raft_drive.Raft.Cluster.{VoteCall, asked, Member, put, become, set_call}
use raft_drive.Raft.Cluster.Tally.{tally-same}
use raft_drive.Raft.Cluster.Sound.{Sound, load, backs, bit, is_busy}
use raft_drive.Raft.Cluster.Kept.{other, become-vote, become-no_vote}

-- What stands under two keys once a value has been put there.
pub put-cases {ℓ} :
    {A : Type ℓ} (f : ℕ → ℕ → A) (t j : ℕ) (v : A) (u k : ℕ)
    → let g = put f t (put (f t) j v) in
      ((u ≡ t) × (k ≡ j) × (g u k ≡ v)) ⊎ (((u ≢ t) ⊎ (k ≢ j)) × (g u k ≡ f u k))
put-cases f t j v u k = elim (ℕ-cases u t) [
  | inl e ↦ elim (ℕ-cases k j) [
    | inl d ↦ inl (e, d, rw ((==_iff u t).1 e, (==_iff k j).1 d) refl)
    | inr d ↦ inr (inr d, rw ((==_iff u t).1 e, other k j d) (ap (λ w. f w k) (sym e)))
  ]
  | inr e ↦ inr (inl e, rw (other u t e) refl)
]

-- Calls and counts that are no more than before.
pub Sound-calls :
    {peers i : ℕ} (x : Member) (calls : ℕ → ℕ → VoteCall) (counted : ℕ → ℕ → Bool)
    → ((t j : ℕ)
        → bit (is_busy (calls t j)) + bit (counted t j)
          ≤ bit (is_busy (x.calls t j)) + bit (x.counted t j))
    → ((t j : ℕ) → counted t j ≡ x.counted t j)
    → ((t j : ℕ) (args : RequestVoteArgs)
        → calls t j ≡ asked args
        → (j < peers) × (args.term ≡ t) × (args.candidate_id ≡ pos i))
    → Sound peers i x
    → Sound peers i (record x { calls = calls; counted = counted })
Sound-calls {peers} {i} x calls counted less same well s = record {
  id = s.id;
  size = s.size;
  vote = s.vote;
  no_vote = s.no_vote;
  no_load = λ t j lt. omega (arith, less t j, s.no_load t j lt);
  once = λ t j. omega (arith, less t j, s.once t j);
  not_itself = λ t. omega (arith, less t i, s.not_itself t);
  all_ask = s.all_ask;
  asked_well = well;
  own_vote = s.own_vote;
  support = λ up.
      s.support up
      ∙ tally-same (backs i x x.node.current_term) (λ j. j == i || counted x.node.current_term j)
          peers (λ j b. ap (λ c. j == i || c) (sym (same x.node.current_term j)));
  majority = s.majority;
}

-- A call that ends, or is answered.
pub Sound-set_call :
    {peers i : ℕ} (x : Member) (t j : ℕ) (call : VoteCall)
    → bit (is_busy call) ≤ bit (is_busy (x.calls t j))
    → ((args : RequestVoteArgs) → call ≢ asked args)
    → Sound peers i x
    → Sound peers i (set_call t j call x)
Sound-set_call {peers} {i} x t j call less quiet s =
    Sound-calls x (set_call t j call x).calls x.counted
      (λ u k. elim (put-cases x.calls t j call u k) [
        | inl (e, d, h) ↦
            omega (
              arith,
              ap (λ w. bit (is_busy w)) h,
              ap (λ w. bit (is_busy w)) (ap₂ x.calls e d),
              less,
            )
        | inr (away, h) ↦ omega (arith, ap (λ w. bit (is_busy w)) h)
      ])
      (λ u k. refl)
      (λ u k args h. elim (put-cases x.calls t j call u k) [
        | inl (e, d, g) ↦ absurd (quiet args (sym g ∙ h))
        | inr (away, g) ↦ s.asked_well u k args (sym g ∙ h)
      ])
      s

-- A task that is no request for a vote is taken.
pub taken-Calm :
    (n : Node) (t : Task) (rest : List Task)
    → n.tasks ≡ t ∷ rest
    → vote_queue (t ∷ []) ≡ []
    → Calm n (record n { tasks = rest })
taken-Calm n t rest e quiet = record {
  id = refl;
  peers = refl;
  queue =
      sym (
        ap vote_queue e ∙ (vote_queue-append (t ∷ []) rest ∙ ap (λ q. q ++ vote_queue rest) quiet));
  ballot = inr (refl, inr refl);
  standing = inr (refl, refl, refl);
}

asks-here :
    (j : ℕ) (args : RequestVoteArgs) (u k : ℕ) (q : List (ℕ × RequestVoteArgs))
    → k ≡ j
    → u ≡ args.term
    → asks u k ((j, args) ∷ q) ≡ 1 + asks u k q
asks-here j args u k q d e = rw ((==_iff j k).1 (sym d), (==_iff args.term u).1 (sym e)) refl

pub asked_inj : {a b : RequestVoteArgs} → asked a ≡ asked b → a ≡ b
asked_inj e = cc e

-- A request for a vote is taken, and sent.
pub Sound-sent :
    {peers i : ℕ} (x : Member) (j : ℕ) (args : RequestVoteArgs) (rest : List Task)
    → x.node.tasks ≡ send_request_vote j args ∷ rest
    → Sound peers i x
    → Sound peers i (set_call args.term j (asked args) (become (record x.node { tasks = rest }) x))
Sound-sent {peers} {i} x j args rest h s = record {
  id = s.id;
  size = s.size;
  vote = become-vote m x;
  no_vote = become-no_vote m x s (inr (refl, inr refl));
  no_load = λ u k lt. omega (arith, moved u k, s.no_load u k lt);
  once = λ u k. omega (arith, moved u k, s.once u k);
  not_itself = λ u. omega (arith, moved u i, s.not_itself u);
  all_ask = head.2;
  asked_well = λ u k other_args e. elim (put-cases x.calls args.term j (asked args) u k) [
    | inl (same, whom, g) ↦
        let which = asked_inj (sym g ∙ e) in
        (
          omega (arith, head.0),
          ap (λ (a : RequestVoteArgs). a.term) (sym which) ∙ sym same,
          ap (λ (a : RequestVoteArgs). a.candidate_id) (sym which) ∙ head.1,
        )
    | inr (away, g) ↦ s.asked_well u k other_args (sym g ∙ e)
  ];
  own_vote = s.own_vote;
  support = s.support;
  majority = s.majority;
}
  where
    m : Node
    m = record x.node { tasks = rest }

    y : Member
    y = set_call args.term j (asked args) (become m x)

    queue : vote_queue x.node.tasks ≡ (j, args) ∷ vote_queue rest
    queue = ap vote_queue h

    head : (j < peers) × (args.candidate_id ≡ pos i) × AllAsk (pos i) peers (vote_queue rest)
    head = AllAsk-head (subst (λ q. AllAsk (pos i) peers q) queue s.all_ask)

    busy : VoteCall → ℕ
    busy call = bit (is_busy call)

    queued :
        (u k : ℕ)
        → asks u k (vote_queue x.node.tasks)
          ≡ (if j == k && args.term == u then 1 else 0) + asks u k (vote_queue rest)
    queued u k = ap (asks u k) queue

    moved : (u k : ℕ) → load y u k ≤ load x u k
    moved u k = elim (put-cases x.calls args.term j (asked args) u k) [
      | inl (same, whom, g) ↦
          omega (arith, ap busy g, queued u k, asks-here j args u k (vote_queue rest) whom same)
      | inr (away, g) ↦ omega (arith, ap busy g, queued u k)
    ]
