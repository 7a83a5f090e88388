-- ===== src/Raft/Cluster/Replies.antt =====
-- A reply to a request for a vote keeps what holds of the node (`Raft::startElection`,
-- kvcluster/raft/raft.cpp).
use raft_drive.Prelude.{
  ℕ, ◌+◌, ◌≤◌, ◌<◌, ◌≡◌, refl, sym, ap, ap₂, subst, ◌∙◌, ◌≢◌, inl, inr, Bool, true, false, ◌||◌,
  ◌==◌, Bool-cases, bit_le, arith,
}
use raft_drive.Json.{JsonLib}
use raft_drive.Raft.Types.{RequestVoteReply}
use raft_drive.Raft.State.{Node, Env, candidate}
use raft_drive.Raft.Persist.{persist}
use raft_drive.Raft.Roles.{on_vote_reply, step_down}
use raft_drive.Raft.Ballot.{Calm}
use raft_drive.Raft.Cluster.{
  VoteCall, idle, Member, become, set_call, count_vote, is_counted, receive,
}
use raft_drive.Raft.Cluster.Tally.{tally, tally-one_more}
use raft_drive.Raft.Cluster.Sound.{Sound, load, backs, bit, is_busy}
use raft_drive.Raft.Cluster.Kept.{other, become-vote, become-no_vote, Sound-Calm}
use raft_drive.Raft.Cluster.Calls.{put-cases, Sound-calls, Sound-set_call}

with_vote : Node → Node
with_vote n = record n { votes_granted = n.votes_granted + 1 }

or_false : (b : Bool) → (b || false) ≡ b
or_false true = refl
or_false false = refl

or_true : (b : Bool) → (b || true) ≡ true
or_true true = refl
or_true false = refl

-- A reply that counts.
Sound-counted :
    {peers i : ℕ} (x : Member) (t j : ℕ)
    → j < peers
    → is_busy (x.calls t j) ≡ true
    → t ≡ x.node.current_term
    → x.node.state ≡ candidate
    → Sound peers i x
    → Sound peers i (become (with_vote x.node) (count_vote t j true (set_call t j idle x)))
unfolding with_vote
Sound-counted {peers} {i} x t j inside pending now stands s = record {
  id = s.id;
  size = s.size;
  vote = become-vote (with_vote x.node) x;
  no_vote = become-no_vote (with_vote x.node) x s (inr (refl, inr refl));
  no_load = λ u k lt. omega (arith, weight u k, s.no_load u k lt);
  once = λ u k. omega (arith, weight u k, s.once u k);
  not_itself = λ u. omega (arith, weight u i, s.not_itself u);
  all_ask = s.all_ask;
  asked_well = λ u k args e. elim (put-cases x.calls t j idle u k) [
    | inl (same, whom, g) ↦ absurd (cc (sym g ∙ e))
    | inr (away, g) ↦ s.asked_well u k args (sym g ∙ e)
  ];
  own_vote = s.own_vote;
  support = λ up.
      subst (λ c. x.node.votes_granted + 1 ≡ tally (backs i y c) peers) now
        (omega (
          arith,
          one_more,
          s.support (λ e. cc (e, stands)),
          ap (λ c. tally (backs i x c) peers) now,
        ));
  majority = λ leads. absurd (cc (leads, stands));
}
  where
    y : Member
    y = become (with_vote x.node) (count_vote t j true (set_call t j idle x))

    busy : VoteCall → ℕ
    busy call = bit (is_busy call)

    pending_bit : busy (x.calls t j) ≡ 1
    pending_bit = ap bit pending

    counts : y.counted t j ≡ true
    counts = elim (put-cases x.counted t j (x.counted t j || true) t j) [
      | inl (e, d, g) ↦ g ∙ or_true (x.counted t j)
      | inr (away, g) ↦ elim away [ inl a ↦ absurd (a refl) | inr a ↦ absurd (a refl) ]
    ]

    keeps : (k : ℕ) → k ≢ j → x.counted t k ≡ y.counted t k
    keeps k d = elim (put-cases x.counted t j (x.counted t j || true) t k) [
      | inl (e, f, g) ↦ absurd (d f)
      | inr (away, g) ↦ sym g
    ]

    weight : (u k : ℕ) → load y u k ≤ load x u k
    weight u k = elim (put-cases x.calls t j idle u k) [
      | inl (e, d, g) ↦
          omega (arith, ap busy g, pending_bit, ap busy (ap₂ x.calls e d), bit_le (y.counted u k))
      | inr (away, g) ↦ elim (put-cases x.counted t j (x.counted t j || true) u k) [
        | inl (e, d, f) ↦ elim away [ inl a ↦ absurd (a e) | inr a ↦ absurd (a d) ]
        | inr (out, f) ↦ omega (arith, ap busy g, ap bit f)
      ]
    ]

    foreign : j ≢ i
    foreign e = omega (arith, pending_bit, s.not_itself t, ap (λ k. load x t k) e)

    fresh : x.counted t j ≡ false
    fresh = elim (Bool-cases (x.counted t j)) [
      | inl twice ↦ absurd (omega (arith, pending_bit, s.once t j, ap bit twice))
      | inr first ↦ first
    ]

    one_more : tally (backs i y t) peers ≡ tally (backs i x t) peers + 1
    one_more =
        tally-one_more (backs i x t) (backs i y t) j peers inside (rw (other j i foreign) fresh)
          (rw (other j i foreign) counts) (λ k d. ap (λ b. k == i || b) (keeps k d))

module _ ⦃json : JsonLib⦄ where
  on_vote_reply-counted :
      (env : Env) (r : RequestVoteReply) (n : Node)
      → is_counted r n ≡ true
      → (on_vote_reply env r n ≡ with_vote n) × (n.state ≡ candidate) × (r.vote_granted ≡ true)
  unfolding on_vote_reply with_vote
  on_vote_reply-counted env r n h = ground arith

  on_vote_reply-Calm :
      (env : Env) (r : RequestVoteReply) (n : Node)
      → is_counted r n ≡ false
      → Calm n (on_vote_reply env r n)
  unfolding on_vote_reply step_down persist
  on_vote_reply-Calm env r n h = ground arith

  pub Sound-receive :
      {peers i : ℕ} (env : Env) (x : Member) (t j : ℕ) (r : RequestVoteReply)
      → (r.vote_granted ≡ true → j < peers)
      → is_busy (x.calls t j) ≡ true
      → (r.vote_granted ≡ true → t ≡ x.node.current_term)
      → Sound peers i x
      → Sound peers i (receive env t j r x)
  Sound-receive {peers} {i} env x t j r inside pending now s =
      elim (Bool-cases (is_counted r x.node)) [
        | inl counts ↦
            let (moved, stands, granted) = on_vote_reply-counted env r x.node counts in
            subst
              (λ m.
                Sound peers i
                  (become m (count_vote t j (is_counted r x.node) (set_call t j idle x))))
              (sym moved)
              (subst
                (λ b.
                  Sound peers i
                    (become (with_vote x.node) (count_vote t j b (set_call t j idle x))))
                (sym counts) (Sound-counted x t j (inside granted) pending (now granted) stands s))
        | inr spare ↦
            let y = set_call t j idle x in
            let ended = Sound-set_call x t j idle (omega arith) (λ args e. cc e) s in
            Sound-Calm (count_vote t j (is_counted r x.node) y) (on_vote_reply env r x.node)
              (on_vote_reply-Calm env r x.node spare)
              (Sound-calls y y.calls (count_vote t j (is_counted r x.node) y).counted
                (λ u k. omega (arith, ap bit (same spare u k))) (same spare) ended.asked_well ended)
      ]
    where
      same :
          is_counted r x.node ≡ false
          → (u k : ℕ) → (count_vote t j (is_counted r x.node) x).counted u k ≡ x.counted u k
      same spare u k = elim (put-cases x.counted t j (x.counted t j || is_counted r x.node) u k) [
        | inl (e, d, g) ↦
            g
            ∙ (ap (λ b. x.counted t j || b) spare
                ∙ (or_false (x.counted t j) ∙ sym (ap₂ x.counted e d)))
        | inr (away, g) ↦ g
      ]
