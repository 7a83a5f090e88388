-- ===== src/Raft/Cluster/Elections.antt =====
-- An election that a node of a cluster opens or wins keeps what holds of the node
-- (kvcluster/raft/raft.cpp).
use raft_drive.Prelude.{
  ℕ, ◌^◌, ◌≤◌, ◌<◌, ◌≡◌, refl, sym, ap, subst, ◌∙◌, ◌≢◌, inl, inr, false, ℤ, pos, ℕ-cases,
  Bool-cases, to_int, arith, List, ==_iff,
}
use raft_drive.Raft.Types.{RequestVoteArgs}
use raft_drive.Raft.State.{Node, is_majority}
use raft_drive.Raft.Ballot.{vote_queue}
use raft_drive.Raft.Ballot.Asking.{asks, AllAsk, Asked}
use raft_drive.Raft.Ballot.Rounds.{Opened, Crowned, opened, Turn-Ballot}
use raft_drive.Raft.Cluster.{Member, become}
use raft_drive.Raft.Cluster.Tally.{tally, tally-one_more, tally-none}
use raft_drive.Raft.Cluster.Sound.{Sound, load, backs}
use raft_drive.Raft.Cluster.Kept.{other, become-vote, become-no_vote, load-queue}

pub to_int-pos : (i : ℕ) → i < 2 ^ 31 → to_int i ≡ pos i
to_int-pos i b = ground arith

uncounted : (x : Member) (t j : ℕ) → load x t j ≡ 0 → x.counted t j ≡ false
uncounted x t j h = elim (Bool-cases (x.counted t j)) [
  | inl some_vote ↦ absurd (omega (arith, rw some_vote at h))
  | inr no_vote ↦ no_vote
]

AllAsk-convert :
    {z y : ℤ} {k l : ℕ} {q r : List (ℕ × RequestVoteArgs)}
    → z ≡ y
    → k ≡ l
    → q ≡ r
    → AllAsk z k q
    → AllAsk y l r
AllAsk-convert {z} {y} {k} {l} {q} {r} e f g h =
    subst (λ v. AllAsk v l r) e (subst (λ v. AllAsk z v r) f (subst (λ v. AllAsk z k v) g h))

pub Sound-Opened :
    {peers i : ℕ} (x : Member) (m : Node)
    → i < peers
    → peers ≤ 2 ^ 31
    → Opened x.node m
    → Sound peers i x
    → Sound peers i (become m x)
Sound-Opened {peers} {i} x m inside small o s = record {
  id = a.same_id ∙ whose;
  size = a.same_peers ∙ (o.base_peers ∙ s.size);
  vote = become-vote m x;
  no_vote = become-no_vote m x s (Turn-Ballot (opened o));
  no_load = λ t j lt.
      others t j (λ e. omega (arith, e, a.same_term))
      ∙ s.no_load t j (omega (arith, o.base_term, a.same_term));
  once = λ t j. elim (ℕ-cases t o.base.current_term) [
    | inl now ↦
        omega (arith, a.at_most_once t j, before t j, s.no_load t j (omega (arith, o.base_term)))
    | inr past ↦ omega (arith, others t j past, s.once t j)
  ];
  not_itself = λ t. self t ∙ s.not_itself t;
  all_ask =
      AllAsk-convert whose s.size refl
        (a.all_ask (AllAsk-convert (sym whose) (sym s.size) (sym o.base_queue) s.all_ask));
  asked_well = s.asked_well;
  own_vote = λ up. a.same_vote ∙ (o.base_vote ∙ s.id);
  support = λ up. a.same_votes ∙ (o.base_votes ∙ sym alone);
  majority = λ leads. absurd (cc (leads, a.same_state, o.base_state));
}
  where
    a : Asked 0 x.node.peers o.base m
    a = o.asked

    whose : o.base.id ≡ pos i
    whose = o.base_id ∙ s.id

    before : (t j : ℕ) → asks t j (vote_queue o.base.tasks) ≡ asks t j (vote_queue x.node.tasks)
    before t j = ap (asks t j) o.base_queue

    others : (t j : ℕ) → t ≢ o.base.current_term → load (become m x) t j ≡ load x t j
    others t j past = omega (arith, a.only_in_term t j past, before t j)

    self : (t : ℕ) → load (become m x) t i ≡ load x t i
    self t = omega (arith, a.not_itself t i (to_int-pos i (omega arith) ∙ sym whose), before t i)

    alone : tally (backs i (become m x) m.current_term) peers ≡ 1
    alone =
        tally-one_more (λ j. false) (backs i (become m x) m.current_term) i peers inside refl
          (rw ((==_iff i i).1 refl) refl)
          (λ j d. sym (
            rw (other j i d) (
              uncounted x m.current_term j
                (s.no_load m.current_term j (omega (arith, o.base_term, a.same_term))))))
        ∙ omega (arith, tally-none peers)

pub Sound-Crowned :
    {peers i : ℕ} (x : Member) (m : Node)
    → Crowned x.node m
    → Sound peers i x
    → Sound peers i (become m x)
Sound-Crowned {peers} {i} x m c s = record {
  id = c.id ∙ s.id;
  size = c.peers ∙ s.size;
  vote = become-vote m x;
  no_vote = become-no_vote m x s (inr (c.current_term, inr c.voted_for));
  no_load = λ t j lt. load-queue m x t j c.queue ∙ s.no_load t j (omega (arith, c.current_term));
  once = λ t j. omega (arith, load-queue m x t j c.queue, s.once t j);
  not_itself = λ t. load-queue m x t i c.queue ∙ s.not_itself t;
  all_ask = subst (λ q. AllAsk (pos i) peers q) (sym c.queue) s.all_ask;
  asked_well = s.asked_well;
  own_vote = λ up. c.voted_for ∙ s.own_vote c.stood;
  support = λ up.
      c.votes_granted
      ∙ (s.support c.stood ∙ ap (λ t. tally (backs i x t) peers) (sym c.current_term));
  majority = λ leads.
      ap (is_majority peers) c.votes_granted
      ∙ (ap (λ k. is_majority k x.node.votes_granted) (sym s.size) ∙ c.majority);
}
