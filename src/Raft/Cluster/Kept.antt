-- ===== src/Raft/Cluster/Kept.antt =====
-- What happens to a node of a cluster keeps what holds of it (kvcluster/raft/raft.cpp).
use raft_drive.Prelude.{
  ℕ, ◌+◌, ◌≤◌, ◌<◌, ◌≡◌, refl, sym, ap, subst, ◌∙◌, ◌≢◌, inl, inr, false, ◌==◌, pos, minus_one,
  ℕ-cases, arith, ==_iff,
}
use raft_drive.Raft.State.{Node, follower, is_majority}
use raft_drive.Raft.Ballot.{vote_queue, Ballot, Calm}
use raft_drive.Raft.Ballot.Asking.{asks, AllAsk}
use raft_drive.Raft.Cluster.{Member, put, become}
use raft_drive.Raft.Cluster.Tally.{tally}
use raft_drive.Raft.Cluster.Sound.{Sound, load, backs, bit, is_busy}

pub other : (a b : ℕ) → a ≢ b → (a == b) ≡ false
other a b d = ground arith

pub put-here {ℓ} : {A : Type ℓ} (f : ℕ → A) (i : ℕ) (x : A) → put f i x i ≡ x
put-here f i x = rw ((==_iff i i).1 refl) refl

pub put-there {ℓ} : {A : Type ℓ} (f : ℕ → A) (i k : ℕ) (x : A) → k ≢ i → put f i x k ≡ f k
put-there f i k x d = rw (other k i d) refl

pos-minus_one : (i : ℕ) → pos i ≢ minus_one
pos-minus_one i e = cc e

-- The votes of a node that goes on.
pub become-vote : (m : Node) (x : Member) → (become m x).votes m.current_term ≡ m.voted_for
become-vote m x = put-here x.votes m.current_term m.voted_for

pub become-no_vote :
    {peers i : ℕ} (m : Node) (x : Member)
    → Sound peers i x
    → Ballot x.node m
    → (t : ℕ) → m.current_term < t
    → (become m x).votes t ≡ minus_one
become-no_vote m x s b t lt =
    put-there x.votes m.current_term t m.voted_for (λ e. omega arith) ∙ s.no_vote t (grind arith)

-- A vote for a node is not taken back.
pub become-votes :
    {peers i : ℕ} (m : Node) (x : Member)
    → Sound peers i x
    → Ballot x.node m
    → (t k : ℕ) → x.votes t ≡ pos k
    → (become m x).votes t ≡ pos k
become-votes m x s b t k h = elim (ℕ-cases t m.current_term) [
  | inl now ↦
      let noted = become-vote m x in
      elim b [
        | inl newer ↦ absurd (pos-minus_one k (sym h ∙ s.no_vote t (omega arith)))
        | inr (same, inl fresh) ↦
            absurd (pos-minus_one k (sym h ∙ (ap x.votes (now ∙ same) ∙ (s.vote ∙ fresh))))
        | inr (same, inr kept) ↦
            ap (become m x).votes now
            ∙ (noted ∙ (kept ∙ (sym s.vote ∙ (ap x.votes (sym (now ∙ same)) ∙ h))))
      ]
  | inr past ↦ put-there x.votes m.current_term t m.voted_for past ∙ h
]

-- The queue asks for the same votes.
pub load-queue :
    (m : Node) (x : Member) (t j : ℕ)
    → vote_queue m.tasks ≡ vote_queue x.node.tasks
    → load (become m x) t j ≡ load x t j
load-queue m x t j e = ap (λ q. asks t j q + bit (is_busy (x.calls t j)) + bit (x.counted t j)) e

pub Ballot-le : (n m : Node) → Ballot n m → n.current_term ≤ m.current_term
Ballot-le n m b = omega (arith, b)

stays :
    {peers i : ℕ} (x : Member) (m : Node)
    → Sound peers i x
    → Calm x.node m
    → m.state ≢ follower
    → (m.current_term ≡ x.node.current_term)
      × (m.state ≡ x.node.state)
      × (m.votes_granted ≡ x.node.votes_granted)
      × (x.node.state ≢ follower)
      × (m.voted_for ≡ pos i)
stays x m s c up = elim c.standing [
  | inl follows ↦ absurd (up follows)
  | inr (same, role, votes) ↦
      let stood : x.node.state ≢ follower = λ e. up (role ∙ e) in
      (
        same,
        role,
        votes,
        stood,
        elim c.ballot [
          | inl newer ↦ absurd (omega arith)
          | inr (level, inl fresh) ↦ absurd (pos-minus_one _ (sym (s.own_vote stood) ∙ fresh))
          | inr (level, inr kept) ↦ kept ∙ s.own_vote stood
        ],
      )
]

pub Sound-Calm :
    {peers i : ℕ} (x : Member) (m : Node)
    → Calm x.node m
    → Sound peers i x
    → Sound peers i (become m x)
Sound-Calm {peers} {i} x m c s = record {
  id = c.id ∙ s.id;
  size = c.peers ∙ s.size;
  vote = become-vote m x;
  no_vote = become-no_vote m x s c.ballot;
  no_load = λ t j lt.
      load-queue m x t j c.queue ∙ s.no_load t j (omega (arith, Ballot-le x.node m c.ballot));
  once = λ t j. omega (arith, load-queue m x t j c.queue, s.once t j);
  not_itself = λ t. load-queue m x t i c.queue ∙ s.not_itself t;
  all_ask = subst (λ q. AllAsk (pos i) peers q) (sym c.queue) s.all_ask;
  asked_well = s.asked_well;
  own_vote = λ up. let (a, b, v, d, e) = stays x m s c up in e;
  support = λ up.
      let (same, b, v, d, e) = stays x m s c up in
      v ∙ (s.support d ∙ ap (λ t. tally (backs i x t) peers) (sym same));
  majority = λ leads.
      let (a, role, v, d, e) = stays x m s c (λ f. cc (leads, f)) in
      ap (is_majority peers) v ∙ s.majority (sym role ∙ leads);
}
