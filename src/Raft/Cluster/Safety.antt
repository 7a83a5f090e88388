-- ===== src/Raft/Cluster/Safety.antt =====
-- A cluster elects one leader in a term
-- (kvcluster/raft/raft.cpp).
use raft_drive.Prelude.{
  ℕ, ◌*◌, ◌/◌, ◌^◌, ◌≤◌, ◌<◌, ◌≡◌, refl, sym, ap, subst, ◌∙◌, ◌≢◌, inl, inr, true, ◌==◌, ==_iff,
  ltb→lt, pos, arith,
}
use raft_drive.Json.{JsonLib}
use raft_drive.Raft.State.{leader, follower, is_majority}
use raft_drive.Raft.Ballot.Asking.{AllAsk, nobody}
use raft_drive.Raft.Cluster.{Member, Run, Resting, AllResting}
use raft_drive.Raft.Cluster.Good.{Good, Run-Good}
use raft_drive.Raft.Cluster.Tally.{tally, tally-common, tally-le}
use raft_drive.Raft.Cluster.Sound.{Sound, load, backs}
use raft_drive.Raft.Cluster.Granted.{or-cases, or-left}

Resting-Sound : {peers i : ℕ} (x : Member) → Resting peers i x → Sound peers i x
Resting-Sound {peers} {i} x r = record {
  id = r.id;
  size = r.size;
  vote = r.vote;
  no_vote = r.no_vote;
  no_load = λ t j b. idle_load t j;
  once = λ t j. omega (arith, idle_load t j);
  not_itself = λ t. idle_load t i;
  all_ask = subst (λ q. AllAsk (pos i) peers q) (sym r.queue) nobody;
  asked_well = λ t j args h. absurd (cc (h, r.no_calls t j));
  own_vote = λ up. absurd (up r.state);
  support = λ up. absurd (up r.state);
  majority = λ leads. absurd (cc (leads, r.state));
}
  where
    idle_load : (t j : ℕ) → load x t j ≡ 0
    idle_load t j = rw (r.queue, r.no_calls t j, r.no_count t j) refl

pub AllResting-Good : {peers : ℕ} (c : ℕ → Member) → AllResting peers c → Good peers c
AllResting-Good c h = record {
  sound = λ i b. Resting-Sound (c i) (h i b);
  backed = λ i t j b e. absurd (cc (rw ((h i b).no_count t j, (h i b).no_calls t j) at e));
}

is_majority-lt : (k v : ℕ) → is_majority k v ≡ true → k < 2 * v
unfolding is_majority
is_majority-lt k v h = omega (arith, ltb→lt (k / 2) v h)

pub pos_inj : {i k : ℕ} → pos i ≡ pos k → i ≡ k
pos_inj e = cc e

-- The nodes that back a node which stands with a majority have voted for it in its term.
pub standing-backed :
    {peers i : ℕ} {c : ℕ → Member}
    → Good peers c
    → i < peers
    → (c i).node.state ≢ follower
    → is_majority peers (c i).node.votes_granted ≡ true
    → let t = (c i).node.current_term in
      (peers < 2 * tally (backs i (c i) t) peers)
      × ((j : ℕ) → backs i (c i) t j ≡ true → (c j).votes t ≡ pos i)
standing-backed {peers} {i} {c} g b up most =
    let s = g.sound i b in
    let t = (c i).node.current_term in
    (
      omega (arith, s.support up, is_majority-lt peers _ most),
      λ j h. elim (or-cases (j == i) _ h) [
        | inl self ↦ ap (λ k. (c k).votes t) ((==_iff j i).0 self) ∙ (s.vote ∙ s.own_vote up)
        | inr heard ↦ (g.backed i t j b (or-left ((c i).counted t j) _ heard)).1
      ],
    )

leader-backed :
    {peers i : ℕ} {c : ℕ → Member}
    → Good peers c
    → i < peers
    → (c i).node.state ≡ leader
    → let t = (c i).node.current_term in
      (peers < 2 * tally (backs i (c i) t) peers)
      × ((j : ℕ) → backs i (c i) t j ≡ true → (c j).votes t ≡ pos i)
leader-backed {c = c} g b leads =
    standing-backed {c = c} g b (λ e. cc (leads, e)) ((g.sound _ b).majority leads)

module _ ⦃json : JsonLib⦄ where
  -- A cluster of at most 2^31 nodes starts with followers, which have no request for a vote in their
  -- queues. Over any run of it, in which requests and replies may be delayed without end, come in any
  -- order, and be lost, and nodes stop and start again: if a reply that grants a vote counts in the
  -- term of its request only, a node that starts again finds its state on its persister, and the terms
  -- of the elections stay below the largest `uint32_t`, then two nodes that lead in the same term, at
  -- the same time or at different times, are the same node.
  pub one_leader_per_term :
      {peers : ℕ} {start c d : ℕ → Member} (i k : ℕ)
      → peers ≤ 2 ^ 31
      → AllResting peers start
      → Run peers start c
      → Run peers c d
      → i < peers
      → k < peers
      → (c i).node.state ≡ leader
      → (d k).node.state ≡ leader
      → (c i).node.current_term ≡ (d k).node.current_term
      → i ≡ k
  one_leader_per_term {peers} {start} {c} {d} i k small rest before after bi bk li lk same =
      let (gc, _) = Run-Good small before (AllResting-Good start rest) in
      let (gd, grows) = Run-Good small after gc in
      let (many, mine) = leader-backed gc bi li in
      let (others, yours) = leader-backed gd bk lk in
      let (j, x, y) =
        tally-common (backs i (c i) (c i).node.current_term) (backs k (d k) (d k).node.current_term)
          peers (omega (arith, many, others)) in
      pos_inj
        (sym (grows j (c i).node.current_term i (mine j x)) ∙ (ap (d j).votes same ∙ yours j y))

  -- A cluster of at most 2^31 nodes starts with followers, which have no request for a vote in their
  -- queues. Over any run of it: if a reply that grants a vote counts in the term of its request only, a
  -- node that starts again finds its state on its persister, and the terms of the elections stay below
  -- the largest `uint32_t`, then a candidate or a leader has counted at most as many votes as there are
  -- nodes.
  pub votes_granted-le_peers :
      {peers : ℕ} {start c : ℕ → Member} (i : ℕ)
      → peers ≤ 2 ^ 31
      → AllResting peers start
      → Run peers start c
      → i < peers
      → (c i).node.state ≢ follower
      → (c i).node.votes_granted ≤ peers
  votes_granted-le_peers {peers} {start} {c} i small rest before b up =
      let (g, _) = Run-Good small before (AllResting-Good start rest) in
      omega
        (arith, (g.sound i b).support up, tally-le (backs i (c i) (c i).node.current_term) peers)
