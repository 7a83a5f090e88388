-- ===== src/Raft/Ballot/Rounds.antt =====
-- What a round of the thread does to elections (kvcluster/raft/raft.cpp): it leaves them alone, opens
-- one, or makes the node the leader.
use raft_drive.Prelude.{
  ◌+◌, ◌^◌, ◌<◌, ◌≡◌, refl, subst, inl, inr, Bool, true, false, not, ◌||◌, some, Option, arith,
  Bool-cases, eq_of_some-eq, if◌then◌else◌, ◌≢◌,
}
use raft_drive.Json.{JsonLib}
use raft_drive.Raft.State.{
  State, leader, candidate, follower, Node, Env, is_candidate_state, is_leader_state,
  is_follower_state, is_majority,
}
use raft_drive.Raft.Persist.{persist}
use raft_drive.Raft.Roles.{
  open_election, start_election, ask_votes, promote_to_candidate, promote_to_leader,
}
use raft_drive.Raft.Leader.{broadcast_append_entries}
use raft_drive.Raft.Loop.{main_round, follower_round, candidate_round, leader_round, timed_out}
use raft_drive.Raft.Ballot.Defs.{
  vote_queue, SameBallot, SameBallot-refl, SameBallot-trans, Ballot, Calm, Calm-of_same,
}
use raft_drive.Raft.Ballot.Frames.{broadcast_from-SameBallot}
use raft_drive.Raft.Ballot.Asking.{Asked, ask_votes-Asked}

-- The node is the candidate of the next term, with its own vote, and has asked the peers.
pub record Opened (n m : Node) : Type 0 where
  pub base : Node
  pub base_id : base.id ≡ n.id
  pub base_queue : vote_queue base.tasks ≡ vote_queue n.tasks
  pub base_term : base.current_term ≡ n.current_term + 1
  pub base_vote : base.voted_for ≡ n.id
  pub base_state : base.state ≡ candidate
  pub base_votes : base.votes_granted ≡ 1
  pub base_peers : base.peers ≡ n.peers
  pub base_logs : base.logs ≡ n.logs
  pub base_included : base.last_included_index ≡ n.last_included_index
  pub asks : ask_votes base.peers 0 base ≡ some m
  pub asked : Asked 0 n.peers base m

-- The node, which did not follow, leads, with a majority of the votes.
pub record Crowned (n m : Node) : Type 0 where
  pub id : m.id ≡ n.id
  pub peers : m.peers ≡ n.peers
  pub queue : vote_queue m.tasks ≡ vote_queue n.tasks
  pub current_term : m.current_term ≡ n.current_term
  pub voted_for : m.voted_for ≡ n.voted_for
  pub votes_granted : m.votes_granted ≡ n.votes_granted
  pub state : m.state ≡ leader
  pub stood : n.state ≢ follower
  pub majority : is_majority n.peers n.votes_granted ≡ true

pub data Turn (n m : Node) : Type 0 where
  calm : Calm n m → Turn n m
  opened : Opened n m → Turn n m
  crowned : Crowned n m → Turn n m

calm_eq : {n m : Node} → some n ≡ some m → Turn n m
calm_eq {n} e = subst (λ x. Turn n x) (eq_of_some-eq e) (calm (Calm-of_same (SameBallot-refl n)))

-- Behind a guard that leaves the node as it is.
guarded :
    (b : Bool) {n m : Node} {x : Option Node}
    → (if b then some n else x) ≡ some m
    → (b ≡ false → x ≡ some m → Turn n m)
    → Turn n m
guarded true h f = calm_eq h
guarded false h f = f refl h

module _ ⦃json : JsonLib⦄ where
  open_election-Opened :
      (env : Env) (n : Node) {m : Node}
      → n.current_term + 1 < 2 ^ 32
      → n.state ≡ candidate
      → ask_votes n.peers 0 (open_election env n) ≡ some m
      → Opened n m
  unfolding open_election persist
  open_election-Opened env n room stands h = record {
    base = open_election env n;
    base_id = refl;
    base_queue = refl;
    base_term = omega arith;
    base_vote = refl;
    base_state = stands;
    base_votes = refl;
    base_peers = refl;
    base_logs = refl;
    base_included = refl;
    asks = h;
    asked = ask_votes-Asked n.peers 0 n.peers (open_election env n) (omega arith) h;
  }

  start_election-Turn :
      (env : Env) (n : Node) {m : Node}
      → n.current_term + 1 < 2 ^ 32
      → start_election env n ≡ some m
      → Turn n m
  unfolding start_election
  start_election-Turn env n room h =
      guarded (n.dead || not (is_candidate_state n.state)) h
        (λ stands g. opened (open_election-Opened env n room (ground arith) g))

  -- A follower whose time is over.
  stand-Opened :
      (env : Env) (n : Node) {m : Node}
      → n.current_term + 1 < 2 ^ 32
      → n.dead ≡ false
      → start_election env (promote_to_candidate n) ≡ some m
      → Opened n m
  unfolding start_election promote_to_candidate
  stand-Opened env n {m} room alive h =
      let stands : (n.dead || not (is_candidate_state candidate)) ≡ false = rw alive refl in
      let o = open_election-Opened env (promote_to_candidate n) room refl (
        subst
          (λ b.
            (if b
              then some (promote_to_candidate n)
              else ask_votes n.peers 0 (open_election env (promote_to_candidate n)))
            ≡ some m)
          stands h) in
      record {
        base = o.base;
        base_id = o.base_id;
        base_queue = o.base_queue;
        base_term = o.base_term;
        base_vote = o.base_vote;
        base_state = o.base_state;
        base_votes = o.base_votes;
        base_peers = o.base_peers;
        base_logs = o.base_logs;
        base_included = o.base_included;
        asks = o.asks;
        asked = o.asked;
      }

  follower_round-Turn :
      (env : Env) (n : Node) {m : Node}
      → n.current_term + 1 < 2 ^ 32
      → follower_round env n ≡ some m
      → Turn n m
  unfolding follower_round promote_to_candidate start_election
  follower_round-Turn env n {m} room h = guarded n.dead h (λ alive g.
      elim (Bool-cases (timed_out env n)) [
        | inl late ↦ opened (stand-Opened env n room alive (rw late at g))
        | inr early ↦ calm_eq (rw early at g)
      ])

  promote_to_leader-Crowned :
      (n : Node)
      → n.state ≢ follower
      → is_majority n.peers n.votes_granted ≡ true
      → Crowned n (promote_to_leader n)
  unfolding promote_to_leader
  promote_to_leader-Crowned n stood most = record {
    id = refl;
    peers = refl;
    queue = refl;
    current_term = refl;
    voted_for = refl;
    votes_granted = refl;
    state = refl;
    stood = stood;
    majority = most;
  }

  candidate_round-Turn :
      (env : Env) (n : Node) {m : Node}
      → n.current_term + 1 < 2 ^ 32
      → candidate_round env n ≡ some m
      → Turn n m
  unfolding candidate_round
  candidate_round-Turn env n {m} room h =
      guarded (n.dead || is_follower_state n.state) h (λ stands g.
        elim (Bool-cases (is_majority n.peers n.votes_granted)) [
          | inl most ↦
              subst (λ x. Turn n x) (eq_of_some-eq (rw most at g))
                (crowned (promote_to_leader-Crowned n (ground arith) most))
          | inr few ↦ elim (Bool-cases (timed_out env n)) [
            | inl late ↦ start_election-Turn env n room (rw (few, late) at g)
            | inr early ↦ calm_eq (rw (few, early) at g)
          ]
        ])

  pub leader_round-SameBallot : (n : Node) {m : Node} → leader_round n ≡ some m → SameBallot n m
  unfolding leader_round broadcast_append_entries
  leader_round-SameBallot n {m} h = elim (Bool-cases (n.dead || not (is_leader_state n.state))) [
    | inl over ↦ subst (λ x. SameBallot n x) (eq_of_some-eq (rw (leader_round, over) at h)) (idle n)
    | inr leads ↦ SameBallot-trans (idle n) (
        broadcast_from-SameBallot n.peers 0 (record n { new_log_arrive = false })
          (rw (leader_round, broadcast_append_entries, leads) at h))
  ]
    where
      idle : (n : Node) → SameBallot n (record n { new_log_arrive = false })
      idle n = ground arith

  pub main_round-Turn :
      (env : Env) (head : State) (n : Node) {m : Node}
      → n.current_term + 1 < 2 ^ 32
      → main_round env head n ≡ some m
      → Turn n m
  unfolding main_round
  main_round-Turn env follower n room h = follower_round-Turn env n room h
  main_round-Turn env candidate n room h = candidate_round-Turn env n room h
  main_round-Turn env leader n room h = calm (Calm-of_same (leader_round-SameBallot n h))

-- A round raises the term, or keeps it and with it the vote, unless there was none.
pub Turn-Ballot : {n m : Node} → Turn n m → Ballot n m
Turn-Ballot (calm c) = c.ballot
Turn-Ballot {n} (opened o) = inl (omega (arith, o.base_term, o.asked.same_term))
Turn-Ballot (crowned c) = inr (c.current_term, inr c.voted_for)
