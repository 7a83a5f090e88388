-- ===== src/Raft/Ballot/Defs.antt =====
-- What a step does to the part of a node that elections are about.
use raft_drive.Prelude.{
  ℕ, ◌<◌, ◌≡◌, refl, ap, subst, ◌∙◌, ◌⊎◌, inl, inr, List, [], ◌∷◌, ◌++◌, some, eq_of_some-eq, arith,
  minus_one, append-nil,
}
use raft_drive.Raft.Types.{AppendEntriesArgs, RequestVoteArgs, InstallSnapshotArgs}
use raft_drive.Raft.State.{
  follower, Task, send_request_vote, send_append_entries, send_install_snapshot, Node,
}

-- The votes that the tasks in the queue are to ask for, each with the peer that is asked.
abbrev pub vote_queue : List Task → List (ℕ × RequestVoteArgs)
vote_queue [] = []
vote_queue (send_request_vote id args ∷ ts) = (id, args) ∷ vote_queue ts
vote_queue (send_append_entries id last started args ∷ ts) = vote_queue ts
vote_queue (send_install_snapshot id args ∷ ts) = vote_queue ts

pub vote_queue-append : (ts us : List Task) → vote_queue (ts ++ us) ≡ vote_queue ts ++ vote_queue us
vote_queue-append [] us = refl
vote_queue-append (send_request_vote id args ∷ ts) us =
    ap (λ q. (id, args) ∷ q) (vote_queue-append ts us)
vote_queue-append (send_append_entries id last started args ∷ ts) us = vote_queue-append ts us
vote_queue-append (send_install_snapshot id args ∷ ts) us = vote_queue-append ts us

pub vote_queue-append_entries :
    (ts : List Task) (id last started : ℕ) (args : AppendEntriesArgs)
    → vote_queue (ts ++ send_append_entries id last started args ∷ []) ≡ vote_queue ts
vote_queue-append_entries ts id last started args =
    vote_queue-append ts (send_append_entries id last started args ∷ [])
    ∙ append-nil (vote_queue ts)

pub vote_queue-install_snapshot :
    (ts : List Task) (id : ℕ) (args : InstallSnapshotArgs)
    → vote_queue (ts ++ send_install_snapshot id args ∷ []) ≡ vote_queue ts
vote_queue-install_snapshot ts id args =
    vote_queue-append ts (send_install_snapshot id args ∷ []) ∙ append-nil (vote_queue ts)

-- All of that part is as it was.
pub record SameBallot (n m : Node) : Type 0 where
  pub id : m.id ≡ n.id
  pub peers : m.peers ≡ n.peers
  pub current_term : m.current_term ≡ n.current_term
  pub voted_for : m.voted_for ≡ n.voted_for
  pub state : m.state ≡ n.state
  pub votes_granted : m.votes_granted ≡ n.votes_granted
  pub queue : vote_queue m.tasks ≡ vote_queue n.tasks

-- The term does not go back, and within a term a vote is not taken back.
abbrev pub Ballot : Node → Node → Type 0
Ballot n m =
    (n.current_term < m.current_term)
    ⊎ ((m.current_term ≡ n.current_term)
        × ((n.voted_for ≡ minus_one) ⊎ (m.voted_for ≡ n.voted_for)))

-- The node has no new votes and asks for none, and it follows, or its term and its role are as they
-- were.
pub record Calm (n m : Node) : Type 0 where
  pub id : m.id ≡ n.id
  pub peers : m.peers ≡ n.peers
  pub queue : vote_queue m.tasks ≡ vote_queue n.tasks
  pub ballot : Ballot n m
  pub standing :
      (m.state ≡ follower)
      ⊎ ((m.current_term ≡ n.current_term)
          × (m.state ≡ n.state)
          × (m.votes_granted ≡ n.votes_granted))

pub SameBallot-refl : (n : Node) → SameBallot n n
SameBallot-refl n = record {
  id = refl;
  peers = refl;
  current_term = refl;
  voted_for = refl;
  state = refl;
  votes_granted = refl;
  queue = refl;
}

pub SameBallot-trans : {n m k : Node} → SameBallot n m → SameBallot m k → SameBallot n k
SameBallot-trans s t = record {
  id = t.id ∙ s.id;
  peers = t.peers ∙ s.peers;
  current_term = t.current_term ∙ s.current_term;
  voted_for = t.voted_for ∙ s.voted_for;
  state = t.state ∙ s.state;
  votes_granted = t.votes_granted ∙ s.votes_granted;
  queue = t.queue ∙ s.queue;
}

pub SameBallot-eq : {n m : Node} → some n ≡ some m → SameBallot n m
SameBallot-eq {n} e = subst (λ x. SameBallot n x) (eq_of_some-eq e) (SameBallot-refl n)

pub Calm-of_same : {n m : Node} → SameBallot n m → Calm n m
Calm-of_same s = record {
  id = s.id;
  peers = s.peers;
  queue = s.queue;
  ballot = inr (s.current_term, inr s.voted_for);
  standing = inr (s.current_term, s.state, s.votes_granted);
}

Ballot-then_same : (n : Node) {m k : Node} → Ballot n m → SameBallot m k → Ballot n k
Ballot-then_same n p s = ground arith

pub Calm-then_same : (n : Node) {m k : Node} → Calm n m → SameBallot m k → Calm n k
Calm-then_same n {m} {k} p s = record {
  id = s.id ∙ p.id;
  peers = s.peers ∙ p.peers;
  queue = s.queue ∙ p.queue;
  ballot = Ballot-then_same n p.ballot s;
  standing = elim p.standing [
    | inl follows ↦ inl (s.state ∙ follows)
    | inr (t, st, v) ↦ inr (s.current_term ∙ t, s.state ∙ st, s.votes_granted ∙ v)
  ];
}

pub Ballot-trans : (n m k : Node) → Ballot n m → Ballot m k → Ballot n k
Ballot-trans n m k p q = ground arith
