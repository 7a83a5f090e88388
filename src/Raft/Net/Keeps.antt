-- ===== src/Raft/Net/Keeps.antt =====
-- What a step makes of what holds of a node's log (kvcluster/raft/raft.cpp).
use raft_drive.Prelude.{ℕ, ◌+◌, ◌≤◌, ◌≡◌, sym, ap, subst, ◌∙◌, ◌⊎◌, inl, inr, arith, get_elem?}
use raft_drive.Json.{JsonLib}
use raft_drive.Raft.Types.{RequestVoteReply}
use raft_drive.Raft.State.{follower, Node, Env}
use raft_drive.Raft.Persist.{persist}
use raft_drive.Raft.Roles.{on_vote_reply, step_down}
use raft_drive.Raft.Ballot.{Calm}
use raft_drive.Raft.Ballot.Rounds.{Opened}
use raft_drive.Raft.Cluster.Kept.{Ballot-le}
use raft_drive.Raft.Net.Queue.{All}
use raft_drive.Raft.Net.Store.{SameStore}
use raft_drive.Raft.Net.Ledger.{Ledger, Within, CallOk}
use raft_drive.Raft.Net.Logged.{NodeLog, Past}

-- The node follows, in a term that is not earlier, or its term and its role are as they were.
abbrev pub Steady : Node → Node → Type 0
Steady n m =
    ((m.state ≡ follower) × (n.current_term ≤ m.current_term))
    ⊎ ((m.current_term ≡ n.current_term) × (m.state ≡ n.state))

pub Steady-of_Calm : (n m : Node) → Calm n m → Steady n m
Steady-of_Calm n m c = elim c.standing [
  | inl follows ↦ inl (follows, Ballot-le n m c.ballot)
  | inr (same, role, votes) ↦ inr (same, role)
]

pub Past-Steady : {n m : Node} (t : ℕ) → Steady n m → Past t n → Past t m
Past-Steady t (inl (follows, later)) p = record {
  reached = omega (arith, p.reached, later);
  stood = λ e s. cc (follows, s);
}
Past-Steady t (inr (same, role)) p = record {
  reached = omega (arith, p.reached, same);
  stood = λ e s. p.stood (e ∙ same) (sym role ∙ s);
}

pub NodeLog-Steady :
    {L : Ledger} {i : ℕ} {n m : Node} → SameStore n m → Steady n m → NodeLog L i n → NodeLog L i m
NodeLog-Steady {L} {i} {n} {m} s steady g = record {
  whole = s.included ∙ g.whole;
  no_snapshot = s.snapshot ∙ g.no_snapshot;
  head = ap (λ ls. get_elem? ls 0) s.logs ∙ g.head;
  within = subst (λ ls. Within L ls) (sym s.logs) g.within;
  queue = subst (All (CallOk L)) (sym s.queue) g.queue;
  leads = λ l. elim steady [
    | inl (follows, later) ↦ absurd (cc (follows, l))
    | inr (same, role) ↦
        let (mine, log) = g.leads (sym role ∙ l) in
        (ap L.leader_of same ∙ mine, ap L.log_of same ∙ (log ∙ sym s.logs))
  ];
  up = λ h. elim steady [
    | inl (follows, later) ↦ absurd (h follows)
    | inr (same, role) ↦ omega (arith, g.up (λ e. h (role ∙ e)), same)
  ];
}

-- An election is opened.
pub Past-Opened : {n m : Node} (t : ℕ) → Opened n m → Past t n → Past t m
Past-Opened {n} {m} t o p =
    let further : n.current_term + 1 ≡ m.current_term =
      omega (arith, o.base_term, o.asked.same_term) in
    record {
      reached = omega (arith, p.reached, further);
      stood = λ e. absurd (omega (arith, p.reached, further, e));
    }

pub NodeLog-Opened :
    {L : Ledger} {i : ℕ} {n m : Node} → SameStore n m → Opened n m → NodeLog L i n → NodeLog L i m
NodeLog-Opened {L} {i} {n} {m} s o g = record {
  whole = s.included ∙ g.whole;
  no_snapshot = s.snapshot ∙ g.no_snapshot;
  head = ap (λ ls. get_elem? ls 0) s.logs ∙ g.head;
  within = subst (λ ls. Within L ls) (sym s.logs) g.within;
  queue = subst (All (CallOk L)) (sym s.queue) g.queue;
  leads = λ l. absurd (cc (l, o.asked.same_state, o.base_state));
  up = λ h. omega (arith, o.base_term, o.asked.same_term);
}

module _ ⦃json : JsonLib⦄ where
  pub on_vote_reply-Steady :
      (env : Env) (reply : RequestVoteReply) (n : Node) → Steady n (on_vote_reply env reply n)
  unfolding on_vote_reply step_down persist
  on_vote_reply-Steady env reply n = ground arith
