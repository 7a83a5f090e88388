-- ===== src/Raft/Accord/Stands.antt =====
-- A node opens an election: its requests for votes say how its log ends (`startElection`,
-- kvcluster/raft/raft.cpp).
use raft_drive.Prelude.{
  ℕ, zero, suc, ◌+◌, ◌-◌, ◌^◌, ◌≤◌, ◌<◌, ◌≡◌, refl, sym, ap, subst, ◌∙◌, inl, inr, not, ◌||◌, List,
  [], ◌∷◌, some, arith, length, get_elem?, get_elem?-lt, eq_of_some-eq, Bool-cases, Option-cases,
  >>=-eq-some, int_eq, to_int,
}
use raft_drive.Raft.Types.{LogEntry, RequestVoteArgs}
use raft_drive.Raft.State.{Node, send_request_vote, is_candidate_state}
use raft_drive.Raft.Roles.{ask_votes, enqueue, last_log_index, last_log_term}
use raft_drive.Raft.Ballot.{vote_queue, vote_queue-append}
use raft_drive.Raft.Ballot.Rounds.{Opened}
use raft_drive.Raft.Cluster.{Member, put, become}
use raft_drive.Raft.Cluster.Kept.{put-here, put-there}
use raft_drive.Raft.Cluster.Good.{Good}
use raft_drive.Raft.Net.Queue.{All, All-map, All-append}
use raft_drive.Raft.Net.Store.{SameStore}
use raft_drive.Raft.Net.Ledger.{Ledger, Within}
use raft_drive.Raft.Net.Logged.{Extends-refl, NodeLog}
use raft_drive.Raft.Accord.Defs.{Chronicle, Holds, Grown, Taken-Grown}
use raft_drive.Raft.Accord.Shapes.{Shaped-same}
use raft_drive.Raft.Accord.Still.{Handed-less}
use raft_drive.Raft.Accord.Moves.{Accorded-put}
use raft_drive.Raft.Accord.Keeper.{Queued, Keeper, Accorded, Asks-Grown}

-- A request of the loop over the peers.
abbrev request : Node → ℕ → RequestVoteArgs
request n t = record {
  term = n.current_term;
  candidate_id = n.id;
  last_log_index = last_log_index n;
  last_log_term = t;
}

module _ (P : ℕ × RequestVoteArgs → Type 0) where
  -- What holds of the requests that wait, and of those that the loop makes, holds of all.
  ask_votes-All :
      (k id : ℕ) (n : Node) {m : Node}
      → ((j t : ℕ) → last_log_term n ≡ some t → P (j, request n t))
      → All P (vote_queue n.tasks)
      → ask_votes k id n ≡ some m
      → All P (vote_queue m.tasks)
  unfolding ask_votes last_log_index last_log_term
  ask_votes-All zero id n good q h =
      subst (λ (x : Node). All P (vote_queue x.tasks)) (eq_of_some-eq h) q
  ask_votes-All (suc k) id n good q h = elim (Bool-cases (int_eq (to_int id) n.id)) [
    | inl self ↦ ask_votes-All k (id + 1) n good q (rw (ask_votes, self) at h)
    | inr peer ↦ elim (Bool-cases (n.dead || not (is_candidate_state n.state))) [
      | inl over ↦
          subst (λ (x : Node). All P (vote_queue x.tasks))
            (eq_of_some-eq (rw (ask_votes, peer, over) at h)) q
      | inr goes_on ↦ elim (Option-cases (last_log_term n)) [
        | inl fault ↦ cc (rw (ask_votes, peer, goes_on, fault) at h)
        | inr (t, found) ↦
            ask_votes-All k (id + 1) (enqueue (send_request_vote id (request n t)) n) good
              (subst (All P)
                (sym (vote_queue-append n.tasks (send_request_vote id (request n t) ∷ [])))
                (All-append P (vote_queue n.tasks) ((id, request n t) ∷ []) q
                  (good id t found, tt)))
              (rw (ask_votes, peer, goes_on, found) at h)
      ]
    ]
  ]

pub last_log_index-small :
    (n : Node)
    → n.last_included_index ≡ 0
    → 0 < length n.logs
    → length n.logs < 2 ^ 64
    → suc (last_log_index n) ≡ length n.logs
unfolding last_log_index
last_log_index-small n whole some_entry room = omega (arith, whole)

pub last_log_term-entry :
    (n : Node) (t : ℕ)
    → last_log_term n ≡ some t
    → (e : LogEntry) × (get_elem? n.logs (length n.logs - 1) ≡ some e) × (e.term ≡ t)
unfolding last_log_term
last_log_term-entry n t h =
    let (e, at, same) = >>=-eq-some (get_elem? n.logs (length n.logs - 1)) _ h in
    (e, at, eq_of_some-eq same)

-- The node stands with the log that it has.
abbrev pub stand : Chronicle → ℕ → ℕ → List LogEntry → Chronicle
stand A i u xs = record A { stand_of = put A.stand_of i (put (A.stand_of i) u xs) }

module _ {peers : ℕ} {L : Ledger} {A : Chronicle} (c : ℕ → Member) (i : ℕ) (m : Node)
    (b : i < peers) (good : Good peers c) (o : Opened (c i).node m) (s : SameStore (c i).node m)
    (room : length (c i).node.logs < 2 ^ 64) (node : NodeLog L i (c i).node)
    (all : Accorded peers L A c) where
  abbrev pub B : Chronicle
  B = stand A i (suc (c i).node.current_term) (c i).node.logs

  term : m.current_term ≡ suc (c i).node.current_term
  term = omega (arith, o.base_term, o.asked.same_term)

  grown : Grown L A L B
  grown = record { extends = Extends-refl L; bases = λ u k led. refl }

  stand_here : B.stand_of i (suc (c i).node.current_term) ≡ (c i).node.logs
  stand_here =
      ap (λ (f : ℕ → List LogEntry). f (suc (c i).node.current_term)) (put-here A.stand_of i _)
      ∙ put-here (A.stand_of i) (suc (c i).node.current_term) _

  stand_there : (u : ℕ) → u ≤ (c i).node.current_term → B.stand_of i u ≡ A.stand_of i u
  stand_there u le =
      ap (λ (f : ℕ → List LogEntry). f u) (put-here A.stand_of i _)
      ∙ put-there (A.stand_of i) (suc (c i).node.current_term) u _ (λ e. omega (arith, le, e))

  new_request :
      (j t : ℕ) → last_log_term o.base ≡ some t → Queued L B i m.current_term (j, request o.base t)
  new_request j t found =
      let (e, at, same) = last_log_term-entry o.base t found in
      let size = ap (λ (ls : List LogEntry). length ls) o.base_logs in
      let last =
        last_log_index-small o.base (o.base_included ∙ node.whole)
          (omega (arith, get_elem?-lt o.base.logs (length o.base.logs - 1) at))
          (omega (arith, room, size)) in
      let own : B.stand_of i o.base.current_term ≡ o.base.logs =
        ap (B.stand_of i) (omega (arith, o.base_term)) ∙ (stand_here ∙ sym o.base_logs) in
      record {
        asks = record {
          last = e;
          at =
              ap (λ ls. get_elem? ls (last_log_index o.base)) own
              ∙ (ap (get_elem? o.base.logs) (omega (arith, last)) ∙ at);
          end = ap (λ (ls : List LogEntry). length ls) own ∙ sym last;
          last_term = same;
          earlier = omega (
            arith,
            (all.keepers i b).terms (length o.base.logs - 1) e
                (ap (λ ls. get_elem? ls (length o.base.logs - 1)) (sym o.base_logs) ∙ at),
            o.base_term,
          );
          within = subst (Within L) (sym (own ∙ o.base_logs)) node.within;
        };
        reached = omega (arith, term, o.base_term);
      }

  stands-Keeper : Keeper L A i (c i).node → Keeper L B i m
  stands-Keeper old = record {
    current = λ t h. omega (arith, old.current t h, term);
    keeps = λ t p some_entry le handed. subst (Holds L t p) (sym s.logs) (
        old.keeps t p some_entry le (
          Handed-less L A t p (suc (c i).node.current_term) (suc m.current_term)
            (omega (arith, term)) handed));
    terms =
        λ p e at. omega (arith, old.terms p e (ap (λ ls. get_elem? ls p) (sym s.logs) ∙ at), term);
    young = λ h p e at.
        omega (arith, old.terms p e (ap (λ ls. get_elem? ls p) (sym s.logs) ∙ at), term);
    stands = λ h. ap (B.stand_of i) term ∙ (stand_here ∙ sym s.logs);
    asks =
        ask_votes-All (Queued L B i m.current_term) o.base.peers 0 o.base new_request
          (All-map (Queued L A i (c i).node.current_term) (Queued L B i m.current_term)
            (vote_queue o.base.tasks)
            (λ r q. record {
              asks = Asks-Grown i r grown (stand_there r.1.term q.reached) q.asks;
              reached = omega (arith, q.reached, term);
            })
            (subst (All (Queued L A i (c i).node.current_term)) (sym o.base_queue) old.asks))
          o.asks;
    leads = λ l. absurd (cc (l, o.asked.same_state, o.base_state));
  }

  pub Accorded-stands : Accorded peers L B (put c i (become m (c i)))
  Accorded-stands =
      Accorded-put {L = L} {K = L} {A = A} {B = B} c i (become m (c i)) good b grown (λ j d t. refl)
        (λ t lt. refl) (λ j d u. ap (λ (f : ℕ → List LogEntry). f u) (put-there A.stand_of i j _ d))
        stand_there (omega (arith, term)) (stands-Keeper (all.keepers i b)) (λ t j r h. inl h)
        (λ u j h free. inl h)
        (λ t h. Taken-Grown {L = L} {K = L} {A = A} {B = B} i t grown refl (all.taken i t h))
        (λ u known. Shaped-same u refl refl (all.shaped u known)) (λ u k led. inl led) all
