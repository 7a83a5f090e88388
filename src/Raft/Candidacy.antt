-- ===== src/Raft/Candidacy.antt =====
-- A candidate opens an election (`Raft::startElection`, kvcluster/raft/raft.cpp).
use raft_drive.Prelude.{
  ℕ, zero, suc, ◌+◌, ◌^◌, ◌<◌, ◌≡◌, refl, ap, ◌∙◌, inl, inr, false, not, ◌||◌, List, [], ◌∷◌, ◌++◌,
  map, append_assoc, append-nil, some, if◌then◌else◌, arith, Bool-cases, ℤ, int_eq, to_int,
}
use raft_drive.Json.{JsonLib}
use raft_drive.Raft.Types.{RequestVoteArgs}
use raft_drive.Raft.State.{candidate, Node, Env, send_request_vote, is_candidate_state}
use raft_drive.Raft.Persist.{persist, state_json}
use raft_drive.Raft.Roles.{
  ask_votes, open_election, start_election, last_log_term, last_log_index, enqueue,
}

-- The `k` peers from `i` on, without the node itself.
abbrev other_peers : ℤ → ℕ → ℕ → List ℕ
other_peers id i zero = []
other_peers id i (suc k) =
    let rest = other_peers id (i + 1) k in if int_eq (to_int i) id then rest else i ∷ rest

-- The request for a vote of a node whose last entry has the term `t`.
abbrev pub vote_request : Node → ℕ → RequestVoteArgs
vote_request n t = record {
  term = n.current_term;
  candidate_id = n.id;
  last_log_index = last_log_index n;
  last_log_term = t;
}

-- The node with requests for the votes of some peers at the end of its queue.
abbrev asking : List ℕ → ℕ → Node → Node
asking js t n = record n { tasks = n.tasks ++ map (λ j. send_request_vote j (vote_request n t)) js }

ask_votes_lem :
    (k i : ℕ) (n : Node) (t : ℕ)
    → n.dead || not (is_candidate_state n.state) ≡ false
    → last_log_term n ≡ some t
    → ask_votes k i n ≡ some (asking (other_peers n.id i k) t n)
unfolding ask_votes last_log_term last_log_index
ask_votes_lem zero i n t stands e = rw (append-nil n.tasks) refl
ask_votes_lem (suc k) i n t stands e = elim (Bool-cases (int_eq (to_int i) n.id)) [
  | inl self ↦ rw (ask_votes, self) (ask_votes_lem k (i + 1) n t stands e)
  | inr peer ↦
      rw (ask_votes, peer, stands, e)
        (ask_votes_lem k (i + 1) (enqueue (send_request_vote i (vote_request n t)) n) t stands e
          ∙ ap (λ ts. some (record n { tasks = ts }))
              (append_assoc n.tasks (send_request_vote i (vote_request n t) ∷ [])
                (map (λ j. send_request_vote j (vote_request n t)) (other_peers n.id (i + 1) k))))
]

module _ ⦃json : JsonLib⦄ where
  -- A live candidate with an entry at the end of its log, of the term `t`, whose own term is below the
  -- largest `uint32_t`, opens an election: it is in the next term, with its own vote and no other; its
  -- term and its vote stand on the persister; and it asks every other peer for its vote once, in the
  -- order of the peers, in the new term, and with the index and the term of its last entry.
  pub start_election_lem :
      (env : Env) (n : Node) (t : ℕ)
      → n.dead ≡ false
      → n.state ≡ candidate
      → last_log_term n ≡ some t
      → n.current_term + 1 < 2 ^ 32
      → (m : Node) × (start_election env n ≡ some m)
        × (m.current_term ≡ n.current_term + 1)
        × (m.voted_for ≡ n.id)
        × (m.votes_granted ≡ 1)
        × (m.tasks
            ≡ n.tasks
              ++ map
                  (λ j. send_request_vote j (vote_request (open_election env n) t))
                  (other_peers n.id 0 n.peers))
        × (m.persister.raftstate ≡ json.dump (state_json m))
  unfolding start_election open_election persist state_json last_log_index last_log_term
  start_election_lem env n t alive stands e room =
      let guard : n.dead || not (is_candidate_state n.state) ≡ false = cc (alive, stands) in
      let asked = ask_votes_lem n.peers 0 (open_election env n) t guard e in
      (
        asking (other_peers n.id 0 n.peers) t (open_election env n),
        rw (start_election, guard) asked,
        omega arith,
        refl,
        refl,
        refl,
        refl,
      )
