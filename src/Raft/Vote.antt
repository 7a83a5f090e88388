-- ===== src/Raft/Vote.antt =====
-- The answers of `requestVote` (kvcluster/raft/raft.cpp).
use raft_drive.Prelude.{
  ℕ, ◌≤◌, ◌<◌, ◌≡◌, refl, true, false, ◌&&◌, ◌||◌, ◌↔◌, ◌⊎◌, inl, inr, some, ltb, int_eq,
  int_eq_iff, minus_one, Bool-cases, arith, ltb→lt, ltb→le,
}
use raft_drive.Json.{JsonLib}
use raft_drive.Raft.Types.{RequestVoteArgs, RequestVoteReply}
use raft_drive.Raft.State.{Node, Env}
use raft_drive.Raft.Persist.{persist, state_json}
use raft_drive.Raft.Roles.{
  request_vote, decide_vote, is_up_to_date, last_log_index, last_log_term, step_down,
}

-- The log of the candidate, which ends at `args`, is not behind one that ends with the term `t`.
abbrev pub UpToDate : RequestVoteArgs → ℕ → Node → Type 0
UpToDate args t n =
    (t < args.last_log_term) ⊎ ((args.last_log_term ≡ t) × (last_log_index n ≤ args.last_log_index))

-- The node is free to vote for the candidate in the term of the request.
abbrev pub FreeFor : RequestVoteArgs → Node → Type 0
FreeFor args n =
    (n.current_term < args.term)
    ⊎ ((n.current_term ≡ args.term)
        × ((n.voted_for ≡ minus_one) ⊎ (n.voted_for ≡ args.candidate_id)))

is_up_to_date_iff :
    (args : RequestVoteArgs) (index t : ℕ)
    → (is_up_to_date args index t ≡ true)
      ↔ ((t < args.last_log_term) ⊎ ((args.last_log_term ≡ t) × (index ≤ args.last_log_index)))
is_up_to_date_iff args index t = ground arith

abbrev FreeNow : RequestVoteArgs → Node → Type 0
FreeNow args n = (n.voted_for ≡ minus_one) ⊎ (n.voted_for ≡ args.candidate_id)

free_in_term :
    (args : RequestVoteArgs) (n : Node)
    → n.current_term ≡ args.term
    → FreeFor args n
    → FreeNow args n
free_in_term args n same (inl newer) = absurd (omega arith)
free_in_term args n same (inr (level, f)) = f

may_vote_iff :
    (args : RequestVoteArgs) (n : Node) (t : ℕ)
    → (((int_eq n.voted_for minus_one || int_eq n.voted_for args.candidate_id)
          && is_up_to_date args (last_log_index n) t)
        ≡ true)
      ↔ (FreeNow args n × UpToDate args t n)
may_vote_iff args n t = ground (
  arith,
  int_eq_iff n.voted_for minus_one,
  int_eq_iff n.voted_for args.candidate_id,
  is_up_to_date_iff args (last_log_index n) t,
)

module _ ⦃json : JsonLib⦄ where
  -- What the vote and its record on the persister are after a request.
  abbrev pub Recorded : RequestVoteArgs → Node → Type 0
  Recorded args m =
      (m.current_term ≡ args.term)
      × (m.voted_for ≡ args.candidate_id)
      × (m.persister.raftstate ≡ json.dump (state_json m))

  decide_vote-granted :
      (env : Env) (args : RequestVoteArgs) (reply : RequestVoteReply) (n : Node) (t : ℕ)
      → reply.vote_granted ≡ false
      → n.current_term ≡ args.term
      → let r = decide_vote env args reply n t in
        ((r.1.vote_granted ≡ true) ↔ (FreeNow args n × UpToDate args t n))
        × ((r.1.vote_granted ≡ false) ⊎ Recorded args r.0)
        × (r.1.term ≡ reply.term)
  unfolding persist state_json
  decide_vote-granted env args reply n t unset same =
      elim (Bool-cases (
        (int_eq n.voted_for minus_one || int_eq n.voted_for args.candidate_id)
        && is_up_to_date args (last_log_index n) t)) [
          | inl free ↦
              let may = (may_vote_iff args n t).0 free in
              rw free (((λ e. may), (λ h. refl)), inr (same, refl, refl), refl)
          | inr refused ↦
              rw refused
                (((λ e. cc), (λ may. cc (refused, (may_vote_iff args n t).1 may))), inl unset, refl)
        ]

  -- With an entry at the end of its log, a node answers a request for its vote, and grants it exactly
  -- when the term of the request is not behind its own, it has voted for no other in that term, and the
  -- candidate's log is not behind its own. Either it refuses, or the term and the vote of the request stand
  -- in the node, and the node's state on the persister.
  -- The reply has the term that the node was in before the request.
  pub request_vote-granted_iff :
      (env : Env) (args : RequestVoteArgs) (n : Node) (t : ℕ)
      → last_log_term n ≡ some t
      → (m : Node) × (r : RequestVoteReply) × (request_vote env args n ≡ some (m, r))
        × ((r.vote_granted ≡ true) ↔ (FreeFor args n × UpToDate args t n))
        × ((r.vote_granted ≡ false) ⊎ Recorded args m)
        × (r.term ≡ n.current_term)
  unfolding request_vote last_log_term last_log_index persist step_down
  request_vote-granted_iff env args n t e = elim (Bool-cases (ltb args.term n.current_term)) [
    | inl stale ↦ rw stale (n, _, refl, ground (arith), inl refl, refl)
    | inr current ↦ elim (Bool-cases (ltb n.current_term args.term)) [
      | inl newer ↦
          let (g, kept, w) =
            decide_vote-granted env args (record { term = n.current_term; vote_granted = false })
              (step_down env args.term n) t refl refl in
          rw (current, newer, e)
            (
              _,
              _,
              refl,
              ((λ x. (inl (ltb→lt _ _ newer), (g.0 x).1)), (λ may. g.1 (inl refl, may.1))),
              kept,
              w,
            )
      | inr level ↦
          let same : n.current_term ≡ args.term =
            omega (arith, ltb→le _ _ current, ltb→le _ _ level) in
          let (g, kept, w) =
            decide_vote-granted env args (record { term = n.current_term; vote_granted = false }) n
              t refl same in
          rw (current, level, e)
            (
              _,
              _,
              refl,
              (
                (λ x. let (f, u) = g.0 x in (inr (same, f), u)),
                (λ (f, u). g.1 (free_in_term args n same f, u)),
              ),
              kept,
              w,
            )
    ]
  ]
