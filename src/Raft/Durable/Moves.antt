-- ===== src/Raft/Durable/Moves.antt =====
-- The handlers leave the state of the node on the persister (kvcluster/raft/raft.cpp).
use raft_drive.Prelude.{
  ℕ, zero, suc, ◌+◌, ◌≡◌, refl, sym, subst, inl, inr, Bool, true, false, not, ◌||◌, ◌==◌, some,
  none, Option, Bool-cases, Option-cases, if◌then◌else◌, eq_of_some-eq, >>=-eq-some, get_elem?,
  sub64, ltb, leb, Bytes, length, [], ◌∷◌, ◌++◌,
}
use raft_drive.Json.{JsonLib}
use raft_drive.Raft.Types.{
  RequestVoteArgs, RequestVoteReply, InstallSnapshotArgs, InstallSnapshotReply,
}
use raft_drive.Raft.State.{
  Node, Env, Task, State, is_leader_state, is_candidate_state, save_raft_state,
  save_state_and_snapshot, read_raft_state,
}
use raft_drive.Raft.Persist.{persist, state_json}
use raft_drive.Raft.Roles.{
  enqueue, start, step_down, request_vote, decide_vote, on_vote_reply, last_log_term,
  promote_to_candidate, promote_to_leader, open_election, last_log_index,
}
use raft_drive.Raft.Append.{apply_committed, apply_rounds, apply_one}
use raft_drive.Raft.Leader.{update_commit_index, commit_to, find_commit, trigger_install_snapshot}
use raft_drive.Raft.Snapshot.{install_snapshot, take_snapshot}
use raft_drive.Raft.Loop.{main_round}
use raft_drive.Raft.Invariant.Rounds.{main_round-keeps, trigger_install_snapshot-keeps}
use raft_drive.Raft.Invariant.Replies.{either}
use raft_drive.Raft.Durable.{Persisted}

module _ ⦃json : JsonLib⦄ where
  pub persist-Persisted : (n : Node) → Persisted (persist n)
  unfolding persist state_json
  persist-Persisted n = record { state = refl }

  pub step_down-Persisted : (env : Env) (term : ℕ) (n : Node) → Persisted (step_down env term n)
  unfolding step_down
  step_down-Persisted env term n = persist-Persisted _

  enqueue-Persisted : (t : Task) (n : Node) → Persisted n → Persisted (enqueue t n)
  unfolding state_json
  enqueue-Persisted t n h = record { state = h.state }

  promote_to_candidate-Persisted : (n : Node) → Persisted n → Persisted (promote_to_candidate n)
  unfolding state_json promote_to_candidate
  promote_to_candidate-Persisted n h = record { state = h.state }

  promote_to_leader-Persisted : (n : Node) → Persisted n → Persisted (promote_to_leader n)
  unfolding state_json promote_to_leader
  promote_to_leader-Persisted n h = record { state = h.state }

  idle-Persisted : (n : Node) → Persisted n → Persisted (record n { new_log_arrive = false })
  unfolding state_json
  idle-Persisted n h = record { state = h.state }

  open_election-Persisted : (env : Env) (n : Node) → Persisted n → Persisted (open_election env n)
  unfolding open_election
  open_election-Persisted env n h = persist-Persisted _

  pub main_round-Persisted :
      (env : Env) (head : State) (n : Node) {m : Node}
      → main_round env head n ≡ some m
      → Persisted n
      → Persisted m
  main_round-Persisted =
      main_round-keeps Persisted enqueue-Persisted promote_to_candidate-Persisted
        promote_to_leader-Persisted idle-Persisted open_election-Persisted

  pub trigger_install_snapshot-Persisted :
      (id : ℕ) (n : Node) → Persisted n → Persisted (trigger_install_snapshot id n)
  trigger_install_snapshot-Persisted =
      trigger_install_snapshot-keeps Persisted enqueue-Persisted promote_to_candidate-Persisted
        promote_to_leader-Persisted idle-Persisted open_election-Persisted

  pub Persisted-eq : {n m : Node} → some n ≡ some m → Persisted n → Persisted m
  Persisted-eq e h = subst Persisted (eq_of_some-eq e) h

  decide_vote-Persisted :
      (env : Env) (args : RequestVoteArgs) (reply : RequestVoteReply) (n : Node) (t : ℕ)
      → Persisted (decide_vote env args reply n t).0
  decide_vote-Persisted env args reply n t =
      either (λ (r : Node × RequestVoteReply). Persisted r.0) _ (persist-Persisted _)
        (persist-Persisted n)

  pub request_vote-Persisted :
      (env : Env) (args : RequestVoteArgs) (n : Node) {m : Node} {r : RequestVoteReply}
      → request_vote env args n ≡ some (m, r)
      → Persisted n
      → Persisted m
  unfolding request_vote
  request_vote-Persisted env args n h v = elim (Bool-cases (ltb args.term n.current_term)) [
    | inl stale ↦ first (rw (request_vote, stale) at h) v
    | inr current ↦
        let (t, e, d) =
          >>=-eq-some
            (last_log_term (if ltb n.current_term args.term then step_down env args.term n else n))
            _ (rw (request_vote, current) at h) in
        first d (
          decide_vote-Persisted env args (record { term = n.current_term; vote_granted = false })
            (if ltb n.current_term args.term then step_down env args.term n else n) t)
  ]
    where
      first :
          {p : Node × RequestVoteReply} {m : Node} {r : RequestVoteReply}
          → some p ≡ some (m, r)
          → Persisted p.0
          → Persisted m
      first e v = subst (λ (x : Node × RequestVoteReply). Persisted x.0) (eq_of_some-eq e) v

  with_vote-Persisted :
      (k : ℕ) (n : Node) → Persisted n → Persisted (record n { votes_granted = k })
  unfolding state_json
  with_vote-Persisted k n h = record { state = h.state }

  pub on_vote_reply-Persisted :
      (env : Env) (reply : RequestVoteReply) (n : Node)
      → Persisted n
      → Persisted (on_vote_reply env reply n)
  unfolding on_vote_reply
  on_vote_reply-Persisted env reply n h =
      either Persisted (n.dead || not (is_candidate_state n.state)) h (
        either Persisted reply.vote_granted (with_vote-Persisted (n.votes_granted + 1) n h) (
          either Persisted (ltb n.current_term reply.term) (step_down-Persisted env reply.term n)
            h))

  pub start-Persisted : (command : Bytes) (n : Node) → Persisted n → Persisted (start command n).0
  unfolding start
  start-Persisted command n h = elim (Bool-cases (is_leader_state n.state)) [
    | inl leads ↦
        rw (start, leads)
          (persist-Persisted (record n {
            logs = n.logs ++ record { command = command; term = n.current_term } ∷ [];
            new_log_arrive = true;
          }))
    | inr follows ↦ rw (start, follows) h
  ]

  take_snapshot-Persisted :
      (args : InstallSnapshotArgs) (n : Node) → Persisted (take_snapshot args n)
  unfolding persist state_json save_state_and_snapshot read_raft_state save_raft_state
  take_snapshot-Persisted args n = record { state = refl }

  pub install_snapshot-Persisted :
      (env : Env) (args : InstallSnapshotArgs) (reply : InstallSnapshotReply) (n : Node)
      → Persisted n
      → Persisted (install_snapshot env args reply n).0
  unfolding install_snapshot
  install_snapshot-Persisted env args reply n h = elim (Bool-cases n.dead) [
    | inl over ↦ subst (λ b. Persisted (ends b).0) (sym over) h
    | inr alive ↦
        subst (λ b. Persisted (ends b).0) (sym alive)
          (elim (Bool-cases (ltb args.term n.current_term)) [
            | inl stale ↦ rw stale h
            | inr current ↦ rw current (
                either Persisted (leb args.last_included_index heard.last_included_index)
                  (either Persisted (ltb n.current_term args.term)
                    (step_down-Persisted env args.term n) h)
                  (take_snapshot-Persisted args heard))
          ])
  ]
    where
      heard : Node
      heard = if ltb n.current_term args.term then step_down env args.term n else n

      ends : Bool → Node × InstallSnapshotReply
      ends b =
          if b
          then (n, reply)
          else if ltb args.term n.current_term
          then (n, record reply { term = n.current_term })
          else (
            if leb args.last_included_index heard.last_included_index
                then heard
                else take_snapshot args heard,
            record reply { term = n.current_term },
          )

  apply_rounds-Persisted :
      (k : ℕ) (n : Node) {m : Node} → apply_rounds k n ≡ some m → Persisted n → Persisted m
  unfolding apply_rounds apply_one state_json
  apply_rounds-Persisted zero n e h = Persisted-eq e h
  apply_rounds-Persisted (suc k) n e h =
      elim (Option-cases (get_elem? n.logs (sub64 (n.last_applied + 1) n.last_included_index))) [
        | inl miss ↦ cc (rw (apply_rounds, apply_one, miss) at e)
        | inr (x, hit) ↦
            apply_rounds-Persisted k _ (rw (apply_rounds, apply_one, hit) at e)
              (record { state = h.state })
      ]

  pub apply_committed-Persisted :
      (n : Node) {m : Node} → apply_committed n ≡ some m → Persisted n → Persisted m
  unfolding apply_committed
  apply_committed-Persisted n e h = apply_rounds-Persisted _ n e h

  commit_to-Persisted : (o : Option ℕ) (n : Node) → Persisted n → Persisted (commit_to o n)
  unfolding state_json
  commit_to-Persisted none n h = h
  commit_to-Persisted (some index) n h = record { state = h.state }

  pub update_commit_index-Persisted : (n : Node) → Persisted n → Persisted (update_commit_index n)
  unfolding update_commit_index
  update_commit_index-Persisted n h =
      either Persisted (n.dead || not (is_leader_state n.state) || length n.logs == 0) h
        (commit_to-Persisted (find_commit (last_log_index n) n) n h)
