-- ===== src/Raft/Invariant/Rounds.antt =====
-- A round of the thread keeps what its parts keep (kvcluster/raft/raft.cpp).
use raft_drive.Prelude.{
  ℕ, zero, suc, ◌+◌, ◌≡◌, refl, subst, inl, inr, Bool, true, false, not, ◌||◌, some, Bool-cases,
  Option-cases, if◌then◌else◌, get_elem?, eq_of_some-eq, int_eq, to_int, Option,
}
use raft_drive.Json.{JsonLib}
use raft_drive.Raft.Types.{RequestVoteArgs}
use raft_drive.Raft.State.{
  Node, Env, State, leader, candidate, follower, Task, send_request_vote, is_leader_state,
  is_candidate_state, is_follower_state, is_majority,
}
use raft_drive.Raft.Roles.{
  enqueue, ask_votes, open_election, start_election, promote_to_candidate, promote_to_leader,
  last_log_term,
}
use raft_drive.Raft.Leader.{
  trigger_install_snapshot, needs_snapshot, build_append_entries, broadcast_one, broadcast_from,
  broadcast_append_entries,
}
use raft_drive.Raft.Loop.{main_round, follower_round, candidate_round, leader_round, timed_out}

keeps_eq : (P : Node → Type 0) {n m : Node} → some n ≡ some m → P n → P m
keeps_eq P e v = subst P (eq_of_some-eq e) v

-- Behind a guard that leaves the node as it is.
behind_guard :
    (P : Node → Type 0) (b : Bool) {n m : Node} {x : Option Node}
    → (if b then some n else x) ≡ some m
    → P n
    → (b ≡ false → x ≡ some m → P m)
    → P m
behind_guard P true h v f = keeps_eq P h v
behind_guard P false h v f = f refl h

module _ ⦃json : JsonLib⦄ (P : Node → Type 0)
    (on_request : (id : ℕ) (args : RequestVoteArgs) (n : Node)
      → P n
      → P (enqueue (send_request_vote id args) n))
    (on_candidate : (n : Node) → P n → P (promote_to_candidate n))
    (on_leader : (n : Node) → P n → P (promote_to_leader n))
    (on_election : (env : Env) (n : Node) → P n → P (open_election env n)) where
  ask_votes-keeps : (k id : ℕ) (n : Node) {m : Node} → ask_votes k id n ≡ some m → P n → P m
  unfolding ask_votes
  ask_votes-keeps zero id n h v = keeps_eq P h v
  ask_votes-keeps (suc k) id n h v = elim (Bool-cases (int_eq (to_int id) n.id)) [
    | inl self ↦ ask_votes-keeps k (id + 1) n (rw (ask_votes, self) at h) v
    | inr peer ↦ elim (Bool-cases (n.dead || not (is_candidate_state n.state))) [
      | inl over ↦ keeps_eq P (rw (ask_votes, peer, over) at h) v
      | inr goes_on ↦ elim (Option-cases (last_log_term n)) [
        | inl fault ↦ cc (rw (ask_votes, peer, goes_on, fault) at h)
        | inr (t, found) ↦
            ask_votes-keeps k (id + 1) _ (rw (ask_votes, peer, goes_on, found) at h)
              (on_request id _ n v)
      ]
    ]
  ]

  start_election-keeps :
      (env : Env) (n : Node) {m : Node} → start_election env n ≡ some m → P n → P m
  unfolding start_election
  start_election-keeps env n h v =
      behind_guard P (n.dead || not (is_candidate_state n.state)) h v
        (λ goes_on g. ask_votes-keeps n.peers 0 (open_election env n) g (on_election env n v))

  pub follower_round-keeps :
      (env : Env) (n : Node) {m : Node} → follower_round env n ≡ some m → P n → P m
  unfolding follower_round
  follower_round-keeps env n h v = behind_guard P n.dead h v (λ goes_on g.
      elim (Bool-cases (timed_out env n)) [
        | inl late ↦
            start_election-keeps env (promote_to_candidate n) (rw late at g) (on_candidate n v)
        | inr early ↦ keeps_eq P (rw early at g) v
      ])

  pub candidate_round-keeps :
      (env : Env) (n : Node) {m : Node} → candidate_round env n ≡ some m → P n → P m
  unfolding candidate_round
  candidate_round-keeps env n h v =
      behind_guard P (n.dead || is_follower_state n.state) h v (λ goes_on g.
        elim (Bool-cases (is_majority n.peers n.votes_granted)) [
          | inl most ↦ keeps_eq P (rw most at g) (on_leader n v)
          | inr few ↦ behind_election env n (timed_out env n) (rw few at g) v
        ])
    where
      behind_election :
          (env : Env) (n : Node) (b : Bool) {m : Node}
          → (if b then start_election env n else some n) ≡ some m
          → P n
          → P m
      behind_election env n true h v = start_election-keeps env n h v
      behind_election env n false h v = keeps_eq P h v

module _ ⦃json : JsonLib⦄ (P : Node → Type 0)
    (on_idle : (n : Node) → P n → P (record n { new_log_arrive = false }))
    (on_broadcast : (id : ℕ) (n m : Node)
      → int_eq (to_int id) n.id ≡ false
      → broadcast_one id n ≡ some m
      → P n
      → P m) where
  broadcast_from-keeps :
      (k id : ℕ) (n : Node) {m : Node} → broadcast_from k id n ≡ some m → P n → P m
  unfolding broadcast_from
  broadcast_from-keeps zero id n h v = keeps_eq P h v
  broadcast_from-keeps (suc k) id n h v = elim (Bool-cases (int_eq (to_int id) n.id)) [
    | inl self ↦ broadcast_from-keeps k (id + 1) n (rw (broadcast_from, self) at h) v
    | inr peer ↦ elim (Bool-cases (n.dead || not (is_leader_state n.state))) [
      | inl over ↦ keeps_eq P (rw (broadcast_from, peer, over) at h) v
      | inr goes_on ↦ elim (Option-cases (broadcast_one id n)) [
        | inl fault ↦ cc (rw (broadcast_from, peer, goes_on, fault) at h)
        | inr (q, one) ↦
            broadcast_from-keeps k (id + 1) q (rw (broadcast_from, peer, goes_on, one) at h)
              (on_broadcast id n q peer one v)
      ]
    ]
  ]

  pub leader_round-keeps : (n : Node) {m : Node} → leader_round n ≡ some m → P n → P m
  unfolding leader_round broadcast_append_entries
  leader_round-keeps n h v =
      behind_guard P (n.dead || not (is_leader_state n.state)) h (on_idle n v) (λ goes_on g.
        broadcast_from-keeps n.peers 0 (record n { new_log_arrive = false }) g (on_idle n v))

module _ ⦃json : JsonLib⦄ (P : Node → Type 0)
    (on_enqueue : (t : Task) (n : Node) → P n → P (enqueue t n))
    (on_candidate : (n : Node) → P n → P (promote_to_candidate n))
    (on_leader : (n : Node) → P n → P (promote_to_leader n))
    (on_idle : (n : Node) → P n → P (record n { new_log_arrive = false }))
    (on_election : (env : Env) (n : Node) → P n → P (open_election env n)) where
  pub trigger_install_snapshot-keeps : (id : ℕ) (n : Node) → P n → P (trigger_install_snapshot id n)
  unfolding trigger_install_snapshot
  trigger_install_snapshot-keeps id n v =
      elim (Bool-cases (n.dead || not (is_leader_state n.state))) [
        | inl over ↦ rw over v
        | inr leads ↦ rw leads (on_enqueue _ n v)
      ]

  broadcast_one-keeps : (id : ℕ) (n : Node) {m : Node} → broadcast_one id n ≡ some m → P n → P m
  unfolding broadcast_one
  broadcast_one-keeps id n h v = elim (Option-cases (get_elem? n.next_index id)) [
    | inl miss ↦ cc (rw (broadcast_one, miss) at h)
    | inr (next, hit) ↦ elim (Bool-cases (needs_snapshot next n)) [
      | inl behind ↦
          keeps_eq P (rw (broadcast_one, hit, behind) at h) (trigger_install_snapshot-keeps id n v)
      | inr ahead ↦ elim (Option-cases (build_append_entries next n)) [
        | inl fault ↦ cc (rw (broadcast_one, hit, ahead, fault) at h)
        | inr (sent, built) ↦
            keeps_eq P (rw (broadcast_one, hit, ahead, built) at h) (on_enqueue _ n v)
      ]
    ]
  ]

  pub main_round-keeps :
      (env : Env) (head : State) (n : Node) {m : Node} → main_round env head n ≡ some m → P n → P m
  unfolding main_round
  main_round-keeps env follower n h v =
      follower_round-keeps P (λ id args. on_enqueue (send_request_vote id args)) on_candidate
        on_leader on_election env n h v
  main_round-keeps env candidate n h v =
      candidate_round-keeps P (λ id args. on_enqueue (send_request_vote id args)) on_candidate
        on_leader on_election env n h v
  main_round-keeps env leader n h v =
      leader_round-keeps P on_idle (λ id n m peer e w. broadcast_one-keeps id n e w) n h v
