-- ===== src/Raft/Ballot/Frames.antt =====
-- The handlers of the log leave elections alone (kvcluster/raft/raft.cpp).
use raft_drive.Prelude.{
  ℕ, zero, suc, ◌+◌, ◌≡◌, refl, subst, inl, inr, not, ◌||◌, some, arith, Bool-cases, Option-cases,
  eq_of_some-eq, int_eq, to_int, sub64, get_elem?,
}
use raft_drive.Raft.Types.{AppendEntriesArgs}
use raft_drive.Raft.State.{send_append_entries, Node, is_leader_state}
use raft_drive.Raft.Roles.{enqueue}
use raft_drive.Raft.Append.{commit_entries, apply_committed, apply_rounds, apply_one}
use raft_drive.Raft.Leader.{
  needs_snapshot, build_append_entries, record_match, update_commit_index, broadcast_from,
  broadcast_one, trigger_install_snapshot,
}
use raft_drive.Raft.Ballot.Defs.{
  vote_queue-append_entries, vote_queue-install_snapshot, SameBallot, SameBallot-refl,
  SameBallot-trans, SameBallot-eq,
}

pub append_task-SameBallot :
    (n : Node) (id last started : ℕ) (args : AppendEntriesArgs)
    → SameBallot n (enqueue (send_append_entries id last started args) n)
append_task-SameBallot n id last started args = record {
  id = refl;
  peers = refl;
  current_term = refl;
  voted_for = refl;
  state = refl;
  votes_granted = refl;
  queue = vote_queue-append_entries n.tasks id last started args;
}

pub trigger_install_snapshot-SameBallot :
    (id : ℕ) (n : Node) → SameBallot n (trigger_install_snapshot id n)
unfolding trigger_install_snapshot
trigger_install_snapshot-SameBallot id n =
    elim (Bool-cases (n.dead || not (is_leader_state n.state))) [
      | inl over ↦ rw over (SameBallot-refl n)
      | inr leads ↦ rw leads (record {
        id = refl;
        peers = refl;
        current_term = refl;
        voted_for = refl;
        state = refl;
        votes_granted = refl;
        queue = vote_queue-install_snapshot n.tasks id _;
      })
    ]

broadcast_one-SameBallot :
    (id : ℕ) (n : Node) {m : Node} → broadcast_one id n ≡ some m → SameBallot n m
unfolding broadcast_one
broadcast_one-SameBallot id n {m} h = elim (Option-cases (get_elem? n.next_index id)) [
  | inl miss ↦ cc (rw (broadcast_one, miss) at h)
  | inr (next, hit) ↦ elim (Bool-cases (needs_snapshot next n)) [
    | inl behind ↦
        subst (λ x. SameBallot n x) (eq_of_some-eq (rw (broadcast_one, hit, behind) at h))
          (trigger_install_snapshot-SameBallot id n)
    | inr ahead ↦ elim (Option-cases (build_append_entries next n)) [
      | inl fault ↦ cc (rw (broadcast_one, hit, ahead, fault) at h)
      | inr (sent, built) ↦
          subst (λ x. SameBallot n x) (eq_of_some-eq (rw (broadcast_one, hit, ahead, built) at h))
            (append_task-SameBallot n id sent.1 n.current_term sent.0)
    ]
  ]
]

apply_rounds-SameBallot : (k : ℕ) (n : Node) {m : Node} → apply_rounds k n ≡ some m → SameBallot n m
unfolding apply_rounds apply_one
apply_rounds-SameBallot zero n h = ground arith
apply_rounds-SameBallot (suc k) n h =
    elim (Option-cases (get_elem? n.logs (sub64 (n.last_applied + 1) n.last_included_index))) [
      | inl miss ↦ cc (rw (apply_rounds, apply_one, miss) at h)
      | inr (e, hit) ↦
          let rest = apply_rounds-SameBallot k _ (rw (apply_rounds, apply_one, hit) at h) in
          record {
            id = rest.id;
            peers = rest.peers;
            current_term = rest.current_term;
            voted_for = rest.voted_for;
            state = rest.state;
            votes_granted = rest.votes_granted;
            queue = rest.queue;
          }
    ]

pub apply_committed-SameBallot : (n : Node) {m : Node} → apply_committed n ≡ some m → SameBallot n m
unfolding apply_committed
apply_committed-SameBallot n h = apply_rounds-SameBallot _ n h

pub commit_entries-SameBallot :
    (args : AppendEntriesArgs) (n : Node) {m : Node}
    → commit_entries args n ≡ some m
    → SameBallot n m
unfolding commit_entries
commit_entries-SameBallot args n h =
    let same = apply_committed-SameBallot _ h in
    record {
      id = same.id;
      peers = same.peers;
      current_term = same.current_term;
      voted_for = same.voted_for;
      state = same.state;
      votes_granted = same.votes_granted;
      queue = same.queue;
    }

pub record_match-SameBallot :
    (id : ℕ) (args : AppendEntriesArgs) (n : Node) {m : Node}
    → record_match id args n ≡ some m
    → SameBallot n m
unfolding record_match
record_match-SameBallot id args n h = ground arith

pub update_commit_index-SameBallot : (n : Node) → SameBallot n (update_commit_index n)
unfolding update_commit_index
update_commit_index-SameBallot n = ground arith

pub broadcast_from-SameBallot :
    (k id : ℕ) (n : Node) {m : Node} → broadcast_from k id n ≡ some m → SameBallot n m
unfolding broadcast_from
broadcast_from-SameBallot zero id n h = ground arith
broadcast_from-SameBallot (suc k) id n h = elim (Bool-cases (int_eq (to_int id) n.id)) [
  | inl self ↦ broadcast_from-SameBallot k (id + 1) n (rw (broadcast_from, self) at h)
  | inr peer ↦ elim (Bool-cases (n.dead || not (is_leader_state n.state))) [
    | inl over ↦ SameBallot-eq (rw (broadcast_from, peer, over) at h)
    | inr goes_on ↦ elim (Option-cases (broadcast_one id n)) [
      | inl fault ↦ cc (rw (broadcast_from, peer, goes_on, fault) at h)
      | inr (q, one) ↦
          SameBallot-trans (broadcast_one-SameBallot id n one)
            (broadcast_from-SameBallot k (id + 1) q (rw (broadcast_from, peer, goes_on, one) at h))
    ]
  ]
]
