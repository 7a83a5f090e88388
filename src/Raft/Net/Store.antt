-- ===== src/Raft/Net/Store.antt =====
-- The handlers that leave a node's log alone, and its calls of `appendEntries` that wait
-- (kvcluster/raft/raft.cpp).
use raft_drive.Prelude.{
  ℕ, zero, suc, ◌+◌, ◌≡◌, refl, subst, ◌∙◌, inl, inr, Bool, true, false, not, ◌||◌, List, some,
  arith, Bool-cases, Option-cases, eq_of_some-eq, get_elem?, sub64, leb, if◌then◌else◌, int_eq_iff,
  minus_one,
}
use raft_drive.Json.{JsonLib}
use raft_drive.Raft.Types.{
  AppendEntriesArgs, AppendEntriesReply, RequestVoteArgs, RequestVoteReply, InstallSnapshotReply,
}
use raft_drive.Raft.State.{Node, Env, is_leader_state, save_raft_state}
use raft_drive.Raft.Persist.{persist}
use raft_drive.Raft.Roles.{kill, request_vote, on_vote_reply, step_down}
use raft_drive.Raft.Append.{apply_committed, apply_rounds, apply_one, commit_entries}
use raft_drive.Raft.Leader.{
  backed_off, store_at, on_append_reply, on_install_reply, record_match, on_append_success,
  on_append_reject, trigger_install_snapshot, update_commit_index,
}
use raft_drive.Raft.Net.Queue.{append_queue, append_queue-install_snapshot}

-- The log, the place where it begins, the snapshot on the persister, and the calls that wait are as
-- they were.
pub record SameStore (n m : Node) : Type 0 where
  pub logs : m.logs ≡ n.logs
  pub included : m.last_included_index ≡ n.last_included_index
  pub snapshot : m.persister.snapshot ≡ n.persister.snapshot
  pub queue : append_queue m.tasks ≡ append_queue n.tasks

pub SameStore-refl : (n : Node) → SameStore n n
SameStore-refl n = record { logs = refl; included = refl; snapshot = refl; queue = refl }

pub SameStore-trans : {n m k : Node} → SameStore n m → SameStore m k → SameStore n k
SameStore-trans s t = record {
  logs = t.logs ∙ s.logs;
  included = t.included ∙ s.included;
  snapshot = t.snapshot ∙ s.snapshot;
  queue = t.queue ∙ s.queue;
}

pub SameStore-eq : {n m : Node} → some n ≡ some m → SameStore n m
SameStore-eq {n} e = subst (λ x. SameStore n x) (eq_of_some-eq e) (SameStore-refl n)

pub trigger_install_snapshot-SameStore :
    (id : ℕ) (n : Node) → SameStore n (trigger_install_snapshot id n)
unfolding trigger_install_snapshot
trigger_install_snapshot-SameStore id n =
    elim (Bool-cases (n.dead || not (is_leader_state n.state))) [
      | inl over ↦ rw over (SameStore-refl n)
      | inr leads ↦ rw leads (record {
        logs = refl;
        included = refl;
        snapshot = refl;
        queue = append_queue-install_snapshot n.tasks id _;
      })
    ]

apply_rounds-SameStore : (k : ℕ) (n : Node) {m : Node} → apply_rounds k n ≡ some m → SameStore n m
unfolding apply_rounds apply_one
apply_rounds-SameStore zero n h = SameStore-eq h
apply_rounds-SameStore (suc k) n h =
    elim (Option-cases (get_elem? n.logs (sub64 (n.last_applied + 1) n.last_included_index))) [
      | inl miss ↦ cc (rw (apply_rounds, apply_one, miss) at h)
      | inr (e, hit) ↦
          let rest = apply_rounds-SameStore k _ (rw (apply_rounds, apply_one, hit) at h) in
          record {
            logs = rest.logs;
            included = rest.included;
            snapshot = rest.snapshot;
            queue = rest.queue;
          }
    ]

apply_committed-SameStore : (n : Node) {m : Node} → apply_committed n ≡ some m → SameStore n m
unfolding apply_committed
apply_committed-SameStore n h = apply_rounds-SameStore _ n h

pub commit_entries-SameStore :
    (args : AppendEntriesArgs) (n : Node) {m : Node}
    → commit_entries args n ≡ some m
    → SameStore n m
unfolding commit_entries
commit_entries-SameStore args n h =
    let same = apply_committed-SameStore _ h in
    record {
      logs = same.logs;
      included = same.included;
      snapshot = same.snapshot;
      queue = same.queue;
    }

record_match-SameStore :
    (id : ℕ) (args : AppendEntriesArgs) (n : Node) {m : Node}
    → record_match id args n ≡ some m
    → SameStore n m
unfolding record_match
record_match-SameStore id args n h = ground arith

update_commit_index-SameStore : (n : Node) → SameStore n (update_commit_index n)
unfolding update_commit_index
update_commit_index-SameStore n = ground arith

pub on_append_success-SameStore :
    (id : ℕ) (args : AppendEntriesArgs) (n : Node) {m : Node}
    → on_append_success id args n ≡ some m
    → SameStore n m
unfolding on_append_success
on_append_success-SameStore id args n h =
    elim (Bool-cases (n.dead || not (is_leader_state n.state))) [
      | inl over ↦ SameStore-eq (rw (on_append_success, over) at h)
      | inr leads ↦ elim (Option-cases (record_match id args n)) [
        | inl fault ↦ cc (rw (on_append_success, leads, fault) at h)
        | inr (moved, found) ↦ SameStore-trans (record_match-SameStore id args n found) (
            SameStore-trans (update_commit_index-SameStore moved)
              (apply_committed-SameStore _ (rw (on_append_success, leads, found) at h)))
      ]
    ]

pub on_append_reject-SameStore :
    (id : ℕ) (reply : AppendEntriesReply) (n : Node) {m : Node}
    → on_append_reject id reply n ≡ some m
    → SameStore n m
unfolding on_append_reject
on_append_reject-SameStore id reply n {m} h =
    elim (Bool-cases (n.dead || not (is_leader_state n.state))) [
      | inl over ↦ SameStore-eq (rw (on_append_reject, over) at h)
      | inr leads ↦ elim (Option-cases (get_elem? n.next_index id)) [
        | inl miss ↦ cc (rw (on_append_reject, leads, miss) at h)
        | inr (old, hit) ↦
            let next = backed_off old reply n in
            elim (Option-cases (store_at n.next_index id next)) [
              | inl fault ↦ cc (rw (on_append_reject, leads, hit, fault) at h)
              | inr (ns, put) ↦
                  moved (leb next n.last_included_index) ns
                    (rw (on_append_reject, leads, hit, put) at h)
            ]
      ]
    ]
  where
    next_set : (ns : List ℕ) → SameStore n (record n { next_index = ns })
    next_set ns = ground arith

    moved :
        (behind : Bool) (ns : List ℕ) {k : Node}
        → some (
            if behind
            then trigger_install_snapshot id (record n { next_index = ns })
            else record n { next_index = ns })
          ≡ some k
        → SameStore n k
    moved true ns e = SameStore-trans (next_set ns) (
        subst (λ x. SameStore (record n { next_index = ns }) x) (eq_of_some-eq e)
          (trigger_install_snapshot-SameStore id (record n { next_index = ns })))
    moved false ns e = subst (λ x. SameStore n x) (eq_of_some-eq e) (next_set ns)

module _ ⦃json : JsonLib⦄ where
  pub request_vote-SameStore :
      (env : Env) (args : RequestVoteArgs) (n : Node) {m : Node} {r : RequestVoteReply}
      → request_vote env args n ≡ some (m, r)
      → SameStore n m
  unfolding request_vote step_down persist save_raft_state
  request_vote-SameStore env args n h =
      ground (arith, int_eq_iff n.voted_for minus_one, int_eq_iff n.voted_for args.candidate_id)

  pub on_vote_reply-SameStore :
      (env : Env) (reply : RequestVoteReply) (n : Node) → SameStore n (on_vote_reply env reply n)
  unfolding on_vote_reply step_down persist save_raft_state
  on_vote_reply-SameStore env reply n = ground arith

  pub on_append_reply-SameStore :
      (env : Env) (id started : ℕ) (args : AppendEntriesArgs) (reply : AppendEntriesReply)
      (n : Node) {m : Node}
      → on_append_reply env id started args reply n ≡ some m
      → SameStore n m
  unfolding on_append_reply step_down persist save_raft_state
  on_append_reply-SameStore env id started args reply n {m} h = ground (
    arith,
    on_append_success-SameStore id args n {m = m},
    on_append_reject-SameStore id reply n {m = m},
  )

  pub on_install_reply-SameStore :
      (env : Env) (id : ℕ) (reply : InstallSnapshotReply) (n : Node) {m : Node}
      → on_install_reply env id reply n ≡ some m
      → SameStore n m
  unfolding on_install_reply step_down persist save_raft_state
  on_install_reply-SameStore env id reply n h = ground arith

  pub kill-SameStore : (n : Node) → SameStore n (kill n)
  unfolding kill
  kill-SameStore n = ground arith
