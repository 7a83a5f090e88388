-- ===== src/Raft/Ballot/Moves.antt =====
-- What the handlers of calls and replies do to elections (kvcluster/raft/raft.cpp).
use raft_drive.Prelude.{
  ℕ, ◌≡◌, ap, subst, inl, inr, Bool, true, false, not, ◌||◌, some, arith, Bool-cases, Option-cases,
  eq_of_some-eq, >>=-eq-some, Bytes, minus_one, int_eq_iff, get_elem?, List, leb, if◌then◌else◌,
}
use raft_drive.Json.{JsonLib}
use raft_drive.Raft.Types.{
  AppendEntriesArgs, AppendEntriesReply, RequestVoteArgs, RequestVoteReply, InstallSnapshotArgs,
  InstallSnapshotReply,
}
use raft_drive.Raft.State.{Node, Env, is_leader_state}
use raft_drive.Raft.Roles.{start, request_vote}
use raft_drive.Raft.Append.{
  append_entries, check_term, check_log, merge_entries, commit_entries, after_term, finish_append,
}
use raft_drive.Raft.Leader.{
  backed_off, store_at, on_append_reply, on_install_reply, record_match, on_append_success,
  on_append_reject, trigger_install_snapshot,
}
use raft_drive.Raft.Snapshot.{install_snapshot, snapshot}
use raft_drive.Raft.Ballot.Defs.{SameBallot, SameBallot-trans, SameBallot-eq, Calm, Calm-then_same}
use raft_drive.Raft.Ballot.Frames.{
  trigger_install_snapshot-SameBallot, apply_committed-SameBallot, commit_entries-SameBallot,
  record_match-SameBallot, update_commit_index-SameBallot,
}

module _ ⦃json : JsonLib⦄ where
  pub request_vote-Calm :
      (env : Env) (args : RequestVoteArgs) (n : Node) {m : Node} {r : RequestVoteReply}
      → request_vote env args n ≡ some (m, r)
      → Calm n m
  unfolding request_vote
  request_vote-Calm env args n h =
      ground (arith, int_eq_iff n.voted_for minus_one, int_eq_iff n.voted_for args.candidate_id)

  pub install_snapshot-Calm :
      (env : Env) (args : InstallSnapshotArgs) (reply : InstallSnapshotReply) (n : Node)
      → Calm n (install_snapshot env args reply n).0
  unfolding install_snapshot
  install_snapshot-Calm env args reply n = ground arith

  pub start-SameBallot : (command : Bytes) (n : Node) → SameBallot n (start command n).0
  unfolding start
  start-SameBallot command n = ground arith

  check_term-Calm :
      (env : Env) (args : AppendEntriesArgs) (reply : AppendEntriesReply) (n : Node)
      → Calm n (check_term env args reply n).0
  unfolding check_term
  check_term-Calm env args reply n = ground arith

  merge_entries-SameBallot :
      (args : AppendEntriesArgs) (n : Node) → SameBallot n (merge_entries args n)
  unfolding merge_entries
  merge_entries-SameBallot args n = ground arith

  pub after_term-SameBallot :
      (args : AppendEntriesArgs) (n : Node) (reply : AppendEntriesReply) (goes_on : Bool) {m : Node}
      {r : AppendEntriesReply}
      → after_term args (n, reply, goes_on) ≡ some (m, r)
      → SameBallot n m
  after_term-SameBallot args n reply false h = ground arith
  after_term-SameBallot args n reply true h = elim (Option-cases (check_log args reply n)) [
    | inl fault ↦ cc (rw fault at h)
    | inr (checked, found) ↦ finish-SameBallot checked (rw found at h)
  ]
    where
      finish-SameBallot :
          (checked : AppendEntriesReply × Bool) {m : Node} {r : AppendEntriesReply}
          → finish_append args n checked ≡ some (m, r)
          → SameBallot n m
      finish-SameBallot (refusal, false) h = ground arith
      finish-SameBallot (refusal, true) h =
          let (q, done, e) = >>=-eq-some (commit_entries args (merge_entries args n)) _ h in
          let same = commit_entries-SameBallot args (merge_entries args n) done in
          let last : q ≡ _ = ap (λ (x : Node × AppendEntriesReply). x.0) (eq_of_some-eq e) in
          subst (λ x. SameBallot n x) last (SameBallot-trans (merge_entries-SameBallot args n) same)

  pub append_entries-Calm :
      (env : Env) (args : AppendEntriesArgs) (reply : AppendEntriesReply) (n : Node) {m : Node}
      {r : AppendEntriesReply}
      → append_entries env args reply n ≡ some (m, r)
      → Calm n m
  unfolding append_entries
  append_entries-Calm env args reply n h =
      let c = check_term env args reply n in
      Calm-then_same n (check_term-Calm env args reply n) (after_term-SameBallot args c.0 c.1 c.2 h)

  pub on_append_success-SameBallot :
      (id : ℕ) (args : AppendEntriesArgs) (n : Node) {m : Node}
      → on_append_success id args n ≡ some m
      → SameBallot n m
  unfolding on_append_success
  on_append_success-SameBallot id args n h =
      elim (Bool-cases (n.dead || not (is_leader_state n.state))) [
        | inl over ↦ SameBallot-eq (rw (on_append_success, over) at h)
        | inr leads ↦ elim (Option-cases (record_match id args n)) [
          | inl fault ↦ cc (rw (on_append_success, leads, fault) at h)
          | inr (moved, found) ↦ SameBallot-trans (record_match-SameBallot id args n found) (
              SameBallot-trans (update_commit_index-SameBallot moved)
                (apply_committed-SameBallot _ (rw (on_append_success, leads, found) at h)))
        ]
      ]

  set_next-SameBallot : (n : Node) (ns : List ℕ) → SameBallot n (record n { next_index = ns })
  set_next-SameBallot n ns = ground arith

  moved-SameBallot :
      (id : ℕ) (n : Node) (ns : List ℕ) (behind : Bool) {m : Node}
      → some (
          if behind
          then trigger_install_snapshot id (record n { next_index = ns })
          else record n { next_index = ns })
        ≡ some m
      → SameBallot n m
  moved-SameBallot id n ns behind {m} h = elim (Bool-cases behind) [
    | inl e ↦
        subst (λ x. SameBallot n x) (eq_of_some-eq (rw e at h))
          (SameBallot-trans (set_next-SameBallot n ns)
            (trigger_install_snapshot-SameBallot id (record n { next_index = ns })))
    | inr e ↦ subst (λ x. SameBallot n x) (eq_of_some-eq (rw e at h)) (set_next-SameBallot n ns)
  ]

  pub on_append_reject-SameBallot :
      (id : ℕ) (reply : AppendEntriesReply) (n : Node) {m : Node}
      → on_append_reject id reply n ≡ some m
      → SameBallot n m
  unfolding on_append_reject
  on_append_reject-SameBallot id reply n {m} h =
      elim (Bool-cases (n.dead || not (is_leader_state n.state))) [
        | inl over ↦ SameBallot-eq (rw (on_append_reject, over) at h)
        | inr leads ↦ elim (Option-cases (get_elem? n.next_index id)) [
          | inl miss ↦ cc (rw (on_append_reject, leads, miss) at h)
          | inr (old, hit) ↦
              let next = backed_off old reply n in
              elim (Option-cases (store_at n.next_index id next)) [
                | inl fault ↦ cc (rw (on_append_reject, leads, hit, fault) at h)
                | inr (ns, put) ↦
                    moved-SameBallot id n ns (leb next n.last_included_index)
                      (rw (on_append_reject, leads, hit, put) at h)
              ]
        ]
      ]

  pub on_append_reply-Calm :
      (env : Env) (id term_started : ℕ) (args : AppendEntriesArgs) (reply : AppendEntriesReply)
      (n : Node) {m : Node}
      → on_append_reply env id term_started args reply n ≡ some m
      → Calm n m
  unfolding on_append_reply
  on_append_reply-Calm env id term_started args reply n {m} h = ground (
    arith,
    on_append_success-SameBallot id args n {m = m},
    on_append_reject-SameBallot id reply n {m = m},
  )

  pub on_install_reply-Calm :
      (env : Env) (id : ℕ) (reply : InstallSnapshotReply) (n : Node) {m : Node}
      → on_install_reply env id reply n ≡ some m
      → Calm n m
  unfolding on_install_reply
  on_install_reply-Calm env id reply n h = ground arith

  pub snapshot-SameBallot :
      (index : ℕ) (content : Bytes) (n : Node) {m : Node}
      → snapshot index content n ≡ some m
      → SameBallot n m
  unfolding snapshot
  snapshot-SameBallot index content n h = ground arith
