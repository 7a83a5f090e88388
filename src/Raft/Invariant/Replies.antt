-- ===== src/Raft/Invariant/Replies.antt =====
-- The replies to a leader's calls keep the invariant, and the leader reads nothing outside of its log
-- and its vectors (the lambdas of `broadcastAppendEntries` and `helperTriggerInstallSnapshot`,
-- kvcluster/raft/raft.cpp).
use raft_drive.Prelude.{
  ℕ, ◌+◌, ◌≤◌, ◌<◌, ◌≡◌, refl, ◌⊎◌, inl, inr, Bool, true, false, not, ◌||◌, ◌==◌, ◌>>=◌, List, some,
  Option, arith, Bool-cases, if◌then◌else◌, length, set, max, u64, ltb, leb, get_elem?-some,
  length-set,
}
use raft_drive.Json.{JsonLib}
use raft_drive.Raft.Types.{AppendEntriesArgs, AppendEntriesReply, InstallSnapshotReply}
use raft_drive.Raft.State.{Node, Env, is_leader_state}
use raft_drive.Raft.Persist.{persist}
use raft_drive.Raft.Roles.{step_down, last_log_index}
use raft_drive.Raft.Append.{apply_committed}
use raft_drive.Raft.Append.Apply.{apply_committed_lem}
use raft_drive.Raft.Leader.{
  store_at, record_match, on_append_success, on_append_reject, on_append_reply, on_install_reply,
  update_commit_index, trigger_install_snapshot, backed_off,
}
use raft_drive.Raft.Commit.{find_commit_lem}
use raft_drive.Raft.Invariant.{IsValid}

-- What holds on both branches.
pub either {ℓ κ} :
    {A : Type ℓ} (P : A → Type κ) (b : Bool) {x y : A} → P x → P y → P (if b then x else y)
either P true p q = p
either P false p q = q

-- The handler returns a node that satisfies the invariant.
abbrev pub Returns : Option Node → Type 0
Returns o = (m : Node) × (o ≡ some m) × IsValid m

store_at-some : (xs : List ℕ) (i v : ℕ) → i < length xs → store_at xs i v ≡ some (set xs i v)
unfolding store_at
store_at-some xs i v b = let (x, hit) = get_elem?-some xs i b in rw (store_at, hit) refl

-- The two vectors are written, and keep their lengths.
set_both-IsValid :
    (n : Node) (i a b : ℕ)
    → IsValid n
    → IsValid (record n { match_index = set n.match_index i a; next_index = set n.next_index i b })
set_both-IsValid n i a b v =
    omega (arith, v, length-set n.match_index i a, length-set n.next_index i b)

trigger_install_snapshot-IsValid :
    (id : ℕ) (n : Node) → IsValid n → IsValid (trigger_install_snapshot id n)
unfolding trigger_install_snapshot
trigger_install_snapshot-IsValid id n v =
    elim (Bool-cases (n.dead || not (is_leader_state n.state))) [
      | inl over ↦ rw over v
      | inr leads ↦ rw leads (omega (arith, v))
    ]

record_match-IsValid :
    (id : ℕ) (args : AppendEntriesArgs) (n : Node)
    → IsValid n
    → id < n.peers
    → Returns (record_match id args n)
unfolding record_match
record_match-IsValid id args n v b =
    let (old, hit) = get_elem?-some n.match_index id (omega (arith, v)) in
    let match = max old (u64 (args.pre_log_index + length args.entries)) in
    (
      _,
      rw
          (
            hit,
            store_at-some n.match_index id match (omega (arith, v)),
            store_at-some n.next_index id (u64 (match + 1)) (omega (arith, v)),
          )
          refl,
      set_both-IsValid n id match (u64 (match + 1)) v,
    )

apply_committed-IsValid :
    (n : Node)
    → IsValid (record n { commit_index = 0 })
    → (n.commit_index ≤ n.last_applied) ⊎ (n.commit_index < n.last_included_index + length n.logs)
    → Returns (apply_committed n)
apply_committed-IsValid n v reach =
    (_, apply_committed_lem n v.applied_from v.fits reach, omega (arith, v))

-- The commit index that the leader finds is in its log, and the apply loop catches up with it.
commit-IsValid : (n : Node) → IsValid n → Returns (apply_committed (update_commit_index n))
unfolding update_commit_index last_log_index
commit-IsValid n v =
    elim (Bool-cases (n.dead || not (is_leader_state n.state) || length n.logs == 0)) [
      | inl over ↦ rw (update_commit_index, over) (as_it_is n v)
      | inr leads ↦ elim (find_commit_lem (last_log_index n) n) [
        | inl e ↦ rw (update_commit_index, leads, e) (as_it_is n v)
        | inr (index, e, low, up, c) ↦
            rw (update_commit_index, leads, e)
              (apply_committed-IsValid (record n { commit_index = index }) (omega (arith, v))
                (inr (omega (arith, v, up))))
      ]
    ]
  where
    as_it_is : (n : Node) → IsValid n → Returns (apply_committed n)
    as_it_is n v = apply_committed-IsValid n (omega (arith, v)) (inl v.committed)

record_match-commit-IsValid :
    (id : ℕ) (args : AppendEntriesArgs) (n : Node)
    → IsValid n
    → id < n.peers
    → Returns (record_match id args n >>= (λ m. apply_committed (update_commit_index m)))
record_match-commit-IsValid id args n v b =
    let (m, e, w) = record_match-IsValid id args n v b in rw e (commit-IsValid m w)

pub on_append_success-IsValid :
    (id : ℕ) (args : AppendEntriesArgs) (n : Node)
    → IsValid n
    → id < n.peers
    → Returns (on_append_success id args n)
unfolding on_append_success
on_append_success-IsValid id args n v b =
    elim (Bool-cases (n.dead || not (is_leader_state n.state))) [
      | inl over ↦ rw (on_append_success, over) (n, refl, v)
      | inr leads ↦ rw (on_append_success, leads) (record_match-commit-IsValid id args n v b)
    ]

pub on_append_reject-IsValid :
    (id : ℕ) (reply : AppendEntriesReply) (n : Node)
    → IsValid n
    → id < n.peers
    → Returns (on_append_reject id reply n)
unfolding on_append_reject
on_append_reject-IsValid id reply n v b =
    elim (Bool-cases (n.dead || not (is_leader_state n.state))) [
      | inl over ↦ rw (on_append_reject, over) (n, refl, v)
      | inr leads ↦
          let (old, hit) = get_elem?-some n.next_index id (omega (arith, v)) in
          let next = backed_off old reply n in
          let put = store_at-some n.next_index id next (omega (arith, v)) in
          let w : IsValid (record n { next_index = set n.next_index id next }) =
            omega (arith, v, length-set n.next_index id next) in
          rw (on_append_reject, leads, hit, put)
            (
              _,
              refl,
              either IsValid (leb next n.last_included_index)
                  (trigger_install_snapshot-IsValid id _ w) w,
            )
    ]

module _ ⦃json : JsonLib⦄ where
  step_down-IsValid : (env : Env) (term : ℕ) (n : Node) → IsValid n → IsValid (step_down env term n)
  unfolding step_down persist
  step_down-IsValid env term n v = omega (arith, v)

  -- A node that satisfies the invariant gets the reply of a peer to its `appendEntries`: whatever the
  -- reply says, the handler returns a node that satisfies the invariant, reading and writing nothing
  -- outside of the log and of the two vectors.
  pub on_append_reply-IsValid :
      (env : Env) (id started : ℕ) (args : AppendEntriesArgs) (reply : AppendEntriesReply)
      (n : Node)
      → IsValid n
      → id < n.peers
      → (m : Node) × (on_append_reply env id started args reply n ≡ some m) × IsValid m
  unfolding on_append_reply
  on_append_reply-IsValid env id started args reply n v b =
      elim (Bool-cases
        (n.dead || not (is_leader_state n.state) || not (n.current_term == started))) [
          | inl over ↦ rw (on_append_reply, over) (n, refl, v)
          | inr leads ↦ elim (Bool-cases (ltb n.current_term reply.term)) [
            | inl behind ↦
                rw (on_append_reply, leads, behind) (_, refl, step_down-IsValid env reply.term n v)
            | inr current ↦
                rw (on_append_reply, leads, current)
                  (either Returns reply.success (on_append_success-IsValid id args n v b)
                    (on_append_reject-IsValid id reply n v b))
          ]
        ]

  pub on_install_reply-IsValid :
      (env : Env) (id : ℕ) (reply : InstallSnapshotReply) (n : Node)
      → IsValid n
      → id < n.peers
      → Returns (on_install_reply env id reply n)
  unfolding on_install_reply
  on_install_reply-IsValid env id reply n v b =
      elim (Bool-cases (n.dead || not (is_leader_state n.state))) [
        | inl over ↦ rw (on_install_reply, over) (n, refl, v)
        | inr leads ↦ elim (Bool-cases (ltb n.current_term reply.term)) [
          | inl behind ↦
              rw (on_install_reply, leads, behind) (_, refl, step_down-IsValid env reply.term n v)
          | inr current ↦
              rw
                (
                  on_install_reply,
                  leads,
                  current,
                  store_at-some n.match_index id n.last_included_index (omega (arith, v)),
                  store_at-some n.next_index id (u64 (n.last_included_index + 1))
                      (omega (arith, v)),
                )
                (
                  _,
                  refl,
                  set_both-IsValid n id n.last_included_index (u64 (n.last_included_index + 1)) v,
                )
        ]
      ]
