-- ===== src/Raft/Durable/Logs.antt =====
-- The handlers of the log leave the state of the node on the persister (kvcluster/raft/raft.cpp).
use raft_drive.Prelude.{
  ℕ, ◌≡◌, subst, inl, inr, Bool, true, false, not, ◌||◌, ◌==◌, some, Option, Bool-cases,
  Option-cases, eq_of_some-eq, >>=-eq-some, get_elem?, ltb, leb, List,
}
use raft_drive.Json.{JsonLib}
use raft_drive.Raft.Types.{AppendEntriesArgs, AppendEntriesReply, InstallSnapshotReply}
use raft_drive.Raft.State.{Node, Env, is_leader_state}
use raft_drive.Raft.Persist.{state_json}
use raft_drive.Raft.Append.{
  append_entries, check_term, check_log, merge_entries, commit_entries, after_term, finish_append,
}
use raft_drive.Raft.Leader.{
  store_at, record_match, on_append_success, on_append_reject, on_append_reply, on_install_reply,
  backed_off,
}
use raft_drive.Raft.Invariant.Replies.{either}
use raft_drive.Raft.Durable.{Persisted}
use raft_drive.Raft.Durable.Moves.{
  step_down-Persisted, Persisted-eq, apply_committed-Persisted, update_commit_index-Persisted,
  trigger_install_snapshot-Persisted, persist-Persisted,
}

module _ ⦃json : JsonLib⦄ where
  check_term-Persisted :
      (env : Env) (args : AppendEntriesArgs) (reply : AppendEntriesReply) (n : Node)
      → Persisted n
      → Persisted (check_term env args reply n).0
  unfolding check_term state_json
  check_term-Persisted env args reply n h = elim (Bool-cases (ltb args.term n.current_term)) [
    | inl stale ↦ rw (check_term, stale) h
    | inr current ↦ elim (Bool-cases (ltb n.current_term args.term)) [
      | inl newer ↦ rw (check_term, current, newer) (step_down-Persisted env args.term n)
      | inr same ↦ rw (check_term, current, same) (record { state = h.state })
    ]
  ]

  merge_entries-Persisted : (args : AppendEntriesArgs) (n : Node) → Persisted (merge_entries args n)
  unfolding merge_entries
  merge_entries-Persisted args n = persist-Persisted _

  commit_entries-Persisted :
      (args : AppendEntriesArgs) (n : Node) {m : Node}
      → commit_entries args n ≡ some m
      → Persisted n
      → Persisted m
  unfolding commit_entries state_json
  commit_entries-Persisted args n e h = apply_committed-Persisted _ e (record { state = h.state })

  after_term-Persisted :
      (args : AppendEntriesArgs) (n : Node) (reply : AppendEntriesReply) (goes_on : Bool) {m : Node}
      {r : AppendEntriesReply}
      → after_term args (n, reply, goes_on) ≡ some (m, r)
      → Persisted n
      → Persisted m
  after_term-Persisted args n reply false e h = answered e h
    where
      answered :
          {p : Node × AppendEntriesReply} {m : Node} {r : AppendEntriesReply}
          → some p ≡ some (m, r)
          → Persisted p.0
          → Persisted m
      answered e v = subst (λ (x : Node × AppendEntriesReply). Persisted x.0) (eq_of_some-eq e) v
  after_term-Persisted args n reply true e h = elim (Option-cases (check_log args reply n)) [
    | inl fault ↦ cc (rw fault at e)
    | inr (checked, found) ↦ finish-Persisted checked (rw found at e)
  ]
    where
      finish-Persisted :
          (checked : AppendEntriesReply × Bool) {m : Node} {r : AppendEntriesReply}
          → finish_append args n checked ≡ some (m, r)
          → Persisted m
      finish-Persisted (refusal, false) e =
          subst (λ (x : Node × AppendEntriesReply). Persisted x.0) (eq_of_some-eq e) h
      finish-Persisted (refusal, true) e =
          let (q, done, last) = >>=-eq-some (commit_entries args (merge_entries args n)) _ e in
          subst (λ (x : Node × AppendEntriesReply). Persisted x.0) (eq_of_some-eq last)
            (commit_entries-Persisted args (merge_entries args n) done
              (merge_entries-Persisted args n))

  pub append_entries-Persisted :
      (env : Env) (args : AppendEntriesArgs) (reply : AppendEntriesReply) (n : Node) {m : Node}
      {r : AppendEntriesReply}
      → append_entries env args reply n ≡ some (m, r)
      → Persisted n
      → Persisted m
  unfolding append_entries
  append_entries-Persisted env args reply n e h =
      let c = check_term env args reply n in
      after_term-Persisted args c.0 c.1 c.2 e (check_term-Persisted env args reply n h)

  set_both-Persisted :
      (n : Node) (ms ns : List ℕ)
      → Persisted n
      → Persisted (record n { match_index = ms; next_index = ns })
  unfolding state_json
  set_both-Persisted n ms ns h = record { state = h.state }

  record_match-Persisted :
      (id : ℕ) (args : AppendEntriesArgs) (n : Node) {m : Node}
      → record_match id args n ≡ some m
      → Persisted n
      → Persisted m
  unfolding record_match
  record_match-Persisted id args n e h =
      let (old, hit, a) = >>=-eq-some (get_elem? n.match_index id) _ e in
      let (ms, put, b) = >>=-eq-some (store_at n.match_index id _) _ a in
      let (ns, also, c) = >>=-eq-some (store_at n.next_index id _) _ b in
      Persisted-eq c (set_both-Persisted n ms ns h)

  pub on_append_success-Persisted :
      (id : ℕ) (args : AppendEntriesArgs) (n : Node) {m : Node}
      → on_append_success id args n ≡ some m
      → Persisted n
      → Persisted m
  unfolding on_append_success
  on_append_success-Persisted id args n e h =
      elim (Bool-cases (n.dead || not (is_leader_state n.state))) [
        | inl over ↦ Persisted-eq (rw (on_append_success, over) at e) h
        | inr leads ↦
            let (k, found, d) =
              >>=-eq-some (record_match id args n) _ (rw (on_append_success, leads) at e) in
            apply_committed-Persisted _ d
              (update_commit_index-Persisted k (record_match-Persisted id args n found h))
      ]

  pub on_append_reject-Persisted :
      (id : ℕ) (reply : AppendEntriesReply) (n : Node) {m : Node}
      → on_append_reject id reply n ≡ some m
      → Persisted n
      → Persisted m
  unfolding on_append_reject
  on_append_reject-Persisted id reply n e h =
      elim (Bool-cases (n.dead || not (is_leader_state n.state))) [
        | inl over ↦ Persisted-eq (rw (on_append_reject, over) at e) h
        | inr leads ↦
            let (old, hit, a) =
              >>=-eq-some (get_elem? n.next_index id) _ (rw (on_append_reject, leads) at e) in
            let (ns, put, b) =
              >>=-eq-some (store_at n.next_index id (backed_off old reply n)) _ a in
            let moved : Persisted (record n { next_index = ns }) =
              set_both-Persisted n n.match_index ns h in
            Persisted-eq b (
              either Persisted (leb (backed_off old reply n) n.last_included_index)
                (trigger_install_snapshot-Persisted id (record n { next_index = ns }) moved) moved)
      ]

  pub on_append_reply-Persisted :
      (env : Env) (id started : ℕ) (args : AppendEntriesArgs) (reply : AppendEntriesReply)
      (n : Node) {m : Node}
      → on_append_reply env id started args reply n ≡ some m
      → Persisted n
      → Persisted m
  unfolding on_append_reply
  on_append_reply-Persisted env id started args reply n {m} e h =
      elim (Bool-cases
        (n.dead || not (is_leader_state n.state) || not (n.current_term == started))) [
          | inl over ↦ Persisted-eq (rw (on_append_reply, over) at e) h
          | inr leads ↦ elim (Bool-cases (ltb n.current_term reply.term)) [
            | inl behind ↦
                Persisted-eq (rw (on_append_reply, leads, behind) at e)
                  (step_down-Persisted env reply.term n)
            | inr current ↦
                either (λ (o : Option Node). o ≡ some m → Persisted m) reply.success
                  (λ d. on_append_success-Persisted id args n d h)
                  (λ d. on_append_reject-Persisted id reply n d h)
                  (rw (on_append_reply, leads, current) at e)
          ]
        ]

  pub on_install_reply-Persisted :
      (env : Env) (id : ℕ) (reply : InstallSnapshotReply) (n : Node) {m : Node}
      → on_install_reply env id reply n ≡ some m
      → Persisted n
      → Persisted m
  unfolding on_install_reply
  on_install_reply-Persisted env id reply n {m} e h =
      elim (Bool-cases (n.dead || not (is_leader_state n.state))) [
        | inl over ↦ Persisted-eq (rw (on_install_reply, over) at e) h
        | inr leads ↦ elim (Bool-cases (ltb n.current_term reply.term)) [
          | inl behind ↦
              Persisted-eq (rw (on_install_reply, leads, behind) at e)
                (step_down-Persisted env reply.term n)
          | inr current ↦
              let (ms, put, a) =
                >>=-eq-some (store_at n.match_index id n.last_included_index) _
                  (rw (on_install_reply, leads, current) at e) in
              let (ns, also, b) = >>=-eq-some (store_at n.next_index id _) _ a in
              Persisted-eq b (set_both-Persisted n ms ns h)
        ]
      ]
