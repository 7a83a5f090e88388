-- ===== src/Raft/Invariant/Steps.antt =====
-- Everything that happens to a node keeps the invariant (kvcluster/raft/raft.cpp).
use raft_drive.Prelude.{
  ℕ, ◌+◌, ◌-◌, ◌^◌, ◌≤◌, ◌<◌, ◌≡◌, sym, ap, subst, ◌∙◌, inl, inr, Bool, some, Option, ℤ,
  >>=-eq-some, arith, Bool-cases, length, eq_of_some-eq, Bytes, ltb, leb, [], ◌∷◌, length-append,
  length-drop, leb→lt, sub64,
}
use raft_drive.Json.{JsonLib}
use raft_drive.Raft.Types.{
  AppendEntriesReply, RequestVoteArgs, RequestVoteReply, InstallSnapshotArgs, InstallSnapshotReply,
  LogEntry,
}
use raft_drive.Raft.State.{Node, Env, is_leader_state, log_term}
use raft_drive.Raft.Persist.{persist}
use raft_drive.Raft.Roles.{start, kill, step_down, request_vote, on_vote_reply}
use raft_drive.Raft.Append.Finish.{Fits}
use raft_drive.Raft.Append.Handler.{append_entries-IsValid}
use raft_drive.Raft.Snapshot.{install_snapshot, snapshot, compact}
use raft_drive.Raft.Step.{
  Step, append_called, vote_called, install_called, vote_replied, append_replied, append_accepted,
  append_refused, install_replied, client_started, snapshot_taken, round, killed, task_taken,
  channel_read,
}
use raft_drive.Raft.Invariant.{IsValid}
use raft_drive.Raft.Invariant.Replies.{
  Returns, either, on_append_success-IsValid, on_append_reject-IsValid, on_append_reply-IsValid,
  on_install_reply-IsValid,
}
use raft_drive.Raft.Invariant.Valid.{main_round-IsValid, IsValid-eq, behind_guard}

Returns-IsValid : {o : Option Node} {m : Node} → Returns o → o ≡ some m → IsValid m
Returns-IsValid (k, e, v) h = IsValid-eq (sym e ∙ h) v

kill-IsValid : (n : Node) → IsValid n → IsValid (kill n)
unfolding kill
kill-IsValid n v = omega (arith, v)

module _ ⦃json : JsonLib⦄ where
  -- The index space has room for what the step brings, the reply is from a peer of the cluster, and a
  -- snapshot stands for what is applied.
  abbrev InBounds : {n m : Node} → Step n m → Type 0
  InBounds {n} (append_called env args reply h) = Fits args n
  InBounds {n} (install_called env args reply) = args.last_included_index + 1 < 2 ^ 64
  InBounds {n} (append_replied env id started args reply h) = id < n.peers
  InBounds {n} (append_accepted id args h) = id < n.peers
  InBounds {n} (append_refused id reply h) = id < n.peers
  InBounds {n} (install_replied env id reply h) = id < n.peers
  InBounds {n} (client_started command) = n.last_included_index + length n.logs + 1 < 2 ^ 64
  InBounds {n} (snapshot_taken index content h) = (index ≤ n.last_applied) × (index < 2 ^ 64)
  InBounds {n} (vote_called env args h) = Unit {0}
  InBounds {n} (vote_replied env reply) = Unit {0}
  InBounds {n} (round env head h) = Unit {0}
  InBounds {n} killed = Unit {0}
  InBounds {n} (task_taken t rest h) = Unit {0}
  InBounds {n} (channel_read c) = Unit {0}

  request_vote-IsValid :
      (env : Env) (args : RequestVoteArgs) (n : Node) {m : Node} {r : RequestVoteReply}
      → request_vote env args n ≡ some (m, r)
      → IsValid n
      → IsValid m
  unfolding request_vote step_down persist
  request_vote-IsValid env args n h v = ground arith

  on_vote_reply-IsValid :
      (env : Env) (reply : RequestVoteReply) (n : Node)
      → IsValid n
      → IsValid (on_vote_reply env reply n)
  unfolding on_vote_reply
  on_vote_reply-IsValid env reply n v = ground arith

  start-IsValid :
      (command : Bytes) (n : Node)
      → n.last_included_index + length n.logs + 1 < 2 ^ 64
      → IsValid n
      → IsValid (start command n).0
  unfolding start persist
  start-IsValid command n room v =
      let e : LogEntry = record { command = command; term = n.current_term } in
      either (λ (r : Node × ℤ × ℤ × Bool). IsValid r.0) (is_leader_state n.state)
        (omega (arith, v, length-append n.logs (e ∷ []))) v

  install_snapshot-IsValid :
      (env : Env) (args : InstallSnapshotArgs) (reply : InstallSnapshotReply) (n : Node)
      → args.last_included_index + 1 < 2 ^ 64
      → IsValid n
      → IsValid (install_snapshot env args reply n).0
  unfolding install_snapshot step_down persist
  install_snapshot-IsValid env args reply n room v = ground arith

  compact-IsValid :
      (index rel : ℕ) (content : Bytes) (t : ℕ) (n : Node)
      → index ≤ n.last_applied
      → rel ≡ index - n.last_included_index
      → n.last_included_index < index
      → rel < length n.logs
      → IsValid n
      → IsValid (compact index rel content t n)
  compact-IsValid index rel content t n low e above inside v =
      elim (Bool-cases (ltb (rel + 1) (length n.logs))) [
        | inl more ↦ rw more (omega (arith, v, length-drop (rel + 1) n.logs))
        | inr all ↦ rw all (omega (arith, v))
      ]

  snapshot-IsValid :
      (index : ℕ) (content : Bytes) (n : Node) {m : Node}
      → snapshot index content n ≡ some m
      → (index ≤ n.last_applied) × (index < 2 ^ 64)
      → IsValid n
      → IsValid m
  unfolding snapshot
  snapshot-IsValid index content n h low v =
      behind_guard (leb index n.last_included_index) h v (λ above g.
        behind_guard (leb (length n.logs) (sub64 index n.last_included_index)) g v (λ inside d.
          let (t, found, e) =
            >>=-eq-some (log_term n.logs (sub64 index n.last_included_index)) _ d in
          IsValid-eq e (
            compact-IsValid index (sub64 index n.last_included_index) content t n low.0
              (omega (arith, low, leb→lt _ _ above)) (leb→lt _ _ above) (leb→lt _ _ inside) v)))

  -- The invariant of a node: one that satisfies it satisfies it after any step, a handler, a reply, a
  -- round of the thread or a call of the client, if the index space has room for what the step brings,
  -- a reply is from a peer of the cluster, and a snapshot is of entries that are applied.
  pub Step-IsValid : {n m : Node} (s : Step n m) → InBounds s → IsValid n → IsValid m
  Step-IsValid {n} (append_called env args reply h) b v =
      let (k, r, e, w, accepts, term) = append_entries-IsValid env args reply n v b in
      subst IsValid (ap (λ (x : Node × AppendEntriesReply). x.0) (eq_of_some-eq (sym e ∙ h))) w
  Step-IsValid {n} (vote_called env args h) b v = request_vote-IsValid env args n h v
  Step-IsValid {n} (install_called env args reply) b v =
      install_snapshot-IsValid env args reply n b v
  Step-IsValid {n} (vote_replied env reply) b v = on_vote_reply-IsValid env reply n v
  Step-IsValid {n} (append_replied env id started args reply h) b v =
      Returns-IsValid (on_append_reply-IsValid env id started args reply n v b) h
  Step-IsValid {n} (append_accepted id args h) b v =
      Returns-IsValid (on_append_success-IsValid id args n v b) h
  Step-IsValid {n} (append_refused id reply h) b v =
      Returns-IsValid (on_append_reject-IsValid id reply n v b) h
  Step-IsValid {n} (install_replied env id reply h) b v =
      Returns-IsValid (on_install_reply-IsValid env id reply n v b) h
  Step-IsValid {n} (client_started command) b v = start-IsValid command n b v
  Step-IsValid {n} (snapshot_taken index content h) b v = snapshot-IsValid index content n h b v
  Step-IsValid {n} (round env head h) b v = main_round-IsValid env head n h v
  Step-IsValid {n} killed b v = kill-IsValid n v
  Step-IsValid {n} (task_taken t rest h) b v = omega (arith, v)
  Step-IsValid {n} (channel_read c) b v = omega (arith, v)
