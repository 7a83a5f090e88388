-- ===== src/Raft/Durable/Steps.antt =====
-- Everything but a snapshot leaves the node's state on its persister, and a restart takes it up
-- (kvcluster/raft/raft.cpp).
use raft_drive.Prelude.{
  ◌^◌, ◌<◌, ◌≡◌, refl, sym, ap, ◌∙◌, List, Bool, true, false, some, drop, IsInt,
}
use raft_drive.Json.{JsonLib}
use raft_drive.Raft.State.{Node, Task, Persister}
use raft_drive.Raft.Types.{ApplyChannel}
use raft_drive.Raft.Persist.{persist, read_persist, state_json}
use raft_drive.Raft.Roles.{kill}
use raft_drive.Raft.Step.{
  Step, append_called, vote_called, install_called, vote_replied, append_replied, append_accepted,
  append_refused, install_replied, client_started, snapshot_taken, round, killed, task_taken,
  channel_read,
}
use raft_drive.Raft.Restart.{storable, read_persist-persist}
use raft_drive.Raft.Durable.{Persisted}
use raft_drive.Raft.Durable.Moves.{
  main_round-Persisted, request_vote-Persisted, on_vote_reply-Persisted, start-Persisted,
  install_snapshot-Persisted,
}
use raft_drive.Raft.Durable.Logs.{
  append_entries-Persisted, on_append_success-Persisted, on_append_reject-Persisted,
  on_append_reply-Persisted, on_install_reply-Persisted,
}

module _ ⦃json : JsonLib⦄ where
  abbrev takes_snapshot : {n m : Node} → Step n m → Bool
  takes_snapshot (snapshot_taken index content h) = true
  takes_snapshot (append_called env args reply h) = false
  takes_snapshot (vote_called env args h) = false
  takes_snapshot (install_called env args reply) = false
  takes_snapshot (vote_replied env reply) = false
  takes_snapshot (append_replied env id started args reply h) = false
  takes_snapshot (append_accepted id args h) = false
  takes_snapshot (append_refused id reply h) = false
  takes_snapshot (install_replied env id reply h) = false
  takes_snapshot (client_started command) = false
  takes_snapshot (round env head h) = false
  takes_snapshot killed = false
  takes_snapshot (task_taken t rest h) = false
  takes_snapshot (channel_read c) = false

  kill-Persisted : (n : Node) → Persisted n → Persisted (kill n)
  unfolding kill state_json
  kill-Persisted n h = record { state = h.state }

  tasks-Persisted : (n : Node) (ts : List Task) → Persisted n → Persisted (record n { tasks = ts })
  unfolding state_json
  tasks-Persisted n ts h = record { state = h.state }

  channel-Persisted :
      (n : Node) (c : ApplyChannel) → Persisted n → Persisted (record n { apply_channel = c })
  unfolding state_json
  channel-Persisted n c h = record { state = h.state }

  Step-Persisted :
      {n m : Node} (s : Step n m) → takes_snapshot s ≡ false → Persisted n → Persisted m
  Step-Persisted {n} (append_called env args reply e) quiet h =
      append_entries-Persisted env args reply n e h
  Step-Persisted {n} (vote_called env args e) quiet h = request_vote-Persisted env args n e h
  Step-Persisted {n} (install_called env args reply) quiet h =
      install_snapshot-Persisted env args reply n h
  Step-Persisted {n} (vote_replied env reply) quiet h = on_vote_reply-Persisted env reply n h
  Step-Persisted {n} (append_replied env id started args reply e) quiet h =
      on_append_reply-Persisted env id started args reply n e h
  Step-Persisted {n} (append_accepted id args e) quiet h = on_append_success-Persisted id args n e h
  Step-Persisted {n} (append_refused id reply e) quiet h = on_append_reject-Persisted id reply n e h
  Step-Persisted {n} (install_replied env id reply e) quiet h =
      on_install_reply-Persisted env id reply n e h
  Step-Persisted {n} (client_started command) quiet h = start-Persisted command n h
  Step-Persisted {n} (snapshot_taken index content e) quiet h = absurd (cc quiet)
  Step-Persisted {n} (round env head e) quiet h = main_round-Persisted env head n e h
  Step-Persisted {n} killed quiet h = kill-Persisted n h
  Step-Persisted {n} (task_taken t rest e) quiet h = tasks-Persisted n rest h
  Step-Persisted {n} (channel_read c) quiet h = channel-Persisted n c h

  -- Any number of steps with no snapshot among them.
  pub data Session (n : Node) : Node → Type 0 where
    begun : Session n n
    goes_on : {m k : Node} → Session n m → (s : Step m k) → takes_snapshot s ≡ false → Session n k

  Session-Persisted : {n m : Node} → Session n m → Persisted n → Persisted m
  Session-Persisted begun h = h
  Session-Persisted (goes_on r s quiet) h = Step-Persisted s quiet (Session-Persisted r h)

  persist-raftstate : (m : Node) → (persist m).persister.raftstate ≡ json.dump (state_json m)
  unfolding persist
  persist-raftstate m = refl

  -- A node starts with its term, its vote and its log on its persister, and goes through any handlers,
  -- replies, rounds of the thread and calls of the client but `snapshot`, in any order. A node that is
  -- then started on the same persister has the term, the vote and the entries behind the first one
  -- that the node had, when the commands are texts that JSON can hold and the numbers are in the
  -- ranges of their types.
  pub restart_resumes :
      {n m : Node} (k : Node)
      → Persisted n
      → Session n m
      → k.persister ≡ m.persister
      → storable json.is_text (drop 1 m.logs) ≡ true
      → m.current_term < 2 ^ 32
      → IsInt m.voted_for
      → (r : Node) × (read_persist k ≡ some r)
        × (r.current_term ≡ m.current_term)
        × (r.voted_for ≡ m.voted_for)
        × (drop 1 r.logs ≡ drop 1 m.logs)
  restart_resumes {n} {m} k h session same texts term vote =
      let stored = Session-Persisted session h in
      let read =
        read_persist-persist m k texts term vote
          (ap (λ (p : Persister). p.raftstate) same ∙ (stored.state ∙ sym (persist-raftstate m))) in
      (_, read, refl, refl, refl)
