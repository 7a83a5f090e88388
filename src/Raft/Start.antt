-- ===== src/Raft/Start.antt =====
-- A command of the client (`start` in kvcluster/raft/raft.cpp).
use raft_drive.Prelude.{
  ℕ, ◌+◌, ◌-◌, ◌%◌, ◌^◌, ◌<◌, ◌≡◌, refl, ◌∙◌, ap, [], ◌∷◌, ◌++◌, some, Bytes, pos, length,
  get_elem?, take, to_int, arith, length-append, take-append, get_elem?-append_right,
}
use raft_drive.Json.{JsonLib}
use raft_drive.Raft.Types.{LogEntry}
use raft_drive.Raft.State.{Node, leader}
use raft_drive.Raft.Persist.{persist, state_json}
use raft_drive.Raft.Roles.{start, last_log_index}
use raft_drive.Raft.Invariant.{IsValid}

to_int_small : (n : ℕ) → n < 2 ^ 31 → to_int n ≡ pos n
to_int_small n h = ground arith

module _ ⦃json : JsonLib⦄ where
  -- A command on a leader that satisfies the invariant, while the index of the new entry fits in an
  -- `int`: the result is the index of the entry, which stands at the end of the log in the leader's
  -- term, behind all that was there; the new log is on the persister, and the invariant holds again.
  pub start_lem :
      (command : Bytes) (n : Node)
      → n.state ≡ leader
      → IsValid n
      → n.last_included_index + length n.logs < 2 ^ 31
      → let r = start command n in
        IsValid r.0
        × (r.1 ≡ pos (n.last_included_index + length n.logs))
        × (get_elem? r.0.logs (length n.logs)
            ≡ some (record { command = command; term = n.current_term }))
        × (take (length n.logs) r.0.logs ≡ n.logs)
        × (r.0.persister.raftstate ≡ json.dump (state_json r.0))
  unfolding start persist last_log_index state_json
  start_lem command n leads v small =
      let e : LogEntry = record { command = command; term = n.current_term } in
      let size = length-append n.logs (e ∷ []) in
      let place : (length (n.logs ++ e ∷ []) + (2 ^ 64 - 1) + n.last_included_index) % 2 ^ 64
          ≡ n.last_included_index + length n.logs =
        omega (arith, size) in
      rw leads (
        omega (arith, size),
        ap to_int place ∙ to_int_small (n.last_included_index + length n.logs) small,
        get_elem?-append_right n.logs (e ∷ []) (length n.logs) 0 (omega arith),
        take-append (length n.logs) n.logs (e ∷ []) refl,
        refl,
      )
