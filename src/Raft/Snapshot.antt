-- ===== src/Raft/Snapshot.antt =====
-- `Raft::installSnapshot` and `Raft::snapshot` (kvcluster/raft/raft.cpp).
use raft_drive.Prelude.{
  ℕ, ◌+◌, true, false, [], ◌∷◌, Option, some, ◌>>=◌, if◌then◌else◌, ltb, leb, Bytes, length, drop,
  sub64,
}
use raft_drive.Json.{JsonLib}
use raft_drive.Raft.Types.{InstallSnapshotArgs, InstallSnapshotReply, ApplyMsg, push}
use raft_drive.Raft.State.{Node, Env, log_term, read_raft_state, save_state_and_snapshot}
use raft_drive.Raft.Persist.{persist, snapshot_json, dummy}
use raft_drive.Raft.Roles.{step_down}

abbrev pub snapshot_msg : InstallSnapshotArgs → ApplyMsg
snapshot_msg args = record {
  command_valid = false;
  command_index = 0;
  command_term = 0;
  command = [];
  snapshot_valid = true;
  snapshot = args.content;
  last_included_index = args.last_included_index;
  last_included_term = args.last_included_term;
}

module _ ⦃json : JsonLib⦄ where
  abbrev pub take_snapshot : InstallSnapshotArgs → Node → Node
  take_snapshot args n =
      let m = persist (record n {
        last_included_index = args.last_included_index;
        last_included_term = args.last_included_term;
        logs = dummy args.last_included_term ∷ [];
        last_applied =
            if ltb n.last_applied args.last_included_index
            then args.last_included_index
            else n.last_applied;
      }) in
      record m {
        persister = save_state_and_snapshot (read_raft_state m.persister) args.content m.persister;
        apply_channel = push (snapshot_msg args) m.apply_channel;
      }

  unfoldable pub install_snapshot :
      Env → InstallSnapshotArgs → InstallSnapshotReply → Node → Node × InstallSnapshotReply
  unfolding step_down persist save_state_and_snapshot read_raft_state push
  install_snapshot env args reply n =
      if n.dead
      then (n, reply)
      else if ltb args.term n.current_term
      then (n, record reply { term = n.current_term })
      else (let m = if ltb n.current_term args.term then step_down env args.term n else n in
          (
            if leb args.last_included_index m.last_included_index then m else take_snapshot args m,
            record reply { term = n.current_term },
          ))

  -- The log is cut behind `index`, and a dummy stands for what was cut.
  abbrev pub compact : ℕ → ℕ → Bytes → ℕ → Node → Node
  compact index rel content term n =
      let m = record n {
        last_included_term = term;
        last_included_index = index;
        logs = dummy term ∷ (if ltb (rel + 1) (length n.logs) then drop (rel + 1) n.logs else []);
      } in
      record m {
        persister = save_state_and_snapshot (json.dump (snapshot_json m)) content m.persister;
      }

  unfoldable pub snapshot : ℕ → Bytes → Node → Option Node
  unfolding save_state_and_snapshot
  snapshot index content n =
      if leb index n.last_included_index
      then some n
      else (let rel = sub64 index n.last_included_index in
          if leb (length n.logs) rel
          then some n
          else do t ← log_term n.logs rel; some (compact index rel content t n))
