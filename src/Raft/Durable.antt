-- ===== src/Raft/Durable.antt =====
-- What a node has on its persister between any two handlers (kvcluster/raft/raft.cpp).
mod Moves
mod Logs
pub mod Steps
use raft_drive.Prelude.{◌≡◌}
use raft_drive.Json.{JsonLib}
use raft_drive.Raft.State.{Node}
use raft_drive.Raft.Persist.{state_json}

module _ ⦃json : JsonLib⦄ where
  -- The state on the persister is that of the node: its term, its vote and its log.
  pub record Persisted (n : Node) : Type 0 where
    pub state : n.persister.raftstate ≡ json.dump (state_json n)
