-- ===== src/Raft/Net/Safety.antt =====
-- Log Matching (kvcluster/raft/raft.cpp).
use raft_drive.Prelude.{ℕ, ◌^◌, ◌≤◌, ◌<◌, ◌≡◌, some, get_elem?}
use raft_drive.Json.{JsonLib}
use raft_drive.Raft.Types.{LogEntry}
use raft_drive.Raft.Net.{Net, NetRun, Starting}
use raft_drive.Raft.Net.Ledger.{Within-matching}
use raft_drive.Raft.Accord.Starting.{Starting-Held}
use raft_drive.Raft.Accord.Runs.{NetRun-Later}

module _ ⦃json : JsonLib⦄ where
  -- A cluster of at most 2^31 nodes starts with followers whose logs are empty, with nothing under way.
  -- Over any run of it, in which calls of `requestVote` and of `appendEntries` may be delayed without
  -- end, come in any order and be lost, those of `appendEntries` may come more than once, and nodes stop
  -- and start again: if each handler, and each round of a thread, runs on its node without another one
  -- between its sections, no node takes a snapshot or is sent one, a reply that grants a vote counts in
  -- the term of its request only, a node that starts again finds its state on its persister, the terms
  -- stay below the largest `uint32_t`, and the logs of nodes that broadcast or vote, and of those that are
  -- sent entries, with these, stay below 2^64 entries, then two nodes whose logs have entries of the same term
  -- in the same place have the same entries up to there.
  pub log_matching :
      {peers : ℕ} {start d : Net} (i k p : ℕ) (e f : LogEntry)
      → peers ≤ 2 ^ 31
      → Starting peers start
      → NetRun peers start d
      → i < peers
      → k < peers
      → get_elem? (d.members i).node.logs p ≡ some e
      → get_elem? (d.members k).node.logs p ≡ some f
      → e.term ≡ f.term
      → (q : ℕ) → q ≤ p
      → get_elem? (d.members i).node.logs q ≡ get_elem? (d.members k).node.logs q
  log_matching {peers} {start} {d} i k p e f small initial run bi bk here there same =
      let held = (NetRun-Later small run (Starting-Held initial)).held in
      let g = held.logged in
      Within-matching held.ledger (d.members i).node.logs (d.members k).node.logs p e f
        (g.nodes i bi).within (g.nodes k bk).within here there same
