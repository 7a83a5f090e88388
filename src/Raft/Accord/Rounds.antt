-- ===== src/Raft/Accord/Rounds.antt =====
-- A round of a node's thread keeps what holds of the logs of a cluster and of the leaders' entries
-- (kvcluster/raft/raft.cpp).
use raft_drive.Prelude.{
  ℕ, suc, ◌+◌, ◌^◌, ◌<◌, ◌≡◌, refl, sym, ◌∙◌, ◌≢◌, inl, inr, List, [], some, length, arith,
}
use raft_drive.Json.{JsonLib}
use raft_drive.Raft.Types.{AppendEntriesArgs}
use raft_drive.Raft.State.{State, leader, candidate, follower, Node, Env}
use raft_drive.Raft.Loop.{main_round}
use raft_drive.Raft.Ballot.Rounds.{
  Turn, calm, opened, crowned, Turn-Ballot, main_round-Turn, leader_round-SameBallot,
}
use raft_drive.Raft.Cluster.{Member, put, become}
use raft_drive.Raft.Cluster.Kept.{become-votes}
use raft_drive.Raft.Cluster.Good.{Good}
use raft_drive.Raft.Net.Store.{SameStore}
use raft_drive.Raft.Net.Turns.{follower_round-SameStore, candidate_round-SameStore}
use raft_drive.Raft.Net.Ledger.{Ledger, elect}
use raft_drive.Raft.Net.Logged.{Logged, Logged-same, Extends-refl}
use raft_drive.Raft.Net.Keeps.{Steady, NodeLog-Steady, Past-Opened, NodeLog-Opened}
use raft_drive.Raft.Net.Elects.{Logged-Crowned}
use raft_drive.Raft.Net.Delivers.{leader_round-NodeLog, leader_round-logs}
use raft_drive.Raft.Accord.Defs.{Chronicle}
use raft_drive.Raft.Accord.Keeper.{Accorded}
use raft_drive.Raft.Accord.Still.{Keeper-Steady}
use raft_drive.Raft.Accord.Crowns.{Accorded-begins, begin, begin-Grown, begin-more}
use raft_drive.Raft.Accord.Stands.{Accorded-stands, stand}
use raft_drive.Raft.Accord.Steps.{Onward, goes_on, keeps_store}

candidate-cases : (s : State) → s ≢ follower → s ≢ leader → s ≡ candidate
candidate-cases leader a b = absurd (b refl)
candidate-cases candidate a b = refl
candidate-cases follower a b = absurd (a refl)

module _ ⦃json : JsonLib⦄ {peers : ℕ} {L : Ledger} {calls : List (ℕ × AppendEntriesArgs)}
    (c : ℕ → Member) (i : ℕ) (b : i < peers) (good : Good peers c) (g : Logged peers L c calls)
    {A : Chronicle} (a : Accorded peers L A c) where
  turn_on :
      {m : Node}
      → Turn (c i).node m
      → SameStore (c i).node m
      → length (c i).node.logs < 2 ^ 64
      → Onward peers L A calls [] (put c i (become m (c i)))
  turn_on (calm still) same room = keeps_store c i b good g a still same
  turn_on {m} (opened o) same room = record {
    ledger = L;
    chronicle = stand A i (suc (c i).node.current_term) (c i).node.logs;
    logged =
        Logged-same c i (become m (c i))
          (become-votes m (c i) (good.sound i b) (Turn-Ballot (opened o))) (λ t. Past-Opened t o)
          (NodeLog-Opened same o (g.nodes i b)) g;
    accorded = Accorded-stands c i m b good o same room (g.nodes i b) a;
    extends = Extends-refl L;
    more = λ j t. omega arith;
    took = tt;
  }
  turn_on {m} (crowned crown) same room = elim (Logged-Crowned c i m b good crown same g) [
    | inl (new, logged) ↦
        let stood : (c i).node.state ≡ candidate =
          candidate-cases (c i).node.state crown.stood (λ l. cc (((g.nodes i b).leads l).0, new)) in
        record {
          ledger = elect L (c i).node.current_term i (c i).node.logs;
          chronicle = begin A (c i).node.current_term i (c i).node.logs;
          logged = logged;
          accorded = Accorded-begins c i m b good crown same stood (g.nodes i b) new a;
          extends = (begin-Grown c i m b good crown same stood (g.nodes i b) new a).extends;
          more = begin-more c i m b good crown same stood (g.nodes i b) new a;
          took = tt;
        }
    | inr (leads, logged) ↦
        let steady : Steady (c i).node m = inr (crown.current_term, crown.state ∙ sym leads) in
        goes_on c i b good g a (inr (crown.current_term, inr crown.voted_for)) steady
          (NodeLog-Steady same steady (g.nodes i b))
          (Keeper-Steady {A = A} same.logs steady crown.queue (a.keepers i b))
  ]

  pub main_round-Onward :
      {m : Node} (env : Env) (head : State)
      → (c i).node.current_term + 1 < 2 ^ 32
      → length (c i).node.logs < 2 ^ 64
      → main_round env head (c i).node ≡ some m
      → Onward peers L A calls [] (put c i (become m (c i)))
  unfolding main_round
  main_round-Onward env follower term room h =
      turn_on (main_round-Turn env follower (c i).node term h)
        (follower_round-SameStore env (c i).node h) room
  main_round-Onward env candidate term room h =
      turn_on (main_round-Turn env candidate (c i).node term h)
        (candidate_round-SameStore env (c i).node h) room
  main_round-Onward {m} env leader term room h =
      let same = leader_round-SameBallot (c i).node h in
      let steady : Steady (c i).node m = inr (same.current_term, same.state) in
      goes_on c i b good g a (inr (same.current_term, inr same.voted_for)) steady
        (leader_round-NodeLog i (good.sound i b).id room h (g.nodes i b))
        (Keeper-Steady {A = A} (leader_round-logs i room h (g.nodes i b)) steady same.queue
          (a.keepers i b))
