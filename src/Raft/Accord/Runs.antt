-- ===== src/Raft/Accord/Runs.antt =====
-- The steps of a cluster keep what holds of its logs and of the leaders' entries
-- (kvcluster/raft/raft.cpp).
use raft_drive.Prelude.{ℕ, ◌^◌, ◌≤◌, List, ◌++◌, arith}
use raft_drive.Json.{JsonLib}
use raft_drive.Raft.Types.{AppendEntriesArgs}
use raft_drive.Raft.Cluster.{
  Member, ClusterStep, moved, turned, taken, sent, called, lost, restarted, received,
}
use raft_drive.Raft.Cluster.Good.{Good, ClusterStep-Good}
use raft_drive.Raft.Net.{Net, Allowed, made, accepts, net_step, NetRun, net_here, net_later}
use raft_drive.Raft.Net.Queue.{All, All-map, All-append}
use raft_drive.Raft.Net.Ledger.{Ledger, Extends, Known-Extends}
use raft_drive.Raft.Net.Logged.{Logged, Extends-refl}
use raft_drive.Raft.Accord.Defs.{Chronicle}
use raft_drive.Raft.Accord.Keeper.{Accorded}
use raft_drive.Raft.Accord.Rounds.{main_round-Onward}
use raft_drive.Raft.Accord.Steps.{Took, Onward, Step-Onward}
use raft_drive.Raft.Accord.Calls.{
  nothing_made, taken-Onward, sent-Onward, lost-Onward, received-Onward, restarted-Onward,
  called-Onward,
}

module _ ⦃json : JsonLib⦄ {peers : ℕ} {L : Ledger} {A : Chronicle} {c : ℕ → Member}
    (calls : List (ℕ × AppendEntriesArgs)) (good : Good peers c) (g : Logged peers L c calls)
    (a : Accorded peers L A c) where
  ClusterStep-Onward :
      {d : ℕ → Member} (s : ClusterStep peers c d)
      → peers ≤ 2 ^ 31
      → Allowed calls s
      → Onward peers L A (calls ++ made s) (accepts s) d
  ClusterStep-Onward (moved i s b local) small allowed =
      nothing_made calls (Step-Onward c i b good g a s small local allowed)
  ClusterStep-Onward (turned i env head b term h) small room =
      nothing_made calls (main_round-Onward c i b good g a env head term room h)
  ClusterStep-Onward (taken i t rest b h quiet) small allowed =
      taken-Onward calls good g a i t rest b h quiet
  ClusterStep-Onward (sent i j args rest b h) small allowed =
      nothing_made calls (sent-Onward calls good g a i j args rest b h)
  ClusterStep-Onward (lost i t j b) small allowed =
      nothing_made calls (lost-Onward calls good g a i t j b)
  ClusterStep-Onward (restarted i env channel b h texts term vote e) small allowed =
      nothing_made calls (restarted-Onward calls good g a i env channel b h texts term vote e)
  ClusterStep-Onward (received i t j env args r b h now) small allowed =
      nothing_made calls (received-Onward calls good g a i t j env args r b h)
  ClusterStep-Onward (called i t j env args b h answer) small room =
      nothing_made calls (called-Onward calls good g a i t j env args b h answer room)

-- What holds of a cluster in a run.
pub record Held (peers : ℕ) (d : Net) : Type 0 where
  pub ledger : Ledger
  pub chronicle : Chronicle
  pub good : Good peers d.members
  pub logged : Logged peers ledger d.members d.calls
  pub accorded : Accorded peers ledger chronicle d.members
  pub took : All (Took chronicle) d.accepted

-- What holds of a cluster later in the run: its leaders have the entries that they had, and the nodes
-- have taken what they had taken.
pub record Later {peers : ℕ} {d : Net} (h : Held peers d) (e : Net) : Type 0 where
  pub held : Held peers e
  pub extends : Extends h.ledger held.ledger
  pub more : (j t : ℕ) → h.chronicle.taken_of j t ≤ held.chronicle.taken_of j t

module _ ⦃json : JsonLib⦄ where
  pub NetRun-Later :
      {peers : ℕ} {d e : Net} → peers ≤ 2 ^ 31 → NetRun peers d e → (h : Held peers d) → Later h e
  NetRun-Later small net_here h = record {
    held = h;
    extends = Extends-refl h.ledger;
    more = λ j t. omega arith;
  }
  NetRun-Later {peers} small (net_later {e} r (net_step s allowed)) h =
      let so_far : Later h e = NetRun-Later small r h in
      let before = so_far.held in
      let o =
        ClusterStep-Onward e.calls before.good before.logged before.accorded s small allowed in
      record {
        held = record {
          ledger = o.ledger;
          chronicle = o.chronicle;
          good = (ClusterStep-Good small s before.good).0;
          logged = o.logged;
          accorded = o.accorded;
          took =
              All-append (Took o.chronicle) e.accepted (accepts s)
                (All-map (Took before.chronicle) (Took o.chronicle) e.accepted
                  (λ call took. omega (arith, took, o.more call.0 call.1.term)) before.took)
                o.took;
        };
        extends = record {
          leaders = λ t k led. o.extends.leaders t k (so_far.extends.leaders t k led);
          logs = λ t known q x at.
              o.extends.logs t (Known-Extends t so_far.extends known) q x
                (so_far.extends.logs t known q x at);
        };
        more = λ j t. omega (arith, so_far.more j t, o.more j t);
      }
