-- ===== src/Raft/Accord/Steps.antt =====
-- The steps of a node in a cluster keep what holds of its logs and of the leaders' entries
-- (kvcluster/raft/raft.cpp).
use raft_drive.Prelude.{
  ℕ, ◌+◌, ◌^◌, ◌≤◌, ◌<◌, ◌≡◌, refl, sym, subst, inl, inr, Bool, true, false, List, [], ◌∷◌, some,
  length, arith, get_elem?, if◌then◌else◌, Bytes,
}
use raft_drive.Json.{JsonLib}
use raft_drive.Raft.Types.{AppendEntriesArgs, AppendEntriesReply, ApplyChannel}
use raft_drive.Raft.State.{Node, Env}
use raft_drive.Raft.Roles.{start}
use raft_drive.Raft.Append.{append_entries}
use raft_drive.Raft.Step.{
  Step, append_called, vote_called, install_called, vote_replied, append_replied, append_accepted,
  append_refused, install_replied, client_started, snapshot_taken, round, killed, task_taken,
  channel_read, is_local,
}
use raft_drive.Raft.Ballot.{Calm, Ballot, Step-Calm}
use raft_drive.Raft.Ballot.Moves.{start-SameBallot, append_entries-Calm}
use raft_drive.Raft.Cluster.{Member, put, become}
use raft_drive.Raft.Cluster.Kept.{become-votes}
use raft_drive.Raft.Cluster.Good.{Good}
use raft_drive.Raft.Net.{Delivered, accepted_by}
use raft_drive.Raft.Net.Queue.{All, All-at}
use raft_drive.Raft.Net.Store.{
  SameStore, request_vote-SameStore, on_append_reply-SameStore, on_append_success-SameStore,
  on_append_reject-SameStore, on_install_reply-SameStore, kill-SameStore,
}
use raft_drive.Raft.Net.Accept.{append_entries-Merged}
use raft_drive.Raft.Net.Ledger.{Ledger, CallOk, Extends, extend-Extends}
use raft_drive.Raft.Net.Logged.{NodeLog, Logged, Logged-same, Extends-refl}
use raft_drive.Raft.Net.Keeps.{Steady, Steady-of_Calm, Past-Steady, NodeLog-Steady}
use raft_drive.Raft.Net.Commands.{Logged-start, start-Longer, start-SameStore}
use raft_drive.Raft.Net.Delivers.{append_entries-NodeLog}
use raft_drive.Raft.Accord.Defs.{Chronicle}
use raft_drive.Raft.Accord.Keeper.{Keeper, Accorded}
use raft_drive.Raft.Accord.Still.{Keeper-Steady, Accorded-still, Steady-le}
use raft_drive.Raft.Accord.Accepts.{Accorded-takes, take_call, take_call-took, take_call-more}
use raft_drive.Raft.Accord.Starts.{Accorded-longer, longer-more}

-- A node has taken the entries of a call.
abbrev pub Took : Chronicle → ℕ × AppendEntriesArgs → Type 0
Took A call = call.1.pre_log_index + length call.1.entries ≤ A.taken_of call.0 call.1.term

-- The logs hold together after a step, and all that was taken before it is taken.
pub record Onward (peers : ℕ) (L : Ledger) (A : Chronicle)
    (calls accepted : List (ℕ × AppendEntriesArgs)) (c : ℕ → Member) : Type 0 where
  pub ledger : Ledger
  pub chronicle : Chronicle
  pub logged : Logged peers ledger c calls
  pub accorded : Accorded peers ledger chronicle c
  pub extends : Extends L ledger
  pub more : (j t : ℕ) → A.taken_of j t ≤ chronicle.taken_of j t
  pub took : All (Took chronicle) accepted

channel_read-SameStore :
    (n : Node) (channel : ApplyChannel) → SameStore n (record n { apply_channel = channel })
channel_read-SameStore n channel = ground arith

All-if : {A : Type 0} (P : A → Type 0) (x : A) (b : Bool) → P x → All P (if b then x ∷ [] else [])
All-if P x true h = (h, tt)
All-if P x false h = tt

module _ ⦃json : JsonLib⦄ {peers : ℕ} {L : Ledger} {calls : List (ℕ × AppendEntriesArgs)}
    (c : ℕ → Member) (i : ℕ) (b : i < peers) (good : Good peers c) (g : Logged peers L c calls)
    {A : Chronicle} (a : Accorded peers L A c) where
  -- The node goes on, with the ledger and the chronicle as they were.
  pub goes_on :
      {m : Node}
      → Ballot (c i).node m
      → Steady (c i).node m
      → NodeLog L i m
      → Keeper L A i m
      → Onward peers L A calls [] (put c i (become m (c i)))
  goes_on {m} ballot steady node keeper = record {
    ledger = L;
    chronicle = A;
    logged =
        Logged-same c i (become m (c i)) (become-votes m (c i) (good.sound i b) ballot)
          (λ t. Past-Steady t steady) node g;
    accorded =
        Accorded-still c i (become m (c i)) good b (Steady-le (c i).node m steady) keeper
          (λ t j r h. inl h) (λ u j h. h) a;
    extends = Extends-refl L;
    more = λ j t. omega arith;
    took = tt;
  }

  pub keeps_store :
      {m : Node}
      → Calm (c i).node m
      → SameStore (c i).node m
      → Onward peers L A calls [] (put c i (become m (c i)))
  keeps_store {m} still same =
      let steady = Steady-of_Calm (c i).node m still in
      goes_on still.ballot steady (NodeLog-Steady same steady (g.nodes i b))
        (Keeper-Steady {A = A} same.logs steady still.queue (a.keepers i b))

  commands :
      (command : Bytes)
      → Onward peers L A calls [] (put c i (become (start command (c i).node).0 (c i)))
  commands command = elim (Logged-start c i command b good g) [
    | inl (rests, logged) ↦
        let same = start-SameBallot command (c i).node in
        let steady : Steady (c i).node (start command (c i).node).0 =
          inr (same.current_term, same.state) in
        let store = start-SameStore command (c i).node rests in
        goes_on (inr (same.current_term, inr same.voted_for)) steady
          (NodeLog-Steady store steady (g.nodes i b))
          (Keeper-Steady {A = A} store.logs steady same.queue (a.keepers i b))
    | inr (leads, logged) ↦ record {
      ledger = _;
      chronicle = _;
      logged = logged;
      accorded =
          Accorded-longer c i (start command (c i).node).0 command b good leads
            (start-SameBallot command (c i).node) (start-Longer command (c i).node leads)
            (g.nodes i b) a;
      extends = extend-Extends L (c i).node.current_term _;
      more =
          longer-more c i (start command (c i).node).0 command b good leads
            (start-SameBallot command (c i).node) (start-Longer command (c i).node leads)
            (g.nodes i b) a;
      took = tt;
    }
  ]

  -- The node has answered a call of `appendEntries`.
  calls_come :
      (env : Env) (args : AppendEntriesArgs) (reply : AppendEntriesReply) (k : ℕ) {m : Node}
      {r : AppendEntriesReply}
      → peers ≤ 2 ^ 31
      → get_elem? calls k ≡ some (i, args)
      → length (c i).node.logs < 2 ^ 64
      → append_entries env args reply (c i).node ≡ some (m, r)
      → Onward peers L A calls (if r.success then (i, args) ∷ [] else []) (put c i (become m (c i)))
  calls_come env args reply k {m} {r} small at room h =
      let n = (c i).node in
      let still = append_entries-Calm env args reply n h in
      let steady : Steady n m = Steady-of_Calm n m still in
      let call : CallOk L (i, args) = All-at (CallOk L) calls k g.made_well at in
      let log = g.logs args.term (inr (call.sender, call.sent_by)) in
      let node =
        append_entries-NodeLog i env args reply (omega (arith, small, b)) room call log h
          (g.nodes i b) in
      elim (append_entries-Merged env args reply n call.word h) [
        | inl (same, refused) ↦
            let o =
              goes_on still.ballot steady node
                (Keeper-Steady {A = A} same.logs steady still.queue (a.keepers i b)) in
            record {
              ledger = o.ledger;
              chronicle = o.chronicle;
              logged = o.logged;
              accorded = o.accorded;
              extends = o.extends;
              more = o.more;
              took =
                  subst (λ b. All (Took o.chronicle) (if b then (i, args) ∷ [] else []))
                    (sym refused) tt;
            }
        | inr (merges, met) ↦ record {
          ledger = L;
          chronicle = take_call A i args;
          logged =
              Logged-same c i (become m (c i)) (become-votes m (c i) (good.sound i b) still.ballot)
                (λ t. Past-Steady t steady) node g;
          accorded =
              Accorded-takes L A i args n m (omega (arith, small, b)) room call log (g.nodes i b)
                merges met still.queue a.shaped (a.keepers i b) c refl b good a;
          extends = Extends-refl L;
          more =
              take_call-more L A i args n m (omega (arith, small, b)) room call log (g.nodes i b)
                merges met still.queue a.shaped (a.keepers i b);
          took =
              All-if (Took (take_call A i args)) (i, args) r.success
                (take_call-took L A i args n m (omega (arith, small, b)) room call log (g.nodes i b)
                  merges met still.queue a.shaped (a.keepers i b));
        }
      ]

  pub Step-Onward :
      {m : Node} (s : Step (c i).node m)
      → peers ≤ 2 ^ 31
      → is_local s ≡ true
      → Delivered calls i s
      → Onward peers L A calls (accepted_by i s) (put c i (become m (c i)))
  Step-Onward (append_called env args reply h) small local (k, at, room) =
      calls_come env args reply k small at (omega (arith, room)) h
  Step-Onward (vote_called env args h) small local allowed =
      keeps_store (Step-Calm (vote_called env args h) local)
        (request_vote-SameStore env args (c i).node h)
  Step-Onward (install_called env args reply) small local never = absurd never
  Step-Onward (vote_replied env reply) small local allowed = absurd (cc local)
  Step-Onward (append_replied env id started args reply h) small local allowed =
      keeps_store (Step-Calm (append_replied env id started args reply h) local)
        (on_append_reply-SameStore env id started args reply (c i).node h)
  Step-Onward (append_accepted id args h) small local allowed =
      keeps_store (Step-Calm (append_accepted id args h) local)
        (on_append_success-SameStore id args (c i).node h)
  Step-Onward (append_refused id reply h) small local allowed =
      keeps_store (Step-Calm (append_refused id reply h) local)
        (on_append_reject-SameStore id reply (c i).node h)
  Step-Onward (install_replied env id reply h) small local allowed =
      keeps_store (Step-Calm (install_replied env id reply h) local)
        (on_install_reply-SameStore env id reply (c i).node h)
  Step-Onward (client_started command) small local allowed = commands command
  Step-Onward (snapshot_taken index content h) small local never = absurd never
  Step-Onward (round env head h) small local allowed = absurd (cc local)
  Step-Onward killed small local allowed =
      keeps_store (Step-Calm {n = (c i).node} killed local) (kill-SameStore (c i).node)
  Step-Onward (task_taken t rest h) small local allowed = absurd (cc local)
  Step-Onward (channel_read channel) small local allowed =
      keeps_store (Step-Calm {n = (c i).node} (channel_read channel) local)
        (channel_read-SameStore (c i).node channel)
