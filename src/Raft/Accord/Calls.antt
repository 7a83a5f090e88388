-- ===== src/Raft/Accord/Calls.antt =====
-- The calls of a cluster, its replies and its restarts keep what holds of its logs and of the leaders'
-- entries (kvcluster/raft/raft.cpp).
use raft_drive.Prelude.{
  ap₂, ℕ, ◌^◌, ◌<◌, ◌≡◌, refl, sym, ap, subst, ◌∙◌, inl, inr, true, false, List, [], ◌∷◌, ◌++◌,
  some, arith, length, pos, drop, IsInt,
}
use raft_drive.Json.{JsonLib}
use raft_drive.Raft.Types.{AppendEntriesArgs, RequestVoteArgs, RequestVoteReply, ApplyChannel}
use raft_drive.Raft.State.{Node, Task, Env, send_request_vote}
use raft_drive.Raft.Persist.{persist}
use raft_drive.Raft.Roles.{on_vote_reply, request_vote, init, step_down}
use raft_drive.Raft.Restart.{storable}
use raft_drive.Raft.Durable.{Persisted}
use raft_drive.Raft.Ballot.{vote_queue, on_vote_reply-Ballot}
use raft_drive.Raft.Ballot.Moves.{request_vote-Calm}
use raft_drive.Raft.Cluster.{Member, put, become, set_call, answered, asked, idle, receive}
use raft_drive.Raft.Cluster.Kept.{become-votes}
use raft_drive.Raft.Cluster.Calls.{put-cases, taken-Calm, asked_inj}
use raft_drive.Raft.Cluster.Restarts.{init-Restarted}
use raft_drive.Raft.Cluster.Granted.{or-cases, or-left, claims-set_call, claims-receive}
use raft_drive.Raft.Cluster.Good.{Good}
use raft_drive.Raft.Net.Queue.{
  append_queue, append_queue-append, All, All-append, All-left, All-right,
}
use raft_drive.Raft.Net.Store.{request_vote-SameStore, on_vote_reply-SameStore}
use raft_drive.Raft.Net.Ledger.{Ledger, CallOk}
use raft_drive.Raft.Net.Logged.{NodeLog, Logged, Logged-same, Extends-refl}
use raft_drive.Raft.Net.Keeps.{
  Steady, Steady-of_Calm, Past-Steady, on_vote_reply-Steady, NodeLog-Steady,
}
use raft_drive.Raft.Net.Reload.{init-NodeLog, init-logs, init-Steady}
use raft_drive.Raft.Accord.Defs.{Chronicle}
use raft_drive.Raft.Accord.Keeper.{Asks, Queued, Keeper, Accorded}
use raft_drive.Raft.Accord.Still.{Keeper-Steady, Accorded-still, Steady-le}
use raft_drive.Raft.Accord.Votes.{Accorded-called}
use raft_drive.Raft.Accord.Steps.{Onward}

-- The calls of a queue without its first task.
NodeLog-taken :
    {L : Ledger} {i : ℕ} (n : Node) (t : Task) (rest : List Task)
    → n.tasks ≡ t ∷ rest
    → NodeLog L i n
    → NodeLog L i (record n { tasks = rest }) × All (CallOk L) (append_queue (t ∷ []))
NodeLog-taken {L} n t rest h old =
    let split : append_queue n.tasks ≡ append_queue (t ∷ []) ++ append_queue rest =
      ap append_queue h ∙ append_queue-append (t ∷ []) rest in
    let all = subst (All (CallOk L)) split old.queue in
    (
      record {
        whole = old.whole;
        no_snapshot = old.no_snapshot;
        head = old.head;
        within = old.within;
        queue = All-right (CallOk L) (append_queue (t ∷ [])) (append_queue rest) all;
        leads = old.leads;
        up = old.up;
      },
      All-left (CallOk L) (append_queue (t ∷ [])) (append_queue rest) all,
    )

Logged-calls :
    {peers : ℕ} {L : Ledger} {c : ℕ → Member} (calls more : List (ℕ × AppendEntriesArgs))
    → All (CallOk L) more
    → Logged peers L c calls
    → Logged peers L c (calls ++ more)
Logged-calls {peers} {L} calls more ok g = record {
  nodes = g.nodes;
  made_well = All-append (CallOk L) calls more g.made_well ok;
  logs = g.logs;
  elected = g.elected;
}

-- The node with other tasks.
Keeper-tasks :
    {L : Ledger} {A : Chronicle} {i : ℕ} (n : Node) (tasks : List Task)
    → All (Queued L A i n.current_term) (vote_queue tasks)
    → Keeper L A i n
    → Keeper L A i (record n { tasks = tasks })
Keeper-tasks n tasks asks k = record {
  current = k.current;
  keeps = k.keeps;
  terms = k.terms;
  young = k.young;
  stands = k.stands;
  asks = asks;
  leads = k.leads;
}

-- A step that makes no call.
pub nothing_made :
    {peers : ℕ} {L : Ledger} {A : Chronicle} {accepted : List (ℕ × AppendEntriesArgs)}
    {c : ℕ → Member} (calls : List (ℕ × AppendEntriesArgs))
    → Onward peers L A calls accepted c
    → Onward peers L A (calls ++ []) accepted c
nothing_made calls o = record {
  ledger = o.ledger;
  chronicle = o.chronicle;
  logged = Logged-calls calls [] tt o.logged;
  accorded = o.accorded;
  extends = o.extends;
  more = o.more;
  took = o.took;
}

-- The ledger and the chronicle are as they were.
stay :
    {peers : ℕ} {L : Ledger} {A : Chronicle} {calls : List (ℕ × AppendEntriesArgs)} {c : ℕ → Member}
    → Logged peers L c calls
    → Accorded peers L A c
    → Onward peers L A calls [] c
stay {L = L} {A = A} logged accorded = record {
  ledger = L;
  chronicle = A;
  logged = logged;
  accorded = accorded;
  extends = Extends-refl L;
  more = λ j t. omega arith;
  took = tt;
}

module _ ⦃json : JsonLib⦄ where
  on_vote_reply-queue :
      (env : Env) (reply : RequestVoteReply) (n : Node)
      → vote_queue (on_vote_reply env reply n).tasks ≡ vote_queue n.tasks
  unfolding on_vote_reply step_down persist
  on_vote_reply-queue env reply n = ground arith

module _ ⦃json : JsonLib⦄ {peers : ℕ} {L : Ledger} {A : Chronicle} {c : ℕ → Member}
    (calls : List (ℕ × AppendEntriesArgs)) (good : Good peers c) (g : Logged peers L c calls)
    (a : Accorded peers L A c) where
  pub taken-Onward :
      (i : ℕ) (t : Task) (rest : List Task)
      → i < peers
      → (c i).node.tasks ≡ t ∷ rest
      → vote_queue (t ∷ []) ≡ []
      → Onward peers L A
          (calls ++ append_queue (t ∷ []))
          []
          (put c i (become (record (c i).node { tasks = rest }) (c i)))
  taken-Onward i t rest b h quiet =
      let n = (c i).node in
      let m = record n { tasks = rest } in
      let (node, ok) = NodeLog-taken n t rest h (g.nodes i b) in
      let steady : Steady n m = inr (refl, refl) in
      stay
        (Logged-calls calls (append_queue (t ∷ [])) ok (
          Logged-same c i (become m (c i))
            (become-votes m (c i) (good.sound i b) (inr (refl, inr refl)))
            (λ u. Past-Steady u steady) node g))
        (Accorded-still c i (become m (c i)) good b (omega arith)
          (Keeper-Steady {A = A} refl steady (taken-Calm n t rest h quiet).queue (a.keepers i b))
          (λ t j r e. inl e) (λ u j e. e) a)

  pub sent-Onward :
      (i j : ℕ) (args : RequestVoteArgs) (rest : List Task)
      → i < peers
      → (c i).node.tasks ≡ send_request_vote j args ∷ rest
      → Onward peers L A calls [] (
          put c i
            (set_call args.term j (asked args) (become (record (c i).node { tasks = rest }) (c i))))
  sent-Onward i j args rest b h =
      let n = (c i).node in
      let m = record n { tasks = rest } in
      let (node, ok) = NodeLog-taken n (send_request_vote j args) rest h (g.nodes i b) in
      let steady : Steady n m = inr (refl, refl) in
      let queue : All (Queued L A i n.current_term) ((j, args) ∷ vote_queue rest) =
        subst (All (Queued L A i n.current_term)) (ap vote_queue h) (a.keepers i b).asks in
      stay
        (Logged-same c i (set_call args.term j (asked args) (become m (c i)))
          (become-votes m (c i) (good.sound i b) (inr (refl, inr refl))) (λ u. Past-Steady u steady)
          node g)
        (Accorded-still c i (set_call args.term j (asked args) (become m (c i))) good b
          (omega arith) (Keeper-tasks n rest queue.1 (a.keepers i b))
          (λ u k r e. elim (put-cases (c i).calls args.term j (asked args) u k) [
            | inl (same, whom, put_there) ↦ inr (
                subst (λ (x : ℕ × RequestVoteArgs). Asks L A i x)
                  (ap₂ (λ (x : ℕ) (y : RequestVoteArgs). (x, y)) (sym whom)
                    (asked_inj (sym put_there ∙ e)))
                  queue.0.asks)
            | inr (away, was) ↦ inl (sym was ∙ e)
          ])
          (λ u k e. elim (claims-set_call (c i) args.term j (asked args) u k e) [
            | inl before ↦ before
            | inr (_, _, f) ↦ absurd (cc f)
          ])
          a)

  pub lost-Onward :
      (i t j : ℕ) → i < peers → Onward peers L A calls [] (put c i (set_call t j idle (c i)))
  lost-Onward i t j b =
      stay (Logged-same c i (set_call t j idle (c i)) (λ u l v. v) (λ u p. p) (g.nodes i b) g) (
        Accorded-still c i (set_call t j idle (c i)) good b (omega arith) (a.keepers i b)
          (λ u k r e. elim (put-cases (c i).calls t j idle u k) [
            | inl (same, whom, put_there) ↦ absurd (cc (put_there, e))
            | inr (away, was) ↦ inl (sym was ∙ e)
          ])
          (λ u k e. elim (claims-set_call (c i) t j idle u k e) [
            | inl before ↦ before
            | inr (_, _, f) ↦ absurd (cc f)
          ])
          a)

  pub received-Onward :
      (i t j : ℕ) (env : Env) (args : RequestVoteArgs) (r : RequestVoteReply)
      → i < peers
      → (c i).calls t j ≡ answered args r
      → Onward peers L A calls [] (put c i (receive env t j r (c i)))
  received-Onward i t j env args r b h =
      let n = (c i).node in
      let m = on_vote_reply env r n in
      let steady : Steady n m = on_vote_reply-Steady env r n in
      let same = on_vote_reply-SameStore env r n in
      stay
        (Logged-same c i (receive env t j r (c i))
          (become-votes m (c i) (good.sound i b) (on_vote_reply-Ballot env r n))
          (λ u. Past-Steady u steady) (NodeLog-Steady same steady (g.nodes i b)) g)
        (Accorded-still c i (receive env t j r (c i)) good b (Steady-le n m steady)
          (Keeper-Steady {A = A} same.logs steady (on_vote_reply-queue env r n) (a.keepers i b))
          (λ u k q e. elim (put-cases (c i).calls t j idle u k) [
            | inl (now, whom, put_there) ↦ absurd (cc (put_there, e))
            | inr (away, was) ↦ inl (sym was ∙ e)
          ])
          (λ u k e. claims-receive env (c i) t j args r u k h e) a)

  pub restarted-Onward :
      (i : ℕ) (env : Env) (channel : ApplyChannel) {m : Node}
      → i < peers
      → Persisted (c i).node
      → storable json.is_text (drop 1 (c i).node.logs) ≡ true
      → (c i).node.current_term < 2 ^ 32
      → IsInt (c i).node.voted_for
      → init (pos i) peers (c i).node.persister channel env ≡ some m
      → Onward peers L A calls [] (put c i (record (c i) { node = m; calls = λ t j. idle }))
  restarted-Onward i env channel {m} b h texts term vote e =
      let n = (c i).node in
      let r = init-Restarted i env channel n h texts term vote e in
      let steady : Steady (record n { tasks = [] }) m = init-Steady i r in
      stay
        (Logged-same c i (record (c i) { node = m; calls = λ t j. idle }) (λ u l v. v)
          (λ u. Past-Steady u (init-Steady i r))
          (init-NodeLog peers i env channel n h texts term vote e (g.nodes i b)) g)
        (Accorded-still c i (record (c i) { node = m; calls = λ t j. idle }) good b
          (omega (arith, r.current_term))
          (Keeper-Steady {A = A} (init-logs peers i env channel n h texts term vote e (g.nodes i b))
            steady (ap vote_queue r.tasks) (Keeper-tasks n [] tt (a.keepers i b)))
          (λ t j q x. absurd (cc x))
          (λ u j q. elim (or-cases ((c i).counted u j) false q) [
            | inl counts ↦ or-left ((c i).counted u j) _ counts
            | inr never ↦ absurd (cc never)
          ])
          a)

  pub called-Onward :
      (i t j : ℕ) (env : Env) (args : RequestVoteArgs) {m : Node} {r : RequestVoteReply}
      → i < peers
      → (c i).calls t j ≡ asked args
      → request_vote env args (c j).node ≡ some (m, r)
      → length (c j).node.logs < 2 ^ 64
      → Onward peers L A calls []
          (let d = put c j (become m (c j)) in put d i (set_call t j (answered args r) (d i)))
  called-Onward i t j env args {m} {r} b h answer room =
      let (there, term, candidate_id) = (good.sound i b).asked_well t j args h in
      let n = (c j).node in
      let still = request_vote-Calm env args n answer in
      let steady : Steady n m = Steady-of_Calm n m still in
      let d = put c j (become m (c j)) in
      let first : Logged peers L d calls =
        Logged-same c j (become m (c j)) (become-votes m (c j) (good.sound j there) still.ballot)
          (λ u. Past-Steady u steady)
          (NodeLog-Steady (request_vote-SameStore env args n answer) steady (g.nodes j there)) g in
      stay
        (Logged-same d i (set_call t j (answered args r) (d i)) (λ u l v. v) (λ u p. p)
          (first.nodes i b) first)
        (Accorded-called c i t j env args b h answer room good (g.nodes j there) a)
