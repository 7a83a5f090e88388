-- ===== src/Raft/Net/Delivers.antt =====
-- A call of `appendEntries` that comes to a node, and the calls that a leader makes
-- (kvcluster/raft/raft.cpp).
use raft_drive.Prelude.{
  ℕ, ◌+◌, ◌^◌, ◌<◌, ◌≡◌, refl, sym, ap, subst, ◌∙◌, ◌≢◌, ◌⊎◌, inl, inr, false, some, arith, length,
  get_elem?, get_elem?-drop, eq_of_some-eq, pos, to_int, int_eq, int_eq_iff,
}
use raft_drive.Json.{JsonLib}
use raft_drive.Raft.Types.{AppendEntriesArgs, AppendEntriesReply}
use raft_drive.Raft.State.{State, leader, candidate, follower, Node, Env}
use raft_drive.Raft.Append.{append_entries, merge_logs, adjustment}
use raft_drive.Raft.Append.Check.{log_term-lt}
use raft_drive.Raft.Loop.{leader_round}
use raft_drive.Raft.Ballot.Moves.{append_entries-Calm}
use raft_drive.Raft.Ballot.Rounds.{leader_round-SameBallot}
use raft_drive.Raft.Cluster.Elections.{to_int-pos}
use raft_drive.Raft.Net.Queue.{append_queue, All, All-map}
use raft_drive.Raft.Net.Accept.{Merged, append_entries-Merged}
use raft_drive.Raft.Net.Turns.{Built, leader_round-Sent, leader_round-idle}
use raft_drive.Raft.Net.Ledger.{Ledger, Within, CallOk}
use raft_drive.Raft.Net.Merging.{merge_logs-first, merge_logs-Within, log_term-entry}
use raft_drive.Raft.Net.Logged.{NodeLog}
use raft_drive.Raft.Net.Keeps.{Steady, Steady-of_Calm, NodeLog-Steady}

-- The index of the first new entry does not wrap.
pub merged :
    {args : AppendEntriesArgs} {n m : Node}
    → n.last_included_index ≡ 0
    → length n.logs < 2 ^ 64
    → Merged args n m
    → m.logs ≡ merge_logs n.logs (args.pre_log_index + 1) args.entries
merged {args} {n} whole room g =
    let inside = log_term-lt n.logs _ g.previous.1 in
    let at : adjustment args n ≡ args.pre_log_index + 1 = omega (arith, whole, room, inside) in
    g.logs ∙ ap (λ k. merge_logs n.logs k args.entries) at

-- A leader does not call itself.
pub no_self_call :
    {L : Ledger} (i : ℕ) (args : AppendEntriesArgs) (n : Node)
    → i < 2 ^ 31
    → CallOk L (i, args)
    → NodeLog L i n
    → n.state ≡ leader
    → n.current_term ≢ args.term
no_self_call {L} i args n small call old l same =
    let (mine, whose) = old.leads l in
    let who : call.sender ≡ i =
      eq_of_some-eq (sym call.sent_by ∙ (ap L.leader_of (sym same) ∙ mine)) in
    call.other (to_int-pos i small ∙ ap pos (sym who))

module _ (L : Ledger) (i : ℕ) (args : AppendEntriesArgs) (n m : Node) (small : i < 2 ^ 31)
    (room : length n.logs < 2 ^ 64) (call : CallOk L (i, args))
    (log : Within L (L.log_of args.term)) (old : NodeLog L i n) (g : Merged args n m)
    (current : Steady n m)
    (leads : m.state ≡ leader → (n.state ≡ leader) × (n.current_term ≡ args.term)) where
  logs : m.logs ≡ merge_logs n.logs (args.pre_log_index + 1) args.entries
  logs = merged old.whole room g

  pub NodeLog-Merged : NodeLog L i m
  NodeLog-Merged = record {
    whole = g.included ∙ old.whole;
    no_snapshot = g.snapshot ∙ old.no_snapshot;
    head =
        ap (λ ls. get_elem? ls 0) logs
        ∙ (merge_logs-first L i args n call old.within log g.previous old.whole ∙ old.head);
    within =
        subst (λ ls. Within L ls) (sym logs)
          (merge_logs-Within L i args n call old.within log g.previous old.whole);
    queue = subst (All (CallOk L)) (sym g.queue) old.queue;
    leads =
        λ l. let (led, same) = leads l in absurd (no_self_call i args n small call old led same);
    up = λ h. elim current [
      | inl (follows, later) ↦ absurd (h follows)
      | inr (same, role) ↦ omega (arith, old.up (λ e. h (role ∙ e)), same)
    ];
  }

-- What a leader builds from its log is a call that stands within the ledger.
Built-CallOk :
    (L : Ledger) (i id : ℕ) (n : Node) (args : AppendEntriesArgs)
    → n.id ≡ pos i
    → L.leader_of n.current_term ≡ some i
    → L.log_of n.current_term ≡ n.logs
    → int_eq (to_int id) n.id ≡ false
    → Built n args
    → CallOk L (id, args)
Built-CallOk L i id n args whose mine log apart b =
    let same : L.log_of args.term ≡ n.logs = ap L.log_of b.term ∙ log in
    let (last, hit, term) = log_term-entry n.logs args.pre_log_index b.previous in
    record {
      sender = i;
      sent_by = ap L.leader_of b.term ∙ mine;
      other = λ e. cc (apart, (int_eq_iff (to_int id) n.id).1 (e ∙ sym whose));
      word = b.word;
      last = last;
      previous = ap (λ ls. get_elem? ls args.pre_log_index) same ∙ hit;
      previous_term = term;
      entries = λ q e at.
          ap (λ ls. get_elem? ls (args.pre_log_index + 1 + q)) same
          ∙ (sym
                (get_elem?-drop (args.pre_log_index + 1) n.logs q (args.pre_log_index + 1 + q) refl)
              ∙ (ap (λ es. get_elem? es q) (sym b.entries) ∙ at));
    }

State-leads : (s : State) → (s ≡ leader) ⊎ (s ≢ leader)
State-leads leader = inl refl
State-leads candidate = inr (λ e. cc e)
State-leads follower = inr (λ e. cc e)

module _ ⦃json : JsonLib⦄ where
  pub append_entries-NodeLog :
      {L : Ledger} {n m : Node} {r : AppendEntriesReply} (i : ℕ) (env : Env)
      (args : AppendEntriesArgs) (reply : AppendEntriesReply)
      → i < 2 ^ 31
      → length n.logs < 2 ^ 64
      → CallOk L (i, args)
      → Within L (L.log_of args.term)
      → append_entries env args reply n ≡ some (m, r)
      → NodeLog L i n
      → NodeLog L i m
  append_entries-NodeLog {L} {n} {m} i env args reply small room call log h old =
      let steady = Steady-of_Calm n m (append_entries-Calm env args reply n h) in
      elim (append_entries-Merged env args reply n call.word h) [
        | inl (same, refused) ↦ NodeLog-Steady same steady old
        | inr (g, met) ↦ NodeLog-Merged L i args n m small room call log old g steady met.leads
      ]

  pub leader_round-NodeLog :
      {L : Ledger} {n m : Node} (i : ℕ)
      → n.id ≡ pos i
      → length n.logs < 2 ^ 64
      → leader_round n ≡ some m
      → NodeLog L i n
      → NodeLog L i m
  leader_round-NodeLog {L} {n} {m} i whose room h old =
      let same = leader_round-SameBallot n h in
      let steady : Steady n m = inr (same.current_term, same.state) in
      elim (State-leads n.state) [
        | inr rests ↦ NodeLog-Steady (leader_round-idle n rests h) steady old
        | inl leads ↦
            let (mine, log) = old.leads leads in
            let s =
              leader_round-Sent (CallOk L) n old.whole room
                (λ id args apart b. Built-CallOk L i id n args whose mine log apart b) old.queue
                h in
            record {
              whole = s.included ∙ old.whole;
              no_snapshot = s.snapshot ∙ old.no_snapshot;
              head = ap (λ ls. get_elem? ls 0) s.logs ∙ old.head;
              within = subst (λ ls. Within L ls) (sym s.logs) old.within;
              queue = s.queue;
              leads = λ l. (
                ap L.leader_of same.current_term ∙ mine,
                ap L.log_of same.current_term ∙ (log ∙ sym s.logs),
              );
              up = λ up. omega (arith, old.up (λ e. cc (e, leads)), same.current_term);
            }
      ]

  pub leader_round-logs :
      {L : Ledger} {n m : Node} (i : ℕ)
      → length n.logs < 2 ^ 64
      → leader_round n ≡ some m
      → NodeLog L i n
      → m.logs ≡ n.logs
  leader_round-logs {L} {n} {m} i room h old = elim (State-leads n.state) [
    | inr rests ↦ (leader_round-idle n rests h).logs
    | inl leads ↦
        (leader_round-Sent (λ call. Unit {0}) n old.whole room (λ id args apart b. tt)
          (All-map (CallOk L) (λ call. Unit {0}) (append_queue n.tasks) (λ call c. tt) old.queue)
          h).logs
  ]
