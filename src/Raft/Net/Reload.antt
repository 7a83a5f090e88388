-- ===== src/Raft/Net/Reload.antt =====
-- A node that starts again has the log that it had (`Raft::Raft`, kvcluster/raft/raft.cpp).
use raft_drive.Prelude.{
  ℕ, ◌^◌, ◌<◌, ◌≡◌, sym, ap, subst, ◌∙◌, inl, true, List, [], ◌∷◌, some, get_elem?, pos, drop,
  IsInt, arith, eq_of_some-eq,
}
use raft_drive.Json.{JsonLib}
use raft_drive.Raft.Types.{LogEntry, ApplyChannel}
use raft_drive.Raft.State.{Node, Env}
use raft_drive.Raft.Persist.{dummy, snapshot_meta}
use raft_drive.Raft.Roles.{init, fresh_node}
use raft_drive.Raft.Restart.{storable, read_persist-persist}
use raft_drive.Raft.Durable.{Persisted}
use raft_drive.Raft.Cluster.Restarts.{persist-raftstate, Restarted, init-Restarted}
use raft_drive.Raft.Net.Queue.{append_queue, All}
use raft_drive.Raft.Net.Ledger.{Ledger, Within, CallOk}
use raft_drive.Raft.Net.Logged.{NodeLog}
use raft_drive.Raft.Net.Keeps.{Steady}

record Reloaded (n m : Node) : Type 0 where
  included : m.last_included_index ≡ 0
  snapshot : m.persister.snapshot ≡ []
  logs : m.logs ≡ dummy 0 ∷ drop 1 n.logs

whole_log : (ls : List LogEntry) → get_elem? ls 0 ≡ some (dummy 0) → dummy 0 ∷ drop 1 ls ≡ ls
whole_log [] h = absurd (cc h)
whole_log (e ∷ es) h = ap (λ x. x ∷ es) (sym (eq_of_some-eq h))

module _ ⦃json : JsonLib⦄ where
  init-Reloaded :
      (peers i : ℕ) (env : Env) (channel : ApplyChannel) (n : Node) {m : Node}
      → Persisted n
      → storable json.is_text (drop 1 n.logs) ≡ true
      → n.current_term < 2 ^ 32
      → IsInt n.voted_for
      → n.persister.snapshot ≡ []
      → init (pos i) peers n.persister channel env ≡ some m
      → Reloaded n m
  unfolding init snapshot_meta
  init-Reloaded peers i env channel n h texts term vote none_yet e =
      let read =
        read_persist-persist n (fresh_node (pos i) peers n.persister channel env) texts term vote
          (h.state ∙ sym (persist-raftstate n)) in
      let empty = ap (λ s. snapshot_meta s) none_yet in
      subst (λ m. Reloaded n m) (eq_of_some-eq (sym read ∙ e))
        (record {
          included = ap (λ (x : ℕ × ℕ). x.0) empty;
          snapshot = none_yet;
          logs = ap (λ (x : ℕ × ℕ). dummy x.1 ∷ drop 1 n.logs) empty;
        })

  pub init-Steady : {peers : ℕ} (i : ℕ) {n m : Node} → Restarted peers i n m → Steady n m
  init-Steady i r = inl (r.state, omega (arith, r.current_term))

  pub init-logs :
      {L : Ledger} (peers i : ℕ) (env : Env) (channel : ApplyChannel) (n : Node) {m : Node}
      → Persisted n
      → storable json.is_text (drop 1 n.logs) ≡ true
      → n.current_term < 2 ^ 32
      → IsInt n.voted_for
      → init (pos i) peers n.persister channel env ≡ some m
      → NodeLog L i n
      → m.logs ≡ n.logs
  init-logs peers i env channel n h texts term vote e old =
      (init-Reloaded peers i env channel n h texts term vote old.no_snapshot e).logs
      ∙ whole_log n.logs old.head

  pub init-NodeLog :
      {L : Ledger} (peers i : ℕ) (env : Env) (channel : ApplyChannel) (n : Node) {m : Node}
      → Persisted n
      → storable json.is_text (drop 1 n.logs) ≡ true
      → n.current_term < 2 ^ 32
      → IsInt n.voted_for
      → init (pos i) peers n.persister channel env ≡ some m
      → NodeLog L i n
      → NodeLog L i m
  init-NodeLog {L} peers i env channel n {m} h texts term vote e old =
      let r = init-Restarted i env channel n h texts term vote e in
      let again = init-Reloaded peers i env channel n h texts term vote old.no_snapshot e in
      let logs : m.logs ≡ n.logs = init-logs peers i env channel n h texts term vote e old in
      record {
        whole = again.included;
        no_snapshot = again.snapshot;
        head = ap (λ ls. get_elem? ls 0) logs ∙ old.head;
        within = subst (λ ls. Within L ls) (sym logs) old.within;
        queue = subst (λ ts. All (CallOk L) (append_queue ts)) (sym r.tasks) tt;
        leads = λ l. absurd (cc (l, r.state));
        up = λ up. absurd (up r.state);
      }
