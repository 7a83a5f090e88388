-- ===== src/Raft/Net/Logged.antt =====
-- What holds of the logs of a cluster and of its calls of `appendEntries` (kvcluster/raft/raft.cpp).
use raft_drive.Prelude.{
  ℕ, ◌*◌, ◌≤◌, ◌<◌, ◌≡◌, ◌∙◌, ◌≢◌, ◌⊎◌, inl, inr, Bool, true, List, [], some, get_elem?, pos,
}
use raft_drive.Raft.Types.{AppendEntriesArgs}
use raft_drive.Raft.State.{leader, candidate, follower, Node}
use raft_drive.Raft.Persist.{dummy}
use raft_drive.Raft.Cluster.{Member, put}
use raft_drive.Raft.Cluster.Tally.{tally}
use raft_drive.Raft.Cluster.Granted.{put-elim}
use raft_drive.Raft.Cluster.Good.{Grows-put}
use raft_drive.Raft.Net.Queue.{append_queue, All, All-map}
use raft_drive.Raft.Net.Ledger.{
  Ledger, Known, Within, CallOk, Extends, CallOk-Extends, Within-Extends,
}

-- Node `i` has no snapshot; its log stands within the ledger, with the dummy as its first entry, its
-- calls that wait are of logs that do, and if it leads its log is the one of its term.
pub record NodeLog (L : Ledger) (i : ℕ) (n : Node) : Type 0 where
  pub whole : n.last_included_index ≡ 0
  pub no_snapshot : n.persister.snapshot ≡ []
  pub head : get_elem? n.logs 0 ≡ some (dummy 0)
  pub within : Within L n.logs
  pub queue : All (CallOk L) (append_queue n.tasks)
  pub leads :
      n.state ≡ leader → (L.leader_of n.current_term ≡ some i) × (L.log_of n.current_term ≡ n.logs)
  pub up : n.state ≢ follower → 0 < n.current_term

-- The node is no candidate of term `t`, and will not be one again.
pub record Past (t : ℕ) (n : Node) : Type 0 where
  pub reached : t ≤ n.current_term
  pub stood : t ≡ n.current_term → n.state ≢ candidate

-- A majority has voted for node `k` in term `t`.
pub record Elected (peers : ℕ) (c : ℕ → Member) (t k : ℕ) : Type 0 where
  pub inside : k < peers
  pub backers : ℕ → Bool
  pub many : peers < 2 * tally backers peers
  pub voted : (j : ℕ) → backers j ≡ true → (c j).votes t ≡ pos k
  pub past : Past t (c k).node

pub record Logged (peers : ℕ) (L : Ledger) (c : ℕ → Member) (calls : List (ℕ × AppendEntriesArgs))
    : Type 0 where
  pub nodes : (i : ℕ) → i < peers → NodeLog L i (c i).node
  pub made_well : All (CallOk L) calls
  pub logs : (t : ℕ) → Known L t → Within L (L.log_of t)
  pub elected : (t k : ℕ) → L.leader_of t ≡ some k → Elected peers c t k

Elected-put :
    {peers t k : ℕ} (c : ℕ → Member) (i : ℕ) (x : Member)
    → ((u l : ℕ) → (c i).votes u ≡ pos l → x.votes u ≡ pos l)
    → (Past t (c i).node → Past t x.node)
    → Elected peers c t k
    → Elected peers (put c i x) t k
Elected-put {peers} {t} {k} c i x more past e = record {
  inside = e.inside;
  backers = e.backers;
  many = e.many;
  voted = λ j h. Grows-put c i x more j t k (e.voted j h);
  past = put-elim (λ j y. Past t (c j).node → Past t y.node) c i x k past (λ d p. p) e.past;
}

-- A node goes on, and the ledger may have grown.
pub Logged-put :
    {peers : ℕ} {L : Ledger} {calls : List (ℕ × AppendEntriesArgs)} (K : Ledger) (c : ℕ → Member)
    (i : ℕ) (x : Member)
    → Extends L K
    → ((u l : ℕ) → (c i).votes u ≡ pos l → x.votes u ≡ pos l)
    → ((t : ℕ) → Past t (c i).node → Past t x.node)
    → NodeLog K i x.node
    → ((k : ℕ) → k ≢ i → k < peers → NodeLog L k (c k).node → NodeLog K k (c k).node)
    → ((t : ℕ) → Known K t → Within K (K.log_of t))
    → ((t k : ℕ)
        → K.leader_of t ≡ some k
        → (L.leader_of t ≡ some k) ⊎ Elected peers (put c i x) t k)
    → Logged peers L c calls
    → Logged peers K (put c i x) calls
Logged-put {peers} {L} {calls} K c i x grown more past node others logs new g = record {
  nodes = λ k b.
      put-elim (λ k y. k < peers → NodeLog K k y.node) c i x k (λ a. node)
        (λ d a. others k d a (g.nodes k a)) b;
  made_well = All-map (CallOk L) (CallOk K) calls (λ call. CallOk-Extends call grown) g.made_well;
  logs = logs;
  elected = λ t k h. elim (new t k h) [
    | inl before ↦ Elected-put c i x more (past t) (g.elected t k before)
    | inr now ↦ now
  ];
}

pub Extends-refl : (L : Ledger) → Extends L L
Extends-refl L = record { leaders = λ t k h. h; logs = λ t known q e h. h }

-- A node goes on, and the ledger is as it was.
pub Logged-same :
    {peers : ℕ} {L : Ledger} {calls : List (ℕ × AppendEntriesArgs)} (c : ℕ → Member) (i : ℕ)
    (x : Member)
    → ((u l : ℕ) → (c i).votes u ≡ pos l → x.votes u ≡ pos l)
    → ((t : ℕ) → Past t (c i).node → Past t x.node)
    → NodeLog L i x.node
    → Logged peers L c calls
    → Logged peers L (put c i x) calls
Logged-same {peers} {L} c i x more past node g =
    Logged-put L c i x (Extends-refl L) more past node (λ k d b h. h) g.logs (λ t k h. inl h) g

-- A node whose log is not the one that has grown.
pub NodeLog-Extends :
    {L K : Ledger} {i : ℕ} {n : Node}
    → Extends L K
    → (n.state ≡ leader
        → L.leader_of n.current_term ≡ some i
        → K.log_of n.current_term ≡ L.log_of n.current_term)
    → NodeLog L i n
    → NodeLog K i n
NodeLog-Extends {L} {K} {i} {n} x same g = record {
  whole = g.whole;
  no_snapshot = g.no_snapshot;
  head = g.head;
  within = Within-Extends n.logs x g.within;
  queue =
      All-map (CallOk L) (CallOk K) (append_queue n.tasks) (λ call. CallOk-Extends call x) g.queue;
  leads = λ l. let (mine, log) = g.leads l in (x.leaders n.current_term i mine, same l mine ∙ log);
  up = g.up;
}
