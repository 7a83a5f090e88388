-- ===== src/Raft/Accord/Keeper.antt =====
-- What holds of the logs of a cluster where its leaders' entries are concerned
-- (kvcluster/raft/raft.cpp).
use raft_drive.Prelude.{
  ℕ, suc, ◌≤◌, ◌<◌, ◌≡◌, refl, sym, ap, subst, ◌∙◌, inl, inr, true, none, some, arith, length,
  get_elem?, Bool-cases, ltb, ltb→lt, ltb→le,
}
use raft_drive.Raft.Types.{LogEntry, RequestVoteArgs}
use raft_drive.Raft.State.{leader, candidate, Node}
use raft_drive.Raft.Ballot.{vote_queue}
use raft_drive.Raft.Cluster.{VoteCall, idle, asked, answered, Member}
use raft_drive.Raft.Cluster.Sound.{claims, load, is_granted, is_busy, bit}
use raft_drive.Raft.Cluster.Granted.{or-cases}
use raft_drive.Raft.Cluster.Good.{Good}
use raft_drive.Raft.Net.Queue.{All, All-map}
use raft_drive.Raft.Net.Ledger.{Ledger, Known, Within, Within-Extends}
use raft_drive.Raft.Accord.Defs.{
  Chronicle, Holds, Handed, Shaped, Brought, Backed, Taken, Grown, Keeps-Grown,
}

-- A request for a vote says how the log ends with which node `i` stands.
pub record Asks (L : Ledger) (A : Chronicle) (i : ℕ) (call : ℕ × RequestVoteArgs) : Type 0 where
  pub last : LogEntry
  pub at : get_elem? (A.stand_of i call.1.term) call.1.last_log_index ≡ some last
  pub end : length (A.stand_of i call.1.term) ≡ suc call.1.last_log_index
  pub last_term : last.term ≡ call.1.last_log_term
  pub earlier : last.term < call.1.term
  pub within : Within L (A.stand_of i call.1.term)

-- A request that waits is of no term that is to come.
pub record Queued (L : Ledger) (A : Chronicle) (i u : ℕ) (call : ℕ × RequestVoteArgs) : Type 0 where
  pub asks : Asks L A i call
  pub reached : call.1.term ≤ u

pub record Keeper (L : Ledger) (A : Chronicle) (i : ℕ) (n : Node) : Type 0 where
  pub current : (t : ℕ) → 0 < A.taken_of i t → t ≤ n.current_term
  pub keeps :
      (t p : ℕ)
      → 0 < p
      → p ≤ A.taken_of i t
      → Handed L A t p (suc n.current_term)
      → Holds L t p n.logs
  pub terms : (p : ℕ) (e : LogEntry) → get_elem? n.logs p ≡ some e → e.term ≤ n.current_term
  pub young :
      n.state ≡ candidate
      → (p : ℕ) (e : LogEntry) → get_elem? n.logs p ≡ some e
      → e.term < n.current_term
  pub stands : n.state ≡ candidate → A.stand_of i n.current_term ≡ n.logs
  pub asks : All (Queued L A i n.current_term) (vote_queue n.tasks)
  pub leads : n.state ≡ leader → length n.logs ≤ suc (A.taken_of i n.current_term)

pub record Accorded (peers : ℕ) (L : Ledger) (A : Chronicle) (c : ℕ → Member) : Type 0 where
  pub keepers : (i : ℕ) → i < peers → Keeper L A i (c i).node
  pub asked_well :
      (i t j : ℕ) (args : RequestVoteArgs)
      → i < peers
      → (c i).calls t j ≡ asked args
      → Asks L A i (j, args)
  pub voted :
      (i u j : ℕ)
      → i < peers
      → claims (c i) u j ≡ true
      → L.leader_of u ≡ none
      → Brought L A j u (A.stand_of i u)
  pub taken : (j t : ℕ) → 0 < A.taken_of j t → Taken L A j t
  pub shaped : (u : ℕ) → Known L u → Shaped L A u
  pub backed :
      (u k : ℕ)
      → L.leader_of u ≡ some k
      → (b : Backed peers L A u) × ((j : ℕ)
          → b.backers j ≡ true
          → j < peers
          → u ≤ (c j).node.current_term)

pub Asks-Grown :
    {L K : Ledger} {A B : Chronicle} (i : ℕ) (call : ℕ × RequestVoteArgs)
    → Grown L A K B
    → B.stand_of i call.1.term ≡ A.stand_of i call.1.term
    → Asks L A i call
    → Asks K B i call
Asks-Grown {K = K} i call g same a = record {
  last = a.last;
  at = ap (λ xs. get_elem? xs call.1.last_log_index) same ∙ a.at;
  end = ap length same ∙ a.end;
  last_term = a.last_term;
  earlier = a.earlier;
  within = subst (Within K) (sym same) (Within-Extends _ g.extends a.within);
}

granted-busy : (call : VoteCall) → is_granted call ≡ true → is_busy call ≡ true
granted-busy idle h = absurd (cc h)
granted-busy (asked args) h = absurd (cc h)
granted-busy (answered args reply) h = refl

claims-load : (x : Member) (u j : ℕ) → claims x u j ≡ true → 0 < load x u j
claims-load x u j h = elim (or-cases (x.counted u j) _ h) [
  | inl counts ↦ omega (arith, ap bit counts)
  | inr granted ↦ omega (arith, ap bit (granted-busy (x.calls u j) granted))
]

pub not_later : (a b : ℕ) → (b < a → ⊥) → a ≤ b
not_later a b h = elim (Bool-cases (ltb b a)) [
  | inl lt ↦ absurd (h (ltb→lt b a lt))
  | inr le ↦ ltb→le b a le
]

-- The vote that a node claims is of no later term than its own or the voter's.
pub claims-reached :
    {peers : ℕ} {c : ℕ → Member} (i u j : ℕ)
    → Good peers c
    → i < peers
    → claims (c i) u j ≡ true
    → (u ≤ (c i).node.current_term) × (j < peers) × (u ≤ (c j).node.current_term)
claims-reached {peers} {c} i u j good b h =
    let (inside, vote) = good.backed i u j b h in
    let theirs = good.sound j inside in
    let mine = good.sound i b in
    (
      not_later u (c i).node.current_term
          (λ lt. omega (arith, mine.no_load u j lt, claims-load (c i) u j h)),
      inside,
      not_later u (c j).node.current_term (λ lt. cc (theirs.no_vote u lt, vote)),
    )

-- The node does not move.
pub Keeper-Grown :
    {L K : Ledger} {A B : Chronicle} (i : ℕ) (n : Node)
    → Grown L A K B
    → ((t : ℕ) → B.taken_of i t ≡ A.taken_of i t)
    → ((u : ℕ) → u ≤ n.current_term → B.stand_of i u ≡ A.stand_of i u)
    → ((t : ℕ) → 0 < A.taken_of i t → Taken L A i t)
    → Keeper L A i n
    → Keeper K B i n
Keeper-Grown {L} {K} {A} {B} i n g same stands taken old = record {
  current = λ t some_entry. old.current t (omega (arith, some_entry, same t));
  keeps = λ t p some_entry le.
      let le_old : p ≤ A.taken_of i t = omega (arith, le, same t) in
      Keeps-Grown {L = L} {K = K} {A = A} {B = B} i t p (suc n.current_term) n.logs g
        (taken t (omega (arith, some_entry, le_old))) le_old (old.keeps t p some_entry le_old);
  terms = old.terms;
  young = old.young;
  stands = λ stood. stands n.current_term (omega arith) ∙ old.stands stood;
  asks =
      All-map (Queued L A i n.current_term) (Queued K B i n.current_term) (vote_queue n.tasks)
        (λ call q. record {
          asks = Asks-Grown i call g (stands call.1.term q.reached) q.asks;
          reached = q.reached;
        })
        old.asks;
  leads = λ l. omega (arith, old.leads l, same n.current_term);
}
