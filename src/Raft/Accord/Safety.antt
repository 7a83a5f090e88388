-- ===== src/Raft/Accord/Safety.antt =====
-- Leader Completeness: what a majority has taken from a leader is in the logs of all later leaders
-- (kvcluster/raft/raft.cpp).
use raft_drive.Prelude.{
  ℕ, ◌+◌, ◌*◌, ◌^◌, ◌≤◌, ◌<◌, ◌≡◌, sym, ap, ◌∙◌, ◌⊎◌, inl, inr, Bool, true, some, arith, length,
  get_elem?, get_elem?-some, get_elem?-lt, eq_of_some-eq, Bool-cases, ltb, ltb→lt, ltb→le,
}
use raft_drive.Json.{JsonLib}
use raft_drive.Raft.Types.{LogEntry, AppendEntriesArgs}
use raft_drive.Raft.State.{leader}
use raft_drive.Raft.Persist.{dummy}
use raft_drive.Raft.Cluster.Tally.{tally}
use raft_drive.Raft.Net.{Net, NetRun, Starting}
use raft_drive.Raft.Net.Queue.{All-at}
use raft_drive.Raft.Accord.Defs.{Settled}
use raft_drive.Raft.Accord.Complete.{Settled-Holds, Holds-base}
use raft_drive.Raft.Accord.Steps.{Took}
use raft_drive.Raft.Accord.Starting.{Starting-Held}
use raft_drive.Raft.Accord.Runs.{Held, Later, NetRun-Later}

-- A node takes an entry of a leader at place `p` when it is that leader, or has answered with success
-- a call of the leader's term that reaches so far.
abbrev pub HasTaken : Net → ℕ → ℕ → ℕ → ℕ → Type 0
HasTaken d chief t p j =
    (j ≡ chief)
    ⊎ ((k : ℕ) × (args : AppendEntriesArgs) × (get_elem? d.accepted k ≡ some (j, args))
        × (args.term ≡ t)
        × (p ≤ args.pre_log_index + length args.entries))

-- In a cluster that has come so far from one with a leader.
module _ {peers : ℕ} {d f : Net} (chief i p : ℕ) (e : LogEntry) (takers : ℕ → Bool)
    (bc : chief < peers) (bi : i < peers) (lc : (d.members chief).node.state ≡ leader)
    (at : get_elem? (d.members chief).node.logs p ≡ some e)
    (own : e.term ≡ (d.members chief).node.current_term) (h : Held peers d) (l : Later h f) where
  led : h.ledger.leader_of (d.members chief).node.current_term ≡ some chief
  led = ((h.logged.nodes chief bc).leads lc).0

  log : h.ledger.log_of (d.members chief).node.current_term ≡ (d.members chief).node.logs
  log = ((h.logged.nodes chief bc).leads lc).1

  -- The entries that the leader had are in the ledger.
  kept :
      (q : ℕ) (x : LogEntry)
      → get_elem? (d.members chief).node.logs q ≡ some x
      → get_elem? (l.held.ledger.log_of (d.members chief).node.current_term) q ≡ some x
  kept q x here =
      l.extends.logs (d.members chief).node.current_term (inr (chief, led)) q x
        (ap (λ ls. get_elem? ls q) log ∙ here)

  some_entry : 0 < p
  some_entry = elim (Bool-cases (ltb 0 p)) [
    | inl more ↦ ltb→lt 0 p more
    | inr first ↦
        let place : p ≡ 0 = omega (arith, ltb→le 0 p first) in
        let zeroth : dummy 0 ≡ e = eq_of_some-eq (
          sym (h.logged.nodes chief bc).head
          ∙ (ap (get_elem? (d.members chief).node.logs) (sym place) ∙ at)) in
        absurd (
          omega (
            arith,
            ap (λ (x : LogEntry). x.term) zeroth,
            own,
            (h.logged.nodes chief bc).up (λ fol. cc (fol, lc)),
          ))
  ]

  took_it :
      (j : ℕ)
      → HasTaken f chief (d.members chief).node.current_term p j
      → p ≤ l.held.chronicle.taken_of j (d.members chief).node.current_term
  took_it j (inl self) = omega (
    arith,
    (h.accorded.keepers chief bc).leads lc,
    get_elem?-lt (d.members chief).node.logs p at,
    l.more chief (d.members chief).node.current_term,
    ap (λ k. l.held.chronicle.taken_of k (d.members chief).node.current_term) self,
  )
  took_it j (inr (k, args, answered, term, reaches)) = omega (
    arith,
    All-at (Took l.held.chronicle) f.accepted k l.held.took answered,
    ap (l.held.chronicle.taken_of j) term,
    reaches,
  )

  pub chief-Holds :
      peers < 2 * tally takers peers
      → ((j : ℕ) → takers j ≡ true → HasTaken f chief (d.members chief).node.current_term p j)
      → (f.members i).node.state ≡ leader
      → (d.members chief).node.current_term < (f.members i).node.current_term
      → (q : ℕ) → q ≤ p
      → get_elem? (f.members i).node.logs q ≡ get_elem? (d.members chief).node.logs q
  chief-Holds many took li later q le =
      let t = (d.members chief).node.current_term in
      let u = (f.members i).node.current_term in
      let a = l.held.accorded in
      let (theirs, whole) = (l.held.logged.nodes i bi).leads li in
      let settled : Settled peers l.held.ledger l.held.chronicle t p = record {
        some_entry = some_entry;
        own = (e, kept p e at, own);
        takers = takers;
        many = many;
        took = λ j yes. took_it j (took j yes);
      } in
      let base =
        Settled-Holds {A = l.held.chronicle} (λ v k led_v. (a.backed v k led_v).0) t p settled u i
          later theirs in
      let (x, here, there) =
        Holds-base {A = l.held.chronicle} t p u (a.shaped u (inr (i, theirs))) base q le in
      let (y, had) =
        get_elem?-some (d.members chief).node.logs q
          (omega (arith, get_elem?-lt (d.members chief).node.logs p at, le)) in
      ap (λ ls. get_elem? ls q) (sym whole) ∙ (here ∙ (sym there ∙ (kept q y had ∙ sym had)))

module _ ⦃json : JsonLib⦄ where
  -- A cluster of at most 2^31 nodes starts with followers whose logs are empty, with nothing under way,
  -- and runs: calls may be delayed without end, come in any order and be lost, those of `appendEntries`
  -- may come more than once, and nodes stop and start again; each handler, and each round of a thread,
  -- runs on its node without another one between its sections, no node takes a snapshot or is sent one,
  -- a reply that grants a vote counts in the term of its request only, a node that starts again finds
  -- its state on its persister, the terms stay below the largest `uint32_t`, and the logs of nodes that
  -- broadcast or vote, and of those that are sent entries, with these, stay below 2^64 entries. At some
  -- time of the run a leader has an entry of its own term at place `p`. If by a later time a majority of
  -- the nodes has taken it, each being that leader or having answered with success a call of the
  -- leader's term whose entries reach up to `p`, then any node that leads then, in a later term, has up
  -- to `p` the entries that the leader had.
  pub leader_completeness :
      {peers : ℕ} {start d f : Net} (chief i p : ℕ) (e : LogEntry) (takers : ℕ → Bool)
      → peers ≤ 2 ^ 31
      → Starting peers start
      → NetRun peers start d
      → NetRun peers d f
      → chief < peers
      → i < peers
      → (d.members chief).node.state ≡ leader
      → get_elem? (d.members chief).node.logs p ≡ some e
      → e.term ≡ (d.members chief).node.current_term
      → peers < 2 * tally takers peers
      → ((j : ℕ) → takers j ≡ true → HasTaken f chief (d.members chief).node.current_term p j)
      → (f.members i).node.state ≡ leader
      → (d.members chief).node.current_term < (f.members i).node.current_term
      → (q : ℕ) → q ≤ p
      → get_elem? (f.members i).node.logs q ≡ get_elem? (d.members chief).node.logs q
  leader_completeness {peers} {start} {d} {f} chief i p e takers small initial before after bc bi lc
        at own many took li later q le =
      let h = (NetRun-Later small before (Starting-Held initial)).held in
      chief-Holds chief i p e takers bc bi lc at own h (NetRun-Later small after h) many took li
        later q le
