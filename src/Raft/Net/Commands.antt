-- ===== src/Raft/Net/Commands.antt =====
-- A command of the client: the leader's log in the ledger grows with its own (`start`,
-- kvcluster/raft/raft.cpp).
use raft_drive.Prelude.{
  ℕ, ◌≤◌, ◌<◌, ◌≡◌, refl, sym, ap, subst, ◌∙◌, ◌≢◌, ◌⊎◌, inl, inr, List, [], ◌∷◌, ◌++◌, Bytes,
  arith, length, length-append, get_elem?, get_elem?-lt, get_elem?-append_left,
  get_elem?-append_right, eq_of_some-eq, ltb, ltb→lt, ltb→le, Bool-cases, ℕ-cases, pos,
}
use raft_drive.Json.{JsonLib}
use raft_drive.Raft.Types.{LogEntry, AppendEntriesArgs}
use raft_drive.Raft.State.{leader, Node, is_leader_state, save_raft_state}
use raft_drive.Raft.Persist.{persist}
use raft_drive.Raft.Roles.{start}
use raft_drive.Raft.Ballot.{SameBallot}
use raft_drive.Raft.Ballot.Moves.{start-SameBallot}
use raft_drive.Raft.Cluster.{Member, put, become}
use raft_drive.Raft.Cluster.Kept.{put-here, put-there, become-votes}
use raft_drive.Raft.Cluster.Good.{Good}
use raft_drive.Raft.Net.Queue.{append_queue, All, All-map}
use raft_drive.Raft.Net.Store.{SameStore}
use raft_drive.Raft.Net.Ledger.{
  Ledger, Known, Within, Within-Extends, CallOk, CallOk-Extends, Extends, extend, extend-Extends,
}
use raft_drive.Raft.Net.Logged.{NodeLog, NodeLog-Extends, Past, Logged, Logged-put, Logged-same}
use raft_drive.Raft.Net.Keeps.{Steady, NodeLog-Steady, Past-Steady}

-- A log within the ledger that is a leader's takes the entry that the leader's takes.
Within-extend :
    (L : Ledger) (xs : List LogEntry) (e : LogEntry)
    → Known L e.term
    → L.log_of e.term ≡ xs
    → Within L xs
    → Within (extend L e.term e) (xs ++ e ∷ [])
Within-extend L xs e known whose w p f at = elim (Bool-cases (ltb p (length xs))) [
  | inl before ↦
      let inside = ltb→lt p (length xs) before in
      let (there, same) =
        Within-Extends xs (extend-Extends L e.term e) w p f
          (sym (get_elem?-append_left xs (e ∷ []) p inside) ∙ at) in
      (there, λ q le. get_elem?-append_left xs (e ∷ []) q (omega (arith, inside, le)) ∙ same q le)
  | inr behind ↦
      let size = get_elem?-lt (xs ++ e ∷ []) p at in
      let end : p ≡ length xs =
        omega (arith, ltb→le p (length xs) behind, size, length-append xs (e ∷ [])) in
      let last : e ≡ f =
        eq_of_some-eq (sym (get_elem?-append_right xs (e ∷ []) p 0 (omega (arith, end))) ∙ at) in
      subst
        (λ (y : LogEntry).
          Known (extend L e.term e) y.term
          × ((q : ℕ)
              → q ≤ p
              → get_elem? (xs ++ e ∷ []) q ≡ get_elem? ((extend L e.term e).log_of y.term) q))
        last
        (
          known,
          λ q le. sym (
              ap (λ ys. get_elem? ys q)
                (put-here L.log_of e.term (L.log_of e.term ++ e ∷ [])
                  ∙ ap (λ ys. ys ++ e ∷ []) whose)),
        )
]

-- A node that leads has one more entry.
pub record Longer (command : Bytes) (n m : Node) : Type 0 where
  pub logs : m.logs ≡ n.logs ++ record { command = command; term = n.current_term } ∷ []
  pub included : m.last_included_index ≡ n.last_included_index
  pub snapshot : m.persister.snapshot ≡ n.persister.snapshot
  pub queue : append_queue m.tasks ≡ append_queue n.tasks

module _ ⦃json : JsonLib⦄ where
  pub start-Longer :
      (command : Bytes) (n : Node) → n.state ≡ leader → Longer command n (start command n).0
  unfolding start persist save_raft_state
  start-Longer command n leads =
      rw leads (record { logs = refl; included = refl; snapshot = refl; queue = refl })

  pub start-SameStore :
      (command : Bytes) (n : Node) → n.state ≢ leader → SameStore n (start command n).0
  unfolding start
  start-SameStore command n rests = ground arith

  pub Logged-start :
      {peers : ℕ} {L : Ledger} {calls : List (ℕ × AppendEntriesArgs)} (c : ℕ → Member) (i : ℕ)
      (command : Bytes)
      → i < peers
      → Good peers c
      → Logged peers L c calls
      → let m = (start command (c i).node).0 in
        let e : LogEntry = record { command = command; term = (c i).node.current_term } in
        (((c i).node.state ≢ leader) × Logged peers L (put c i (become m (c i))) calls)
        ⊎ (((c i).node.state ≡ leader)
            × Logged peers (extend L (c i).node.current_term e) (put c i (become m (c i))) calls)
  Logged-start {peers} {L} {calls} c i command b good g =
      elim (Bool-cases (is_leader_state n.state)) [
        | inr rests ↦
            let idle : n.state ≢ leader = λ e. cc (rw e at rests) in
            inl (
              idle,
              Logged-same c i (become m (c i)) more past
                  (NodeLog-Steady (start-SameStore command n idle) steady old) g,
            )
        | inl yes_leads ↦ let leads : n.state ≡ leader = ground arith in inr (leads, grown leads)
      ]
    where
      n : Node
      n = (c i).node

      m : Node
      m = (start command n).0

      t : ℕ
      t = n.current_term

      e : LogEntry
      e = record { command = command; term = t }

      K : Ledger
      K = extend L t e

      x : Extends L K
      x = extend-Extends L t e

      old : NodeLog L i n
      old = g.nodes i b

      same : SameBallot n m
      same = start-SameBallot command n

      steady : Steady n m
      steady = inr (same.current_term, same.state)

      more : (u l : ℕ) → (c i).votes u ≡ pos l → (become m (c i)).votes u ≡ pos l
      more = become-votes m (c i) (good.sound i b) (inr (same.current_term, inr same.voted_for))

      past : (u : ℕ) → Past u n → Past u m
      past u = Past-Steady u steady

      node : n.state ≡ leader → NodeLog K i m
      node leads =
          let h = start-Longer command n leads in
          let (mine, log) = old.leads leads in
          let all : K.log_of t ≡ m.logs =
            put-here L.log_of t (L.log_of t ++ e ∷ [])
            ∙ (ap (λ ys. ys ++ e ∷ []) log ∙ sym h.logs) in
          record {
            whole = h.included ∙ old.whole;
            no_snapshot = h.snapshot ∙ old.no_snapshot;
            head =
                ap (λ ls. get_elem? ls 0) h.logs
                ∙ (get_elem?-append_left n.logs (e ∷ []) 0 (get_elem?-lt n.logs 0 old.head)
                    ∙ old.head);
            within =
                subst (λ ls. Within K ls) (sym h.logs)
                  (Within-extend L n.logs e (inr (i, mine)) log old.within);
            queue = subst (All (CallOk K)) (sym h.queue) (
                All-map (CallOk L) (CallOk K) (append_queue n.tasks) (λ call. CallOk-Extends call x)
                  old.queue);
            leads =
                λ l. (ap L.leader_of same.current_term ∙ mine, ap K.log_of same.current_term ∙ all);
            up = λ h. omega (arith, old.up (λ f. cc (f, leads)), same.current_term);
          }

      grown : n.state ≡ leader → Logged peers K (put c i (become m (c i))) calls
      grown leads =
          let (mine, log) = old.leads leads in
          Logged-put K c i (become m (c i)) x more past (node leads)
            (λ k d a. NodeLog-Extends x (λ l theirs.
              put-there L.log_of t (c k).node.current_term (L.log_of t ++ e ∷ [])
                (λ f. d (eq_of_some-eq (sym theirs ∙ (ap L.leader_of f ∙ mine))))))
            (λ u known. elim (ℕ-cases u t) [
              | inl here ↦
                  subst (Within K)
                    (sym (
                      ap K.log_of here
                      ∙ (put-here L.log_of t (L.log_of t ++ e ∷ []) ∙ ap (λ ys. ys ++ e ∷ []) log)))
                    (Within-extend L n.logs e (inr (i, mine)) log old.within)
              | inr there ↦
                  subst (Within K) (sym (put-there L.log_of t u (L.log_of t ++ e ∷ []) there))
                    (Within-Extends (L.log_of u) x (g.logs u known))
            ])
            (λ u k led. inl led) g
