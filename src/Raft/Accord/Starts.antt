-- ===== src/Raft/Accord/Starts.antt =====
-- A leader takes a command (`start`, kvcluster/raft/raft.cpp).
use raft_drive.Prelude.{
  ℕ, suc, ◌≤◌, ◌<◌, ◌≡◌, refl, sym, ap, subst, ◌∙◌, ◌≢◌, inl, inr, List, [], ◌∷◌, ◌++◌, some, arith,
  Bytes, length, length-append, get_elem?, get_elem?-some, get_elem?-lt, get_elem?-append_left,
  ℕ-cases, Bool-cases, ltb, ltb→lt, ltb→le,
}
use raft_drive.Raft.Types.{LogEntry}
use raft_drive.Raft.State.{leader, Node}
use raft_drive.Raft.Ballot.{vote_queue, SameBallot}
use raft_drive.Raft.Cluster.{Member, put, become}
use raft_drive.Raft.Cluster.Kept.{put-here, put-there}
use raft_drive.Raft.Cluster.Good.{Good}
use raft_drive.Raft.Net.Queue.{All, All-map}
use raft_drive.Raft.Net.Ledger.{Ledger, Known, extend, extend-Extends}
use raft_drive.Raft.Net.Logged.{NodeLog}
use raft_drive.Raft.Net.Commands.{Longer}
use raft_drive.Raft.Accord.Defs.{Chronicle, Grown, Taken, Shaped, Keeps-Grown, Taken-Grown}
use raft_drive.Raft.Accord.Shapes.{Shaped-same, Shaped-more, snoc-cases}
use raft_drive.Raft.Accord.Still.{Handed-less}
use raft_drive.Raft.Accord.Moves.{Accorded-put}
use raft_drive.Raft.Accord.Keeper.{Queued, Keeper, Accorded, Asks-Grown}

-- The leader has taken its own log.
abbrev pub take_own : Chronicle → ℕ → ℕ → ℕ → Chronicle
take_own A t i last = record A { taken_of = put A.taken_of i (put (A.taken_of i) t last) }

module _ {peers : ℕ} {L : Ledger} {A : Chronicle} (c : ℕ → Member) (i : ℕ) (m : Node)
    (command : Bytes) (b : i < peers) (good : Good peers c) (leads : (c i).node.state ≡ leader)
    (same : SameBallot (c i).node m) (more : Longer command (c i).node m)
    (node : NodeLog L i (c i).node) (all : Accorded peers L A c) where
  abbrev entry : LogEntry
  entry = record { command = command; term = (c i).node.current_term }

  abbrev pub K : Ledger
  K =
      extend L (c i).node.current_term
        (record { command = command; term = (c i).node.current_term })

  abbrev pub B : Chronicle
  B = take_own A (c i).node.current_term i (length (c i).node.logs)

  old : Keeper L A i (c i).node
  old = all.keepers i b

  log : L.log_of (c i).node.current_term ≡ (c i).node.logs
  log = (node.leads leads).1

  log_here : K.log_of (c i).node.current_term ≡ (c i).node.logs ++ entry ∷ []
  log_here = put-here L.log_of (c i).node.current_term _ ∙ ap (λ ys. ys ++ entry ∷ []) log

  grown : Grown L A K B
  grown = record {
    extends = extend-Extends L (c i).node.current_term entry;
    bases = λ u k led. refl;
  }

  row_there : (t : ℕ) → t ≢ (c i).node.current_term → B.taken_of i t ≡ A.taken_of i t
  row_there t d =
      ap (λ (f : ℕ → ℕ). f t) (put-here A.taken_of i _)
      ∙ put-there (A.taken_of i) (c i).node.current_term t _ d

  row_here : B.taken_of i (c i).node.current_term ≡ length (c i).node.logs
  row_here =
      ap (λ (f : ℕ → ℕ). f (c i).node.current_term) (put-here A.taken_of i _)
      ∙ put-here (A.taken_of i) (c i).node.current_term _

  size : length m.logs ≡ suc (length (c i).node.logs)
  size = omega (
    arith,
    ap (λ (ls : List LogEntry). length ls) more.logs,
    length-append (c i).node.logs (entry ∷ []),
  )

  -- An entry that was there is there.
  stays :
      (q : ℕ) (e : LogEntry) → get_elem? (c i).node.logs q ≡ some e → get_elem? m.logs q ≡ some e
  stays q e at =
      ap (λ ls. get_elem? ls q) more.logs
      ∙ (get_elem?-append_left (c i).node.logs (entry ∷ []) q (get_elem?-lt (c i).node.logs q at)
          ∙ at)

  longer-Keeper : Keeper L A i (c i).node → Keeper K B i m
  longer-Keeper o = record {
    current = λ t h. elim (ℕ-cases t (c i).node.current_term) [
      | inl here ↦ omega (arith, here, same.current_term)
      | inr there ↦
          omega (arith, o.current t (omega (arith, h, row_there t there)), same.current_term)
    ];
    keeps = λ t p some_entry le handed. elim (ℕ-cases t (c i).node.current_term) [
      | inl here ↦ λ q below.
          let (e, at) =
            get_elem?-some m.logs q
              (omega (arith, below, le, ap (B.taken_of i) here, row_here, size)) in
          (e, at, ap (λ ls. get_elem? ls q) (ap K.log_of here ∙ (log_here ∙ sym more.logs)) ∙ at)
      | inr there ↦
          let le_old : p ≤ A.taken_of i t = omega (arith, le, row_there t there) in
          let had =
            Keeps-Grown {L = L} {K = K} {A = A} {B = B} i t p (suc (c i).node.current_term)
              (c i).node.logs grown (all.taken i t (omega (arith, some_entry, le_old))) le_old
              (o.keeps t p some_entry le_old)
              (Handed-less K B t p (suc (c i).node.current_term) (suc m.current_term)
                (omega (arith, same.current_term)) handed) in
          λ q below. let (e, here, place) = had q below in (e, stays q e here, place)
    ];
    terms = λ p e at.
        elim (snoc-cases (c i).node.logs entry p e
          (ap (λ ls. get_elem? ls p) (sym more.logs) ∙ at)) [
            | inl before ↦ omega (arith, o.terms p e before, same.current_term)
            | inr (here, which) ↦
                omega (arith, ap (λ (x : LogEntry). x.term) which, same.current_term)
          ];
    young = λ h. absurd (cc (h, same.state, leads));
    stands = λ h. absurd (cc (h, same.state, leads));
    asks =
        All-map (Queued L A i (c i).node.current_term) (Queued K B i m.current_term)
          (vote_queue m.tasks)
          (λ r q. record {
            asks = Asks-Grown i r grown refl q.asks;
            reached = omega (arith, q.reached, same.current_term);
          })
          (subst (All (Queued L A i (c i).node.current_term)) (sym same.queue) o.asks);
    leads = λ l. omega (arith, size, ap (B.taken_of i) same.current_term, row_here);
  }

  longer-Shaped : (u : ℕ) → Known K u → Shaped K B u
  longer-Shaped u known = elim (ℕ-cases u (c i).node.current_term) [
    | inl here ↦
        subst (λ w. Shaped K B w) (sym here)
          (Shaped-more {A = A} (c i).node.current_term entry refl
            (put-here L.log_of (c i).node.current_term _) refl
            (all.shaped (c i).node.current_term (inr (i, (node.leads leads).0))))
    | inr there ↦
        Shaped-same u (put-there L.log_of (c i).node.current_term u _ there) refl
          (all.shaped u known)
  ]

  longer-Taken : (t : ℕ) → 0 < B.taken_of i t → Taken K B i t
  longer-Taken t some_entry = elim (ℕ-cases t (c i).node.current_term) [
    | inl here ↦ record {
      leader = i;
      led = ap L.leader_of here ∙ (node.leads leads).0;
      inside = omega (
        arith,
        ap (B.taken_of i) here,
        row_here,
        size,
        ap (λ (ls : List LogEntry). length ls) (ap K.log_of here ∙ (log_here ∙ sym more.logs)),
      );
    }
    | inr there ↦
        Taken-Grown {L = L} {K = K} {A = A} {B = B} i t grown (row_there t there)
          (all.taken i t (omega (arith, some_entry, row_there t there)))
  ]

  pub Accorded-longer : Accorded peers K B (put c i (become m (c i)))
  Accorded-longer =
      Accorded-put {L = L} {K = K} {A = A} {B = B} c i (become m (c i)) good b grown
        (λ j d t. ap (λ (f : ℕ → ℕ). f t) (put-there A.taken_of i j _ d))
        (λ t lt. row_there t (λ e. omega (arith, lt, e))) (λ j d u. refl) (λ u le. refl)
        (omega (arith, same.current_term)) (longer-Keeper (all.keepers i b)) (λ t j r h. inl h)
        (λ u j h free. inl h) longer-Taken longer-Shaped (λ u k led. inl led) all

  pub longer-more : (j t : ℕ) → A.taken_of j t ≤ B.taken_of j t
  longer-more j t = elim (ℕ-cases j i) [
    | inr there ↦ omega (arith, ap (λ (f : ℕ → ℕ). f t) (put-there A.taken_of i j _ there))
    | inl here ↦
        subst (λ k. A.taken_of k t ≤ B.taken_of k t) (sym here)
          (elim (ℕ-cases t (c i).node.current_term) [
            | inr past ↦ omega (arith, row_there t past)
            | inl now ↦ elim (Bool-cases (ltb 0 (A.taken_of i t))) [
              | inr none_yet ↦ omega (arith, ltb→le 0 (A.taken_of i t) none_yet)
              | inl some_entry ↦ omega (
                arith,
                (all.taken i t (ltb→lt 0 (A.taken_of i t) some_entry)).inside,
                ap (λ (ls : List LogEntry). length ls) (ap L.log_of now ∙ log),
                ap (B.taken_of i) now,
                row_here,
              )
            ]
          ])
  ]
