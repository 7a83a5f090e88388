-- ===== src/Raft/Accord/Crowns.antt =====
-- A node that finds itself elected begins with all that a majority has taken (`promoteToLeader`,
-- kvcluster/raft/raft.cpp).
use raft_drive.Prelude.{
  ℕ, suc, ◌-◌, ◌≤◌, ◌<◌, ◌≡◌, refl, sym, ap, subst, ◌∙◌, ◌≢◌, inl, inr, true, List, some, none,
  arith, length, get_elem?, get_elem?-some, ltb, ltb→lt, ltb→le, ℕ-cases, Bool-cases, ◌==◌, ==_iff,
}
use raft_drive.Raft.Types.{LogEntry}
use raft_drive.Raft.State.{candidate, Node, is_majority}
use raft_drive.Raft.Ballot.{vote_queue}
use raft_drive.Raft.Ballot.Rounds.{Crowned}
use raft_drive.Raft.Cluster.{Member, put, become}
use raft_drive.Raft.Cluster.Kept.{put-here, put-there}
use raft_drive.Raft.Cluster.Sound.{backs}
use raft_drive.Raft.Cluster.Granted.{or-cases, or-left}
use raft_drive.Raft.Cluster.Good.{Good}
use raft_drive.Raft.Cluster.Safety.{standing-backed}
use raft_drive.Raft.Net.Queue.{All, All-map}
use raft_drive.Raft.Net.Store.{SameStore}
use raft_drive.Raft.Net.Ledger.{Ledger, Known, elect, elect-Extends}
use raft_drive.Raft.Net.Logged.{NodeLog}
use raft_drive.Raft.Accord.Defs.{
  Chronicle, Holds, Grown, Taken, Shaped, Backed, Brought, Brought-Grown, Keeps-Grown, Taken-Grown,
}
use raft_drive.Raft.Accord.Shapes.{Shaped-same, Shaped-begun, Within-rises}
use raft_drive.Raft.Accord.Still.{Handed-less, Handed-next}
use raft_drive.Raft.Accord.Moves.{Accorded-put}
use raft_drive.Raft.Accord.Keeper.{Queued, Keeper, Accorded, Asks-Grown, claims-reached}

-- The leader begins with its log, and has taken all of it.
abbrev pub begin : Chronicle → ℕ → ℕ → List LogEntry → Chronicle
begin A t i xs = record A {
  base_of = put A.base_of t xs;
  taken_of = put A.taken_of i (put (A.taken_of i) t (length xs - 1));
}

module _ {peers : ℕ} {L : Ledger} {A : Chronicle} (c : ℕ → Member) (i : ℕ) (m : Node)
    (b : i < peers) (good : Good peers c) (crown : Crowned (c i).node m)
    (s : SameStore (c i).node m) (stood : (c i).node.state ≡ candidate)
    (node : NodeLog L i (c i).node) (new : L.leader_of (c i).node.current_term ≡ none)
    (all : Accorded peers L A c) where
  abbrev pub K : Ledger
  K = elect L (c i).node.current_term i (c i).node.logs

  abbrev pub B : Chronicle
  B = begin A (c i).node.current_term i (c i).node.logs

  old : Keeper L A i (c i).node
  old = all.keepers i b

  unled : (u k : ℕ) → L.leader_of u ≡ some k → u ≢ (c i).node.current_term
  unled u k led here = cc (ap L.leader_of here, new, led)

  pub begin-Grown : Grown L A K B
  begin-Grown = record {
    extends =
        elect-Extends L (c i).node.current_term i (c i).node.logs
          (λ e. omega (arith, node.up crown.stood, e)) new;
    bases =
        λ u k led. put-there A.base_of (c i).node.current_term u (c i).node.logs (unled u k led);
  }

  row_there : (t : ℕ) → t ≢ (c i).node.current_term → B.taken_of i t ≡ A.taken_of i t
  row_there t d =
      ap (λ (f : ℕ → ℕ). f t) (put-here A.taken_of i _)
      ∙ put-there (A.taken_of i) (c i).node.current_term t _ d

  row_here : B.taken_of i (c i).node.current_term ≡ length (c i).node.logs - 1
  row_here =
      ap (λ (f : ℕ → ℕ). f (c i).node.current_term) (put-here A.taken_of i _)
      ∙ put-here (A.taken_of i) (c i).node.current_term _

  log_here : K.log_of (c i).node.current_term ≡ (c i).node.logs
  log_here = put-here L.log_of (c i).node.current_term (c i).node.logs

  begin-Keeper : Keeper K B i m
  begin-Keeper =
      let t0 = (c i).node.current_term in
      let xs = (c i).node.logs in
      record {
        current = λ t h. elim (ℕ-cases t t0) [
          | inl here ↦ omega (arith, here, crown.current_term)
          | inr there ↦
              omega (arith, old.current t (omega (arith, h, row_there t there)), crown.current_term)
        ];
        keeps = λ t p some_entry le handed. elim (ℕ-cases t t0) [
          | inl here ↦ λ q below.
              let (e, at) =
                get_elem?-some xs q
                  (omega (arith, below, some_entry, le, ap (B.taken_of i) here, row_here)) in
              (
                e,
                ap (λ ls. get_elem? ls q) s.logs ∙ at,
                ap (λ ls. get_elem? ls q) (ap K.log_of here ∙ log_here) ∙ at,
              )
          | inr there ↦
              let le_old : p ≤ A.taken_of i t = omega (arith, le, row_there t there) in
              subst (Holds K t p) (sym s.logs) (
                Keeps-Grown {L = L} {K = K} {A = A} {B = B} i t p (suc t0) xs begin-Grown
                  (all.taken i t (omega (arith, some_entry, le_old))) le_old
                  (old.keeps t p some_entry le_old)
                  (Handed-less K B t p (suc t0) (suc m.current_term)
                    (omega (arith, crown.current_term)) handed))
        ];
        terms = λ p e at. omega (
          arith,
          old.terms p e (ap (λ ls. get_elem? ls p) (sym s.logs) ∙ at),
          crown.current_term,
        );
        young = λ h. absurd (cc (h, crown.state));
        stands = λ h. absurd (cc (h, crown.state));
        asks =
            All-map (Queued L A i t0) (Queued K B i m.current_term) (vote_queue m.tasks)
              (λ r q. record {
                asks = Asks-Grown i r begin-Grown refl q.asks;
                reached = omega (arith, q.reached, crown.current_term);
              })
              (subst (All (Queued L A i t0)) (sym crown.queue) old.asks);
        leads = λ l. omega (
          arith,
          ap (λ (ls : List LogEntry). length ls) s.logs,
          ap (B.taken_of i) crown.current_term,
          row_here,
        );
      }

  Known-before : (u : ℕ) → u ≢ (c i).node.current_term → Known K u → Known L u
  Known-before u d (inl zeroth) = inl zeroth
  Known-before u d (inr (k, led)) =
      inr (k, sym (put-there L.leader_of (c i).node.current_term u (some i) d) ∙ led)

  begin-Shaped : (u : ℕ) → Known K u → Shaped K B u
  begin-Shaped u known =
      let t0 = (c i).node.current_term in
      let xs = (c i).node.logs in
      elim (ℕ-cases u t0) [
        | inl here ↦
            Shaped-begun u xs (ap K.log_of here ∙ log_here)
              (ap B.base_of here ∙ put-here A.base_of t0 xs)
              (λ q e at. omega (arith, old.young stood q e at, here))
              (Within-rises {A = A} xs all.shaped node.within)
        | inr there ↦
            Shaped-same u (put-there L.log_of t0 u xs there) (put-there A.base_of t0 u xs there)
              (all.shaped u (Known-before u there known))
      ]

  begin-Taken : (t : ℕ) → 0 < B.taken_of i t → Taken K B i t
  begin-Taken t some_entry =
      let t0 = (c i).node.current_term in
      let xs = (c i).node.logs in
      elim (ℕ-cases t t0) [
        | inl here ↦ record {
          leader = i;
          led = ap K.leader_of here ∙ put-here L.leader_of t0 (some i);
          inside = omega (
            arith,
            some_entry,
            ap (B.taken_of i) here,
            row_here,
            ap (λ (ls : List LogEntry). length ls) (ap K.log_of here ∙ log_here),
          );
        }
        | inr there ↦
            Taken-Grown {L = L} {K = K} {A = A} {B = B} i t begin-Grown (row_there t there)
              (all.taken i t (omega (arith, some_entry, row_there t there)))
      ]

  -- What the nodes that back it had taken.
  brings :
      (j : ℕ)
      → backs i (c i) (c i).node.current_term j ≡ true
      → Brought L A j (c i).node.current_term (c i).node.logs
  brings j h = elim (or-cases (j == i) _ h) [
    | inl self ↦
        let who : j ≡ i = (==_iff j i).0 self in
        subst (λ k. Brought L A k (c i).node.current_term (c i).node.logs) (sym who)
          (λ t p lt some_entry le own handed.
            old.keeps t p some_entry le (Handed-next L A t p (c i).node.current_term new handed))
    | inr heard ↦
        subst (Brought L A j (c i).node.current_term) (old.stands stood)
          (all.voted i (c i).node.current_term j b (or-left ((c i).counted _ j) _ heard) new)
  ]

  backers_reached :
      (j : ℕ)
      → backs i (c i) (c i).node.current_term j ≡ true
      → (c i).node.current_term ≤ (c j).node.current_term
  backers_reached j h = elim (or-cases (j == i) _ h) [
    | inl self ↦
        let who : j ≡ i = (==_iff j i).0 self in
        omega (arith, ap (λ k. (c k).node.current_term) who)
    | inr heard ↦
        (claims-reached i (c i).node.current_term j good b (or-left ((c i).counted _ j) _ heard)).2
  ]

  row_before : (j t : ℕ) → t ≢ (c i).node.current_term → B.taken_of j t ≡ A.taken_of j t
  row_before j t d = elim (ℕ-cases j i) [
    | inl here ↦ subst (λ k. B.taken_of k t ≡ A.taken_of k t) (sym here) (row_there t d)
    | inr there ↦ ap (λ (f : ℕ → ℕ). f t) (put-there A.taken_of i j _ there)
  ]

  begin-Backed :
      (q : Backed peers K B (c i).node.current_term) × ((j : ℕ)
        → q.backers j ≡ true
        → j < peers
        → (c i).node.current_term ≤ (c j).node.current_term)
  begin-Backed =
      let t0 = (c i).node.current_term in
      let xs = (c i).node.logs in
      let (many, mine) = standing-backed {c = c} good b crown.stood (
        ap (λ k. is_majority k (c i).node.votes_granted) (sym (good.sound i b).size)
        ∙ crown.majority) in
      (
        record {
          backers = backs i (c i) t0;
          many = many;
          brought = λ j h. subst (Brought K B j t0) (sym (put-here A.base_of t0 xs)) (
              Brought-Grown {L = L} {K = K} {A = A} {B = B} j t0 xs begin-Grown (all.taken j)
                (λ t lt. row_before j t (λ e. omega (arith, lt, e))) (brings j h));
        },
        λ j h a. backers_reached j h,
      )

  pub Accorded-begins : Accorded peers K B (put c i (become m (c i)))
  Accorded-begins =
      let t0 = (c i).node.current_term in
      Accorded-put {L = L} {K = K} {A = A} {B = B} c i (become m (c i)) good b begin-Grown
        (λ j d t. ap (λ (f : ℕ → ℕ). f t) (put-there A.taken_of i j _ d))
        (λ t lt. row_there t (λ e. omega (arith, lt, e))) (λ j d u. refl) (λ u le. refl)
        (omega (arith, crown.current_term)) begin-Keeper (λ t j r h. inl h) (λ u j h free. inl h)
        begin-Taken begin-Shaped
        (λ u k led. elim (ℕ-cases u t0) [
          | inl here ↦ inr (
              subst
                (λ w.
                  (q : Backed peers K B w) × ((j : ℕ)
                    → q.backers j ≡ true
                    → j < peers
                    → w ≤ (c j).node.current_term))
                (sym here) begin-Backed)
          | inr there ↦ inl (sym (put-there L.leader_of t0 u (some i) there) ∙ led)
        ])
        all

  pub begin-more : (j t : ℕ) → A.taken_of j t ≤ B.taken_of j t
  begin-more j t = elim (ℕ-cases t (c i).node.current_term) [
    | inr past ↦ omega (arith, row_before j t past)
    | inl now ↦ elim (Bool-cases (ltb 0 (A.taken_of j t))) [
      | inr none_yet ↦ omega (arith, ltb→le 0 (A.taken_of j t) none_yet)
      | inl some_entry ↦
          let k = all.taken j t (ltb→lt 0 (A.taken_of j t) some_entry) in
          absurd (unled t k.leader k.led now)
    ]
  ]
