-- ===== src/Raft/Accord/Accepts.antt =====
-- A node takes the entries of a call of `appendEntries` (kvcluster/raft/raft.cpp).
use raft_drive.Prelude.{
  ℕ, suc, ◌-◌, ◌+◌, ◌^◌, ◌≤◌, ◌<◌, ◌≡◌, refl, sym, ap, subst, ◌∙◌, ◌≢◌, inl, inr, arith, length,
  get_elem?, get_elem?-some, get_elem?-lt, ltb, ltb→lt, ltb→le, max, ℕ-cases, Bool-cases,
}
use raft_drive.Raft.Types.{AppendEntriesArgs}
use raft_drive.Raft.State.{Node}
use raft_drive.Raft.Append.{merge_logs}
use raft_drive.Raft.Ballot.{vote_queue}
use raft_drive.Raft.Cluster.{Member, put, become}
use raft_drive.Raft.Cluster.Kept.{put-here, put-there}
use raft_drive.Raft.Cluster.Good.{Good}
use raft_drive.Raft.Net.Queue.{All, All-map}
use raft_drive.Raft.Net.Accept.{Merged, Met}
use raft_drive.Raft.Net.Ledger.{Ledger, Known, Within, CallOk}
use raft_drive.Raft.Net.Logged.{Extends-refl, NodeLog}
use raft_drive.Raft.Net.Merging.{merge_logs-has, merge_logs-keeps, merge_logs-from}
use raft_drive.Raft.Net.Delivers.{merged, no_self_call}
use raft_drive.Raft.Accord.Defs.{Chronicle, Holds, Handed, Grown, Taken, Shaped}
use raft_drive.Raft.Accord.Complete.{Holds-base}
use raft_drive.Raft.Accord.Moves.{Accorded-put}
use raft_drive.Raft.Accord.Keeper.{Queued, Keeper, Accorded, Asks-Grown}
use raft_drive.Raft.Accord.Shapes.{Shaped-same, Shaped-terms}
use raft_drive.Raft.Accord.Still.{Handed-less}

-- The node has taken the leader's entries up to the last one of the call.
abbrev pub take_call : Chronicle → ℕ → AppendEntriesArgs → Chronicle
take_call A i args = record A {
  taken_of = put A.taken_of i (
      put (A.taken_of i) args.term
        (max (A.taken_of i args.term) (args.pre_log_index + length args.entries)));
}

module _ (L : Ledger) (A : Chronicle) (i : ℕ) (args : AppendEntriesArgs) (n m : Node)
    (small : i < 2 ^ 31) (room : length n.logs < 2 ^ 64) (call : CallOk L (i, args))
    (log : Within L (L.log_of args.term)) (node : NodeLog L i n) (g : Merged args n m)
    (met : Met args n m) (queue : vote_queue m.tasks ≡ vote_queue n.tasks)
    (shaped : (u : ℕ) → Known L u → Shaped L A u) (old : Keeper L A i n) where
  known : Known L args.term
  known = inr (call.sender, call.sent_by)

  logs : m.logs ≡ merge_logs n.logs (args.pre_log_index + 1) args.entries
  logs = merged node.whole room g

  -- What the log had of the leader's, it has.
  stays : (p : ℕ) → Holds L args.term p n.logs → Holds L args.term p m.logs
  stays p h q le =
      let (e, here, there) = h q le in
      (
        e,
        ap (λ ls. get_elem? ls q) logs
            ∙ (merge_logs-keeps L i args n call node.within log g.previous node.whole q
                  (λ r lt. h r (omega arith))
                ∙ here),
        there,
      )

  call_inside : args.pre_log_index + length args.entries < length (L.log_of args.term)
  call_inside = elim (Bool-cases (ltb 0 (length args.entries))) [
    | inl more ↦
        let some_entry = ltb→lt 0 (length args.entries) more in
        let (e, at) =
          get_elem?-some args.entries (length args.entries - 1) (omega (arith, some_entry)) in
        omega (
          arith,
          get_elem?-lt (L.log_of args.term) _ (call.entries (length args.entries - 1) e at),
          some_entry,
        )
    | inr nothing ↦ omega (
      arith,
      ltb→le 0 (length args.entries) nothing,
      get_elem?-lt (L.log_of args.term) args.pre_log_index call.previous,
    )
  ]

  -- The leader's entries up to the last one of the call.
  comes : (p : ℕ) → p ≤ args.pre_log_index + length args.entries → Holds L args.term p m.logs
  comes p le q below =
      let (e, there) =
        get_elem?-some (L.log_of args.term) q (omega (arith, call_inside, le, below)) in
      (
        e,
        ap (λ ls. get_elem? ls q) logs
            ∙ (merge_logs-has L i args n call node.within log g.previous node.whole q (omega arith)
                ∙ there),
        there,
      )

  keeps_old :
      (t p : ℕ)
      → 0 < p
      → p ≤ A.taken_of i t
      → Handed L A t p (suc m.current_term)
      → Holds L t p m.logs
  keeps_old t p some_entry taken handed =
      let le : t ≤ n.current_term = old.current t (omega (arith, some_entry, taken)) in
      let had : Holds L t p n.logs = old.keeps t p some_entry taken (
        Handed-less L A t p (suc n.current_term) (suc m.current_term)
          (omega (arith, met.current, met.term)) handed) in
      elim (ℕ-cases t args.term) [
        | inl here ↦
            subst (λ u. Holds L u p m.logs) (sym here)
              (stays p (subst (λ u. Holds L u p n.logs) here had))
        | inr there ↦
            let theirs = Holds-base {A = A} t p args.term (shaped args.term known) (
              handed args.term call.sender (omega (arith, le, met.current, there))
                (omega (arith, met.term)) call.sent_by) in
            λ q below.
              let (e, here, old_place) = had q below in
              let both : Holds L args.term p n.logs = λ r lt.
                (let (f, mine, first) = had r lt in
                  let (f2, theirs2, second) = theirs r lt in
                  (f, mine, theirs2 ∙ (sym second ∙ first))) in
              let (e2, kept, place) = stays p both q below in
              let (e3, place3, old_place3) = theirs q below in
              (e, kept ∙ (sym place ∙ (place3 ∙ (sym old_place3 ∙ old_place))), old_place)
      ]

  fresh : ℕ
  fresh = max (A.taken_of i args.term) (args.pre_log_index + length args.entries)

  row : ℕ → ℕ
  row = put (A.taken_of i) args.term fresh

  grown : Grown L A L (take_call A i args)
  grown = record { extends = Extends-refl L; bases = λ u k h. refl }

  row_here : (take_call A i args).taken_of i ≡ row
  unfolding row fresh
  row_here = put-here A.taken_of i _

  at_here :
      (take_call A i args).taken_of i args.term
      ≡ max (A.taken_of i args.term) (args.pre_log_index + length args.entries)
  unfolding row fresh
  at_here = ap (λ (f : ℕ → ℕ). f args.term) row_here ∙ put-here (A.taken_of i) args.term fresh

  at_there : (t : ℕ) → t ≢ args.term → (take_call A i args).taken_of i t ≡ A.taken_of i t
  unfolding row
  at_there t d = ap (λ (f : ℕ → ℕ). f t) row_here ∙ put-there (A.taken_of i) args.term t fresh d

  pub take_call-Keeper : Keeper L (take_call A i args) i m
  take_call-Keeper = record {
    current = λ t some_entry. elim (ℕ-cases t args.term) [
      | inl here ↦ omega (arith, here, met.term)
      | inr there ↦ omega (
        arith,
        old.current t (omega (arith, some_entry, at_there t there)),
        met.current,
        met.term,
      )
    ];
    keeps = λ t p some_entry le handed. elim (ℕ-cases t args.term) [
      | inl here ↦ elim (Bool-cases (ltb (A.taken_of i t) p)) [
        | inl new ↦
            subst (λ u. Holds L u p m.logs) (sym here)
              (comes p (
                omega (
                  arith,
                  ltb→lt (A.taken_of i t) p new,
                  le,
                  ap ((take_call A i args).taken_of i) here,
                  ap (A.taken_of i) here,
                  at_here,
                )))
        | inr earlier ↦ keeps_old t p some_entry (ltb→le (A.taken_of i t) p earlier) handed
      ]
      | inr there ↦ keeps_old t p some_entry (omega (arith, le, at_there t there)) handed
    ];
    terms = λ p e at.
        elim (merge_logs-from L i args n call node.within log g.previous node.whole p e
          (ap (λ ls. get_elem? ls p) (sym logs) ∙ at)) [
            | inl mine ↦ omega (arith, old.terms p e mine, met.current, met.term)
            | inr theirs ↦
                omega (arith, Shaped-terms args.term (shaped args.term known) p e theirs, met.term)
          ];
    young = λ h. absurd (met.quiet h);
    stands = λ h. absurd (met.quiet h);
    asks =
        All-map (Queued L A i n.current_term) (Queued L (take_call A i args) i m.current_term)
          (vote_queue m.tasks)
          (λ r q. record {
            asks = Asks-Grown i r grown refl q.asks;
            reached = omega (arith, q.reached, met.current, met.term);
          })
          (subst (All (Queued L A i n.current_term)) (sym queue) old.asks);
    leads = λ l.
        let (led, same) = met.leads l in absurd (no_self_call i args n small call node led same);
  }

  pub take_call-Taken :
      (t : ℕ)
      → 0 < (take_call A i args).taken_of i t
      → ((u : ℕ) → 0 < A.taken_of i u → Taken L A i u)
      → Taken L (take_call A i args) i t
  take_call-Taken t some_entry before = elim (ℕ-cases t args.term) [
    | inl here ↦ record {
      leader = call.sender;
      led = ap L.leader_of here ∙ call.sent_by;
      inside = elim (Bool-cases (ltb 0 (A.taken_of i args.term))) [
        | inl had ↦
            let k = before args.term (ltb→lt 0 (A.taken_of i args.term) had) in
            omega (
              arith,
              ap ((take_call A i args).taken_of i) here,
              at_here,
              call_inside,
              k.inside,
              ap (λ u. length (L.log_of u)) here,
            )
        | inr none_yet ↦ omega (
          arith,
          ap ((take_call A i args).taken_of i) here,
          at_here,
          call_inside,
          ltb→le 0 (A.taken_of i args.term) none_yet,
          ap (λ u. length (L.log_of u)) here,
        )
      ];
    }
    | inr there ↦
        let k = before t (omega (arith, some_entry, at_there t there)) in
        record {
          leader = k.leader;
          led = k.led;
          inside = omega (arith, k.inside, at_there t there);
        }
  ]

  pub take_call-took :
      args.pre_log_index + length args.entries ≤ (take_call A i args).taken_of i args.term
  take_call-took = omega (arith, at_here)

  pub take_call-more : (j t : ℕ) → A.taken_of j t ≤ (take_call A i args).taken_of j t
  unfolding row fresh
  take_call-more j t = elim (ℕ-cases j i) [
    | inr there ↦ omega (arith, ap (λ (f : ℕ → ℕ). f t) (put-there A.taken_of i j (row) there))
    | inl here ↦
        subst (λ k. A.taken_of k t ≤ (take_call A i args).taken_of k t) (sym here)
          (elim (ℕ-cases t args.term) [
            | inr past ↦ omega (arith, at_there t past)
            | inl now ↦
                omega
                  (arith, at_here, ap (A.taken_of i) now, ap ((take_call A i args).taken_of i) now)
          ])
  ]

  -- The cluster, when the node has taken the entries.
  pub Accorded-takes :
      {peers : ℕ} (c : ℕ → Member)
      → n ≡ (c i).node
      → i < peers
      → Good peers c
      → Accorded peers L A c
      → Accorded peers L (take_call A i args) (put c i (become m (c i)))
  unfolding row fresh
  Accorded-takes c whose b good all =
      Accorded-put {L = L} {K = L} {A = A} {B = take_call A i args} c i (become m (c i)) good b
        grown (λ j d t. ap (λ (f : ℕ → ℕ). f t) (put-there A.taken_of i j (row) d))
        (λ t lt.
          at_there t
            (λ e. omega (arith, lt, e, met.current, ap (λ (k : Node). k.current_term) whose)))
        (λ j d u. refl) (λ u le. refl)
        (omega (arith, met.current, met.term, ap (λ (k : Node). k.current_term) whose))
        take_call-Keeper (λ t j r h. inl h) (λ u j h free. inl h)
        (λ t some_entry. take_call-Taken t some_entry (all.taken i))
        (λ u k. Shaped-same u refl refl (all.shaped u k)) (λ u k led. inl led) all
