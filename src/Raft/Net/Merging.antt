-- ===== src/Raft/Net/Merging.antt =====
-- A call of a leader that is merged into a log that stands within the ledger (kvcluster/raft/raft.cpp).
use raft_drive.Prelude.{
  ◌<◌, get_elem?-some, ℕ, zero, suc, ◌+◌, ◌-◌, ◌≤◌, ◌≡◌, refl, sym, ap, subst, ◌∙◌, ◌⊎◌, inl, inr,
  List, [], ◌∷◌, ◌++◌, some, arith, length, take, drop, get_elem?, get_elem?-lt, get_elem?-take,
  get_elem?-drop, get_elem?-append_left, get_elem?-append_right, take-append-drop, length-take,
  eq_of_some-eq, ◌==◌, ==_iff, Bool-cases, Option-cases, ltb, ltb→lt, ltb→le,
}
use raft_drive.Raft.Types.{LogEntry, AppendEntriesArgs}
use raft_drive.Raft.State.{Node, log_term}
use raft_drive.Raft.Append.{merge_logs}
use raft_drive.Raft.Append.Reconcile.{Agree, take-reconcile, reconcile}
use raft_drive.Raft.Append.Merge.{merge_logs-eq-reconcile}
use raft_drive.Raft.Append.Check.{PrevMatches}
use raft_drive.Raft.Net.Ledger.{Ledger, Within, Within-prefix, CallOk}

-- Entries that are the same wherever their terms are.
Agree-of :
    (ls es : List LogEntry)
    → ((q : ℕ) (l e : LogEntry)
        → get_elem? ls q ≡ some l
        → get_elem? es q ≡ some e
        → l.term ≡ e.term
        → l ≡ e)
    → Agree ls es
Agree-of [] es h = tt
Agree-of (l ∷ ls) [] h = tt
Agree-of (l ∷ ls) (e ∷ es) h = (h 0 l e refl refl, Agree-of ls es (λ q. h (suc q)))

-- A request either is in the log, or ends it.
reconcile-cases :
    (ls es : List LogEntry) → Agree ls es → (reconcile ls es ≡ ls) ⊎ (reconcile ls es ≡ es)
unfolding reconcile
reconcile-cases [] es a = inr refl
reconcile-cases (l ∷ ls) [] a = inl refl
reconcile-cases (l ∷ ls) (e ∷ es) (same, a) = elim (Bool-cases (l.term == e.term)) [
  | inr ne ↦ inr (rw ne refl)
  | inl eq ↦ elim (reconcile-cases ls es a) [
    | inl all ↦ inl (rw eq (ap (◌∷◌ l) all))
    | inr ends ↦
        inr (rw eq (ap (◌∷◌ l) ends ∙ ap (λ x. x ∷ es) (same ((==_iff l.term e.term).0 eq))))
  ]
]

-- As far as the log has the request's entries, it stays.
reconcile-keeps :
    (ls es : List LogEntry) (r : ℕ)
    → ((q : ℕ) (l e : LogEntry)
        → q ≤ r
        → get_elem? ls q ≡ some l
        → get_elem? es q ≡ some e
        → l.term ≡ e.term)
    → r < length ls
    → get_elem? (reconcile ls es) r ≡ get_elem? ls r
unfolding reconcile
reconcile-keeps [] es r h lt = absurd (omega arith)
reconcile-keeps (l ∷ ls) [] r h lt = refl
reconcile-keeps (l ∷ ls) (e ∷ es) zero h lt =
    rw ((==_iff l.term e.term).1 (h 0 l e (omega arith) refl refl)) refl
reconcile-keeps (l ∷ ls) (e ∷ es) (suc r) h lt =
    rw ((==_iff l.term e.term).1 (h 0 l e (omega arith) refl refl))
      (reconcile-keeps ls es r (λ q x y le. h (suc q) x y (omega arith)) (omega arith))

pub log_term-entry :
    (logs : List LogEntry) (i : ℕ) {t : ℕ}
    → log_term logs i ≡ some t
    → (e : LogEntry) × (get_elem? logs i ≡ some e) × (e.term ≡ t)
unfolding log_term
log_term-entry logs i h = elim (Option-cases (get_elem? logs i)) [
  | inl miss ↦ cc (rw (log_term, miss) at h)
  | inr (e, hit) ↦ (e, hit, eq_of_some-eq (rw (log_term, hit) at h))
]

module _ (L : Ledger) (id : ℕ) (args : AppendEntriesArgs) (n : Node) (c : CallOk L (id, args))
    (w : Within L n.logs) (g : Within L (L.log_of args.term)) (matches : PrevMatches args n)
    (whole : n.last_included_index ≡ 0) where
  found :
      (e : LogEntry) × (get_elem? n.logs args.pre_log_index ≡ some e) × (e.term ≡ args.pre_log_term)
  found =
      log_term-entry n.logs args.pre_log_index
        (ap (log_term n.logs) (omega (arith, whole)) ∙ matches.1)

  -- The log and the leader's are the same up to the previous entry.
  common : (q : ℕ) → q ≤ args.pre_log_index → get_elem? n.logs q ≡ get_elem? (L.log_of args.term) q
  common q le =
      let (e, hit, term) = found in
      (w args.pre_log_index e hit).1 q le
      ∙ (ap (λ t. get_elem? (L.log_of t) q) (term ∙ sym c.previous_term)
          ∙ sym ((g args.pre_log_index c.last c.previous).1 q le))

  agrees : Agree (drop (args.pre_log_index + 1) n.logs) args.entries
  agrees = Agree-of (drop (args.pre_log_index + 1) n.logs) args.entries (λ q l e there here same.
      let at = args.pre_log_index + 1 + q in
      let hit : get_elem? n.logs at ≡ some l =
        sym (get_elem?-drop (args.pre_log_index + 1) n.logs q at refl) ∙ there in
      let theirs = c.entries q e here in
      eq_of_some-eq (
        sym hit
        ∙ ((w at l hit).1 at (omega arith)
            ∙ (ap (λ t. get_elem? (L.log_of t) at) same
                ∙ (sym ((g at e theirs).1 at (omega arith)) ∙ theirs)))))

  at : ℕ
  at = args.pre_log_index + 1

  inside : at ≤ length n.logs
  unfolding at
  inside = let (e, hit, term) = found in omega (arith, get_elem?-lt n.logs args.pre_log_index hit)

  -- With the request at its end, the log is a beginning of the leader's.
  ended :
      (q : ℕ) (e : LogEntry)
      → get_elem? (take at n.logs ++ args.entries) q ≡ some e
      → get_elem? (L.log_of args.term) q ≡ some e
  unfolding at
  ended q e h =
      let size : length (take at n.logs) ≡ at = omega (arith, length-take at n.logs, inside) in
      elim (Bool-cases (ltb q at)) [
        | inl before ↦
            let low = ltb→lt q at before in
            sym (common q (omega (arith, low)))
            ∙ (sym (get_elem?-take at n.logs q low)
                ∙ (sym (
                      get_elem?-append_left (take at n.logs) args.entries q
                        (omega (arith, size, low)))
                    ∙ h))
        | inr behind ↦
            let high = ltb→le q at behind in
            ap (get_elem? (L.log_of args.term)) (omega (arith, high))
            ∙ c.entries (q - at) e (
                sym (
                  get_elem?-append_right (take at n.logs) args.entries q (q - at)
                    (omega (arith, size, high)))
                ∙ h)
      ]

  -- The merged log has the request's entries, and the leader's before them.
  pub merge_logs-has :
      (q : ℕ)
      → q ≤ args.pre_log_index + length args.entries
      → get_elem? (merge_logs n.logs (args.pre_log_index + 1) args.entries) q
        ≡ get_elem? (L.log_of args.term) q
  unfolding at
  merge_logs-has q le =
      let size : length (take at n.logs) ≡ at = omega (arith, length-take at n.logs, inside) in
      ap (λ ls. get_elem? ls q) (merge_logs-eq-reconcile n.logs at args.entries agrees)
      ∙ elim (Bool-cases (ltb q at)) [
        | inl before ↦
            let low = ltb→lt q at before in
            get_elem?-append_left (take at n.logs) (reconcile (drop at n.logs) args.entries) q
              (omega (arith, size, low))
            ∙ (get_elem?-take at n.logs q low ∙ common q (omega (arith, low)))
        | inr behind ↦
            let high = ltb→le q at behind in
            let (e, here) = get_elem?-some args.entries (q - at) (omega (arith, le, high)) in
            get_elem?-append_right (take at n.logs) (reconcile (drop at n.logs) args.entries) q
              (q - at) (omega (arith, size, high))
            ∙ (sym (
                  get_elem?-take (length args.entries) (reconcile (drop at n.logs) args.entries)
                    (q - at) (omega (arith, le, high)))
                ∙ (ap (λ ls. get_elem? ls (q - at))
                      (take-reconcile (drop at n.logs) args.entries agrees)
                    ∙ (here
                        ∙ (sym (c.entries (q - at) e here)
                            ∙ ap (get_elem? (L.log_of args.term)) (omega (arith, high))))))
      ]

  -- What the log has of the leader's stays.
  pub merge_logs-keeps :
      (p : ℕ)
      → ((q : ℕ)
          → q ≤ p
          → (e : LogEntry) × (get_elem? n.logs q ≡ some e)
            × (get_elem? (L.log_of args.term) q ≡ some e))
      → get_elem? (merge_logs n.logs (args.pre_log_index + 1) args.entries) p ≡ get_elem? n.logs p
  unfolding at
  merge_logs-keeps p h =
      let size : length (take at n.logs) ≡ at = omega (arith, length-take at n.logs, inside) in
      let (e, here, there) = h p (omega arith) in
      ap (λ ls. get_elem? ls p) (merge_logs-eq-reconcile n.logs at args.entries agrees)
      ∙ elim (Bool-cases (ltb p at)) [
        | inl before ↦
            let low = ltb→lt p at before in
            get_elem?-append_left (take at n.logs) (reconcile (drop at n.logs) args.entries) p
              (omega (arith, size, low))
            ∙ get_elem?-take at n.logs p low
        | inr behind ↦
            let high = ltb→le p at behind in
            let moved : get_elem? (drop at n.logs) (p - at) ≡ get_elem? n.logs p =
              get_elem?-drop at n.logs (p - at) p (omega (arith, high)) in
            get_elem?-append_right (take at n.logs) (reconcile (drop at n.logs) args.entries) p
              (p - at) (omega (arith, size, high))
            ∙ (reconcile-keeps (drop at n.logs) args.entries (p - at)
                  (λ q l f le mine theirs.
                    let (g, old, new) = h (at + q) (omega (arith, le, high)) in
                    ap (λ (x : LogEntry). x.term)
                      (eq_of_some-eq (
                        sym mine
                        ∙ (get_elem?-drop at n.logs q (at + q) refl
                            ∙ (old ∙ (sym new ∙ c.entries q f theirs))))))
                  (get_elem?-lt (drop at n.logs) (p - at) (moved ∙ here))
                ∙ moved)
      ]

  -- What the merged log has was in the log, or is in the leader's.
  pub merge_logs-from :
      (q : ℕ) (e : LogEntry)
      → get_elem? (merge_logs n.logs (args.pre_log_index + 1) args.entries) q ≡ some e
      → (get_elem? n.logs q ≡ some e) ⊎ (get_elem? (L.log_of args.term) q ≡ some e)
  unfolding at
  merge_logs-from q e h =
      let merged = merge_logs-eq-reconcile n.logs at args.entries agrees in
      elim (reconcile-cases (drop at n.logs) args.entries agrees) [
        | inl all ↦ inl (
            ap (λ ls. get_elem? ls q)
              (sym (merged ∙ (ap (λ x. take at n.logs ++ x) all ∙ take-append-drop at n.logs)))
            ∙ h)
        | inr ends ↦ inr (
            ended q e
              (ap (λ ls. get_elem? ls q) (sym (merged ∙ ap (λ x. take at n.logs ++ x) ends)) ∙ h))
      ]

  -- The first entry stays.
  pub merge_logs-first :
      get_elem? (merge_logs n.logs (args.pre_log_index + 1) args.entries) 0 ≡ get_elem? n.logs 0
  unfolding at
  merge_logs-first =
      let size : length (take at n.logs) ≡ at = omega (arith, length-take at n.logs, inside) in
      ap (λ ls. get_elem? ls 0) (merge_logs-eq-reconcile n.logs at args.entries agrees)
      ∙ (get_elem?-append_left (take at n.logs) (reconcile (drop at n.logs) args.entries) 0
            (omega (arith, size))
          ∙ get_elem?-take at n.logs 0 (omega arith))

  pub merge_logs-Within : Within L (merge_logs n.logs (args.pre_log_index + 1) args.entries)
  unfolding at
  merge_logs-Within =
      let merged = merge_logs-eq-reconcile n.logs at args.entries agrees in
      elim (reconcile-cases (drop at n.logs) args.entries agrees) [
        | inl all ↦
            subst (Within L)
              (sym (merged ∙ (ap (λ x. take at n.logs ++ x) all ∙ take-append-drop at n.logs))) w
        | inr ends ↦
            subst (Within L) (sym (merged ∙ ap (λ x. take at n.logs ++ x) ends))
              (Within-prefix L (take at n.logs ++ args.entries) (L.log_of args.term) ended g)
      ]
