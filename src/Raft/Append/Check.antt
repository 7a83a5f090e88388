-- ===== src/Raft/Append/Check.antt =====
-- The consistency check of `appendEntries`, and the hint that a refusal carries.
use native.Mathlib.Nat.{sub-zero}
use raft_drive.Prelude.{
  ℕ, zero, suc, ◌+◌, ◌-◌, ◌^◌, ◌≤◌, ◌<◌, ◌≡◌, refl, ap, ◌∙◌, ◌≢◌, ◌⊎◌, inl, inr, Bool, true, false,
  List, Option, some, ◌>>=◌, arith, ltb, leb, ◌==◌, ==_iff, ltb→lt, ltb→le, leb→le, leb→lt,
  Bool-cases, Option-cases, eq_of_some-eq, length, get_elem?, get_elem?-some, get_elem?-lt, sub64,
}
use raft_drive.Raft.Types.{LogEntry, AppendEntriesArgs, AppendEntriesReply}
use raft_drive.Raft.State.{Node, log_term}
use raft_drive.Raft.Append.{check_log, check_entry, scan_conflict}

-- A read of a term within the log.
pub log_term-some :
    (logs : List LogEntry) (i : ℕ) → i < length logs → (t : ℕ) × (log_term logs i ≡ some t)
unfolding log_term
log_term-some logs i h = let (e, hit) = get_elem?-some logs i h in (e.term, rw (log_term, hit) refl)

pub log_term-lt :
    (logs : List LogEntry) (i : ℕ) {t : ℕ} → log_term logs i ≡ some t → i < length logs
unfolding log_term
log_term-lt logs i h = elim (Option-cases (get_elem? logs i)) [
  | inl miss ↦ cc (rw (log_term, miss) at h)
  | inr (e, hit) ↦ get_elem?-lt logs i hit
]

-- What the scan finds: `d` entries before `rel` have the term, and the one before them has not.
pub record Run (logs : List LogEntry) (term rel d : ℕ) : Type 0 where
  pub within : d ≤ rel
  pub same : (j : ℕ) → rel ≤ j + d → j < rel → log_term logs j ≡ some term
  pub stops : (rel ≡ d) ⊎ ((j t : ℕ) × (j + d + 1 ≡ rel) × (log_term logs j ≡ some t) × (t ≢ term))

Run-suc :
    (logs : List LogEntry) (term rel d : ℕ)
    → log_term logs rel ≡ some term
    → Run logs term rel d
    → Run logs term (suc rel) (suc d)
Run-suc logs term rel d hit run = record {
  within = omega (arith, run.within);
  same = λ j p q. elim (Bool-cases (j == rel)) [
    | inl at ↦ rw ((==_iff j rel).0 at) hit
    | inr before ↦ run.same j (omega arith) (ground arith)
  ];
  stops = elim run.stops [
    | inl all ↦ inl (omega arith)
    | inr (j, t, at, found, differs) ↦ inr (j, t, omega arith, found, differs)
  ];
}

-- From any place inside the log the scan for the conflict ends without a read outside of it, and goes
-- back over the whole run of entries of the given term and no further.
pub scan_conflict_lem :
    (logs : List LogEntry) (term index rel : ℕ)
    → rel ≤ length logs
    → (d : ℕ) × (scan_conflict logs term index rel ≡ some (index - d)) × Run logs term rel d
unfolding scan_conflict
scan_conflict_lem logs term index zero h = (
  0,
  rw (sub-zero) refl,
  record { within = omega arith; same = λ j p q. elim q [ ]; stops = inl refl },
)
scan_conflict_lem logs term index (suc rel) h =
    let (t, hit) = log_term-some logs rel h in
    elim (Bool-cases (t == term)) [
      | inl eq ↦
          let (d, found, run) = scan_conflict_lem logs term (index - 1) rel (omega arith) in
          (
            suc d,
            rw (scan_conflict, hit, ◌>>=◌, eq) (found ∙ ap some (omega arith)),
            Run-suc logs term rel d (rw ((==_iff t term).0 eq) at hit) run,
          )
      | inr ne ↦ (
        0,
        rw (scan_conflict, hit, ◌>>=◌, ne) (rw sub-zero refl),
        record {
          within = omega arith;
          same = λ j p q. absurd (omega arith);
          stops = inr (rel, t, omega arith, hit, λ e. cc (ne, (==_iff t term).1 e));
        },
      )
    ]

-- The request's previous entry is in the log, with the request's term.
abbrev pub PrevMatches : AppendEntriesArgs → Node → Type 0
PrevMatches args n =
    (n.last_included_index ≤ args.pre_log_index)
    × (log_term n.logs (args.pre_log_index - n.last_included_index) ≡ some args.pre_log_term)

-- How the check ends: it goes on exactly when the previous entry matches, and a refusal says so.
abbrev pub Checked :
    AppendEntriesArgs → AppendEntriesReply → Node → Option (AppendEntriesReply × Bool) → Type 0
Checked args reply n r =
    (PrevMatches args n × (r ≡ some (reply, true)))
    ⊎ ((¬ PrevMatches args n)
        × ((refusal : AppendEntriesReply) × (r ≡ some (refusal, false))
            × (refusal.success ≡ false)
            × (refusal.term ≡ reply.term)))

module _ (args : AppendEntriesArgs) (reply : AppendEntriesReply) (n : Node) where
  check_entry-Checked :
      n.last_included_index ≤ args.pre_log_index
      → Checked args reply n (check_entry args reply n (args.pre_log_index - n.last_included_index))
  check_entry-Checked low =
      let rel = args.pre_log_index - n.last_included_index in
      elim (Bool-cases (leb (length n.logs) rel)) [
        | inl beyond ↦ rw beyond (
            inr (
              (λ m. omega (arith, leb→le _ _ beyond, log_term-lt n.logs rel m.1)),
              (_, refl, refl, refl),
            ))
        | inr inside ↦
            let (t, hit) = log_term-some n.logs rel (leb→lt _ _ inside) in
            elim (Bool-cases (t == args.pre_log_term)) [
              | inl eq ↦ rw (inside, hit, eq) (inl ((low, ap some ((==_iff _ _).0 eq)), refl))
              | inr ne ↦
                  let (d, found, run) =
                    scan_conflict_lem n.logs t args.pre_log_index rel
                      (omega (arith, leb→lt _ _ inside)) in
                  rw (inside, hit, ne, found)
                    (inr (
                      (λ m. cc (ne, (==_iff t args.pre_log_term).1 (eq_of_some-eq m.1))),
                      (_, refl, refl, refl),
                    ))
            ]
      ]

  pub check_log-Checked :
      args.pre_log_index < 2 ^ 64 → Checked args reply n (check_log args reply n)
  unfolding check_log
  check_log-Checked word = elim (Bool-cases (ltb args.pre_log_index n.last_included_index)) [
    | inl below ↦
        rw below (inr ((λ m. omega (arith, ltb→lt _ _ below, m.0)), (_, refl, refl, refl)))
    | inr above ↦
        let low = ltb→le _ _ above in
        let at : sub64 args.pre_log_index n.last_included_index
            ≡ args.pre_log_index - n.last_included_index =
          omega (arith, low) in
        rw (above, at) (check_entry-Checked low)
  ]
