-- ===== src/Raft/Append/Merge.antt =====
-- How `appendEntries` merges the entries of a request into the log, against a plain description.
use raft_drive.Prelude.{
  ℕ, suc, ◌+◌, ◌≤◌, ◌<◌, ◌≡◌, refl, ap, ◌∙◌, inl, inr, false, List, [], ◌∷◌, ◌++◌, some,
  append_assoc, append-nil, arith, ◌==◌, ==_iff, if◌then◌else◌, Bool-cases, Option-cases, bytes_eq,
  bytes_eq_refl, length, get_elem?, take, drop, length-append, length-take, length-drop,
  get_elem?-lt, get_elem?-take, get_elem?-append_left, get_elem?-none, le_of_get_elem?-none,
  take-append-drop, drop-cons, take-snoc, take_all, drop_all, take-append, drop-append,
}
use raft_drive.Raft.Types.{LogEntry}
use raft_drive.Raft.Append.Reconcile.{
  Agree, reconcile, reconcile-nil, reconcile_same, take-reconcile, reconcile_idem, Agree-reconcile,
}
use raft_drive.Raft.Append.{find_mark, merge_logs}

-- Behind the end of the log nothing is compared.
find_mark_past :
    (logs : List LogEntry) (adj i : ℕ) (es : List LogEntry) (mark : ℕ)
    → length logs ≤ i + adj
    → find_mark logs adj i es mark ≡ (logs, mark)
unfolding find_mark
find_mark_past logs adj i [] mark h = refl
find_mark_past logs adj i (e ∷ es) mark h =
    rw (find_mark, get_elem?-none logs (i + adj) h)
      (find_mark_past logs adj (i + 1) es mark (omega arith))

-- What the loop leaves, from entry `i` on, if all entries before it agreed.
abbrev Marked : List LogEntry → ℕ → ℕ → List LogEntry → List LogEntry × ℕ → Type 0
Marked logs k i es r =
    (d : ℕ) × (r.1 ≡ i + d) × (r.0 ++ drop d es ≡ take k logs ++ reconcile (drop k logs) es)

-- One entry of the request that meets an entry `l` of the log.
module _ (logs : List LogEntry) (adj i k : ℕ) (e : LogEntry) (es : List LogEntry) (at : i + adj ≡ k)
    (l : LogEntry) (hit : get_elem? logs k ≡ some l) where
  Marked-same :
      l.term ≡ e.term
      → l ≡ e
      → Marked logs (suc k) (i + 1) es (find_mark logs adj (i + 1) es (i + 1))
      → Marked logs k i (e ∷ es) (find_mark logs adj i (e ∷ es) i)
  unfolding find_mark
  Marked-same same eq (d, m, ih) =
      rw (find_mark, at, hit, same, (==_iff e.term e.term).1 refl, eq, bytes_eq_refl e.command)
        (
          suc d,
          omega (arith, m),
          rw (drop-cons k logs hit, reconcile_same l e (drop (suc k) logs) es same)
              (ih ∙ rw (take-snoc k logs hit) (append_assoc (take k logs) (l ∷ []) _)),
        )

  Marked-differs :
      l.term == e.term ≡ false → Marked logs k i (e ∷ es) (find_mark logs adj i (e ∷ es) i)
  unfolding find_mark reconcile
  Marked-differs ne =
      rw (find_mark, at, hit, ne, at)
        (0, omega arith, rw (drop-cons k logs hit, reconcile, ne) refl)

  Marked-hit :
      Agree (l ∷ drop (suc k) logs) (e ∷ es)
      → (Agree (drop (suc k) logs) es
          → Marked logs (suc k) (i + 1) es (find_mark logs adj (i + 1) es (i + 1)))
      → Marked logs k i (e ∷ es) (find_mark logs adj i (e ∷ es) i)
  Marked-hit (same, rest) ih = elim (Bool-cases (l.term == e.term)) [
    | inl eq ↦
        let same_term : l.term ≡ e.term = (==_iff l.term e.term).0 eq in
        Marked-same same_term (same same_term) (ih rest)
    | inr ne ↦ Marked-differs ne
  ]

find_mark-Marked :
    (logs : List LogEntry) (adj i k : ℕ) (es : List LogEntry)
    → i + adj ≡ k
    → Agree (drop k logs) es
    → Marked logs k i es (find_mark logs adj i es i)
unfolding find_mark reconcile
find_mark-Marked logs adj i k [] e a =
    (0, omega arith, rw (append-nil, reconcile-nil, take-append-drop) refl)
find_mark-Marked logs adj i k (x ∷ es) e a = elim (Option-cases (get_elem? logs k)) [
  | inl miss ↦
      let past : length logs ≤ k = le_of_get_elem?-none logs k miss in
      rw (find_mark_past logs adj i (x ∷ es) i (omega arith))
        (0, omega arith, rw (take_all k logs past, drop_all k logs past, reconcile) refl)
  | inr (l, hit) ↦
      Marked-hit logs adj i k x es e l hit (rw (drop-cons k logs hit) at a)
        (find_mark-Marked logs adj (i + 1) (suc k) es (omega arith))
]

-- Where the log behind the previous entry and the request agree from each place on where their terms
-- do (Log Matching), the merge keeps the log up to the previous entry, and behind it gives what
-- `reconcile` says: the log itself where it already holds the entries, else its agreeing start and
-- then the rest of the request.
pub merge_logs-eq-reconcile :
    (logs : List LogEntry) (adj : ℕ) (es : List LogEntry)
    → Agree (drop adj logs) es
    → merge_logs logs adj es ≡ take adj logs ++ reconcile (drop adj logs) es
unfolding merge_logs
merge_logs-eq-reconcile logs adj es a =
    let (d, m, h) = find_mark-Marked logs adj 0 adj es (omega arith) a in
    let at : (find_mark logs adj 0 es 0).1 ≡ d = omega (arith, m) in rw at h

-- The length of the merged log, whatever the terms are.
find_mark-bounds :
    (logs : List LogEntry) (adj i : ℕ) (es : List LogEntry) (mark : ℕ)
    → mark ≤ i
    → mark + adj ≤ length logs
    → let r = find_mark logs adj i es mark in
      (r.1 + adj ≤ length r.0) × (length r.0 ≤ length logs) × (r.1 ≤ i + length es)
unfolding find_mark
find_mark-bounds logs adj i [] mark h b = omega arith
find_mark-bounds logs adj i (e ∷ es) mark h b = elim (Option-cases (get_elem? logs (i + adj))) [
  | inl miss ↦
      let r = find_mark-bounds logs adj (i + 1) es mark (omega arith) b in
      rw (find_mark, miss) (r.0, r.1, omega (arith, r.2))
  | inr (l, hit) ↦ elim (Bool-cases (l.term == e.term)) [
    | inl eq ↦
        let inside = get_elem?-lt logs (i + adj) hit in
        let mark' : ℕ = if bytes_eq l.command e.command then mark + 1 else mark in
        let low : mark' ≤ mark + 1 = ground arith in
        let r = find_mark-bounds logs adj (i + 1) es mark' (omega arith) (omega arith) in
        rw (find_mark, hit, eq) (r.0, r.1, omega (arith, r.2))
    | inr ne ↦
        rw (find_mark, hit, ne)
          (omega (arith, length-take (i + adj) logs, get_elem?-lt logs (i + adj) hit))
  ]
]

-- Whatever the terms are, and with the previous entry in the log: the merged log is long enough for
-- all entries of the request in their places, and no longer than the log and the request together.
pub merge_logs-bounds :
    (logs : List LogEntry) (adj : ℕ) (es : List LogEntry)
    → adj ≤ length logs
    → (adj + length es ≤ length (merge_logs logs adj es))
      × (length (merge_logs logs adj es) ≤ length logs + length es)
unfolding merge_logs
merge_logs-bounds logs adj es h =
    let r = find_mark logs adj 0 es 0 in
    omega (
      arith,
      find_mark-bounds logs adj 0 es 0 (omega arith) (omega arith),
      length-append r.0 (drop r.1 es),
      length-drop r.1 es,
    )

find_mark-prefix :
    (logs : List LogEntry) (adj i : ℕ) (es : List LogEntry) (mark j : ℕ)
    → j < adj
    → get_elem? (find_mark logs adj i es mark).0 j ≡ get_elem? logs j
unfolding find_mark
find_mark-prefix logs adj i [] mark j h = refl
find_mark-prefix logs adj i (e ∷ es) mark j h = elim (Option-cases (get_elem? logs (i + adj))) [
  | inl miss ↦ rw (find_mark, miss) (find_mark-prefix logs adj (i + 1) es mark j h)
  | inr (l, hit) ↦ elim (Bool-cases (l.term == e.term)) [
    | inl eq ↦ rw (find_mark, hit, eq) (find_mark-prefix logs adj (i + 1) es _ j h)
    | inr ne ↦ rw (find_mark, hit, ne) (get_elem?-take (i + adj) logs j (omega arith))
  ]
]

-- The entries before the request's are untouched, whatever the terms are.
pub merge_logs-prefix :
    (logs : List LogEntry) (adj : ℕ) (es : List LogEntry) (j : ℕ)
    → adj ≤ length logs
    → j < adj
    → get_elem? (merge_logs logs adj es) j ≡ get_elem? logs j
unfolding merge_logs
merge_logs-prefix logs adj es j h lt =
    let r = find_mark logs adj 0 es 0 in
    let room = (find_mark-bounds logs adj 0 es 0 (omega arith) (omega arith)).0 in
    get_elem?-append_left r.0 (drop r.1 es) j (omega (arith, room))
    ∙ find_mark-prefix logs adj 0 es 0 j lt

-- With the previous entry in the log and under Log Matching, the entries of the request are in their
-- places after the merge, and what stands before them is untouched.
pub merge_logs-holds :
    (logs : List LogEntry) (adj : ℕ) (es : List LogEntry)
    → adj ≤ length logs
    → Agree (drop adj logs) es
    → (take (length es) (drop adj (merge_logs logs adj es)) ≡ es)
      × (take adj (merge_logs logs adj es) ≡ take adj logs)
merge_logs-holds logs adj es h a =
    let before = take adj logs in
    let after = reconcile (drop adj logs) es in
    let size : length before ≡ adj = omega (arith, length-take adj logs) in
    rw (merge_logs-eq-reconcile logs adj es a) (
      rw (drop-append adj before after size) (take-reconcile (drop adj logs) es a),
      take-append adj before after size,
    )

-- With the previous entry in the log and under Log Matching, a request that is merged a second time
-- leaves the log as the first time left it.
pub merge_logs_idem :
    (logs : List LogEntry) (adj : ℕ) (es : List LogEntry)
    → adj ≤ length logs
    → Agree (drop adj logs) es
    → merge_logs (merge_logs logs adj es) adj es ≡ merge_logs logs adj es
merge_logs_idem logs adj es h a =
    let before = take adj logs in
    let after = reconcile (drop adj logs) es in
    let size : length before ≡ adj = omega (arith, length-take adj logs) in
    rw (merge_logs-eq-reconcile logs adj es a) (
      merge_logs-eq-reconcile (before ++ after) adj es
        (rw (drop-append adj before after size) (Agree-reconcile (drop adj logs) es a))
      ∙ rw (take-append adj before after size, drop-append adj before after size)
          (ap (◌++◌ before) (reconcile_idem (drop adj logs) es)))
