-- ===== src/Raft/Append/Reconcile.antt =====
-- What `appendEntries` means to make of the log: a plain description of the merge.
use raft_drive.Prelude.{
  ◌≡◌, refl, ap, inl, inr, List, [], ◌∷◌, arith, ◌==◌, ==_iff, if◌then◌else◌, Bool-cases, length,
  take, take_all, ap₂,
}
use raft_drive.Raft.Types.{LogEntry}

-- What the log behind the checked entry becomes: it is kept as far as the terms agree, and from the
-- first entry of another term on it is the request's; a request that is shorter cuts nothing.
unfoldable pub reconcile : List LogEntry → List LogEntry → List LogEntry
reconcile [] es = es
reconcile (l ∷ ls) [] = l ∷ ls
reconcile (l ∷ ls) (e ∷ es) =
    let rest = l ∷ reconcile ls es in if l.term == e.term then rest else e ∷ es

-- Log Matching: entries of one index and one term are the same.
abbrev pub Agree : List LogEntry → List LogEntry → Type 0
Agree [] es = Unit {0}
Agree (l ∷ ls) [] = Unit {0}
Agree (l ∷ ls) (e ∷ es) = (l.term ≡ e.term → l ≡ e) × Agree ls es

pub reconcile-nil : (ls : List LogEntry) → reconcile ls [] ≡ ls
unfolding reconcile
reconcile-nil [] = refl
reconcile-nil (l ∷ ls) = refl

Agree-self : (es : List LogEntry) → Agree es es
Agree-self [] = tt
Agree-self (e ∷ es) = ((λ same. refl), Agree-self es)

pub reconcile_same :
    (l e : LogEntry) (ls es : List LogEntry)
    → l.term ≡ e.term
    → reconcile (l ∷ ls) (e ∷ es) ≡ l ∷ reconcile ls es
unfolding reconcile
reconcile_same l e ls es h = rw ((==_iff l.term e.term).1 h)

-- A reconciled log begins with the entries of the request.
pub take-reconcile : (ls es : List LogEntry) → Agree ls es → take (length es) (reconcile ls es) ≡ es
unfolding reconcile
take-reconcile [] es a = take_all (length es) es (omega arith)
take-reconcile (l ∷ ls) [] a = refl
take-reconcile (l ∷ ls) (e ∷ es) (same, a) = elim (Bool-cases (l.term == e.term)) [
  | inl eq ↦ rw eq (ap₂ ◌∷◌ (same ((==_iff l.term e.term).0 eq)) (take-reconcile ls es a))
  | inr ne ↦ rw ne (ap (◌∷◌ e) (take_all (length es) es (omega arith)))
]

reconcile_self : (es : List LogEntry) → reconcile es es ≡ es
unfolding reconcile
reconcile_self [] = refl
reconcile_self (e ∷ es) = rw ((==_iff e.term e.term).1 refl) (ap (◌∷◌ e) (reconcile_self es))

-- To reconcile a second time with the same entries changes nothing.
pub reconcile_idem : (ls es : List LogEntry) → reconcile (reconcile ls es) es ≡ reconcile ls es
unfolding reconcile
reconcile_idem [] es = reconcile_self es
reconcile_idem (l ∷ ls) [] = refl
reconcile_idem (l ∷ ls) (e ∷ es) = elim (Bool-cases (l.term == e.term)) [
  | inl eq ↦ rw (eq, eq) (ap (◌∷◌ l) (reconcile_idem ls es))
  | inr ne ↦ rw ne (reconcile_self (e ∷ es))
]

pub Agree-reconcile : (ls es : List LogEntry) → Agree ls es → Agree (reconcile ls es) es
unfolding reconcile
Agree-reconcile [] [] a = tt
Agree-reconcile [] (e ∷ es) a = ((λ same. refl), Agree-self es)
Agree-reconcile (l ∷ ls) [] a = tt
Agree-reconcile (l ∷ ls) (e ∷ es) (same, a) = elim (Bool-cases (l.term == e.term)) [
  | inl eq ↦ rw eq (same, Agree-reconcile ls es a)
  | inr ne ↦ rw ne ((λ s. refl), Agree-self es)
]
