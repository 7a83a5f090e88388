-- ===== src/Raft/Accord/Shapes.antt =====
-- The terms in the leaders' logs (kvcluster/raft/raft.cpp).
use raft_drive.Prelude.{
  ℕ, ◌≤◌, ◌<◌, ◌≡◌, sym, ap, ◌∙◌, ◌⊎◌, inl, inr, List, [], ◌∷◌, ◌++◌, some, arith, length,
  length-append, get_elem?, get_elem?-lt, get_elem?-some, get_elem?-append_left,
  get_elem?-append_right, eq_of_some-eq, ltb, ltb→lt, ltb→le, Bool-cases,
}
use raft_drive.Raft.Types.{LogEntry}
use raft_drive.Raft.Net.Ledger.{Ledger, Known, Within}
use raft_drive.Raft.Accord.Defs.{Chronicle, Shaped}

-- No entry of a leader's log is of a later term.
pub Shaped-terms :
    {L : Ledger} {A : Chronicle} (u : ℕ)
    → Shaped L A u
    → (q : ℕ) (e : LogEntry) → get_elem? (L.log_of u) q ≡ some e
    → e.term ≤ u
Shaped-terms {A = A} u s q e at = elim (Bool-cases (ltb q (length (A.base_of u)))) [
  | inl low ↦ omega (arith, s.earlier q e at (ltb→lt q (length (A.base_of u)) low))
  | inr high ↦ omega (arith, s.own q e at (ltb→le q (length (A.base_of u)) high))
]

-- The log of the leader of one term, and where it began, are as they were.
pub Shaped-same :
    {L K : Ledger} {A B : Chronicle} (u : ℕ)
    → K.log_of u ≡ L.log_of u
    → B.base_of u ≡ A.base_of u
    → Shaped L A u
    → Shaped K B u
Shaped-same {L} {K} {A} {B} u log base s =
    let size = ap (λ (xs : List LogEntry). length xs) base in
    let back = λ (q : ℕ) (e : LogEntry) (at : get_elem? (K.log_of u) q ≡ some e).
      ap (λ xs. get_elem? xs q) (sym log) ∙ at in
    record {
      begins = λ q lt.
          ap (λ xs. get_elem? xs q) base
          ∙ (s.begins q (omega (arith, lt, size)) ∙ ap (λ xs. get_elem? xs q) (sym log));
      earlier = λ q e at lt. s.earlier q e (back q e at) (omega (arith, lt, size));
      own = λ q e at le. s.own q e (back q e at) (omega (arith, le, size));
      rises = λ p q e f le x y. s.rises p q e f le (back p e x) (back q f y);
    }

-- The terms of a log within the ledger do not fall.
pub Within-rises :
    {L : Ledger} {A : Chronicle} (xs : List LogEntry)
    → ((u : ℕ) → Known L u → Shaped L A u)
    → Within L xs
    → (p q : ℕ) (e f : LogEntry) → p ≤ q
    → get_elem? xs p ≡ some e
    → get_elem? xs q ≡ some f
    → e.term ≤ f.term
Within-rises xs shaped w p q e f le x y =
    let (known, before) = w q f y in
    (shaped f.term known).rises p q e f le (sym (before p le) ∙ x)
      (sym (before q (omega arith)) ∙ y)

-- A leader begins with a log of earlier terms.
pub Shaped-begun :
    {K : Ledger} {B : Chronicle} (u : ℕ) (xs : List LogEntry)
    → K.log_of u ≡ xs
    → B.base_of u ≡ xs
    → ((q : ℕ) (e : LogEntry) → get_elem? xs q ≡ some e → e.term < u)
    → ((p q : ℕ) (e f : LogEntry)
        → p ≤ q
        → get_elem? xs p ≡ some e
        → get_elem? xs q ≡ some f
        → e.term ≤ f.term)
    → Shaped K B u
Shaped-begun {K} {B} u xs log base young rises =
    let back = λ (q : ℕ) (e : LogEntry) (at : get_elem? (K.log_of u) q ≡ some e).
      ap (λ ys. get_elem? ys q) (sym log) ∙ at in
    record {
      begins = λ q lt. ap (λ ys. get_elem? ys q) (base ∙ sym log);
      earlier = λ q e at lt. young q e (back q e at);
      own = λ q e at le. absurd (
          omega (
            arith,
            get_elem?-lt xs q (back q e at),
            le,
            ap (λ (ys : List LogEntry). length ys) base,
          ));
      rises = λ p q e f le x y. rises p q e f le (back p e x) (back q f y);
    }

-- A leader's log is no shorter than it began.
pub Shaped-size :
    {L : Ledger} {A : Chronicle} (u : ℕ) → Shaped L A u → length (A.base_of u) ≤ length (L.log_of u)
Shaped-size {L} {A} u s = elim (Bool-cases (ltb (length (L.log_of u)) (length (A.base_of u)))) [
  | inl short ↦
      let lt = ltb→lt (length (L.log_of u)) (length (A.base_of u)) short in
      let (e, at) = get_elem?-some (A.base_of u) (length (L.log_of u)) lt in
      absurd
        (omega (arith, get_elem?-lt (L.log_of u) (length (L.log_of u)) (sym (s.begins _ lt) ∙ at)))
  | inr enough ↦ ltb→le (length (L.log_of u)) (length (A.base_of u)) enough
]

-- A log with one more entry.
pub snoc-cases :
    (xs : List LogEntry) (e : LogEntry) (q : ℕ) (f : LogEntry)
    → get_elem? (xs ++ e ∷ []) q ≡ some f
    → (get_elem? xs q ≡ some f) ⊎ ((q ≡ length xs) × (e ≡ f))
snoc-cases xs e q f at = elim (Bool-cases (ltb q (length xs))) [
  | inl low ↦ inl (sym (get_elem?-append_left xs (e ∷ []) q (ltb→lt q (length xs) low)) ∙ at)
  | inr high ↦
      let size = get_elem?-lt (xs ++ e ∷ []) q at in
      let here : q ≡ length xs =
        omega (arith, ltb→le q (length xs) high, size, length-append xs (e ∷ [])) in
      inr (
        here,
        eq_of_some-eq (sym (get_elem?-append_right xs (e ∷ []) q 0 (omega (arith, here))) ∙ at),
      )
]

-- A leader has one more entry, of its term.
pub Shaped-more :
    {L K : Ledger} {A B : Chronicle} (u : ℕ) (e : LogEntry)
    → e.term ≡ u
    → K.log_of u ≡ L.log_of u ++ e ∷ []
    → B.base_of u ≡ A.base_of u
    → Shaped L A u
    → Shaped K B u
Shaped-more {L} {K} {A} {B} u e mine log base s =
    let inside = Shaped-size u s in
    let size = ap (λ (xs : List LogEntry). length xs) base in
    let xs = L.log_of u in
    let back = λ (q : ℕ) (f : LogEntry) (at : get_elem? (K.log_of u) q ≡ some f).
      snoc-cases xs e q f (ap (λ ys. get_elem? ys q) (sym log) ∙ at) in
    record {
      begins = λ q lt.
          ap (λ ys. get_elem? ys q) base
          ∙ (s.begins q (omega (arith, lt, size))
              ∙ (sym (get_elem?-append_left xs (e ∷ []) q (omega (arith, lt, size, inside)))
                  ∙ ap (λ ys. get_elem? ys q) (sym log)));
      earlier = λ q f at lt. elim (back q f at) [
        | inl before ↦ s.earlier q f before (omega (arith, lt, size))
        | inr (here, same) ↦ absurd (omega (arith, lt, size, inside, here))
      ];
      own = λ q f at le. elim (back q f at) [
        | inl before ↦ s.own q f before (omega (arith, le, size))
        | inr (here, same) ↦ ap (λ (x : LogEntry). x.term) (sym same) ∙ mine
      ];
      rises = λ p q f g le x y. elim (back q g y) [
        | inl before ↦ elim (back p f x) [
          | inl early ↦ s.rises p q f g le early before
          | inr (here, same) ↦ absurd (omega (arith, le, here, get_elem?-lt xs q before))
        ]
        | inr (last, same) ↦
            let newest : g.term ≡ u = ap (λ (x : LogEntry). x.term) (sym same) ∙ mine in
            elim (back p f x) [
              | inl early ↦ omega (arith, Shaped-terms u s p f early, newest)
              | inr (here, again) ↦
                  omega (arith, newest, ap (λ (x : LogEntry). x.term) (sym again) ∙ mine)
            ]
      ];
    }
