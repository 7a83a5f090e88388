-- ===== src/Raft/Accord/Complete.antt =====
-- What a majority has taken stays (kvcluster/raft/raft.cpp).
use raft_drive.Prelude.{
  ℕ, zero, suc, ◌≤◌, ◌<◌, ◌≡◌, sym, ap, ◌∙◌, ◌⊎◌, inl, inr, List, some, arith, length, get_elem?,
  get_elem?-lt, eq_of_some-eq, ltb, ltb→lt, ltb→le, Bool-cases,
}
use raft_drive.Raft.Types.{LogEntry}
use raft_drive.Raft.Cluster.Tally.{tally-common}
use raft_drive.Raft.Net.Ledger.{Ledger, Known, Within}
use raft_drive.Raft.Accord.Defs.{Chronicle, Holds, Own, Handed, Shaped, Settled, Backed}

module _ {peers : ℕ} {L : Ledger} {A : Chronicle}
    (backed : (u k : ℕ) → L.leader_of u ≡ some k → Backed peers L A u) (t q : ℕ)
    (settled : Settled peers L A t q) where
  -- All leaders up to a term began with it.
  settled-Handed : (w : ℕ) → Handed L A t q w
  settled-Handed zero v k after before led = absurd (omega arith)
  settled-Handed (suc w) v k after before led =
      let b = backed v k led in
      let (j, yes_b, yes_t) =
        tally-common b.backers settled.takers peers (omega (arith, b.many, settled.many)) in
      b.brought j yes_b t q after settled.some_entry (settled.took j yes_t) settled.own
        (λ u l x y. settled-Handed w u l x (omega arith))

  -- A later leader began with all that a majority had taken.
  pub Settled-Holds : (u k : ℕ) → t < u → L.leader_of u ≡ some k → Holds L t q (A.base_of u)
  Settled-Holds u k after led = settled-Handed (suc u) u k after (omega arith) led

-- The leader's log has what it began with.
pub Holds-base :
    {L : Ledger} {A : Chronicle} (t p u : ℕ)
    → Shaped L A u
    → Holds L t p (A.base_of u)
    → Holds L t p (L.log_of u)
Holds-base {A = A} t p u s h q le =
    let (e, here, there) = h q le in
    (e, sym (s.begins q (get_elem?-lt (A.base_of u) q here)) ∙ here, there)

-- A log whose last entry is not behind the last one of a log that has the entries of the leader of `t`,
-- up to one of its own, has them too.
module _ {L : Ledger} {A : Chronicle} (xs ys : List LogEntry) (t p : ℕ) (own : Own L t p)
    (shaped : (u : ℕ) → Known L u → Shaped L A u) (w : Within L xs) (v : Within L ys)
    (holds : Holds L t p ys) (a b : LogEntry) (i j : ℕ) (last_x : get_elem? xs i ≡ some a)
    (last_y : get_elem? ys j ≡ some b) (end : length ys ≡ suc j)
    (handed : Handed L A t p (suc a.term)) where
  -- The entry at `p` is of term `t`.
  entry : (e : LogEntry) × (get_elem? ys p ≡ some e) × (e.term ≡ t)
  entry =
      let (e, here, there) = holds p (omega arith) in
      let (o, place, mine) = own in
      (e, here, ap (λ (x : LogEntry). x.term) (eq_of_some-eq (sym there ∙ place)) ∙ mine)

  inside : p ≤ j
  inside = let (e, here, mine) = entry in omega (arith, get_elem?-lt ys p here, end)

  later : t ≤ b.term
  later =
      let (e, here, mine) = entry in
      let (known, before) = v j b last_y in
      omega (
        arith,
        (shaped b.term known).rises p j e b inside (sym (before p inside) ∙ here)
            (sym (before j (omega arith)) ∙ last_y),
        mine,
      )

  same_last : a.term ≡ b.term → j ≤ i → Holds L t p xs
  same_last same further q le =
      let (e, here, there) = holds q le in
      (
        e,
        (w i a last_x).1 q (omega (arith, inside))
            ∙ (ap (λ u. get_elem? (L.log_of u) q) same
                ∙ (sym ((v j b last_y).1 q (omega (arith, inside))) ∙ here)),
        there,
      )

  later_last : b.term < a.term → Holds L t p xs
  later_last after q le =
      let (known, before) = w i a last_x in
      elim known [
        | inl zeroth ↦ absurd (omega (arith, zeroth))
        | inr (k, led) ↦
            let s = shaped a.term (inr (k, led)) in
            let base = handed a.term k (omega (arith, later)) (omega arith) led in
            let (e, here, there) = Holds-base {A = A} t p a.term s base q le in
            let behind : length (A.base_of a.term) ≤ i =
              elim (Bool-cases (ltb i (length (A.base_of a.term)))) [
                | inl low ↦ absurd (
                    omega (
                      arith,
                      s.earlier i a (sym (before i (omega arith)) ∙ last_x) (ltb→lt _ _ low),
                    ))
                | inr high ↦ ltb→le i (length (A.base_of a.term)) high
              ] in
            let (f, at_base, _) = base q le in
            let low = get_elem?-lt (A.base_of a.term) q at_base in
            (e, before q (omega (arith, behind, low)) ∙ here, there)
      ]

  -- By the comparison of `requestVote`: a later last term, or the same and a log that is no shorter.
  pub up_to_date-Holds : (b.term < a.term) ⊎ ((a.term ≡ b.term) × (j ≤ i)) → Holds L t p xs
  up_to_date-Holds (inl after) = later_last after
  up_to_date-Holds (inr (same, further)) = same_last same further
