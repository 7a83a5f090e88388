-- ===== src/Raft/Cluster/Tally.antt =====
-- Votes counted over the nodes of a cluster.
use raft_drive.Prelude.{
  ℕ, zero, suc, ◌+◌, ◌≤◌, ◌<◌, ◌≡◌, refl, sym, subst, ap₂, ◌≢◌, inl, inr, Bool, true, false,
  if◌then◌else◌, arith, Bool-cases, ℕ-cases, bit_le,
}

-- How many of the nodes below `k` are counted.
abbrev pub tally : (ℕ → Bool) → ℕ → ℕ
tally f zero = 0
tally f (suc k) = (if f k then 1 else 0) + tally f k

pub tally-same : (f g : ℕ → Bool) (k : ℕ) → ((j : ℕ) → j < k → f j ≡ g j) → tally f k ≡ tally g k
tally-same f g zero h = refl
tally-same f g (suc k) h =
    ap₂ (λ (b : Bool) (x : ℕ). (if b then 1 else 0) + x) (h k (omega arith))
      (tally-same f g k (λ j b. h j (omega arith)))

-- One more node is counted.
pub tally-one_more :
    (f g : ℕ → Bool) (i k : ℕ)
    → i < k
    → f i ≡ false
    → g i ≡ true
    → ((j : ℕ) → j ≢ i → f j ≡ g j)
    → tally g k ≡ tally f k + 1
tally-one_more f g i zero b off on h = absurd (omega arith)
tally-one_more f g i (suc k) b off on h = elim (ℕ-cases k i) [
  | inl here ↦
      let below = tally-same f g k (λ j lt. h j (omega arith)) in
      rw (subst (λ x. f x ≡ false) (sym here) off, subst (λ x. g x ≡ true) (sym here) on)
        (omega arith)
  | inr there ↦
      let rest = tally-one_more f g i k (omega arith) off on h in rw (h k there) (omega arith)
]

pub tally-none : (k : ℕ) → tally (λ j. false) k ≡ 0
tally-none zero = refl
tally-none (suc k) = omega (arith, tally-none k)

pub tally-le : (f : ℕ → Bool) (k : ℕ) → tally f k ≤ k
tally-le f zero = omega arith
tally-le f (suc k) = omega (arith, tally-le f k, bit_le (f k))

-- Two counts that are more than the nodes together have a node in common.
pub tally-common :
    (f g : ℕ → Bool) (k : ℕ) → k < tally f k + tally g k → (j : ℕ) × (f j ≡ true) × (g j ≡ true)
tally-common f g zero h = absurd (omega arith)
tally-common f g (suc k) h = elim (Bool-cases (f k)) [
  | inl fk ↦ elim (Bool-cases (g k)) [
    | inl gk ↦ (k, fk, gk)
    | inr gk ↦ tally-common f g k (omega (arith, rw (fk, gk) at h))
  ]
  | inr fk ↦ tally-common f g k (omega (arith, rw fk at h, bit_le (g k)))
]
