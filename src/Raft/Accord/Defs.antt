-- ===== src/Raft/Accord/Defs.antt =====
-- What nodes have taken from the leaders, by term (kvcluster/raft/raft.cpp).
use raft_drive.Prelude.{
  ℕ, ◌*◌, ◌≤◌, ◌<◌, ◌≡◌, sym, subst, ◌∙◌, inr, Bool, true, List, some, arith, length, get_elem?,
  get_elem?-some, get_elem?-lt,
}
use raft_drive.Raft.Types.{LogEntry}
use raft_drive.Raft.Cluster.Tally.{tally}
use raft_drive.Raft.Net.Ledger.{Ledger, Known, Extends}

-- The log with which each leader began, by its term; the log with which each node last stood for
-- election in each term; and the last entry that each node has taken from the leader of each term, 0
-- before it has taken one.
pub record Chronicle : Type 0 where
  pub base_of : ℕ → List LogEntry
  pub stand_of : ℕ → ℕ → List LogEntry
  pub taken_of : ℕ → ℕ → ℕ

-- The log has the entries up to `p` of the leader of term `t`.
abbrev pub Holds : Ledger → ℕ → ℕ → List LogEntry → Type 0
Holds L t p xs =
    (q : ℕ)
    → q ≤ p
    → (e : LogEntry) × (get_elem? xs q ≡ some e) × (get_elem? (L.log_of t) q ≡ some e)

-- The leader of term `t` has its own entry at `p`.
abbrev pub Own : Ledger → ℕ → ℕ → Type 0
Own L t p = (e : LogEntry) × (get_elem? (L.log_of t) p ≡ some e) × (e.term ≡ t)

-- The leaders of the terms between `t` and `w` began with the entries up to `p` of the leader of `t`.
abbrev pub Handed : Ledger → Chronicle → ℕ → ℕ → ℕ → Type 0
Handed L A t p w = (v k : ℕ) → t < v → v < w → L.leader_of v ≡ some k → Holds L t p (A.base_of v)

-- The log of the leader of term `u`: first the entries with which it began, which are of earlier
-- terms, and then its own; the terms do not fall.
pub record Shaped (L : Ledger) (A : Chronicle) (u : ℕ) : Type 0 where
  pub begins :
      (q : ℕ) → q < length (A.base_of u) → get_elem? (A.base_of u) q ≡ get_elem? (L.log_of u) q
  pub earlier :
      (q : ℕ) (e : LogEntry)
      → get_elem? (L.log_of u) q ≡ some e
      → q < length (A.base_of u)
      → e.term < u
  pub own :
      (q : ℕ) (e : LogEntry)
      → get_elem? (L.log_of u) q ≡ some e
      → length (A.base_of u) ≤ q
      → e.term ≡ u
  pub rises :
      (p q : ℕ) (e f : LogEntry)
      → p ≤ q
      → get_elem? (L.log_of u) p ≡ some e
      → get_elem? (L.log_of u) q ≡ some f
      → e.term ≤ f.term

-- What a majority has taken of the leader of term `t`, up to an entry of its own.
pub record Settled (peers : ℕ) (L : Ledger) (A : Chronicle) (t q : ℕ) : Type 0 where
  pub some_entry : 0 < q
  pub own : Own L t q
  pub takers : ℕ → Bool
  pub many : peers < 2 * tally takers peers
  pub took : (j : ℕ) → takers j ≡ true → q ≤ A.taken_of j t

-- The log has all that node `j` had taken before term `u`, as far as the leaders in between had it.
abbrev pub Brought : Ledger → Chronicle → ℕ → ℕ → List LogEntry → Type 0
Brought L A j u xs =
    (t p : ℕ) → t < u → 0 < p → p ≤ A.taken_of j t → Own L t p → Handed L A t p u → Holds L t p xs

-- The node that leads term `u` had a majority of votes, and began with what those nodes had taken.
pub record Backed (peers : ℕ) (L : Ledger) (A : Chronicle) (u : ℕ) : Type 0 where
  pub backers : ℕ → Bool
  pub many : peers < 2 * tally backers peers
  pub brought : (j : ℕ) → backers j ≡ true → Brought L A j u (A.base_of u)

-- What a node has taken is in the log of a leader.
pub record Taken (L : Ledger) (A : Chronicle) (j t : ℕ) : Type 0 where
  pub leader : ℕ
  pub led : L.leader_of t ≡ some leader
  pub inside : A.taken_of j t < length (L.log_of t)

-- The ledger and the chronicle have grown; no leader has begun anew.
pub record Grown (L : Ledger) (A : Chronicle) (K : Ledger) (B : Chronicle) : Type 0 where
  pub extends : Extends L K
  pub bases : (u k : ℕ) → L.leader_of u ≡ some k → B.base_of u ≡ A.base_of u

Holds-forth :
    {L K : Ledger} (t p : ℕ) (xs : List LogEntry)
    → Extends L K
    → Known L t
    → Holds L t p xs
    → Holds K t p xs
Holds-forth t p xs x known h q le =
    let (e, here, there) = h q le in (e, here, x.logs t known q e there)

Holds-back :
    {L K : Ledger} (t p : ℕ) (xs : List LogEntry)
    → Extends L K
    → Known L t
    → p < length (L.log_of t)
    → Holds K t p xs
    → Holds L t p xs
Holds-back {L} t p xs x known inside h q le =
    let (e, here, there) = h q le in
    let (f, old) = get_elem?-some (L.log_of t) q (omega arith) in
    (e, here, old ∙ (sym (x.logs t known q f old) ∙ there))

Own-back :
    {L K : Ledger} (t p : ℕ)
    → Extends L K
    → Known L t
    → p < length (L.log_of t)
    → Own K t p
    → Own L t p
Own-back {L} t p x known inside (e, there, mine) =
    let (f, old) = get_elem?-some (L.log_of t) p inside in
    (e, old ∙ (sym (x.logs t known p f old) ∙ there), mine)

Handed-back :
    {L K : Ledger} {A B : Chronicle} (t p w : ℕ)
    → Grown L A K B
    → Known L t
    → p < length (L.log_of t)
    → Handed K B t p w
    → Handed L A t p w
Handed-back {L} {K} {A} {B} t p w g known inside h v k after before led =
    Holds-back {L = L} {K = K} t p (A.base_of v) g.extends known inside (
      subst (λ xs. Holds K t p xs) (g.bases v k led)
        (h v k after before (g.extends.leaders v k led)))

-- What a node keeps of what it has taken, up to term `w`, it keeps as more comes.
pub Keeps-Grown :
    {L K : Ledger} {A B : Chronicle} (j t p w : ℕ) (xs : List LogEntry)
    → Grown L A K B
    → Taken L A j t
    → p ≤ A.taken_of j t
    → (Handed L A t p w → Holds L t p xs)
    → Handed K B t p w
    → Holds K t p xs
Keeps-Grown {L} {K} {A} {B} j t p w xs g taken le h handed =
    let known : Known L t = inr (taken.leader, taken.led) in
    Holds-forth {L = L} {K = K} t p xs g.extends known (
      h (
        Handed-back {L = L} {K = K} {A = A} {B = B} t p w g known (omega (arith, taken.inside, le))
          handed))

pub Brought-Grown :
    {L K : Ledger} {A B : Chronicle} (j u : ℕ) (xs : List LogEntry)
    → Grown L A K B
    → ((t : ℕ) → 0 < A.taken_of j t → Taken L A j t)
    → ((t : ℕ) → t < u → B.taken_of j t ≡ A.taken_of j t)
    → Brought L A j u xs
    → Brought K B j u xs
Brought-Grown {L} {K} {A} {B} j u xs g taken same b t p before some_entry le own handed =
    let le_old : p ≤ A.taken_of j t = omega (arith, le, same t before) in
    let k = taken t (omega (arith, le_old)) in
    Keeps-Grown {L = L} {K = K} {A = A} {B = B} j t p u xs g k le_old
      (b t p before some_entry le_old (
        Own-back {L = L} {K = K} t p g.extends (inr (k.leader, k.led))
          (omega (arith, k.inside, le_old)) own))
      handed

pub Taken-Grown :
    {L K : Ledger} {A B : Chronicle} (j t : ℕ)
    → Grown L A K B
    → B.taken_of j t ≡ A.taken_of j t
    → Taken L A j t
    → Taken K B j t
Taken-Grown {L} {K} {A} j t g same k =
    let (e, at) = get_elem?-some (L.log_of t) (A.taken_of j t) k.inside in
    record {
      leader = k.leader;
      led = g.extends.leaders t k.leader k.led;
      inside = omega (
        arith,
        same,
        get_elem?-lt (K.log_of t) (A.taken_of j t)
            (g.extends.logs t (inr (k.leader, k.led)) (A.taken_of j t) e at),
      );
    }
