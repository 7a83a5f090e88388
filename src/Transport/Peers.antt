-- ===== src/Transport/Peers.antt =====
-- The transports that a node starts with (kvcluster/main.cpp): `nodeId` is the first argument of the
-- program, and the addresses are those from the third on.
use native.Mathlib.Nat.{zero-add}
use raft_drive.Prelude.{
  ℕ, zero, suc, ◌+◌, ◌≤◌, ◌<◌, ◌≡◌, refl, ◌⊎◌, inl, inr, true, false, List, [], ◌∷◌, ◌++◌, Option,
  none, some, map, ◌>>=◌, if◌then◌else◌, Bytes, length, take, drop, ℤ, pos, int_eq, arith,
}

-- The loop: `k` slots are left, `i` is the next, and `addrs` are the arguments from
-- `3 + peerArgIdx` on. `none` is a read behind the last argument.
unfoldable pub fill_transports : ℤ → ℕ → ℕ → List Bytes → Option (List (Option Bytes))
fill_transports node_id zero i addrs = some []
fill_transports node_id (suc k) i [] =
    if int_eq (pos i) node_id
    then (do ts ← fill_transports node_id k (i + 1) []; some (none ∷ ts))
    else none
fill_transports node_id (suc k) i (a ∷ rest) =
    if int_eq (pos i) node_id
    then (do ts ← fill_transports node_id k (i + 1) (a ∷ rest); some (none ∷ ts))
    else (do ts ← fill_transports node_id k (i + 1) rest; some (some a ∷ ts))

-- `none` in a slot is the null pointer; `totalNodes` is one more than the addresses.
unfoldable pub transports : ℤ → List Bytes → Option (List (Option Bytes))
unfolding fill_transports
transports node_id addrs = fill_transports node_id (length addrs + 1) 0 addrs

-- Behind the node's own slot every address has the next slot.
fill_transports-behind :
    (i j : ℕ) (addrs : List Bytes)
    → i < j
    → fill_transports (pos i) (length addrs) j addrs ≡ some (map some addrs)
unfolding fill_transports
fill_transports-behind i j [] h = refl
fill_transports-behind i j (a ∷ rest) h =
    let other : int_eq (pos j) (pos i) ≡ false = ground arith in
    rw (other, fill_transports-behind i (j + 1) rest (omega arith)) refl

abbrev pub Layout : ℕ → List Bytes → Option (List (Option Bytes)) → Type 0
Layout d addrs o =
    ((d ≤ length addrs) × (o ≡ some (map some (take d addrs) ++ none ∷ map some (drop d addrs))))
    ⊎ ((length addrs < d) × (o ≡ none))

fill_transports-Layout :
    (d j : ℕ) (addrs : List Bytes)
    → Layout d addrs (fill_transports (pos (j + d)) (suc (length addrs)) j addrs)
unfolding fill_transports
fill_transports-Layout zero j [] =
    let own : int_eq (pos j) (pos (j + 0)) ≡ true = ground arith in rw own (inl (omega arith, refl))
fill_transports-Layout zero j (a ∷ rest) =
    let own : int_eq (pos j) (pos (j + 0)) ≡ true = ground arith in
    rw (own, fill_transports-behind (j + 0) (j + 1) (a ∷ rest) (omega arith))
      (inl (omega arith, refl))
fill_transports-Layout (suc d) j [] =
    let other : int_eq (pos j) (pos (j + suc d)) ≡ false = ground arith in
    rw other (inr (omega arith, refl))
fill_transports-Layout (suc d) j (a ∷ rest) =
    let other : int_eq (pos j) (pos (j + suc d)) ≡ false = ground arith in
    let next : j + suc d ≡ j + 1 + d = omega arith in
    let later = rw (← next) at (fill_transports-Layout d (j + 1) rest) in
    rw other (elim later [
      | inl (inside, e) ↦ rw e (inl (omega arith, refl))
      | inr (outside, e) ↦ rw e (inr (omega arith, refl))
    ])

-- A node whose number is at most the number of addresses starts with a null pointer in its own slot
-- and the addresses in the other slots in their order; with a larger number the program reads behind
-- its last argument.
pub transports-Layout : (i : ℕ) (addrs : List Bytes) → Layout i addrs (transports (pos i) addrs)
unfolding transports
transports-Layout i addrs =
    let size : length addrs + 1 ≡ suc (length addrs) = omega arith in
    rw size (rw zero-add at (fill_transports-Layout i 0 addrs))
