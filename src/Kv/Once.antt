-- ===== src/Kv/Once.antt =====
-- The duplicate test of `applierLoop` (kvcluster/kvserver/kvserver.cpp) over the entries that follow.
use raft_drive.Prelude.{
  ℕ, ◌≡◌, refl, true, false, List, [], ◌∷◌, ◌⊎◌, inl, inr, Bytes, bytes_eq, ℤ, int_le_refl,
  int_le-through, ◌==◌, if◌then◌else◌, Bool-cases, Option-cases, ==_iff,
}
use raft_drive.Kv.Models.{Op}
use raft_drive.Kv.Server.{Machine, apply_op, is_duplicate, store_value, op_get, op_put, op_append}

-- The entries of a log, applied in turn.
unfoldable pub apply_all : List Op → Machine → Machine
apply_all [] m = m
apply_all (op ∷ ops) m = apply_all ops (apply_op op m).0

-- An operation leaves the machine as it is, or is new and is recorded.
pub apply_op-cases :
    (op : Op) (m : Machine)
    → ((apply_op op m).0 ≡ m)
      ⊎ ((is_duplicate m op.client_id op.seq ≡ false)
          × (v : Bytes) × ((apply_op op m).0 ≡ store_value m op v))
unfolding apply_op is_duplicate
apply_op-cases op m = elim (Bool-cases (bytes_eq op.operation op_get)) [
  | inl get ↦ rw get (inl refl)
  | inr not_get ↦ rw not_get (elim (Bool-cases (is_duplicate m op.client_id op.seq)) [
    | inl old ↦ rw old (elim (Bool-cases (bytes_eq op.operation op_append)) [
      | inl a ↦ rw a (inl refl)
      | inr a ↦ rw a (elim (Bool-cases (bytes_eq op.operation op_put)) [
        | inl p ↦ rw p (inl refl)
        | inr p ↦ rw p (inl refl)
      ])
    ])
    | inr new ↦ rw new (elim (Bool-cases (bytes_eq op.operation op_append)) [
      | inl a ↦ rw a (inr (refl, _, refl))
      | inr a ↦ rw a (elim (Bool-cases (bytes_eq op.operation op_put)) [
        | inl p ↦ rw p (inr (refl, _, refl))
        | inr p ↦ rw p (inl refl)
      ])
    ])
  ])
]

store-is_duplicate :
    (m : Machine) (op : Op) (v : Bytes)
    → is_duplicate (store_value m op v) op.client_id op.seq ≡ true
unfolding is_duplicate
store-is_duplicate m op v = rw ((==_iff op.client_id op.client_id).1 refl) (int_le_refl op.seq)

-- What is recorded stays recorded when a new operation is.
store-keeps_duplicate :
    (m : Machine) (op : Op) (v : Bytes) (client : ℕ) (seq : ℤ)
    → is_duplicate m op.client_id op.seq ≡ false
    → is_duplicate m client seq ≡ true
    → is_duplicate (store_value m op v) client seq ≡ true
unfolding is_duplicate
store-keeps_duplicate m op v client seq new old = elim (Bool-cases (op.client_id == client)) [
  | inr other ↦ rw other old
  | inl same ↦
      let eq = (==_iff op.client_id client).0 same in
      let new_at = rw eq at new in
      rw same (elim (Option-cases (m.client_seq_map client)) [
        | inl e ↦ let never = rw e at old in cc
        | inr (last, e) ↦ int_le-through seq last op.seq (rw e at old) (rw e at new_at)
      ])
]

pub apply_op-keeps_duplicate :
    (op : Op) (m : Machine) (client : ℕ) (seq : ℤ)
    → is_duplicate m client seq ≡ true
    → is_duplicate (apply_op op m).0 client seq ≡ true
apply_op-keeps_duplicate op m client seq h = elim (apply_op-cases op m) [
  | inl same ↦ rw same h
  | inr (new, v, e) ↦ rw e (store-keeps_duplicate m op v client seq new h)
]

-- The numbers that are recorded stay recorded over any entries of the log.
pub apply_all-keeps_duplicate :
    (ops : List Op) (m : Machine) (client : ℕ) (seq : ℤ)
    → is_duplicate m client seq ≡ true
    → is_duplicate (apply_all ops m) client seq ≡ true
unfolding apply_all
apply_all-keeps_duplicate [] m client seq h = h
apply_all-keeps_duplicate (op ∷ ops) m client seq h =
    apply_all-keeps_duplicate ops (apply_op op m).0 client seq
      (apply_op-keeps_duplicate op m client seq h)

-- An operation whose number is recorded leaves the machine as it is.
pub apply_op-duplicate :
    (op : Op) (m : Machine) → is_duplicate m op.client_id op.seq ≡ true → (apply_op op m).0 ≡ m
apply_op-duplicate op m h = elim (apply_op-cases op m) [ inl same ↦ same | inr (new, v, e) ↦ cc ]

abbrev written : Op → Machine → Bytes → Machine × Op
written op m v = if is_duplicate m op.client_id op.seq then (m, op) else (store_value m op v, op)

-- A write that is not a duplicate is recorded, and one that is was.
recorded :
    (op : Op) (m : Machine) (v : Bytes) → is_duplicate (written op m v).0 op.client_id op.seq ≡ true
recorded op m v = elim (Bool-cases (is_duplicate m op.client_id op.seq)) [
  | inl old ↦ rw old old
  | inr new ↦ rw new (store-is_duplicate m op v)
]

-- An operation either is recorded when it is applied, or never changes a machine.
pub apply_op-settles :
    (op : Op) (m : Machine)
    → (is_duplicate (apply_op op m).0 op.client_id op.seq ≡ true)
      ⊎ ((k : Machine) → (apply_op op k).0 ≡ k)
unfolding apply_op
apply_op-settles op m = elim (Bool-cases (bytes_eq op.operation op_get)) [
  | inl get ↦ inr (λ k. rw get refl)
  | inr not_get ↦ elim (Bool-cases (bytes_eq op.operation op_append)) [
    | inl a ↦ inl (rw (not_get, a) (recorded op m _))
    | inr a ↦ elim (Bool-cases (bytes_eq op.operation op_put)) [
      | inl p ↦ inl (rw (not_get, a, p) (recorded op m _))
      | inr p ↦ inr (λ k. rw (not_get, a, p) refl)
    ]
  ]
]

-- At most once: an operation that was applied, and is in the log again behind any other entries,
-- leaves the store and the sequence numbers as they are the second time, from whatever state the first
-- was applied in.
pub apply_at_most_once :
    (op : Op) (ops : List Op) (m : Machine)
    → (apply_op op (apply_all ops (apply_op op m).0)).0 ≡ apply_all ops (apply_op op m).0
apply_at_most_once op ops m = elim (apply_op-settles op m) [
  | inl known ↦
      apply_op-duplicate op (apply_all ops (apply_op op m).0)
        (apply_all-keeps_duplicate ops (apply_op op m).0 op.client_id op.seq known)
  | inr idle ↦ idle (apply_all ops (apply_op op m).0)
]
