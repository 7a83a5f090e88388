-- ===== src/Kv/Register.antt =====
-- The applier against `KvModel` (kvcluster/kvserver/models.hpp), the register that each key is.
use raft_drive.Prelude.{
  ℕ, ◌≡◌, refl, Bool, true, false, Option, none, some, ◌⊎◌, inl, inr, Bytes, bytes_eq,
  bytes_eq_refl, eq_of_some-eq, sym, ◌<◌, if◌then◌else◌, Bool-cases, arith,
}
use raft_drive.Kv.Once.{apply_op-cases}
use raft_drive.Kv.Models.{Op, KvInput, KvOutput, model_step}
use raft_drive.Kv.Server.{Machine, apply_op, is_duplicate, or_empty, op_get, op_put, op_append}

abbrev pub register : Bytes → Machine → Bytes
register k m = or_empty (m.kv_store k)

-- The codes of `KvInput` for the names that the server uses.
abbrev pub code_of : Bytes → Option ℕ
code_of name =
    if bytes_eq name op_get
    then some 0
    else if bytes_eq name op_append
    then some 2
    else if bytes_eq name op_put
    then some 1
    else none

abbrev pub input_of : ℕ → Op → KvInput
input_of code op = record { operation = code; key = op.key; value = op.value }

abbrev pub output_of : Op → KvOutput
output_of op = record { value = op.value }

-- A write is no read, so it is no duplicate.
fresh_of : {code : ℕ} {b : Bool} → (code ≡ 0) ⊎ (b ≡ false) → 0 < code → b ≡ false
fresh_of (inl z) h = absurd (omega arith)
fresh_of (inr e) h = e

-- No operation touches the register of another key.
pub apply_op-other_key :
    (op : Op) (m : Machine) (k : Bytes)
    → bytes_eq op.key k ≡ false
    → register k (apply_op op m).0 ≡ register k m
apply_op-other_key op m k other = elim (apply_op-cases op m) [
  | inl same ↦ rw same refl
  | inr (new, v, e) ↦ rw (e, other) refl
]

-- The step of a read, or of a write that is no duplicate.
pub apply_op-step :
    (op : Op) (m : Machine) (code : ℕ)
    → code_of op.operation ≡ some code
    → (code ≡ 0) ⊎ (is_duplicate m op.client_id op.seq ≡ false)
    → model_step (register op.key m) (input_of code op) (output_of (apply_op op m).1)
      ≡ (true, register op.key (apply_op op m).0)
unfolding apply_op model_step
apply_op-step op m code named new = elim (Bool-cases (bytes_eq op.operation op_get)) [
  | inl get ↦
      let c = eq_of_some-eq (rw get at named) in
      rw (get, sym c, bytes_eq_refl (or_empty (m.kv_store op.key))) refl
  | inr get ↦ elim (Bool-cases (bytes_eq op.operation op_append)) [
    | inl a ↦
        let c = eq_of_some-eq (rw (get, a) at named) in
        let d = fresh_of new (omega arith) in rw (get, a, d, sym c, bytes_eq_refl op.key) refl
    | inr a ↦ elim (Bool-cases (bytes_eq op.operation op_put)) [
      | inl p ↦
          let c = eq_of_some-eq (rw (get, a, p) at named) in
          let d = fresh_of new (omega arith) in rw (get, a, p, d, sym c, bytes_eq_refl op.key) refl
      | inr p ↦ let never = rw (get, a, p) at named in cc
    ]
  ]
]

-- An operation of one of the three kinds that is a read, or is no duplicate, does to the register of
-- its key what the reference model's step does, with an output that the model accepts; and it leaves
-- the register of every other key as it is.
pub apply_op-model_step :
    (op : Op) (m : Machine) (code : ℕ) (k : Bytes)
    → code_of op.operation ≡ some code
    → (code ≡ 0) ⊎ (is_duplicate m op.client_id op.seq ≡ false)
    → bytes_eq op.key k ≡ false
    → (model_step (register op.key m) (input_of code op) (output_of (apply_op op m).1)
        ≡ (true, register op.key (apply_op op m).0))
      × (register k (apply_op op m).0 ≡ register k m)
apply_op-model_step op m code k named new other =
    (apply_op-step op m code named new, apply_op-other_key op m k other)
