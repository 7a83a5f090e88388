-- ===== src/Kv/History.antt =====
-- The applied log against `KvModel` (kvcluster/kvserver/models.hpp): each key is the register that the
-- reference model makes of the operations on it.
use raft_drive.Prelude.{
  ℕ, ◌≡◌, refl, sym, subst, ap, ◌∙◌, ◌⊎◌, inl, inr, Bool, false, ◌&&◌, List, [], ◌∷◌, Option, none,
  some, Bytes, bytes_eq, bytes_eq_iff, if◌then◌else◌, ◌==◌, both, Bool-cases, Option-cases, not,
  arith,
}
use raft_drive.Kv.Models.{Op, KvInput, KvOutput, model_step}
use raft_drive.Kv.Server.{Machine, apply_op, is_duplicate, op_get, op_put, op_append}
use raft_drive.Kv.Once.{apply_all, apply_op-duplicate}
use raft_drive.Kv.Register.{
  register, code_of, input_of, output_of, apply_op-step, apply_op-other_key,
}

-- What one operation is to the register of `k`: nothing where it is on another key, is of no known
-- kind, or is a write that its client made before.
unfoldable pub input_on : Bytes → Op → Machine → Option KvInput
input_on k op m = if not (bytes_eq op.key k) then none else (elim (code_of op.operation) [
  | none ↦ none
  | some code ↦
      if not (code == 0) && is_duplicate m op.client_id op.seq
      then none
      else some (input_of code op)
])

abbrev pub add_input : Option KvInput → List KvInput → List KvInput
add_input none is = is
add_input (some i) is = i ∷ is

-- The operations on `k` that count, in the order of the log.
unfoldable pub inputs_on : Bytes → List Op → Machine → List KvInput
inputs_on k [] m = []
inputs_on k (op ∷ ops) m = add_input (input_on k op m) (inputs_on k ops (apply_op op m).0)

-- The state that the reference model ends in.
unfoldable pub model_run : Bytes → List KvInput → Bytes
model_run state [] = state
model_run state (i ∷ is) = model_run (model_step state i (record { value = state })).1 is

-- The state that a step ends in does not depend on the output.
model_step-output :
    (state : Bytes) (i : KvInput) (o p : KvOutput)
    → (model_step state i o).1 ≡ (model_step state i p).1
unfolding model_step
model_step-output state i o p = ground arith

-- An operation of no known kind does nothing.
apply_op-unknown : (op : Op) (m : Machine) → code_of op.operation ≡ none → (apply_op op m).0 ≡ m
unfolding apply_op
apply_op-unknown op m h = elim (Bool-cases (bytes_eq op.operation op_get)) [
  | inl get ↦ rw get refl
  | inr get ↦ elim (Bool-cases (bytes_eq op.operation op_append)) [
    | inl a ↦ let never = rw (get, a) at h in cc
    | inr a ↦ elim (Bool-cases (bytes_eq op.operation op_put)) [
      | inl p ↦ let never = rw (get, a, p) at h in cc
      | inr p ↦ rw (get, a, p) refl
    ]
  ]
]

abbrev after_input : Bytes → Option KvInput → Bytes
after_input state none = state
after_input state (some i) = (model_step state i (record { value = state })).1

fresh_of : (code : ℕ) (dup : Bool) → (not (code == 0) && dup) ≡ false → (code ≡ 0) ⊎ (dup ≡ false)
fresh_of code dup h = ground arith

own_step :
    (op : Op) (m : Machine) (code : ℕ)
    → code_of op.operation ≡ some code
    → (code ≡ 0) ⊎ (is_duplicate m op.client_id op.seq ≡ false)
    → register op.key (apply_op op m).0 ≡ after_input (register op.key m) (some (input_of code op))
own_step op m code known fresh =
    sym (ap (λ (x : Bool × Bytes). x.1) (apply_op-step op m code known fresh))
    ∙ model_step-output (register op.key m) (input_of code op) (output_of (apply_op op m).1)
        (record { value = register op.key m })

register-step :
    (k : Bytes) (op : Op) (m : Machine)
    → register k (apply_op op m).0 ≡ after_input (register k m) (input_on k op m)
unfolding input_on
register-step k op m = elim (Bool-cases (bytes_eq op.key k)) [
  | inr other ↦ rw other (apply_op-other_key op m k other)
  | inl same ↦
      let e = (bytes_eq_iff op.key k).0 same in
      elim (Option-cases (code_of op.operation)) [
        | inl unknown ↦ rw (same, unknown) (ap (register k) (apply_op-unknown op m unknown))
        | inr (code, known) ↦
            elim (Bool-cases (not (code == 0) && is_duplicate m op.client_id op.seq)) [
              | inl old ↦
                  rw (same, known, old)
                    (ap (register k) (
                      apply_op-duplicate op m
                        ((both (not (code == 0)) (is_duplicate m op.client_id op.seq) old).1)))
              | inr new ↦
                  rw (same, known, new)
                    (subst
                      (λ x.
                        register x (apply_op op m).0
                        ≡ (model_step (register x m) (input_of code op)
                            (record { value = register x m })).1)
                      e
                      (own_step op m code known
                        (fresh_of code (is_duplicate m op.client_id op.seq) new)))
            ]
      ]
]

-- For every log, from every state and for every key: the register of the key is where the reference
-- model ends on the operations of the log on that key, in their order, without the writes that are
-- duplicates at their place.
pub apply_all-model_run :
    (k : Bytes) (ops : List Op) (m : Machine)
    → register k (apply_all ops m) ≡ model_run (register k m) (inputs_on k ops m)
unfolding apply_all inputs_on model_run
apply_all-model_run k [] m = refl
apply_all-model_run k (op ∷ ops) m =
    let later = apply_all-model_run k ops (apply_op op m).0 in
    let step = register-step k op m in
    elim (Option-cases (input_on k op m)) [
      | inl e ↦
          rw e (later ∙ ap (λ r. model_run r (inputs_on k ops (apply_op op m).0)) (rw e at step))
      | inr (i, e) ↦
          rw e (later ∙ ap (λ r. model_run r (inputs_on k ops (apply_op op m).0)) (rw e at step))
    ]
