-- ===== src/Kv/Models.antt =====
-- kvcluster/kvserver/models.hpp and the operations' JSON form in kvhelper.hpp.
use raft_drive.Prelude.{
  ℕ, Bool, true, List, [], ◌∷◌, ◌++◌, Option, none, some, if◌then◌else◌, ◌==◌, Bytes, bytes,
  bytes_eq, ℤ, pos, to_int, int_to_u64, ◌>>=◌,
}
use raft_drive.Json.{
  Json, num, text, obj, end, assign, bytes_lt, value_text, value_num, get_text, get_num, JsonLib,
}

pub record GetArgs : Type 0 where
  pub key : Bytes
  pub client_id : ℕ
  pub seq : ℤ

pub record GetReply : Type 0 where
  pub value : Bytes
  pub err : Bytes

pub record PutAppendArgs : Type 0 where
  pub key : Bytes
  pub value : Bytes
  pub operation : Bytes
  pub client_id : ℕ
  pub seq : ℤ

pub record PutAppendReply : Type 0 where
  pub value : Bytes
  pub err : Bytes

pub record Op : Type 0 where
  pub operation : Bytes
  pub key : Bytes
  pub value : Bytes
  pub client_id : ℕ
  pub seq : ℤ

-- `uint8_t m_operation`: 0 is get, 1 is put, 2 is append.
pub record KvInput : Type 0 where
  pub operation : ℕ
  pub key : Bytes
  pub value : Bytes

pub record KvOutput : Type 0 where
  pub value : Bytes

-- `KvModel::Init` and `KvModel::Step`: the register that one key is.
unfoldable pub model_init : Bytes
model_init = []

unfoldable pub model_step : Bytes → KvInput → KvOutput → Bool × Bytes
unfolding bytes_eq
model_step state input output =
    if input.operation == 0
    then (bytes_eq output.value state, state)
    else if input.operation == 1
    then (true, input.value)
    else if input.operation == 2
    then (true, state ++ input.value)
    else (bytes_eq output.value state, state ++ input.value)

-- `KvModel::DescribeOperation`.
unfoldable pub describe_operation : KvInput → KvOutput → Bytes
describe_operation input output =
    if input.operation == 0
    then bytes "get('" ++ (input.key ++ (bytes "') -> '" ++ (output.value ++ bytes "'")))
    else if input.operation == 1
    then bytes "put('" ++ (input.key ++ (bytes "', '" ++ (input.value ++ bytes "')")))
    else if input.operation == 2
    then bytes "append('" ++ (input.key ++ (bytes "', '" ++ (input.value ++ bytes "')")))
    else bytes "<invalid>"

-- `KvModel::Partition`: the operations of each key, in the order of the history; the keys ascend.
module _ {ℓ} {OpType : Type ℓ} where
  unfoldable pub add_to_group :
      Bytes → OpType → List (Bytes × List OpType) → List (Bytes × List OpType)
  unfolding bytes_eq bytes_lt
  add_to_group k op [] = (k, op ∷ []) ∷ []
  add_to_group k op ((j, ops) ∷ gs) =
      if bytes_eq k j
      then (j, ops ++ op ∷ []) ∷ gs
      else if bytes_lt k j
      then (k, op ∷ []) ∷ (j, ops) ∷ gs
      else (j, ops) ∷ add_to_group k op gs

  unfoldable pub group_history :
      (OpType → Bytes) → List OpType → List (Bytes × List OpType) → List (Bytes × List OpType)
  unfolding add_to_group
  group_history key [] gs = gs
  group_history key (op ∷ ops) gs = group_history key ops (add_to_group (key op) op gs)

  abbrev group_ops : List (Bytes × List OpType) → List (List OpType)
  group_ops [] = []
  group_ops ((k, ops) ∷ gs) = ops ∷ group_ops gs

  unfoldable pub partition : (OpType → Bytes) → List OpType → List (List OpType)
  unfolding group_history
  partition key history = group_ops (group_history key history [])

abbrev pub op_json : Op → Json
op_json op = obj (
    assign (bytes "m_seq") (num op.seq) (
      assign (bytes "m_clientID") (num (pos op.client_id)) (
        assign (bytes "m_value") (text op.value) (
          assign (bytes "m_key") (text op.key)
            (assign (bytes "m_operation") (text op.operation) end)))))

abbrev pub get_args_json : GetArgs → Json
get_args_json a = obj (
    assign (bytes "Seq") (num a.seq)
      (assign (bytes "ClientID") (num (pos a.client_id)) (assign (bytes "Key") (text a.key) end)))

abbrev pub put_append_args_json : PutAppendArgs → Json
put_append_args_json a = obj (
    assign (bytes "Seq") (num a.seq) (
      assign (bytes "ClientID") (num (pos a.client_id)) (
        assign (bytes "Operation") (text a.operation)
          (assign (bytes "Value") (text a.value) (assign (bytes "Key") (text a.key) end)))))

-- A field that is read from the document, and the rest of the `try` block: a read that throws leaves
-- the fields from there on as they were.
abbrev pub read_field {ℓ} : {A : Type ℓ} → Option A → (A → Op → Op) → (Op → Op) → Op → Op
read_field none put rest op = op
read_field (some a) put rest op = rest (put a op)

abbrev pub read_op : Json → Op → Op
read_op j =
    read_field (value_text (bytes "m_operation") [] j) (λ s op. record op { operation = s })
      (read_field (value_text (bytes "m_key") [] j) (λ s op. record op { key = s })
        (read_field (value_text (bytes "m_value") [] j) (λ s op. record op { value = s })
          (read_field (value_num (bytes "m_clientID") (pos 0) j)
            (λ z op. record op { client_id = int_to_u64 z })
            (read_field (value_num (bytes "m_seq") (pos 0) j)
              (λ z op. record op { seq = to_int (int_to_u64 z) }) (λ op. op)))))

abbrev parsed_op : Option Json → Op → Op
parsed_op none op = op
parsed_op (some j) op = read_op j op

-- `Op op;`: the texts are empty, and the numbers are what the memory held.
abbrev pub blank_op : ℕ → ℤ → Op
blank_op client seq = record { operation = []; key = []; value = []; client_id = client; seq = seq }

module _ ⦃json : JsonLib⦄ where
  unfoldable pub serialize_op : Op → Bytes
  unfolding assign
  serialize_op op = json.dump (op_json op)

  unfoldable pub deserialize_op : Bytes → Op → Op
  unfolding value_text value_num
  deserialize_op content blank = parsed_op (json.parse content) blank

  -- `encodeArgs`, `decodeArgs`, `encodeReply` and `decodeReply`; `none` is an exception.
  unfoldable pub encode_get_args : GetArgs → Bytes
  encode_get_args a = json.dump (get_args_json a)

  unfoldable pub decode_get_args : Bytes → Option GetArgs
  unfolding get_text get_num
  decode_get_args content = do
    j ← json.parse content
    k ← get_text (bytes "Key") j
    c ← get_num (bytes "ClientID") j
    s ← get_num (bytes "Seq") j
    some (record { key = k; client_id = int_to_u64 c; seq = to_int (int_to_u64 s) })

  unfoldable pub encode_put_append_args : PutAppendArgs → Bytes
  encode_put_append_args a = json.dump (put_append_args_json a)

  unfoldable pub decode_put_append_args : Bytes → Option PutAppendArgs
  unfolding get_text get_num
  decode_put_append_args content = do
    j ← json.parse content
    k ← get_text (bytes "Key") j
    v ← get_text (bytes "Value") j
    o ← get_text (bytes "Operation") j
    c ← get_num (bytes "ClientID") j
    s ← get_num (bytes "Seq") j
    some (record {
      key = k;
      value = v;
      operation = o;
      client_id = int_to_u64 c;
      seq = to_int (int_to_u64 s);
    })

  unfoldable pub encode_get_reply : GetReply → Bytes
  unfolding assign
  encode_get_reply r =
      json.dump
        (obj (assign (bytes "Value") (text r.value) (assign (bytes "Err") (text r.err) end)))

  unfoldable pub decode_get_reply : Bytes → Option GetReply
  unfolding get_text
  decode_get_reply content = do
    j ← json.parse content
    e ← get_text (bytes "Err") j
    v ← get_text (bytes "Value") j
    some (record { value = v; err = e })

  unfoldable pub encode_put_append_reply : PutAppendReply → Bytes
  unfolding assign
  encode_put_append_reply r = json.dump (obj (assign (bytes "Err") (text r.err) end))

  -- The reply's value is left as it was.
  unfoldable pub decode_put_append_reply : Bytes → PutAppendReply → Option PutAppendReply
  unfolding get_text
  decode_put_append_reply content r = do
    j ← json.parse content
    e ← get_text (bytes "Err") j
    some (record r { err = e })
