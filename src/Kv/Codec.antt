-- ===== src/Kv/Codec.antt =====
-- The encodings of kvcluster/kvserver/kvhelper.hpp, written and read back.
use raft_drive.Prelude.{
  ◌^◌, ◌%◌, ◌<◌, ◌≡◌, refl, true, some, bytes, bytes_eq, IsInt, to_int-int_to_u64, arith,
}
use raft_drive.Json.{JsonLib, canonical, canonical_fields, assign, bytes_lt, is_ascii}
use raft_drive.Kv.Models.{
  Op, op_json, get_args_json, put_append_args_json, GetArgs, PutAppendArgs, encode_get_args,
  decode_get_args, encode_put_append_args, decode_put_append_args, serialize_op, deserialize_op,
}

module _ ⦃json : JsonLib⦄ where
  op_json-canonical :
      (op : Op)
      → json.is_text op.operation ≡ true
      → json.is_text op.key ≡ true
      → json.is_text op.value ≡ true
      → canonical json.is_text (op_json op) ≡ true
  unfolding assign bytes_lt bytes_eq canonical canonical_fields is_ascii
  op_json-canonical op o k v =
      let a = json.is_ascii-is_text (bytes "m_clientID") refl in
      let b = json.is_ascii-is_text (bytes "m_key") refl in
      let c = json.is_ascii-is_text (bytes "m_operation") refl in
      let d = json.is_ascii-is_text (bytes "m_seq") refl in
      let e = json.is_ascii-is_text (bytes "m_value") refl in rw (a, b, c, d, e, o, k, v) refl

  -- An operation comes back from the text that stands in the log, whatever the object it is read into
  -- holds, when its texts are UTF-8 and its numbers are in the ranges of their types.
  pub deserialize_op-serialize_op :
      (op blank : Op)
      → json.is_text op.operation ≡ true
      → json.is_text op.key ≡ true
      → json.is_text op.value ≡ true
      → op.client_id < 2 ^ 64
      → IsInt op.seq
      → deserialize_op (serialize_op op) blank ≡ op
  unfolding deserialize_op serialize_op
  deserialize_op-serialize_op op blank o k v c s =
      let word : op.client_id % 2 ^ 64 ≡ op.client_id = omega (arith, c) in
      rw
        (
          json.parse-dump (op_json op) (op_json-canonical op o k v),
          word,
          to_int-int_to_u64 op.seq s,
        )
        refl

  -- The arguments of a read come back from their encoding, when the key is UTF-8 and the client
  -- and sequence numbers are in the ranges of their types.
  pub decode_get_args-encode_get_args :
      (a : GetArgs)
      → json.is_text a.key ≡ true
      → a.client_id < 2 ^ 64
      → IsInt a.seq
      → decode_get_args (encode_get_args a) ≡ some a
  unfolding decode_get_args encode_get_args assign bytes_lt bytes_eq canonical canonical_fields
      is_ascii
  decode_get_args-encode_get_args a k c s =
      let word : a.client_id % 2 ^ 64 ≡ a.client_id = omega (arith, c) in
      let p = json.is_ascii-is_text (bytes "ClientID") refl in
      let q = json.is_ascii-is_text (bytes "Key") refl in
      let r = json.is_ascii-is_text (bytes "Seq") refl in
      rw (json.parse-dump (get_args_json a) (rw (p, q, r, k) refl), word, to_int-int_to_u64 a.seq s)
        refl

  -- The arguments of a write come back from their encoding, when their texts are UTF-8 and their client
  -- and sequence numbers are in the ranges of their types.
  pub decode_put_append_args-encode_put_append_args :
      (a : PutAppendArgs)
      → json.is_text a.operation ≡ true
      → json.is_text a.key ≡ true
      → json.is_text a.value ≡ true
      → a.client_id < 2 ^ 64
      → IsInt a.seq
      → decode_put_append_args (encode_put_append_args a) ≡ some a
  unfolding decode_put_append_args encode_put_append_args assign bytes_lt bytes_eq canonical
      canonical_fields is_ascii
  decode_put_append_args-encode_put_append_args a o k v c s =
      let word : a.client_id % 2 ^ 64 ≡ a.client_id = omega (arith, c) in
      let p = json.is_ascii-is_text (bytes "ClientID") refl in
      let q = json.is_ascii-is_text (bytes "Key") refl in
      let r = json.is_ascii-is_text (bytes "Seq") refl in
      let t = json.is_ascii-is_text (bytes "Operation") refl in
      let u = json.is_ascii-is_text (bytes "Value") refl in
      rw
        (
          json.parse-dump (put_append_args_json a) (rw (p, q, r, t, u, o, k, v) refl),
          word,
          to_int-int_to_u64 a.seq s,
        )
        refl
