-- ===== src/Tests/JsonText.antt =====
-- A JSON library, to show that what the model asks of one can be met: a prefix code for documents.
use raft_drive.Prelude.{
  ℕ, zero, suc, ◌≤◌, ◌≡◌, refl, ap, true, [], ◌∷◌, ◌++◌, Option, none, some, ◌>>=◌, append-nil,
  append_assoc, arith, Bytes, length, take, drop, length-append, take-append, drop-append, pos,
  negsuc,
}
use raft_drive.Json.{
  Json, null, num, text, arr, obj, Items, nil, cons, Fields, end, field, canonical, JsonLib,
}

mutual
  encode : Json → Bytes
  encode null = 0 ∷ []
  encode (num (pos n)) = 1 ∷ n ∷ []
  encode (num (negsuc n)) = 2 ∷ n ∷ []
  encode (text s) = 3 ∷ length s ∷ s
  encode (arr xs) = 4 ∷ encode_items xs
  encode (obj fs) = 5 ∷ encode_fields fs

  encode_items : Items → Bytes
  encode_items nil = 0 ∷ []
  encode_items (cons x xs) = 1 ∷ (encode x ++ encode_items xs)

  encode_fields : Fields → Bytes
  encode_fields end = 0 ∷ []
  encode_fields (field k v fs) = 1 ∷ length k ∷ (k ++ (encode v ++ encode_fields fs))

mutual
  decode : ℕ → Bytes → Option (Json × Bytes)
  decode (suc f) (zero ∷ r) = some (null, r)
  decode (suc f) (suc zero ∷ n ∷ r) = some (num (pos n), r)
  decode (suc f) (suc (suc zero) ∷ n ∷ r) = some (num (negsuc n), r)
  decode (suc f) (suc (suc (suc zero)) ∷ n ∷ r) = some (text (take n r), drop n r)
  decode (suc f) (suc (suc (suc (suc zero))) ∷ r) = do
    (xs, r') ← decode_items f r
    some (arr xs, r')
  decode (suc f) (suc (suc (suc (suc (suc t)))) ∷ r) = do
    (fs, r') ← decode_fields f r
    some (obj fs, r')
  decode _ _ = none

  decode_items : ℕ → Bytes → Option (Items × Bytes)
  decode_items (suc f) (zero ∷ r) = some (nil, r)
  decode_items (suc f) (suc t ∷ r) = do
    (x, r') ← decode f r
    (xs, r'') ← decode_items f r'
    some (cons x xs, r'')
  decode_items _ _ = none

  decode_fields : ℕ → Bytes → Option (Fields × Bytes)
  decode_fields (suc f) (zero ∷ r) = some (end, r)
  decode_fields (suc f) (suc t ∷ n ∷ r) = do
    (v, r') ← decode f (drop n r)
    (fs, r'') ← decode_fields f r'
    some (field (take n r) v fs, r'')
  decode_fields _ _ = none

mutual
  unfolding encode decode

  decode-encode :
      (j : Json) (f : ℕ) (rest : Bytes)
      → length (encode j) ≤ f
      → decode f (encode j ++ rest) ≡ some (j, rest)
  decode-encode null zero rest h = absurd (omega arith)
  decode-encode null (suc f) rest h = refl
  decode-encode (num (pos n)) zero rest h = absurd (omega arith)
  decode-encode (num (negsuc n)) zero rest h = absurd (omega arith)
  decode-encode (num (pos n)) (suc f) rest h = refl
  decode-encode (num (negsuc n)) (suc f) rest h = refl
  decode-encode (text s) zero rest h = absurd (omega arith)
  decode-encode (text s) (suc f) rest h =
      rw (take-append (length s) s rest refl, drop-append (length s) s rest refl) refl
  decode-encode (arr xs) zero rest h = absurd (omega arith)
  decode-encode (arr xs) (suc f) rest h = rw (decode-encode_items xs f rest (omega arith)) refl
  decode-encode (obj fs) zero rest h = absurd (omega arith)
  decode-encode (obj fs) (suc f) rest h = rw (decode-encode_fields fs f rest (omega arith)) refl

  decode-encode_items :
      (xs : Items) (f : ℕ) (rest : Bytes)
      → length (encode_items xs) ≤ f
      → decode_items f (encode_items xs ++ rest) ≡ some (xs, rest)
  decode-encode_items nil zero rest h = absurd (omega arith)
  decode-encode_items nil (suc f) rest h = refl
  decode-encode_items (cons x xs) zero rest h = absurd (omega arith)
  decode-encode_items (cons x xs) (suc f) rest h =
      let size = length-append (encode x) (encode_items xs) in
      rw
        (
          append_assoc,
          decode-encode x f (encode_items xs ++ rest) (omega (arith, size)),
          decode-encode_items xs f rest (omega (arith, size)),
        )
        refl

  decode-encode_fields :
      (fs : Fields) (f : ℕ) (rest : Bytes)
      → length (encode_fields fs) ≤ f
      → decode_fields f (encode_fields fs ++ rest) ≡ some (fs, rest)
  decode-encode_fields end zero rest h = absurd (omega arith)
  decode-encode_fields end (suc f) rest h = refl
  decode-encode_fields (field k v fs) zero rest h = absurd (omega arith)
  decode-encode_fields (field k v fs) (suc f) rest h =
      let after = encode v ++ encode_fields fs in
      let size = length-append (encode v) (encode_fields fs) in
      let total = length-append k after in
      rw
        (
          append_assoc,
          take-append (length k) k (after ++ rest) refl,
          drop-append (length k) k (after ++ rest) refl,
          append_assoc,
          decode-encode v f (encode_fields fs ++ rest) (omega (arith, size, total)),
          decode-encode_fields fs f rest (omega (arith, size, total)),
        )
        refl

whole : Option (Json × Bytes) → Option Json
whole none = none
whole (some (j, rest)) = some j

unfoldable pub parse_text : Bytes → Option Json
unfolding whole decode
parse_text s = whole (decode (length s) s)

unfoldable pub dump_text : Json → Bytes
unfolding encode
dump_text j = encode j

pub parse_text-dump_text :
    (j : Json) → canonical (λ s. true) j ≡ true → parse_text (dump_text j) ≡ some j
unfolding parse_text dump_text
parse_text-dump_text j h =
    let back = decode-encode j (length (encode j)) [] (omega arith) in
    ap whole (rw (append-nil (encode j)) at back)

pub parse_text_empty : parse_text [] ≡ none
unfolding parse_text
parse_text_empty = refl

instance abbrev pub plain_json : JsonLib
plain_json = record {
  dump = dump_text;
  parse = parse_text;
  is_text = λ s. true;
  parse-dump = parse_text-dump_text;
  is_ascii-is_text = λ s h. refl;
  parse-empty = parse_text_empty;
}
