-- ===== src/Drive/Documents.antt =====
-- The documents of the metadata (raftdrive/services/service_metadata.cpp), written and read back.
use raft_drive.Prelude.{
  ◌^◌, ◌<◌, ◌≡◌, refl, true, [], ◌∷◌, some, Bytes, bytes, bytes_eq, ℤ, pos, negsuc, arith,
}
use raft_drive.Json.{
  JsonLib, canonical, canonical_fields, assign, bytes_lt, find_field, get_text, get_num, is_ascii,
}
use raft_drive.Drive.Effect.{done, KvStore, Platform}
use raft_drive.Drive.Metadata.{FileMeta, file_json, read_file, num_i64}

-- The range of an `int64_t`.
abbrev pub IsI64 : ℤ → Type 0
IsI64 (pos n) = n < 2 ^ 63
IsI64 (negsuc n) = n < 2 ^ 63

num_i64_lem : (z : ℤ) → IsI64 z → num_i64 z ≡ z
num_i64_lem (pos n) h = ground arith
num_i64_lem (negsuc n) h = ground arith

-- The texts are UTF-8, and the numbers are in the range of their type.
pub record Storable ⦃json : JsonLib⦄ (f : FileMeta) : Type 0 where
  pub name : json.is_text f.name ≡ true
  pub path : json.is_text f.path ≡ true
  pub parent : json.is_text f.parent ≡ true
  pub content_type : json.is_text f.content_type ≡ true
  pub s3_key : json.is_text f.s3_key ≡ true
  pub size : IsI64 f.size
  pub created_at : IsI64 f.created_at
  pub modified_at : IsI64 f.modified_at

module _ {W : Type 0} (kv : KvStore W) (sys : Platform W) ⦃json : JsonLib⦄ where
  file_json-canonical : (f : FileMeta) → Storable f → canonical json.is_text (file_json f) ≡ true
  unfolding assign bytes_lt bytes_eq canonical canonical_fields is_ascii
  file_json-canonical f s =
      let a = json.is_ascii-is_text (bytes "name") refl in
      let b = json.is_ascii-is_text (bytes "path") refl in
      let c = json.is_ascii-is_text (bytes "parent") refl in
      let d = json.is_ascii-is_text (bytes "content_type") refl in
      let e = json.is_ascii-is_text (bytes "s3_key") refl in
      let g = json.is_ascii-is_text (bytes "size") refl in
      let h = json.is_ascii-is_text (bytes "created_at") refl in
      let i = json.is_ascii-is_text (bytes "modified_at") refl in
      rw (a, b, c, d, e, g, h, i, s.name, s.path, s.parent, s.content_type, s.s3_key) refl

  -- A text that parses as the document of a file is read as that file.
  read_file-parses :
      (text : Bytes) (f : FileMeta) (w : W)
      → Storable f
      → json.parse text ≡ some (file_json f)
      → read_file kv sys text w ≡ (w, done (some f))
  unfolding assign bytes_lt bytes_eq get_text get_num find_field
  read_file-parses [] f w s e = let never = json.parse-empty in cc
  read_file-parses (b ∷ bs) f w s e =
      rw
        (
          e,
          num_i64_lem f.size s.size,
          num_i64_lem f.created_at s.created_at,
          num_i64_lem f.modified_at s.modified_at,
        )
        refl

  -- A file comes back from its document.
  pub read_file-file_json :
      (f : FileMeta) (w : W)
      → Storable f
      → read_file kv sys (json.dump (file_json f)) w ≡ (w, done (some f))
  read_file-file_json f w s =
      read_file-parses (json.dump (file_json f)) f w s
        (json.parse-dump (file_json f) (file_json-canonical f s))
