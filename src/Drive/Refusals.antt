-- ===== src/Drive/Refusals.antt =====
-- The requests that raftdrive/handlers/handler_fs.hpp turns down, on a cluster and a bucket that keep
-- what they are given.
use raft_drive.Prelude.{
  arith, ◌≡◌, ◌≢◌, refl, sym, ap, ◌∙◌, inl, inr, ℕ, Bool, List, [], ◌∷◌, ◌++◌, Option, none, some,
  Option-cases, Bytes, bytes, bytes_eq_refl,
}
use raft_drive.Json.{JsonLib, arr, get_text, get_num}
use raft_drive.Drive.Effect.{
  Outcome, done, thrown, crashed, unfinished, KvStore, Platform, Prog, run, and_then, or_crash,
}
use raft_drive.Drive.Metadata.{
  FileMeta, num_i64, names_items, file_key, children_key, get_file, read_file, get_children,
  delete_child, delete_found_file, remove_file, name_of, parent_of, erase_name,
}
use raft_drive.Drive.Fs.{fs_delete_file, delete_object, download_file, upload_file, delete_found}
use raft_drive.Drive.Handlers.{
  Response, respond, plain, handle_download_file, handle_upload_file, handle_delete_file,
}
use raft_drive.Drive.Faithful.{Faithful}
use raft_drive.Drive.Documents.{IsI64, Storable}
use raft_drive.Drive.Keys.{keys_apart}
use raft_drive.Drive.Upload.{
  >>=-eq-done, Outcome-cases, Same, bytes_ne, get_children-Same, get_file-upload_file,
}

abbrev code_of : Outcome Response → ℕ
code_of (done r) = r.code
code_of (thrown e) = 0
code_of crashed = 0
code_of unfinished = 0

-- A reader that does not end with `none`.
record Fills {W A : Type 0} (r : W × Outcome (Option A)) : Type 0 where
  fills : r.1 ≢ done none

or_crash-Fills :
    {W A B : Type 0} (o : Option A) (f : A → Prog W (Option B))
    → ((a : A) (w : W) → Fills (f a w))
    → (w : W) → Fills (and_then f (or_crash o w))
or_crash-Fills none f h w = record { fills = λ e. cc }
or_crash-Fills (some a) f h w = h a w

give-Fills : {W A : Type 0} (a : A) (w : W) → Fills {W = W} (w, done (some a))
give-Fills a w = record { fills = λ e. cc }

module _ {W : Type 0} (kv : KvStore W) (sys : Platform W) ⦃json : JsonLib⦄ where
  -- Only the empty text stands for no file.
  read_file-none : (text : Bytes) (w : W) → (read_file kv sys text w).1 ≡ done none → text ≡ []
  read_file-none [] w h = refl
  read_file-none (b ∷ bs) w h = absurd (
      (or_crash-Fills (json.parse (b ∷ bs)) _
          (λ j. or_crash-Fills (get_text (bytes "name") j) _ (λ name.
            or_crash-Fills (get_text (bytes "path") j) _ (λ path.
              or_crash-Fills (get_text (bytes "parent") j) _ (λ parent.
                or_crash-Fills (get_num (bytes "size") j) _ (λ size.
                  or_crash-Fills (get_text (bytes "content_type") j) _ (λ content_type.
                    or_crash-Fills (get_text (bytes "s3_key") j) _ (λ key.
                      or_crash-Fills (get_num (bytes "created_at") j) _ (λ created.
                        or_crash-Fills (get_num (bytes "modified_at") j) _ (λ modified v.
                          give-Fills
                            (record {
                              name = name;
                              path = path;
                              parent = parent;
                              content_type = content_type;
                              s3_key = key;
                              size = num_i64 size;
                              created_at = num_i64 created;
                              modified_at = num_i64 modified;
                            })
                            v)))))))))
          w).fills
        h)

module _ {W : Type 0} (kv : KvStore W) (sys : Platform W) (bucket : Bytes) ⦃json : JsonLib⦄
    {texts : W → Bytes → Bytes} {objects : W → Bytes → Option Bytes}
    (laws : Faithful kv sys bucket texts objects) where
  get_file-none :
      (path : Bytes) (w : W)
      → (get_file kv sys path w).1 ≡ done none
      → (texts w (file_key path) ≡ []) × ((get_file kv sys path w).0 ≡ (kv.get (file_key path) w).0)
  unfolding get_file
  get_file-none path w h =
      let r = kv.get (file_key path) w in
      let empty = read_file-none kv sys r.1 r.0 h in
      (sym (laws.get-value (file_key path) w) ∙ empty, rw empty refl)

  get_file-empty :
      (path : Bytes) (w : W)
      → texts w (file_key path) ≡ []
      → get_file kv sys path w ≡ ((kv.get (file_key path) w).0, done none)
  unfolding get_file
  get_file-empty path w h = rw (laws.get-value (file_key path) w ∙ h) refl

  -- The list of children is the only text that the end of a child changes.
  delete_child-effect :
      (parent name k : Bytes) (w : W) {v : W} {b : Bool}
      → delete_child kv sys parent name w ≡ (v, done b)
      → children_key parent ≢ k
      → texts v k ≡ texts w k
  unfolding delete_child
  delete_child-effect parent name k w {v} {b} h other =
      let new = λ (ns : List Bytes). json.dump (arr (names_items (erase_name name ns))) in
      let key = children_key parent in
      let (ns, e, f) =
        >>=-eq-done (get_children kv sys parent w) (λ ns. run (kv.put key (new ns))) {v = v} {b = b}
          h in
      let u = (get_children kv sys parent w).0 in
      let (t, o) = get_children-Same kv sys bucket laws parent w in
      let at : (kv.put key (new ns) u).0 ≡ v = ap (λ (x : W × Outcome Bool). x.0) f in
      rw (← at) (rw (laws.put-texts key (new ns) u, bytes_ne key k other, t) refl)

  remove_file-empties :
      (path : Bytes) (o : Option FileMeta) (w : W) {v : W} {b : Bool}
      → (get_file kv sys path w).1 ≡ done o
      → delete_found_file kv sys path o (get_file kv sys path w).0 ≡ (v, done b)
      → texts v (file_key path) ≡ []
  remove_file-empties path none w {v} {b} e h =
      let (empty, at) = get_file-none path w e in
      let here : (kv.get (file_key path) w).0 ≡ v = sym at ∙ ap (λ (x : W × Outcome Bool). x.0) h in
      rw (← here) (rw (laws.get-texts (file_key path) w) empty)
  remove_file-empties path (some f) w {v} {b} e h =
      let u = (get_file kv sys path w).0 in
      let apart = (keys_apart path (parent_of path)).2 in
      delete_child-effect (parent_of path) (name_of path) (file_key path)
        (kv.put (file_key path) [] u).0 {v = v} {b = b} h (λ e. apart (sym e))
      ∙ rw (laws.put-texts (file_key path) [] u, bytes_eq_refl (file_key path)) refl

  delete_file-empties :
      (path : Bytes) (w : W) {v : W} {b : Bool}
      → fs_delete_file kv sys bucket path w ≡ (v, done b)
      → texts v (file_key path) ≡ []
  unfolding fs_delete_file remove_file
  delete_file-empties path w {v} {b} h =
      let (o, e, h1) =
        >>=-eq-done (get_file kv sys path w) (delete_found kv sys bucket path) {v = v} {b = b} h in
      elim (Option-cases o) [
        | inl none_here ↦ let never = rw none_here at h1 in cc
        | inr (f, there) ↦
            let (gone, e1, h2) =
              >>=-eq-done (delete_object kv sys bucket f.s3_key (get_file kv sys path w).0)
                (λ gone. remove_file kv sys path) {v = v} {b = b} (rw there at h1) in
            let u = (delete_object kv sys bucket f.s3_key (get_file kv sys path w).0).0 in
            let (o2, e2, h3) =
              >>=-eq-done (get_file kv sys path u) (delete_found_file kv sys path) {v = v} {b = b}
                h2 in
            remove_file-empties path o2 u {v = v} {b = b} e2 h3
      ]

  answered_200 :
      (depth : ℕ) (path : Bytes) (w : W) {v : W} {r : Response}
      → handle_delete_file kv sys bucket depth path w ≡ (v, done r)
      → r.code ≡ 200
      → texts v (file_key path) ≡ []
  unfolding handle_delete_file
  answered_200 depth path w {v} {r} h ok =
      let p = fs_delete_file kv sys bucket path w in
      elim (Outcome-cases p.1) [
        | inl (b, e) ↦ delete_file-empties path w {v = v} {b = b} (
            ap (λ (o : Outcome Bool). (p.0, o)) e
            ∙ ap (λ (x : W × Outcome Response). (x.0, done b)) (rw e at h))
        | inr (inl (m, e)) ↦
            let refused : r.code ≡ 404 =
              ap (λ (x : W × Outcome Response). code_of x.1) (sym (rw e at h)) in
            absurd (omega (arith, refused, ok))
        | inr (inr (inl e)) ↦ let never = rw e at h in cc
        | inr (inr (inr e)) ↦ let never = rw e at h in cc
      ]

  -- A file that is deleted is gone: on a cluster and a bucket that keep what they are given, a download
  -- and a deletion of the path that follow a deletion which answered 200 answer 404, and change neither
  -- the texts of the cluster nor the objects of the bucket.
  pub handle_delete_file-deleted :
      (depth : ℕ) (path : Bytes) (w : W) {v : W} {r : Response}
      → handle_delete_file kv sys bucket depth path w ≡ (v, done r)
      → r.code ≡ 200
      → let no_file : Outcome Response =
          done (respond 404 (plain (bytes "File not found: " ++ path))) in
        let got = handle_download_file kv sys bucket depth path v in
        let again = handle_delete_file kv sys bucket depth path v in
        (got.1 ≡ no_file)
        × (again.1 ≡ no_file)
        × Same kv sys bucket laws v got.0
        × Same kv sys bucket laws v again.0
  unfolding handle_download_file handle_delete_file download_file fs_delete_file
  handle_delete_file-deleted depth path w {v} {r} h ok =
      let gone = answered_200 depth path w h ok in
      let u = (kv.get (file_key path) v).0 in
      let same : Same kv sys bucket laws v u =
        (laws.get-texts (file_key path) v, laws.get-objects (file_key path) v) in
      rw (get_file-empty path v gone) (refl, refl, same, same)

  -- A path that is taken stays so: on a cluster and a bucket that keep what they are given, with a clock
  -- in the range of its type, and metadata whose texts are UTF-8, an upload to a path that follows one
  -- which succeeded answers 409, and changes neither the texts of the cluster nor the objects of the
  -- bucket, whatever it would have stored.
  pub handle_upload_file-uploaded :
      (depth : ℕ) (path content content_type other other_type : Bytes) (w : W) {v : W}
      {f : FileMeta}
      → ((u : W) → IsI64 (sys.time u).1)
      → Storable f
      → upload_file kv sys bucket path content content_type w ≡ (v, done f)
      → let again = handle_upload_file kv sys bucket depth path other other_type v in
        (again.1 ≡ done (respond 409 (plain (bytes "File already exists: " ++ path))))
        × Same kv sys bucket laws v again.0
  unfolding handle_upload_file upload_file
  handle_upload_file-uploaded depth path content content_type other other_type w {v} {f} clock good
        h =
      let (g, found, held, type) =
        get_file-upload_file kv sys bucket laws path content content_type w {v = v} {f = f} clock
          good h in
      rw found (refl, (laws.get-texts (file_key path) v, laws.get-objects (file_key path) v))
