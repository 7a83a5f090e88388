-- ===== src/Drive/Upload.antt =====
-- An upload and the download behind it (raftdrive/services/service_fs.cpp), on a cluster and a bucket
-- that keep what they are given.
use raft_drive.Prelude.{
  ◌≡◌, ◌≢◌, refl, sym, ap, subst, ◌∙◌, ◌⊎◌, inl, inr, Bool, false, List, [], ◌∷◌, ◌++◌, Option,
  none, some, Option-cases, Bool-cases, Bytes, bytes_eq, bytes_eq_iff, bytes_eq_refl, ℤ, pos,
  int_eq,
}
use raft_drive.Json.{JsonLib, arr}
use raft_drive.Kv.Server.{set_text}
use raft_drive.Drive.Effect.{
  Outcome, done, thrown, crashed, unfinished, KvStore, Platform, Prog, run, give, and_then,
}
use raft_drive.Drive.Metadata.{
  FileMeta, file_json, names_items, file_key, children_key, get_file, get_children, read_names,
  create_child, create_file, name_of, or_now, names_of_json,
}
use raft_drive.Drive.Fs.{
  put_object, get_object, generate_s3_key, upload_file, upload_new, store_upload, save_meta,
  new_meta, download_file, download_found,
}
use raft_drive.Drive.Faithful.{Faithful}
use raft_drive.Drive.Documents.{IsI64, Storable, read_file-file_json}
use raft_drive.Drive.Keys.{keys_apart}

pub bytes_ne : (xs ys : Bytes) → xs ≢ ys → bytes_eq xs ys ≡ false
bytes_ne xs ys h = elim (Bool-cases (bytes_eq xs ys)) [
  | inl e ↦ absurd (h ((bytes_eq_iff xs ys).0 e))
  | inr e ↦ e
]

or_now-IsI64 : (t now : ℤ) → IsI64 t → IsI64 now → IsI64 (or_now t now)
or_now-IsI64 t now h k = elim (Bool-cases (int_eq t (pos 0))) [ inl e ↦ rw e k | inr e ↦ rw e h ]

pub Outcome-cases :
    {A : Type 0} (o : Outcome A)
    → ((a : A) × (o ≡ done a))
      ⊎ (((e : Bytes) × (o ≡ thrown e)) ⊎ ((o ≡ crashed) ⊎ (o ≡ unfinished)))
Outcome-cases (done a) = inl (a, refl)
Outcome-cases (thrown e) = inr (inl (e, refl))
Outcome-cases crashed = inr (inr (inl refl))
Outcome-cases unfinished = inr (inr (inr refl))

-- A chain that is done was done with its first step.
pub >>=-eq-done :
    {W A B : Type 0} (r : W × Outcome A) (f : A → Prog W B) {v : W} {b : B}
    → and_then f r ≡ (v, done b)
    → (a : A) × (r.1 ≡ done a) × (f a r.0 ≡ (v, done b))
>>=-eq-done r f h = elim (Outcome-cases r.1) [
  | inl (a, e) ↦ (a, e, rw e at h)
  | inr (inl (m, e)) ↦ let never = rw e at h in cc
  | inr (inr (inl e)) ↦ let never = rw e at h in cc
  | inr (inr (inr e)) ↦ let never = rw e at h in cc
]

module _ {W : Type 0} (kv : KvStore W) (sys : Platform W) (bucket : Bytes) ⦃json : JsonLib⦄
    {texts : W → Bytes → Bytes} {objects : W → Bytes → Option Bytes}
    (laws : Faithful kv sys bucket texts objects) where
  -- Both contents are as they were.
  abbrev pub Same : W → W → Type 0
  Same w v = (texts v ≡ texts w) × (objects v ≡ objects w)

  read_names-world : (text : Bytes) (w : W) → (read_names kv sys text w).0 ≡ w
  read_names-world [] w = refl
  read_names-world (b ∷ bs) w = elim (Option-cases (json.parse (b ∷ bs))) [
    | inl e ↦ rw e refl
    | inr (j, e) ↦ elim (Option-cases (names_of_json j)) [
      | inl f ↦ rw (e, f) refl
      | inr (ns, f) ↦ rw (e, f) refl
    ]
  ]

  pub get_children-Same : (path : Bytes) (w : W) → Same w (get_children kv sys path w).0
  unfolding get_children
  get_children-Same path w =
      let r = kv.get (children_key path) w in
      rw (read_names-world r.1 r.0)
        (laws.get-texts (children_key path) w, laws.get-objects (children_key path) w)

  -- The list of children is the only text that a new child changes.
  create_child-effect :
      (parent name k : Bytes) (w : W) {v : W} {b : Bool}
      → create_child kv sys parent name w ≡ (v, done b)
      → children_key parent ≢ k
      → (texts v k ≡ texts w k) × (objects v ≡ objects w)
  unfolding create_child
  create_child-effect parent name k w {v} {b} h other =
      let new = λ (ns : List Bytes). json.dump (arr (names_items (ns ++ name ∷ []))) in
      let key = children_key parent in
      let (ns, e, f) =
        >>=-eq-done (get_children kv sys parent w) (λ ns. run (kv.put key (new ns))) {v = v} {b = b}
          h in
      let u = (get_children kv sys parent w).0 in
      let (t, o) = get_children-Same parent w in
      let at : (kv.put key (new ns) u).0 ≡ v = ap (λ (x : W × Outcome Bool). x.0) f in
      let miss : bytes_eq key k ≡ false = bytes_ne key k other in
      (
        rw (← at) (rw (laws.put-texts key (new ns) u, miss, t) refl),
        rw (← at) (laws.put-objects key (new ns) u ∙ o),
      )

  -- A new file: its document is stored, and the bucket is as it was.
  create_file-effect :
      (f : FileMeta) (w : W) {v : W} {b : Bool}
      → create_file kv sys f w ≡ (v, done b)
      → let now = (sys.time w).1 in
        (texts v (file_key f.path)
          ≡ json.dump (
              file_json (record f {
                created_at = or_now f.created_at now;
                modified_at = or_now f.modified_at now;
              })))
        × (objects v ≡ objects w)
  unfolding create_file
  create_file-effect f w {v} {b} h =
      let now = (sys.time w).1 in
      let text = json.dump (
        file_json (record f {
          created_at = or_now f.created_at now;
          modified_at = or_now f.modified_at now;
        })) in
      let u = (kv.put (file_key f.path) text (sys.time w).0).0 in
      let apart = (keys_apart f.path f.parent).2 in
      let (t, o) = create_child-effect f.parent f.name (file_key f.path) u h (λ e. apart (sym e)) in
      (
        t
            ∙ rw
                (
                  laws.put-texts (file_key f.path) text (sys.time w).0,
                  bytes_eq_refl (file_key f.path),
                )
                refl,
        o ∙ (laws.put-objects (file_key f.path) text (sys.time w).0 ∙ laws.time-objects w),
      )

  generate_s3_key-Same : (name : Bytes) (w : W) → Same w (generate_s3_key kv sys bucket name w).0
  unfolding generate_s3_key
  generate_s3_key-Same name w = (laws.random-texts w, laws.random-objects w)

  put_object-done :
      (key content type : Bytes) (w : W) {b : Bool}
      → (put_object kv sys bucket key content type w).1 ≡ done b
      → ((sys.put_object bucket key content type w).1 ≡ none)
        × ((put_object kv sys bucket key content type w).0
            ≡ (sys.put_object bucket key content type w).0)
  unfolding put_object
  put_object-done key content type w h =
      elim (Option-cases (sys.put_object bucket key content type w).1) [
        | inl e ↦ (e, rw e refl)
        | inr (m, e) ↦ let never = rw e at h in cc
      ]

  -- What an upload that succeeds has stored: the content at the key of its metadata, and the document
  -- of its metadata at the path, where a time of 0 is replaced by a later one.
  abbrev pub Stored : (path content content_type : Bytes) → W → FileMeta → Type 0
  Stored path content content_type v f =
      (late : W) × (f ≡ new_meta kv sys bucket path content content_type f.created_at f.s3_key)
      × (objects v f.s3_key ≡ some content)
      × (texts v (file_key path)
          ≡ json.dump (
              file_json (record f {
                created_at = or_now f.created_at (sys.time late).1;
                modified_at = or_now f.modified_at (sys.time late).1;
              })))

  store_upload-Stored :
      (path content content_type : Bytes) (now : ℤ) (key : Bytes) (w : W) {v : W} {f : FileMeta}
      → store_upload kv sys bucket path content content_type now key w ≡ (v, done f)
      → Stored path content content_type v f
  store_upload-Stored path content content_type now key w {v} {f} h =
      let m = new_meta kv sys bucket path content content_type now key in
      let put = put_object kv sys bucket key content content_type w in
      let (b, e, h1) = >>=-eq-done put (λ b. save_meta kv sys bucket m) {v = v} {b = f} h in
      let (ok, at) = put_object-done key content content_type w e in
      let (b1, e1, h2) =
        >>=-eq-done (create_file kv sys m put.0) (λ b. give m) {v = v} {b = f} h1 in
      let (t, o) = create_file-effect m put.0 (ap (λ x. ((create_file kv sys m put.0).0, x)) e1) in
      let own : set_text (objects w) key (some content) key ≡ some content =
        rw (bytes_eq_refl key) refl in
      let held : objects put.0 key ≡ some content =
        ap (λ u. objects u key) at
        ∙ (ap (λ (g : Bytes → Option Bytes). g key)
              (laws.put_object-objects key content content_type w ok)
            ∙ own) in
      let same : m ≡ f = cc (ap (λ (x : W × Outcome FileMeta). x.1) h2) in
      let stored : Stored path content content_type (create_file kv sys m put.0).0 m =
        (put.0, refl, ap (λ (g : Bytes → Option Bytes). g key) o ∙ held, t) in
      subst (λ u. Stored path content content_type u f) (ap (λ (x : W × Outcome FileMeta). x.0) h2)
        (subst (λ g. Stored path content content_type (create_file kv sys m put.0).0 g) same stored)

  upload_new-Stored :
      (path content content_type : Bytes) (o : Option FileMeta) (w : W) {v : W} {f : FileMeta}
      → upload_new kv sys bucket path content content_type o w ≡ (v, done f)
      → Stored path content content_type v f
  upload_new-Stored path content content_type (some g) w h = cc
  upload_new-Stored path content content_type none w {v} {f} h =
      let now = (sys.time w).1 in
      let w1 = (sys.time w).0 in
      let made = generate_s3_key kv sys bucket (name_of path) w1 in
      let (key, e, h1) =
        >>=-eq-done made (store_upload kv sys bucket path content content_type now) {v = v} {b = f}
          h in
      store_upload-Stored path content content_type now key made.0 h1

  get_file-stored :
      (path : Bytes) (g : FileMeta) (v : W)
      → Storable g
      → texts v (file_key path) ≡ json.dump (file_json g)
      → get_file kv sys path v ≡ ((kv.get (file_key path) v).0, done (some g))
  unfolding get_file
  get_file-stored path g v good text =
      rw (laws.get-value (file_key path) v ∙ text)
        (read_file-file_json kv sys g (kv.get (file_key path) v).0 good)

  download_found-stored :
      (path : Bytes) (g : FileMeta) (u : W) {content : Bytes}
      → objects u g.s3_key ≡ some content
      → (download_found kv sys bucket path (some g) u).1
        ≡ done (record { content = content; content_type = g.content_type })
  unfolding get_object
  download_found-stored path g u held = rw (laws.get_object-value g.s3_key u held) refl

  -- Behind an upload that succeeded, the metadata has a file at the path, and the bucket its content.
  pub get_file-upload_file :
      (path content content_type : Bytes) (w : W) {v : W} {f : FileMeta}
      → ((u : W) → IsI64 (sys.time u).1)
      → Storable f
      → upload_file kv sys bucket path content content_type w ≡ (v, done f)
      → (g : FileMeta) × (get_file kv sys path v ≡ ((kv.get (file_key path) v).0, done (some g)))
        × (objects v g.s3_key ≡ some content)
        × (g.content_type ≡ content_type)
  unfolding upload_file
  get_file-upload_file path content content_type w {v} {f} clock good h =
      let (o, e, h1) =
        >>=-eq-done (get_file kv sys path w) (upload_new kv sys bucket path content content_type)
          {v = v} {b = f} h in
      let (late, meta, held, text) = upload_new-Stored path content content_type o _ h1 in
      let g : FileMeta = record f {
        created_at = or_now f.created_at (sys.time late).1;
        modified_at = or_now f.modified_at (sys.time late).1;
      } in
      let fine : Storable g = record {
        name = good.name;
        path = good.path;
        parent = good.parent;
        content_type = good.content_type;
        s3_key = good.s3_key;
        size = good.size;
        created_at = or_now-IsI64 f.created_at (sys.time late).1 good.created_at (clock late);
        modified_at = or_now-IsI64 f.modified_at (sys.time late).1 good.modified_at (clock late);
      } in
      (g, get_file-stored path g v fine text, held, ap (λ (x : FileMeta). x.content_type) meta)

  -- A file that is uploaded can be downloaded: on a cluster and a bucket that keep what they are given,
  -- with a clock in the range of its type, and metadata whose texts are UTF-8, a download that follows
  -- an upload which succeeded gives the content and its type back.
  pub download_file-upload_file :
      (path content content_type : Bytes) (w : W) {v : W} {f : FileMeta}
      → ((u : W) → IsI64 (sys.time u).1)
      → Storable f
      → upload_file kv sys bucket path content content_type w ≡ (v, done f)
      → (download_file kv sys bucket path v).1
        ≡ done (record { content = content; content_type = content_type })
  unfolding download_file
  download_file-upload_file path content content_type w {v} {f} clock good h =
      let (g, found, held, type) =
        get_file-upload_file path content content_type w {v = v} {f = f} clock good h in
      let u = (kv.get (file_key path) v).0 in
      let there : objects u g.s3_key ≡ some content =
        ap (λ (o : Bytes → Option Bytes). o g.s3_key) (laws.get-objects (file_key path) v) ∙ held in
      rw found (
        download_found-stored path g u there
        ∙ ap (λ (t : Bytes). done (record { content = content; content_type = t })) type)
