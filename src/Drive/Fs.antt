-- ===== src/Drive/Fs.antt =====
-- `FileSystemService` (raftdrive/services/service_fs.cpp) and `StorageService`
-- (raftdrive/services/service_storage.cpp): metadata in the key-value store, contents in S3.
use raft_drive.Prelude.{
  ℕ, zero, suc, ◌+◌, ◌/◌, ◌%◌, Bool, true, List, [], ◌∷◌, ◌++◌, Option, none, some, if◌then◌else◌,
  ltb, ◌==◌, length, Bytes, bytes, bytes_eq, ℤ, pos, inl, inr, ◌⊎◌,
}
use raft_drive.Json.{JsonLib}
use raft_drive.Drive.Effect.{unfinished, Prog, ◌>>=◌, give, throw_error, run, KvStore, Platform}
use raft_drive.Drive.Metadata.{
  FileMeta, DirMeta, get_dir, get_file, get_children, create_dir, create_file, remove_dir,
  remove_file, name_of, parent_of,
}

pub data FsItem : Type 0 where
  file_item : FileMeta → FsItem
  dir_item : DirMeta → FsItem

pub record ListingResult : Type 0 where
  pub dir : DirMeta
  pub children : List FsItem

pub record DownloadResult : Type 0 where
  pub content : Bytes
  pub content_type : Bytes

-- `(path == "/") ? "/" + name : path + "/" + name`.
unfoldable pub child_path : Bytes → Bytes → Bytes
unfolding bytes_eq
child_path path name =
    if bytes_eq path (bytes "/") then bytes "/" ++ name else path ++ (bytes "/" ++ name)

-- `std::hex`: the digits of a number below 2 ^ 64, of which there are 16 at most.
abbrev hex_digit : ℕ → ℕ
hex_digit d = if ltb d 10 then 48 + d else 87 + d

unfoldable pub hex_from : ℕ → ℕ → Bytes → Bytes
hex_from zero n digits = digits
hex_from (suc k) n digits =
    let more = hex_digit (n % 16) ∷ digits in
    let rest = hex_from k (n / 16) more in if n / 16 == 0 then more else rest

abbrev pub failed : {W : Type 0} → Option Bytes → Prog W Bool
failed none = give true
failed (some message) = throw_error message

abbrev read_body : {W : Type 0} → Bytes ⊎ Bytes → Prog W Bytes
read_body (inl content) = give content
read_body (inr message) = throw_error message

module _ {W : Type 0} (kv : KvStore W) (sys : Platform W) (bucket : Bytes) ⦃json : JsonLib⦄ where
  -- `StorageService`: an error of the SDK is thrown with its message.
  unfoldable pub put_object : (key content content_type : Bytes) → Prog W Bool
  put_object key content content_type = do
    e ← run (sys.put_object bucket key content content_type)
    failed e

  unfoldable pub get_object : Bytes → Prog W Bytes
  get_object key = do r ← run (sys.get_object bucket key); read_body r

  unfoldable pub delete_object : Bytes → Prog W Bool
  delete_object key = do e ← run (sys.delete_object bucket key); failed e

  unfoldable pub generate_s3_key : Bytes → Prog W Bytes
  unfolding hex_from
  generate_s3_key filename = do
    n ← run sys.random
    give (bytes "files/" ++ (hex_from 16 n [] ++ (bytes "-" ++ filename)))

  -- The loop of `listDir`: a child is a file, or else a directory, or else left out.
  abbrev item_at : Bytes → Option FileMeta → Prog W (Option FsItem)
  item_at path (some f) = give (some (file_item f))
  item_at path none = do
    d ← get_dir kv sys path
    give (elim d [ none ↦ none | some m ↦ some (dir_item m) ])

  abbrev add_item : Option FsItem → List FsItem → List FsItem
  add_item none items = items
  add_item (some i) items = i ∷ items

  unfoldable pub list_children : Bytes → List Bytes → Prog W (List FsItem)
  list_children path [] = give []
  list_children path (name ∷ names) = do
    f ← get_file kv sys (child_path path name)
    i ← item_at (child_path path name) f
    rest ← list_children path names
    give (add_item i rest)

  abbrev list_found : Bytes → Option DirMeta → Prog W ListingResult
  list_found path none = throw_error (bytes "Directory not found: " ++ path)
  list_found path (some d) = do
    names ← get_children kv sys path
    items ← list_children path names
    give (record { dir = d; children = items })

  unfoldable pub list_dir : Bytes → Prog W ListingResult
  list_dir path = do d ← get_dir kv sys path; list_found path d

  abbrev make_dir : Bytes → Option DirMeta → Prog W Bool
  make_dir path none = create_dir kv sys path
  make_dir path (some d) = throw_error (bytes "Directory exists already: " ++ path)

  unfoldable pub fs_create_dir : Bytes → Prog W Bool
  fs_create_dir path = do d ← get_dir kv sys path; make_dir path d

  abbrev pub delete_found : Bytes → Option FileMeta → Prog W Bool
  delete_found path none = throw_error (bytes "File not found: " ++ path)
  delete_found path (some f) = do _ ← delete_object f.s3_key; remove_file kv sys path

  unfoldable pub fs_delete_file : Bytes → Prog W Bool
  unfolding delete_object
  fs_delete_file path = do f ← get_file kv sys path; delete_found path f

  -- The loop of `deleteDir` over the children; `descend` is the recursive call.
  abbrev delete_found_child : (Bytes → Prog W Bool) → Bytes → Option DirMeta → Prog W Bool
  delete_found_child descend path none = give true
  delete_found_child descend path (some d) = descend path

  abbrev delete_child_at : (Bytes → Prog W Bool) → Bytes → Option FileMeta → Prog W Bool
  delete_child_at descend path (some f) = fs_delete_file path
  delete_child_at descend path none = do d ← get_dir kv sys path; delete_found_child descend path d

  unfoldable pub delete_children : (Bytes → Prog W Bool) → Bytes → List Bytes → Prog W Bool
  delete_children descend path [] = give true
  delete_children descend path (name ∷ names) = do
    f ← get_file kv sys (child_path path name)
    _ ← delete_child_at descend (child_path path name) f
    delete_children descend path names

  abbrev delete_tree : (Bytes → Prog W Bool) → Bytes → Option DirMeta → Prog W Bool
  delete_tree descend path none = throw_error (bytes "Directory not found: " ++ path)
  delete_tree descend path (some d) = do
    names ← get_children kv sys path
    _ ← delete_children descend path names
    remove_dir kv sys path

  -- `deleteDir`, with a bound on the depth of the recursion.
  unfoldable pub fs_delete_dir : ℕ → Bytes → Prog W Bool
  fs_delete_dir zero path = λ w. (w, unfinished)
  fs_delete_dir (suc depth) path = do
    d ← get_dir kv sys path
    delete_tree (fs_delete_dir depth) path d

  abbrev pub download_found : Bytes → Option FileMeta → Prog W DownloadResult
  download_found path none = throw_error (bytes "File not found: " ++ path)
  download_found path (some f) = do
    content ← get_object f.s3_key
    give (record { content = content; content_type = f.content_type })

  unfoldable pub download_file : Bytes → Prog W DownloadResult
  unfolding get_object
  download_file path = do f ← get_file kv sys path; download_found path f

  abbrev pub new_meta : (path content content_type : Bytes) → ℤ → Bytes → FileMeta
  new_meta path content content_type now key = record {
    name = name_of path;
    path = path;
    parent = parent_of path;
    content_type = content_type;
    s3_key = key;
    size = pos (length content);
    created_at = now;
    modified_at = now;
  }

  abbrev pub save_meta : FileMeta → Prog W FileMeta
  save_meta f = do _ ← create_file kv sys f; give f

  abbrev pub store_upload : (path content content_type : Bytes) → ℤ → Bytes → Prog W FileMeta
  store_upload path content content_type now key = do
    _ ← put_object key content content_type
    save_meta (new_meta path content content_type now key)

  abbrev pub upload_new : (path content content_type : Bytes) → Option FileMeta → Prog W FileMeta
  upload_new path content content_type (some f) =
      throw_error (bytes "File already exists: " ++ path)
  upload_new path content content_type none = do
    now ← run sys.time
    key ← generate_s3_key (name_of path)
    store_upload path content content_type now key

  unfoldable pub upload_file : (path content content_type : Bytes) → Prog W FileMeta
  unfolding name_of parent_of put_object
  upload_file path content content_type = do
    f ← get_file kv sys path
    upload_new path content content_type f
