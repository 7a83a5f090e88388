-- ===== src/Drive/Metadata.antt =====
-- `MetadataService` (raftdrive/services/service_metadata.cpp): directories and files as JSON texts in
-- the key-value store. What the last put of a `void` function returned is its result here; no caller
-- reads it.
use raft_drive.Prelude.{
  ℕ, suc, ◌+◌, ◌-◌, ◌^◌, Bool, true, false, List, [], ◌∷◌, ◌++◌, Option, none, some, if◌then◌else◌,
  ltb, ◌==◌, take, drop, Bytes, bytes, bytes_eq, ℤ, pos, negsuc, int_eq, int_to_u64,
}
use raft_drive.Json.{
  Json, null, num, text, arr, obj, Items, nil, cons, end, assign, JsonLib, get_text, get_num,
  as_text,
}
use raft_drive.Drive.Effect.{Prog, ◌>>=◌, give, or_crash, run, KvStore, Platform}

-- raftdrive/models/drive_models.hpp.
pub record FileMeta : Type 0 where
  pub name : Bytes
  pub path : Bytes
  pub parent : Bytes
  pub content_type : Bytes
  pub s3_key : Bytes
  pub size : ℤ
  pub created_at : ℤ
  pub modified_at : ℤ

pub record DirMeta : Type 0 where
  pub name : Bytes
  pub path : Bytes
  pub parent : Bytes
  pub created_at : ℤ
  pub modified_at : ℤ

-- The conversion of a JSON number to `int64_t`.
abbrev pub num_i64 : ℤ → ℤ
num_i64 z = let m = int_to_u64 z in if ltb m (2 ^ 63) then pos m else negsuc (2 ^ 64 - 1 - m)

unfoldable pub dir_key : Bytes → Bytes
dir_key path = bytes "dir:" ++ path

unfoldable pub file_key : Bytes → Bytes
file_key path = bytes "file:" ++ path

unfoldable pub children_key : Bytes → Bytes
children_key path = bytes "children:" ++ path

-- `path.rfind('/')`; `none` is `npos`.
unfoldable pub rfind_slash : Bytes → Option ℕ
rfind_slash [] = none
rfind_slash (c ∷ cs) = elim (rfind_slash cs) [
  | some i ↦ some (suc i)
  | none ↦ if c == 47 then some 0 else none
]

-- `path.substr(path.rfind('/') + 1)` and `path.substr(0, path.rfind('/'))`, "/" where that is empty:
-- `npos + 1` is 0, and a length of `npos` takes the whole path.
abbrev behind_slash : Bytes → Option ℕ → Bytes
behind_slash path none = path
behind_slash path (some i) = drop (i + 1) path

abbrev before_slash : Bytes → Option ℕ → Bytes
before_slash path none = path
before_slash path (some i) = take i path

abbrev root_if_empty : Bytes → Bytes
root_if_empty [] = bytes "/"
root_if_empty (c ∷ cs) = c ∷ cs

unfoldable pub name_of : Bytes → Bytes
unfolding rfind_slash
name_of path = behind_slash path (rfind_slash path)

unfoldable pub parent_of : Bytes → Bytes
unfolding rfind_slash
parent_of path = root_if_empty (before_slash path (rfind_slash path))

-- The JSON forms.
abbrev pub dir_json : DirMeta → Json
dir_json d = obj (
    assign (bytes "modified_at") (num d.modified_at) (
      assign (bytes "created_at") (num d.created_at) (
        assign (bytes "parent") (text d.parent)
          (assign (bytes "path") (text d.path) (assign (bytes "name") (text d.name) end)))))

abbrev pub file_json : FileMeta → Json
file_json f = obj (
    assign (bytes "modified_at") (num f.modified_at) (
      assign (bytes "created_at") (num f.created_at) (
        assign (bytes "s3_key") (text f.s3_key) (
          assign (bytes "content_type") (text f.content_type) (
            assign (bytes "size") (num f.size) (
              assign (bytes "parent") (text f.parent) (
                assign (bytes "path") (text f.path) (assign (bytes "name") (text f.name) end))))))))

abbrev pub names_items : List Bytes → Items
names_items [] = nil
names_items (n ∷ ns) = cons (text n) (names_items ns)

-- `j.get<std::vector<std::string>>()`; `none` is its `type_error`.
abbrev pub with_name : Option Bytes → Option (List Bytes) → Option (List Bytes)
with_name none ns = none
with_name (some n) none = none
with_name (some n) (some ns) = some (n ∷ ns)

abbrev pub items_names : Items → Option (List Bytes)
items_names nil = some []
items_names (cons x xs) = with_name (as_text x) (items_names xs)

abbrev pub names_of_json : Json → Option (List Bytes)
names_of_json (arr xs) = items_names xs
names_of_json null = none
names_of_json (num n) = none
names_of_json (text s) = none
names_of_json (obj fs) = none

-- `std::erase(children, name)`.
unfoldable pub erase_name : Bytes → List Bytes → List Bytes
unfolding bytes_eq
erase_name n [] = []
erase_name n (m ∷ ms) = let rest = erase_name n ms in if bytes_eq m n then rest else m ∷ rest

-- A time that is 0 is replaced by the present.
abbrev pub or_now : ℤ → ℤ → ℤ
or_now t now = if int_eq t (pos 0) then now else t

module _ {W : Type 0} (kv : KvStore W) (sys : Platform W) ⦃json : JsonLib⦄ where
  abbrev pub read_dir : Bytes → Prog W (Option DirMeta)
  read_dir [] = give none
  read_dir (b ∷ bs) = do
    j ← or_crash (json.parse (b ∷ bs))
    name ← or_crash (get_text (bytes "name") j)
    path ← or_crash (get_text (bytes "path") j)
    parent ← or_crash (get_text (bytes "parent") j)
    created ← or_crash (get_num (bytes "created_at") j)
    modified ← or_crash (get_num (bytes "modified_at") j)
    give (
        some (record {
          name = name;
          path = path;
          parent = parent;
          created_at = num_i64 created;
          modified_at = num_i64 modified;
        }))

  unfoldable pub get_dir : Bytes → Prog W (Option DirMeta)
  unfolding dir_key
  get_dir path = do result ← run (kv.get (dir_key path)); read_dir result

  abbrev pub read_file : Bytes → Prog W (Option FileMeta)
  read_file [] = give none
  read_file (b ∷ bs) = do
    j ← or_crash (json.parse (b ∷ bs))
    name ← or_crash (get_text (bytes "name") j)
    path ← or_crash (get_text (bytes "path") j)
    parent ← or_crash (get_text (bytes "parent") j)
    size ← or_crash (get_num (bytes "size") j)
    content_type ← or_crash (get_text (bytes "content_type") j)
    s3_key ← or_crash (get_text (bytes "s3_key") j)
    created ← or_crash (get_num (bytes "created_at") j)
    modified ← or_crash (get_num (bytes "modified_at") j)
    give (
        some (record {
          name = name;
          path = path;
          parent = parent;
          content_type = content_type;
          s3_key = s3_key;
          size = num_i64 size;
          created_at = num_i64 created;
          modified_at = num_i64 modified;
        }))

  unfoldable pub get_file : Bytes → Prog W (Option FileMeta)
  unfolding file_key
  get_file path = do result ← run (kv.get (file_key path)); read_file result

  abbrev pub read_names : Bytes → Prog W (List Bytes)
  read_names [] = give []
  read_names (b ∷ bs) = do j ← or_crash (json.parse (b ∷ bs)); or_crash (names_of_json j)

  unfoldable pub get_children : Bytes → Prog W (List Bytes)
  unfolding children_key
  get_children parent = do result ← run (kv.get (children_key parent)); read_names result

  unfoldable pub create_child : Bytes → Bytes → Prog W Bool
  create_child parent name = do
    children ← get_children parent
    run (kv.put (children_key parent) (json.dump (arr (names_items (children ++ name ∷ [])))))

  unfoldable pub delete_child : Bytes → Bytes → Prog W Bool
  unfolding erase_name
  delete_child parent name = do
    children ← get_children parent
    run (kv.put (children_key parent) (json.dump (arr (names_items (erase_name name children)))))

  unfoldable pub create_dir : Bytes → Prog W Bool
  unfolding assign name_of parent_of
  create_dir path = do
    now ← run sys.time
    _ ← run (
        kv.put (dir_key path) (
          json.dump (
            dir_json (record {
              name = name_of path;
              path = path;
              parent = parent_of path;
              created_at = now;
              modified_at = now;
            }))))
    done_children ← run (kv.put (children_key path) (bytes "[]"))
    if bytes_eq (name_of path) []
        then give done_children
        else create_child (parent_of path) (name_of path)

  abbrev delete_found_dir : Bytes → Option DirMeta → Prog W Bool
  delete_found_dir path none = give false
  delete_found_dir path (some d) = do
    _ ← run (kv.put (dir_key path) [])
    _ ← run (kv.put (children_key path) [])
    delete_child (parent_of path) (name_of path)

  unfoldable pub remove_dir : Bytes → Prog W Bool
  unfolding name_of parent_of
  remove_dir path = do d ← get_dir path; delete_found_dir path d

  unfoldable pub create_file : FileMeta → Prog W Bool
  unfolding assign
  create_file f = do
    now ← run sys.time
    _ ← run (
        kv.put (file_key f.path) (
          json.dump (
            file_json (record f {
              created_at = or_now f.created_at now;
              modified_at = or_now f.modified_at now;
            }))))
    create_child f.parent f.name

  abbrev pub delete_found_file : Bytes → Option FileMeta → Prog W Bool
  delete_found_file path none = give false
  delete_found_file path (some f) = do
    _ ← run (kv.put (file_key path) [])
    delete_child (parent_of path) (name_of path)

  unfoldable pub remove_file : Bytes → Prog W Bool
  unfolding name_of parent_of
  remove_file path = do f ← get_file path; delete_found_file path f

  abbrev create_if_missing : Option DirMeta → Prog W Bool
  create_if_missing none = create_dir (bytes "/")
  create_if_missing (some d) = give true

  unfoldable pub ensure_root : Prog W Bool
  ensure_root = do d ← get_dir (bytes "/"); create_if_missing d
