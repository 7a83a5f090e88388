-- ===== src/Drive/Handlers.antt =====
-- The handlers of the HTTP requests and their routes (raftdrive/handlers/handler_fs.hpp,
-- raftdrive/api/router.hpp). A document of crow's JSON writer stands as a value.
use raft_drive.Prelude.{ℕ, List, [], ◌∷◌, ◌++◌, Option, none, some, Bytes, bytes}
use raft_drive.Json.{Json, num, text, arr, obj, Items, nil, cons, end, assign, JsonLib}
use raft_drive.Drive.Effect.{Outcome, done, thrown, crashed, unfinished, Prog, KvStore, Platform}
use raft_drive.Drive.Metadata.{FileMeta}
use raft_drive.Drive.Fs.{
  FsItem, file_item, dir_item, ListingResult, list_dir, fs_create_dir, fs_delete_dir,
  fs_delete_file, download_file, upload_file,
}

pub data Body : Type 0 where
  empty : Body
  plain : Bytes → Body
  document : Json → Body

pub record Response : Type 0 where
  pub code : ℕ
  pub body : Body
  pub content_type : Option Bytes

abbrev pub respond : ℕ → Body → Response
respond code body = record { code = code; body = body; content_type = none }

abbrev pub item_json : FsItem → Json
item_json (file_item f) = obj (
    assign (bytes "content_type") (text f.content_type) (
      assign (bytes "size") (num f.size)
        (assign (bytes "name") (text f.name) (assign (bytes "type") (text (bytes "file")) end))))
item_json (dir_item d) =
    obj (assign (bytes "name") (text d.name) (assign (bytes "type") (text (bytes "dir")) end))

abbrev pub items_json : List FsItem → Items
items_json [] = nil
items_json (i ∷ is) = cons (item_json i) (items_json is)

abbrev pub listing_json : ListingResult → Json
listing_json r = obj (
    assign (bytes "children") (arr (items_json r.children))
      (assign (bytes "name") (text r.dir.name) (assign (bytes "path") (text r.dir.path) end)))

abbrev pub upload_json : FileMeta → Json
upload_json f = obj (
    assign (bytes "created_at") (num f.created_at) (
      assign (bytes "content_type") (text f.content_type) (
        assign (bytes "size") (num f.size)
          (assign (bytes "path") (text f.path) (assign (bytes "name") (text f.name) end)))))

-- `try { … } catch (const std::runtime_error& e) { return crow::response(code, e.what()); }`.
abbrev pub catching : {W A : Type 0} → ℕ → (A → Response) → W × Outcome A → W × Outcome Response
catching code answer (w, done a) = (w, done (answer a))
catching code answer (w, thrown e) = (w, done (respond code (plain e)))
catching code answer (w, crashed) = (w, crashed)
catching code answer (w, unfinished) = (w, unfinished)

pub data Route : Type 0 where
  get_root : Route
  get_dirs post_dirs delete_dirs get_files delete_files : Bytes → Route
  post_files : (path content content_type : Bytes) → Route

module _ {W : Type 0} (kv : KvStore W) (sys : Platform W) (bucket : Bytes) (depth : ℕ)
    ⦃json : JsonLib⦄ where
  unfoldable pub handle_list_dir : Bytes → Prog W Response
  unfolding assign
  handle_list_dir path w =
      catching 404 (λ r. respond 200 (document (listing_json r))) (list_dir kv sys bucket path w)

  unfoldable pub handle_create_dir : Bytes → Prog W Response
  handle_create_dir path w =
      catching 409 (λ r. respond 201 empty) (fs_create_dir kv sys bucket path w)

  unfoldable pub handle_download_file : Bytes → Prog W Response
  handle_download_file path w =
      catching 404
        (λ r. record { code = 200; body = plain r.content; content_type = some r.content_type })
        (download_file kv sys bucket path w)

  unfoldable pub handle_delete_dir : Bytes → Prog W Response
  handle_delete_dir path w =
      catching 404 (λ r. respond 200 empty) (fs_delete_dir kv sys bucket depth path w)

  unfoldable pub handle_upload_file : (path content content_type : Bytes) → Prog W Response
  unfolding assign
  handle_upload_file path content content_type w =
      catching 409 (λ f. respond 201 (document (upload_json f)))
        (upload_file kv sys bucket path content content_type w)

  unfoldable pub handle_delete_file : Bytes → Prog W Response
  handle_delete_file path w =
      catching 404 (λ r. respond 200 empty) (fs_delete_file kv sys bucket path w)

  -- `registerRoutes`, from the route and the rest of the path that crow found.
  unfoldable pub dispatch : Route → Prog W Response
  dispatch get_root = handle_list_dir (bytes "/")
  dispatch (get_dirs path) = handle_list_dir (bytes "/" ++ path)
  dispatch (post_dirs path) = handle_create_dir (bytes "/" ++ path)
  dispatch (delete_dirs path) = handle_delete_dir (bytes "/" ++ path)
  dispatch (post_files path content content_type) =
      handle_upload_file (bytes "/" ++ path) content content_type
  dispatch (get_files path) = handle_download_file (bytes "/" ++ path)
  dispatch (delete_files path) = handle_delete_file (bytes "/" ++ path)
