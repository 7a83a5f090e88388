-- ===== src/Tests/Upload.antt =====
-- The file system service and its handlers on a cluster and a bucket that are two maps.
use raft_drive.Prelude.{
  ◌≡◌, refl, ◌⊎◌, inl, inr, true, [], ◌++◌, Option, none, some, arith, Bytes, bytes, bytes_eq, pos,
  ap,
}
use raft_drive.Kv.Server.{set_text}
use raft_drive.Json.{get_text, get_num, assign, bytes_lt}
use raft_drive.Drive.Effect.{Outcome, done, KvStore, Platform}
use raft_drive.Drive.Metadata.{
  FileMeta, get_file, name_of, parent_of, create_file, create_child, get_children, remove_file,
  delete_child, erase_name,
}
use raft_drive.Drive.Faithful.{Faithful}
use raft_drive.Drive.Fs.{upload_file, download_file, generate_s3_key, fs_delete_file, delete_object}
use raft_drive.Drive.Documents.{Storable}
use raft_drive.Drive.Handlers.{
  Response, empty, respond, plain, handle_upload_file, handle_download_file, handle_delete_file,
}
use raft_drive.Drive.Refusals.{handle_delete_file-deleted, handle_upload_file-uploaded}
use raft_drive.Drive.Upload.{Same, download_file-upload_file}
use raft_drive.Tests.JsonText.{plain_json, dump_text, parse_text}

pub record Contents : Type 0 where
  pub texts : Bytes → Bytes
  pub objects : Bytes → Option Bytes

abbrev from_object : Option Bytes → Bytes ⊎ Bytes
from_object none = inr (bytes "NoSuchKey")
from_object (some content) = inl content

abbrev map_store : KvStore Contents
map_store = record {
  get = λ k w. (w, w.texts k);
  put = λ k v w. (record w { texts = set_text w.texts k v }, true);
}

abbrev map_platform : Platform Contents
map_platform = record {
  put_object = λ bucket key content type w.
      (record w { objects = set_text w.objects key (some content) }, none);
  get_object = λ bucket key w. (w, from_object (w.objects key));
  delete_object = λ bucket key w. (record w { objects = set_text w.objects key none }, none);
  time = λ w. (w, pos 100);
  random = λ w. (w, 255);
}

maps-Faithful : Faithful map_store map_platform (bytes "b") (λ w. w.texts) (λ w. w.objects)
maps-Faithful = record {
  get-value = λ k w. refl;
  get-texts = λ k w. refl;
  get-objects = λ k w. refl;
  put-texts = λ k v w. refl;
  put-objects = λ k v w. refl;
  time-texts = λ w. refl;
  time-objects = λ w. refl;
  random-texts = λ w. refl;
  random-objects = λ w. refl;
  put_object-texts = λ key content type w. refl;
  put_object-objects = λ key content type w h. refl;
  get_object-value = λ key w h. ap from_object h;
}

abbrev nothing : Contents
nothing = record { texts = λ k. []; objects = λ k. none }

abbrev stored_file : FileMeta
stored_file = record {
  name = bytes "a";
  path = bytes "/a";
  parent = bytes "/";
  content_type = bytes "text/plain";
  s3_key = bytes "files/ff-a";
  size = pos 3;
  created_at = pos 100;
  modified_at = pos 100;
}

abbrev uploaded : Contents
uploaded =
    (upload_file map_store map_platform (bytes "b") (bytes "/a") (bytes "new") (bytes "text/plain")
      nothing).0

upload_runs :
    upload_file map_store map_platform
      (bytes "b")
      (bytes "/a")
      (bytes "new")
      (bytes "text/plain")
      nothing
    ≡ (uploaded, done stored_file)
unfolding upload_file get_file name_of parent_of create_file generate_s3_key create_child
    get_children
upload_runs = refl

stored_file-Storable : Storable stored_file
stored_file-Storable = record {
  name = refl;
  path = refl;
  parent = refl;
  content_type = refl;
  s3_key = refl;
  size = omega arith;
  created_at = omega arith;
  modified_at = omega arith;
}

download_file-upload_file_example :
    (download_file map_store map_platform (bytes "b") (bytes "/a") uploaded).1
    ≡ done (record { content = bytes "new"; content_type = bytes "text/plain" })
download_file-upload_file_example =
    download_file-upload_file map_store map_platform (bytes "b") maps-Faithful (bytes "/a")
      (bytes "new") (bytes "text/plain") nothing (λ u. omega arith) stored_file-Storable upload_runs

abbrev upload_again : Contents × Outcome Response
upload_again =
    handle_upload_file map_store map_platform (bytes "b") 4 (bytes "/a") (bytes "newer")
      (bytes "text/html") uploaded

handle_upload_file-uploaded_example :
    (upload_again.1 ≡ done (respond 409 (plain (bytes "File already exists: " ++ bytes "/a"))))
    × Same map_store map_platform (bytes "b") maps-Faithful uploaded upload_again.0
handle_upload_file-uploaded_example =
    handle_upload_file-uploaded map_store map_platform (bytes "b") maps-Faithful 4 (bytes "/a")
      (bytes "new") (bytes "text/plain") (bytes "newer") (bytes "text/html") nothing
      (λ u. omega arith) stored_file-Storable upload_runs

abbrev deleted : Contents
deleted = (handle_delete_file map_store map_platform (bytes "b") 4 (bytes "/a") uploaded).0

delete_runs :
    handle_delete_file map_store map_platform (bytes "b") 4 (bytes "/a") uploaded
    ≡ (deleted, done (respond 200 empty))
unfolding upload_file get_file name_of parent_of create_file generate_s3_key create_child
    get_children handle_delete_file fs_delete_file delete_object remove_file delete_child dump_text
    parse_text get_text get_num assign bytes_lt erase_name bytes_eq
delete_runs = refl

abbrev not_found : Outcome Response
not_found = done (respond 404 (plain (bytes "File not found: " ++ bytes "/a")))

handle_delete_file-deleted_example :
    let got = handle_download_file map_store map_platform (bytes "b") 4 (bytes "/a") deleted in
    let again = handle_delete_file map_store map_platform (bytes "b") 4 (bytes "/a") deleted in
    (got.1 ≡ not_found)
    × (again.1 ≡ not_found)
    × Same map_store map_platform (bytes "b") maps-Faithful deleted got.0
    × Same map_store map_platform (bytes "b") maps-Faithful deleted again.0
handle_delete_file-deleted_example =
    handle_delete_file-deleted map_store map_platform (bytes "b") maps-Faithful 4 (bytes "/a")
      uploaded delete_runs refl
