-- ===== src/Drive/Faithful.antt =====
-- What the services of the drive rely on: the key-value cluster is a map from keys to texts (a missing
-- key has the empty text), S3 is a map from keys to objects, and neither has a part in the other.
use raft_drive.Prelude.{◌≡◌, Option, none, some, inl, Bytes}
use raft_drive.Kv.Server.{set_text}
use raft_drive.Drive.Effect.{KvStore, Platform}

-- `texts` and `objects` are the contents of the cluster and of the bucket.
pub record Faithful {W : Type 0} (kv : KvStore W) (sys : Platform W) (bucket : Bytes)
    (texts : W → Bytes → Bytes) (objects : W → Bytes → Option Bytes) : Type 0 where
  pub get-value : (k : Bytes) (w : W) → (kv.get k w).1 ≡ texts w k
  pub get-texts : (k : Bytes) (w : W) → texts (kv.get k w).0 ≡ texts w
  pub get-objects : (k : Bytes) (w : W) → objects (kv.get k w).0 ≡ objects w
  pub put-texts : (k v : Bytes) (w : W) → texts (kv.put k v w).0 ≡ set_text (texts w) k v
  pub put-objects : (k v : Bytes) (w : W) → objects (kv.put k v w).0 ≡ objects w
  pub time-texts : (w : W) → texts (sys.time w).0 ≡ texts w
  pub time-objects : (w : W) → objects (sys.time w).0 ≡ objects w
  pub random-texts : (w : W) → texts (sys.random w).0 ≡ texts w
  pub random-objects : (w : W) → objects (sys.random w).0 ≡ objects w
  pub put_object-texts :
      (key content type : Bytes) (w : W)
      → texts (sys.put_object bucket key content type w).0 ≡ texts w
  pub put_object-objects :
      (key content type : Bytes) (w : W)
      → (sys.put_object bucket key content type w).1 ≡ none
      → objects (sys.put_object bucket key content type w).0
        ≡ set_text (objects w) key (some content)
  pub get_object-value :
      (key : Bytes) (w : W) {content : Bytes}
      → objects w key ≡ some content
      → (sys.get_object bucket key w).1 ≡ inl content
