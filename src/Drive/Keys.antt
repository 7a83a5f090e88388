-- ===== src/Drive/Keys.antt =====
-- The keys of the metadata (raftdrive/services/service_metadata.cpp).
use raft_drive.Prelude.{ℕ, [], ◌∷◌, arith, ◌≡◌, ◌≢◌, ◌↔◌, ap, drop, Bytes}
use raft_drive.Drive.Metadata.{dir_key, file_key, children_key}

abbrev first_byte : Bytes → ℕ
first_byte [] = 0
first_byte (c ∷ cs) = c

-- Two entries of the store never share a key: the keys of directories, of files and of lists of
-- children are apart whatever the paths are, and within each kind a key has one path.
pub keys_apart :
    (p q : Bytes)
    → (dir_key p ≢ file_key q)
      × (dir_key p ≢ children_key q)
      × (file_key p ≢ children_key q)
      × ((dir_key p ≡ dir_key q) ↔ (p ≡ q))
      × ((file_key p ≡ file_key q) ↔ (p ≡ q))
      × ((children_key p ≡ children_key q) ↔ (p ≡ q))
unfolding dir_key file_key children_key
keys_apart p q = (
  (λ e. let c : 100 ≡ 102 = ap first_byte e in absurd (omega arith)),
  (λ e. let c : 100 ≡ 99 = ap first_byte e in absurd (omega arith)),
  (λ e. let c : 102 ≡ 99 = ap first_byte e in absurd (omega arith)),
  ((λ e. ap (drop 4) e), ap dir_key),
  ((λ e. ap (drop 5) e), ap file_key),
  ((λ e. ap (drop 9) e), ap children_key),
)
