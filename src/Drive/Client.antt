-- ===== src/Drive/Client.antt =====
-- `KVStoreClient` (raftdrive/clients/kv_grpc_client.hpp): a request goes round the servers until one
-- answers that is not the wrong leader. The stubs are generated code, and stand as functions.
use raft_drive.Prelude.{
  ℕ, zero, suc, ◌+◌, ◌%◌, Bool, true, false, List, [], ◌∷◌, ◌++◌, Option, none, some, if◌then◌else◌,
  ◌==◌, Bytes, length,
}
use raft_drive.Kv.Service.{Status, ok, not_found, unavailable, wrong_leader, GetResponse}
use raft_drive.Drive.Effect.{KvStore}

abbrev pub max_rounds : ℕ
max_rounds = 25

-- The calls of the stub with a number; `none` is a status of gRPC that is not ok. `pause` is the sleep
-- between two rounds.
pub record Stubs (W : Type 0) : Type 0 where
  pub get : ℕ → Bytes → W → W × Option GetResponse
  pub put : ℕ → Bytes → Bytes → W → W × Option Status
  pub append : ℕ → Bytes → Bytes → W → W × Option Status
  pub pause : W → W

pub record Client : Type 0 where
  pub stubs : ℕ
  pub leader_hint : ℕ

abbrev pub is_wrong_leader : Status → Bool
is_wrong_leader wrong_leader = true
is_wrong_leader ok = false
is_wrong_leader not_found = false
is_wrong_leader unavailable = false

abbrev pub is_ok : Status → Bool
is_ok ok = true
is_ok wrong_leader = false
is_ok not_found = false
is_ok unavailable = false

-- `std::getline` at commas, empty pieces left out.
abbrev keep_piece : Bytes → List Bytes → List Bytes
keep_piece [] ps = ps
keep_piece (c ∷ cs) ps = (c ∷ cs) ∷ ps

unfoldable pub split_targets : Bytes → Bytes → List Bytes
split_targets [] piece = keep_piece piece []
split_targets (c ∷ cs) piece =
    let fresh = split_targets cs [] in
    let longer = split_targets cs (piece ++ c ∷ []) in
    if c == 44 then keep_piece piece fresh else longer

-- The constructor: a stub for each address.
unfoldable pub new_client : Bytes → Client
new_client targets = record { stubs = length (split_targets targets []); leader_hint = 0 }

module _ {W R : Type 0} (call : ℕ → W → W × Option R) (status : R → Status) where
  -- The inner loop: `k` attempts are left, `attempt` is the next. The stub that answers and its answer.
  abbrev pub settle : ℕ → W × Option R → (W → W × Option (ℕ × R)) → W × Option (ℕ × R)
  settle idx (w, none) rest = rest w
  settle idx (w, some r) rest = if is_wrong_leader (status r) then rest w else (w, some (idx, r))

  unfoldable pub try_round : ℕ → ℕ → Client → W → W × Option (ℕ × R)
  try_round zero attempt c w = (w, none)
  try_round (suc k) attempt c w =
      let idx = (c.leader_hint + attempt) % c.stubs in
      settle idx (call idx w) (try_round k (attempt + 1) c)

  abbrev pub next_round :
      (W → W) → (W → W × Option (ℕ × R)) → W × Option (ℕ × R) → W × Option (ℕ × R)
  next_round pause rest (w, none) = rest (pause w)
  next_round pause rest (w, some r) = (w, some r)

  -- The outer loop, with `k` rounds left.
  unfoldable pub try_rounds : (W → W) → ℕ → Client → W → W × Option (ℕ × R)
  try_rounds pause zero c w = (w, none)
  try_rounds pause (suc k) c w = next_round pause (try_rounds pause k c) (try_round c.stubs 0 c w)

abbrev get_answer : {W : Type 0} → Client → W × Option (ℕ × GetResponse) → (W × Client) × Bytes
get_answer c (w, none) = ((w, c), [])
get_answer c (w, some (idx, r)) =
    ((w, record c { leader_hint = idx }), if is_ok r.status then r.value else [])

abbrev write_answer : {W : Type 0} → Client → W × Option (ℕ × Status) → (W × Client) × Bool
write_answer c (w, none) = ((w, c), false)
write_answer c (w, some (idx, s)) = ((w, record c { leader_hint = idx }), is_ok s)

module _ {W : Type 0} (stubs : Stubs W) where
  unfoldable pub client_get : Bytes → W × Client → (W × Client) × Bytes
  client_get key (w, c) =
      get_answer c (try_rounds (λ i. stubs.get i key) (λ r. r.status) stubs.pause max_rounds c w)

  unfoldable pub client_put : Bytes → Bytes → W × Client → (W × Client) × Bool
  client_put key value (w, c) =
      write_answer c (try_rounds (λ i. stubs.put i key value) (λ s. s) stubs.pause max_rounds c w)

  unfoldable pub client_append : Bytes → Bytes → W × Client → (W × Client) × Bool
  client_append key value (w, c) =
      write_answer c
        (try_rounds (λ i. stubs.append i key value) (λ s. s) stubs.pause max_rounds c w)

  -- The client as the store of the metadata service.
  abbrev pub client_store : KvStore (W × Client)
  client_store = record { get = client_get; put = client_put }
