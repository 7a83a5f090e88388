-- ===== src/Drive/Answers.antt =====
-- What a request of `KVStoreClient` (raftdrive/clients/kv_grpc_client.hpp) returns.
use raft_drive.Prelude.{
  ℕ, zero, suc, ◌+◌, ◌%◌, ◌<◌, ◌≡◌, refl, ap, ◌∙◌, [], false, Option, none, some, ◌⊎◌, inl, inr,
  Bytes, arith, Bool-cases, Option-cases,
}
use raft_drive.Kv.Service.{Status, ok, not_found, unavailable, wrong_leader, GetResponse}
use raft_drive.Drive.Client.{
  Stubs, Client, is_ok, is_wrong_leader, try_round, try_rounds, client_put, client_get, max_rounds,
}

module _ {W R : Type 0} (call : ℕ → W → W × Option R) (status : R → Status) where
  -- The loop ended without an answer, or with one that a server in range gave and that does not say
  -- that it is the wrong leader.
  abbrev pub Settled : Client → Option (ℕ × R) → Type 0
  Settled c o =
      (o ≡ none)
      ⊎ ((idx : ℕ) × (r : R) × (v : W) × (o ≡ some (idx, r))
          × ((call idx v).1 ≡ some r)
          × (is_wrong_leader (status r) ≡ false)
          × (idx < c.stubs))

  pub try_round-Settled :
      (k attempt : ℕ) (c : Client) (w : W)
      → 0 < c.stubs
      → Settled c (try_round call status k attempt c w).1
  unfolding try_round
  try_round-Settled zero attempt c w some_stub = inl refl
  try_round-Settled (suc k) attempt c w some_stub =
      let idx = (c.leader_hint + attempt) % c.stubs in
      let later = try_round-Settled k (attempt + 1) c (call idx w).0 some_stub in
      elim (Option-cases (call idx w).1) [
        | inl e ↦ rw e later
        | inr (r, e) ↦ rw e (elim (Bool-cases (is_wrong_leader (status r))) [
          | inl wrong ↦ rw wrong later
          | inr right ↦ rw right (inr (idx, r, w, refl, e, right, omega arith))
        ])
      ]

  pub try_rounds-Settled :
      (pause : W → W) (k : ℕ) (c : Client) (w : W)
      → 0 < c.stubs
      → Settled c (try_rounds call status pause k c w).1
  unfolding try_rounds
  try_rounds-Settled pause zero c w some_stub = inl refl
  try_rounds-Settled pause (suc k) c w some_stub =
      let one = try_round call status c.stubs 0 c w in
      elim (Option-cases one.1) [
        | inl e ↦ rw e (try_rounds-Settled pause k c (pause one.0) some_stub)
        | inr (r, e) ↦ rw e (rw e at (try_round-Settled c.stubs 0 c w some_stub))
      ]

is_ok-cases : (s : Status) → (is_ok s ≡ false) ⊎ (s ≡ ok)
is_ok-cases ok = inr refl
is_ok-cases not_found = inl refl
is_ok-cases unavailable = inl refl
is_ok-cases wrong_leader = inl refl

module _ {W : Type 0} (stubs : Stubs W) where
  -- With a server, and the leader's number in range before: a put leaves that number in range and the
  -- servers as they are, and it returns true only if the server of that number answered OK to a call
  -- with the key and the value.
  pub client_put-answered :
      (key value : Bytes) (w : W) (c : Client)
      → 0 < c.stubs
      → c.leader_hint < c.stubs
      → let r = client_put stubs key value (w, c) in
        (r.0.1.stubs ≡ c.stubs)
        × (r.0.1.leader_hint < c.stubs)
        × ((r.1 ≡ false) ⊎ ((v : W) × ((stubs.put r.0.1.leader_hint key value v).1 ≡ some ok)))
  unfolding client_put
  client_put-answered key value w c some_stub hint =
      elim (try_rounds-Settled (λ i. stubs.put i key value) (λ s. s) stubs.pause max_rounds c w
        some_stub) [
          | inl e ↦ rw e (refl, hint, inl refl)
          | inr (idx, s, v, e, answer, right, range) ↦ rw e (elim (is_ok-cases s) [
            | inl refused ↦ (refl, range, inl refused)
            | inr fine ↦ (refl, range, inr (v, answer ∙ ap some fine))
          ])
        ]

  -- With a server, and the leader's number in range before: a get leaves that number in range and the
  -- servers as they are, and it returns the empty text, or the value of an answer that is OK which the
  -- server of that number gave to a call with the key.
  pub client_get-answered :
      (key : Bytes) (w : W) (c : Client)
      → 0 < c.stubs
      → c.leader_hint < c.stubs
      → let r = client_get stubs key (w, c) in
        (r.0.1.stubs ≡ c.stubs)
        × (r.0.1.leader_hint < c.stubs)
        × ((r.1 ≡ [])
            ⊎ ((v : W) × (g : GetResponse) × ((stubs.get r.0.1.leader_hint key v).1 ≡ some g)
                × (g.status ≡ ok)
                × (r.1 ≡ g.value)))
  unfolding client_get
  client_get-answered key w c some_stub hint =
      elim (try_rounds-Settled (λ i. stubs.get i key) (λ (g : GetResponse). g.status) stubs.pause
        max_rounds c w some_stub) [
          | inl e ↦ rw e (refl, hint, inl refl)
          | inr (idx, g, v, e, answer, right, range) ↦ rw e (elim (is_ok-cases g.status) [
            | inl refused ↦ (refl, range, inl (rw refused refl))
            | inr fine ↦ (refl, range, inr (v, g, answer, fine, rw fine refl))
          ])
        ]
