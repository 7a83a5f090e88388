-- ===== src/Drive/Reach.antt =====
-- How far a request of `KVStoreClient` (raftdrive/clients/kv_grpc_client.hpp) goes: the calls that it
-- makes, and the leader that it finds.
use native.Mathlib.Nat.{add-zero}
use raft_drive.Prelude.{
  ℕ, zero, suc, ◌+◌, ◌-◌, ◌%◌, ◌<◌, ◌≤◌, ◌≡◌, ◌≢◌, ◌∙◌, sym, subst, ℕ-cases, refl, true, false,
  Option, none, some, ◌⊎◌, inl, inr, Bytes, arith, Bool-cases, Option-cases, ltb, ltb→lt, ltb→le,
}
use raft_drive.Kv.Service.{Status, ok, wrong_leader}
use raft_drive.Drive.Answers.{try_round-Settled}
use raft_drive.Drive.Client.{
  Stubs, Client, is_ok, is_wrong_leader, try_round, try_rounds, client_put, max_rounds,
}

mod_cases : (x n : ℕ) → 0 < n → x < n + n → ((x < n) × (x % n ≡ x)) ⊎ ((n ≤ x) × (x % n ≡ x - n))
mod_cases x n some_server h = elim (Bool-cases (ltb x n)) [
  | inl below ↦ inl (ltb→lt _ _ below, grind (arith, ltb→lt x n))
  | inr above ↦ inr (ltb→le _ _ above, grind (arith, ltb→le x n))
]

-- Two attempts of a round go to two servers.
attempts_apart : (hint n a b : ℕ) → hint < n → a < b → b < n → (hint + a) % n ≢ (hint + b) % n
attempts_apart hint n a b h lt range same =
    elim (mod_cases (hint + a) n (omega arith) (omega arith)) [
      | inl (p, e) ↦ elim (mod_cases (hint + b) n (omega arith) (omega arith)) [
        | inl (q, f) ↦ omega (arith, sym e ∙ (same ∙ f))
        | inr (q, f) ↦ omega (arith, sym e ∙ (same ∙ f))
      ]
      | inr (p, e) ↦ elim (mod_cases (hint + b) n (omega arith) (omega arith)) [
        | inl (q, f) ↦ omega (arith, sym e ∙ (same ∙ f))
        | inr (q, f) ↦ omega (arith, sym e ∙ (same ∙ f))
      ]
    ]

module _ {W R : Type 0} (call : ℕ → W → W × Option R) (status : R → Status) (server : ℕ)
    (count : W → ℕ) (one : (w : W) → count (call server w).0 ≤ count w + 1)
    (apart : (i : ℕ) (w : W) → i ≢ server → count (call i w).0 ≤ count w) where
  -- Attempts that go to other servers do not call this one.
  try_round-passes :
      (k attempt : ℕ) (c : Client) (w : W)
      → ((a : ℕ) → attempt ≤ a → a < attempt + k → (c.leader_hint + a) % c.stubs ≢ server)
      → count (try_round call status k attempt c w).0 ≤ count w
  unfolding try_round
  try_round-passes zero attempt c w away = omega arith
  try_round-passes (suc k) attempt c w away =
      let idx = (c.leader_hint + attempt) % c.stubs in
      let here = apart idx w (away attempt (omega arith) (omega arith)) in
      let later =
        try_round-passes k (attempt + 1) c (call idx w).0
          (λ a low high. away a (omega arith) (omega arith)) in
      elim (Option-cases (call idx w).1) [
        | inl e ↦ rw e (omega (arith, here, later))
        | inr (r, e) ↦ rw e (elim (Bool-cases (is_wrong_leader (status r))) [
          | inl wrong ↦ rw wrong (omega (arith, here, later))
          | inr right ↦ rw right (omega (arith, here))
        ])
      ]

  -- A round calls a server once at most.
  try_round-calls :
      (k attempt : ℕ) (c : Client) (w : W)
      → c.leader_hint < c.stubs
      → attempt + k ≤ c.stubs
      → count (try_round call status k attempt c w).0 ≤ count w + 1
  unfolding try_round
  try_round-calls zero attempt c w h range = omega arith
  try_round-calls (suc k) attempt c w h range =
      let idx = (c.leader_hint + attempt) % c.stubs in
      let rest = try_round call status k (attempt + 1) c (call idx w).0 in
      let bound : (count (call idx w).0 ≤ count w + 1) × (count rest.0 ≤ count w + 1) =
        elim (ℕ-cases idx server) [
          | inl this ↦
              let here = subst (λ i. count (call i w).0 ≤ count w + 1) (sym this) (one w) in
              let later = try_round-passes k (attempt + 1) c (call idx w).0 (λ a low high e.
                attempts_apart c.leader_hint c.stubs attempt a h (omega arith) (omega arith)
                  (this ∙ sym e)) in
              (here, omega (arith, here, later))
          | inr other ↦
              let here = apart idx w other in
              let later = try_round-calls k (attempt + 1) c (call idx w).0 h (omega arith) in
              (omega (arith, here), omega (arith, here, later))
        ] in
      elim (Option-cases (call idx w).1) [
        | inl e ↦ rw e bound.1
        | inr (r, e) ↦ rw e (elim (Bool-cases (is_wrong_leader (status r))) [
          | inl wrong ↦ rw wrong bound.1
          | inr right ↦ rw right bound.0
        ])
      ]

  try_rounds-calls :
      (pause : W → W) (k : ℕ) (c : Client) (w : W)
      → c.leader_hint < c.stubs
      → ((v : W) → count (pause v) ≤ count v)
      → count (try_rounds call status pause k c w).0 ≤ count w + k
  unfolding try_rounds
  try_rounds-calls pause zero c w h quiet = omega arith
  try_rounds-calls pause (suc k) c w h quiet =
      let r = try_round call status c.stubs 0 c w in
      let here = try_round-calls c.stubs 0 c w h (omega arith) in
      elim (Option-cases r.1) [
        | inl e ↦
            let slept = quiet r.0 in
            let later = try_rounds-calls pause k c (pause r.0) h quiet in
            rw e (omega (arith, here, slept, later))
        | inr (a, e) ↦ rw e (omega (arith, here))
      ]

module _ {W R : Type 0} (call : ℕ → W → W × Option R) (status : R → Status) (idx : ℕ)
    (leads : (w : W)
      → (r : R) × ((call idx w).1 ≡ some r) × (is_wrong_leader (status r) ≡ false)) where
  -- A round that comes to a server that always answers ends with an answer.
  try_round-finds :
      (k attempt a : ℕ) (c : Client) (w : W)
      → a < k
      → (c.leader_hint + (attempt + a)) % c.stubs ≡ idx
      → (x : ℕ × R) × ((try_round call status k attempt c w).1 ≡ some x)
  unfolding try_round
  try_round-finds zero attempt a c w h e = absurd (omega arith)
  try_round-finds (suc k) attempt zero c w h e =
      let (r, answer, right) = leads w in
      let at : (c.leader_hint + attempt) % c.stubs ≡ idx = rw add-zero at e in
      rw (at, answer, right) (_, refl)
  try_round-finds (suc k) attempt (suc a) c w h e =
      let now = (c.leader_hint + attempt) % c.stubs in
      let next : attempt + suc a ≡ attempt + 1 + a = omega arith in
      let later = try_round-finds k (attempt + 1) a c (call now w).0 (omega arith) (rw next at e) in
      elim (Option-cases (call now w).1) [
        | inl none_here ↦ rw none_here later
        | inr (r, here) ↦ rw here (elim (Bool-cases (is_wrong_leader (status r))) [
          | inl wrong ↦ rw wrong later
          | inr right ↦ rw right (_, refl)
        ])
      ]

-- The attempt that comes to a server.
attempt_for :
    (hint n idx : ℕ) → hint < n → idx < n → (a : ℕ) × (a < n) × ((hint + (0 + a)) % n ≡ idx)
attempt_for hint n idx h i = elim (Bool-cases (ltb idx hint)) [
  | inl below ↦ (idx + n - hint, omega (arith, ltb→lt _ _ below), grind (arith, ltb→lt idx hint))
  | inr above ↦ (idx - hint, omega arith, grind (arith, ltb→le idx hint))
]

fine_answer :
    {o : Option Status} (s : Status)
    → (o ≡ none) ⊎ ((o ≡ some wrong_leader) ⊎ (o ≡ some ok))
    → o ≡ some s
    → is_wrong_leader s ≡ false
    → is_ok s ≡ true
fine_answer s (inl e) answer right = cc
fine_answer s (inr (inl e)) answer right = let same : s ≡ wrong_leader = cc in cc (rw same at right)
fine_answer s (inr (inr e)) answer right = let same : s ≡ ok = cc in rw same refl

module _ {W : Type 0} (stubs : Stubs W) (key value : Bytes) where
  -- A put whose first server is in range calls every server at most 25 times: a counter that a call of
  -- one server raises by at most one, and that neither the calls of the others nor the sleep between the
  -- rounds raise, ends at most 25 higher.
  pub client_put-calls :
      (server : ℕ) (count : W → ℕ)
      → ((w : W) → count (stubs.put server key value w).0 ≤ count w + 1)
      → ((i : ℕ) (w : W) → i ≢ server → count (stubs.put i key value w).0 ≤ count w)
      → ((w : W) → count (stubs.pause w) ≤ count w)
      → (w : W) (c : Client) → c.leader_hint < c.stubs
      → count (client_put stubs key value (w, c)).0.0 ≤ count w + 25
  unfolding client_put
  client_put-calls server count one apart quiet w c h =
      let bound =
        try_rounds-calls (λ i. stubs.put i key value) (λ s. s) server count one apart stubs.pause
          max_rounds c w h quiet in
      elim (Option-cases
        (try_rounds (λ i. stubs.put i key value) (λ s. s) stubs.pause max_rounds c w).1) [
          | inl e ↦ rw e bound
          | inr (x, e) ↦ rw e bound
        ]

  -- A put finds the leader: when one server in range answers OK to every call with the key and the
  -- value, and every other answer is the wrong leader's, or none, the put returns true, whichever
  -- server it starts with.
  pub client_put-finds :
      (idx : ℕ)
      → ((w : W) → (stubs.put idx key value w).1 ≡ some ok)
      → ((i : ℕ) (w : W)
          → ((stubs.put i key value w).1 ≡ none)
            ⊎ (((stubs.put i key value w).1 ≡ some wrong_leader)
                ⊎ ((stubs.put i key value w).1 ≡ some ok)))
      → (w : W) (c : Client) → idx < c.stubs
      → c.leader_hint < c.stubs
      → (client_put stubs key value (w, c)).1 ≡ true
  unfolding client_put try_rounds
  client_put-finds idx leads others w c range hint =
      let call : ℕ → W → W × Option Status = λ i. stubs.put i key value in
      let (a, lt, at) = attempt_for c.leader_hint c.stubs idx hint range in
      let (x, found) =
        try_round-finds call (λ s. s) idx (λ v. (ok, leads v, refl)) c.stubs 0 a c w lt at in
      elim (try_round-Settled call (λ s. s) c.stubs 0 c w (omega arith)) [
        | inl never ↦ cc
        | inr (i, s, v, e, answer, right, inside) ↦ rw e (fine_answer s (others i v) answer right)
      ]
