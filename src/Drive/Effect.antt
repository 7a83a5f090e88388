-- ===== src/Drive/Effect.antt =====
-- What the services of raftdrive call outside of the process, and how a call can end.
use raft_drive.Prelude.{ℕ, Bool, Option, none, some, Bytes, ℤ, ◌⊎◌}

-- `thrown` is a `std::runtime_error` with its message, which the handlers catch; `crashed` is any other
-- exception, which they do not; `unfinished` is a recursion that ran out of its bound.
pub data Outcome {ℓ} (A : Type ℓ) : Type ℓ where
  done : A → Outcome A
  thrown : Bytes → Outcome A
  crashed : Outcome A
  unfinished : Outcome A

-- A call reads and changes the world outside, and ends in one of these ways.
abbrev pub Prog : Type 0 → Type 0 → Type 0
Prog W A = W → W × Outcome A

abbrev pub and_then : {W A B : Type 0} → (A → Prog W B) → W × Outcome A → W × Outcome B
and_then f (w, done a) = f a w
and_then f (w, thrown e) = (w, thrown e)
and_then f (w, crashed) = (w, crashed)
and_then f (w, unfinished) = (w, unfinished)

infixl 5 ◌>>=◌
abbrev pub ◌>>=◌ : {W A B : Type 0} → Prog W A → (A → Prog W B) → Prog W B
p >>= f = λ w. and_then f (p w)

abbrev pub give : {W A : Type 0} → A → Prog W A
give a = λ w. (w, done a)

abbrev pub throw_error : {W A : Type 0} → Bytes → Prog W A
throw_error e = λ w. (w, thrown e)

-- A conversion that throws an exception of the JSON library.
abbrev pub or_crash : {W A : Type 0} → Option A → Prog W A
or_crash none = λ w. (w, crashed)
or_crash (some a) = give a

abbrev pub run : {W A : Type 0} → (W → W × A) → Prog W A
run f = λ w. let (v, a) = f w in (v, done a)

-- The key-value store as the metadata service sees it: `KVStoreClient::get` and `put`.
pub record KvStore (W : Type 0) : Type 0 where
  pub get : Bytes → W → W × Bytes
  pub put : Bytes → Bytes → W → W × Bool

-- The SDK's S3 client (`none` is success, else the error's message), the clock and the random device.
pub record Platform (W : Type 0) : Type 0 where
  pub put_object : (bucket key body content_type : Bytes) → W → W × Option Bytes
  pub get_object : (bucket key : Bytes) → W → W × (Bytes ⊎ Bytes)
  pub delete_object : (bucket key : Bytes) → W → W × Option Bytes
  pub time : W → W × ℤ
  pub random : W → W × ℕ
