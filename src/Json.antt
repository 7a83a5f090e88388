-- ===== src/Json.antt =====
-- The JSON documents that the program writes and reads (include/json.hpp, a copy of nlohmann::json,
-- is not modelled): its values, the members of an object, and the library as an interface. An object
-- is a `std::map`, so its members stand in the order of their names. Floats and Booleans, which the
-- program never stores, are left out.
use raft_drive.Prelude.{
  ◌≡◌, Bool, true, false, ◌&&◌, Option, none, some, [], ◌∷◌, ltb, ◌==◌, if◌then◌else◌, ◌>>=◌, Bytes,
  bytes_eq, ℤ,
}

mutual
  pub data Json : Type 0 where
    null : Json
    num : ℤ → Json
    text : Bytes → Json
    arr : Items → Json
    obj : Fields → Json

  pub data Items : Type 0 where
    nil : Items
    cons : Json → Items → Items

  pub data Fields : Type 0 where
    end : Fields
    field : Bytes → Json → Fields → Fields

-- `std::less<std::string>`.
unfoldable pub bytes_lt : Bytes → Bytes → Bool
bytes_lt [] [] = false
bytes_lt [] (y ∷ ys) = true
bytes_lt (x ∷ xs) [] = false
bytes_lt (x ∷ xs) (y ∷ ys) = if x == y then bytes_lt xs ys else ltb x y

-- `j[key] = value` on an object.
unfoldable pub assign : Bytes → Json → Fields → Fields
unfolding bytes_lt bytes_eq
assign k v end = field k v end
assign k v (field j w fs) =
    if bytes_eq k j
    then field k v fs
    else if bytes_lt k j
    then field k v (field j w fs)
    else field j w (assign k v fs)

-- The member of a name, where there is one.
unfoldable pub find_field : Bytes → Fields → Option Json
unfolding bytes_eq
find_field k end = none
find_field k (field j w fs) = if bytes_eq k j then some w else find_field k fs

abbrev pub first_above : Bytes → Fields → Bool
first_above k end = true
first_above k (field j w fs) = bytes_lt k j

-- The documents that come back from their text as they were: every text is one that the library
-- accepts, and the names of each object ascend.
unfoldable mutual
  unfolding bytes_lt

  pub canonical : (Bytes → Bool) → Json → Bool
  canonical ok null = true
  canonical ok (num n) = true
  canonical ok (text s) = ok s
  canonical ok (arr xs) = canonical_items ok xs
  canonical ok (obj fs) = canonical_fields ok fs

  pub canonical_items : (Bytes → Bool) → Items → Bool
  canonical_items ok nil = true
  canonical_items ok (cons x xs) = canonical ok x && canonical_items ok xs

  pub canonical_fields : (Bytes → Bool) → Fields → Bool
  canonical_fields ok end = true
  canonical_fields ok (field k v fs) =
      ok k && first_above k fs && canonical ok v && canonical_fields ok fs

unfoldable pub is_ascii : Bytes → Bool
is_ascii [] = true
is_ascii (c ∷ cs) = ltb c 128 && is_ascii cs

-- The library: `dump`, `parse` (`none` is its `parse_error`), the texts that it accepts (UTF-8, so
-- every ASCII text), and what it documents of them.
pub record JsonLib : Type 0 where
  pub dump : Json → Bytes
  pub parse : Bytes → Option Json
  pub is_text : Bytes → Bool
  pub parse-dump : (j : Json) → canonical is_text j ≡ true → parse (dump j) ≡ some j
  pub is_ascii-is_text : (s : Bytes) → is_ascii s ≡ true → is_text s ≡ true
  pub parse-empty : parse [] ≡ none

abbrev pub as_text : Json → Option Bytes
as_text (text s) = some s
as_text null = none
as_text (num n) = none
as_text (arr xs) = none
as_text (obj fs) = none

abbrev pub as_num : Json → Option ℤ
as_num (num n) = some n
as_num null = none
as_num (text s) = none
as_num (arr xs) = none
as_num (obj fs) = none

abbrev pub members : Json → Option Fields
members (obj fs) = some fs
members null = none
members (num n) = none
members (text s) = none
members (arr xs) = none

abbrev pub or_default {ℓ} : {A : Type ℓ} → A → (Json → Option A) → Option Json → Option A
or_default d f none = some d
or_default d f (some j) = f j

-- `j.value(key, default)`: `none` is the exception on a document that is no object, or on a member
-- of another kind.
unfoldable pub value_text : Bytes → Bytes → Json → Option Bytes
unfolding find_field
value_text k d j = do fs ← members j; or_default d as_text (find_field k fs)

unfoldable pub value_num : Bytes → ℤ → Json → Option ℤ
unfolding find_field
value_num k d j = do fs ← members j; or_default d as_num (find_field k fs)

-- `j[key].get<T>()`: a member that is missing is a null, on which the conversion throws.
unfoldable pub get_text : Bytes → Json → Option Bytes
unfolding find_field
get_text k j = do fs ← members j; m ← find_field k fs; as_text m

unfoldable pub get_num : Bytes → Json → Option ℤ
unfolding find_field
get_num k j = do fs ← members j; m ← find_field k fs; as_num m
