-- ===== src/Serializer.antt =====
-- src/codec/messageSerializer.cpp over nlohmann::json, whose values and operations are the parameter.
-- A thrown exception is none. What a failing `Deserialize` has already assigned to its argument is
-- not modelled: the result is the message, or none.
pub mod Session
pub mod Chat
pub mod Delivery
pub mod Steps
pub mod Overloads
pub mod RoundTrip
pub mod Tests
use hc_tcp_im_server.Common.{
  ℕ, ◌<◌, ◌^◌, ◌≡◌, Bool, true, false, not, Option, none, some, List, [], ◌∷◌, String, u32, u64,
  if◌then◌else◌,
}
use hc_tcp_im_server.Common.Dict.{Dict, find, text_key}

-- nlohmann::json as documented: an object keeps its members under their keys, text that `dump` wrote
-- parses to the same value, and `get` returns a value of its type unchanged. A String is Unicode text:
-- a `std::string` that is not UTF-8, at which `dump` throws, has no value here.
pub record JsonLib : Type 1 where
  pub Json : Type 0
  -- A `std::string` that holds JSON text.
  pub Bytes : Type 0
  pub number : ℕ → Json
  pub text : String → Json
  pub array : List Json → Json
  -- A fresh `json` after these assignments.
  pub object : Dict String Json → Json
  pub dump : Json → Bytes
  pub parse : Bytes → Option Json
  -- The text `{}`.
  pub empty_object_text : Bytes
  pub is_object : Json → Bool
  -- The value under a key: none for a missing key, and for a value that is no object.
  pub member : Json → String → Option Json
  -- What a range-based `for` goes over.
  pub items : Json → List Json
  pub get_text : Json → Option String
  pub get_uint32 : Json → Option ℕ
  pub get_uint64 : Json → Option ℕ
  pub get_int64 : Json → Option ℕ
  pub parse-dump : (j : Json) → parse (dump j) ≡ some j
  pub parse-empty : parse empty_object_text ≡ some (object [])
  pub is_object-object : (d : Dict String Json) → is_object (object d) ≡ true
  pub member-object : (d : Dict String Json) (k : String) → member (object d) k ≡ find k d
  pub items-array : (js : List Json) → items (array js) ≡ js
  pub get_text-text : (s : String) → get_text (text s) ≡ some s
  pub get_uint32-number : (n : ℕ) → n < u32 → get_uint32 (number n) ≡ some n
  pub get_uint64-number : (n : ℕ) → n < u64 → get_uint64 (number n) ≡ some n
  pub get_int64-number : (n : ℕ) → n < 2 ^ 63 → get_int64 (number n) ≡ some n

infixl 5 ◌>>=◌
abbrev pub ◌>>=◌ {ℓ κ} : {A : Type ℓ} {B : Type κ} → Option A → (A → Option B) → Option B
none >>= f = none
some a >>= f = f a

module _ (lib : JsonLib) {A : Type 0} (get : lib.Json → Option A) (j : lib.Json) (k : String) where
  -- `j[k].get<A>()`: a missing key reads null, which no `get` of the program accepts.
  abbrev pub get_at : Option A
  get_at = lib.member j k >>= get

  -- `j.value(k, d)`
  abbrev pub get_value : A → Option A
  get_value d =
      if not (lib.is_object j)
      then none
      else elim (lib.member j k) [ none ↦ some d | some v ↦ get v ]

  -- The member if there is one, else what the argument held.
  abbrev pub get_or_keep : A → Option A
  get_or_keep before = elim (lib.member j k) [ none ↦ some before | some v ↦ get v ]
