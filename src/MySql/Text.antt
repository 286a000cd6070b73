-- ===== src/MySql/Text.antt =====
-- The texts of src/storage/messageRepository.cpp, deliveryRepository.cpp and sessionRepository.cpp:
-- statements as a stream writes them, and the numbers of a row as `std::stoull` reads them.
use Prim.Native.Char.{Char, code as char_code}
use Prim.Native.String.{char_at}
use Prim.Native.String.{[] as end, ◌∷◌ as char_and}
use Prim.Native.String.{◌++◌ as str_append}
use hc_tcp_im_server.Common.{
  ℕ, zero, suc, ◌+◌, ◌-◌, ◌*◌, ◌/◌, ◌%◌, ◌^◌, Bool, ◌&&◌, Option, none, some, List, [], ◌∷◌, String,
  u64, u32, ltb, leb, ◌==◌, str_eq, if◌then◌else◌,
}
use hc_tcp_im_server.Serializer.{◌>>=◌}
use hc_tcp_im_server.Common.Dict.{find, text_key}
use hc_tcp_im_server.MySql.{Row}
use hc_tcp_im_server.Protocol.{
  DeliveryStatus, created, persisted, delivering, delivered, failed, read,
}

-- What an `std::ostringstream` holds after `<<` of each piece.
unfoldable pub stream : List String → String
stream [] = ""
stream (s ∷ ss) = str_append s (stream ss)

unfoldable pub digit : ℕ → Char
digit d = char_at "0123456789" d

-- `<<` of a number: its digits in front of a text. The fuel is a bound on their count.
unfoldable pub digits_before : ℕ → ℕ → String → String
digits_before zero n s = s
digits_before (suc fuel) n s =
    let rest = digits_before fuel (n / 10) (char_and (digit (n % 10)) s) in
    if ltb n 10 then char_and (digit n) s else rest

-- A word of 64 bits has at most 20 digits.
unfoldable pub decimal : ℕ → String
decimal n = digits_before 20 n ""

unfoldable pub is_digit : Char → Bool
is_digit c = leb 48 (char_code c) && leb (char_code c) 57

-- The number of the digits that a text begins with, after those read before.
unfoldable pub read_digits : ℕ → String → ℕ
read_digits n end = n
read_digits n (char_and c s) =
    let rest = read_digits (10 * n + (char_code c - 48)) s in if is_digit c then rest else n

-- `std::stoull` and `std::stoul` on a text with neither blanks nor a sign in front; none is an
-- exception. The bound is that of the type.
unfoldable pub sto : ℕ → String → Option ℕ
sto bound end = none
sto bound (char_and c s) =
    let n = read_digits 0 (char_and c s) in
    if is_digit c then (if ltb n bound then some n else none) else none

unfoldable pub stoull : String → Option ℕ
stoull = sto u64

-- `std::stoll` on a text of digits: a time is not before 1970.
unfoldable pub stoll : String → Option ℕ
stoll = sto (2 ^ 63)

-- `ToUint64`: a missing or empty column is 0.
unfoldable pub to_uint64 : Row → String → Option ℕ
to_uint64 row key = elim (find key row) [
  | none ↦ some 0
  | some s ↦ if str_eq s "" then some 0 else stoull s
]

-- `ToInt64`
unfoldable pub to_int64 : Row → String → Option ℕ
to_int64 row key = elim (find key row) [
  | none ↦ some 0
  | some s ↦ if str_eq s "" then some 0 else stoll s
]

-- `static_cast<uint32_t>` of a status.
unfoldable pub status_number : DeliveryStatus → ℕ
status_number created = 0
status_number persisted = 1
status_number delivering = 2
status_number delivered = 3
status_number failed = 4
status_number read = 5

-- The cast to a status. A number that no status has is not modelled, and is none.
unfoldable pub status_of : ℕ → Option DeliveryStatus
status_of n =
    if n == 0
    then some created
    else if n == 1
    then some persisted
    else if n == 2
    then some delivering
    else if n == 3
    then some delivered
    else if n == 4
    then some failed
    else if n == 5
    then some read
    else none

-- `std::stoul` of a column that the row must have, as 32 bits.
unfoldable pub column_uint32 : Row → String → Option ℕ
column_uint32 row key = find key row >>= λ s. stoull s >>= λ n. some (n % u32)

-- A status has 8 bits.
unfoldable pub column_status : Row → Option DeliveryStatus
column_status row = find "status" row >>= λ s. stoull s >>= λ n. status_of (n % 256)
