-- ===== src/Json/Numbers.antt =====
-- parse_int, parse_int32, parse_int64, parse_uint32 and parse_uint64 of
-- include/another-c-library/ac-json/ac_json.h. The C string is given by the bytes in front of its
-- zero.
pub mod Laws
use another_c_library.Prelude.{
  ℕ, zero, suc, ◌+◌, ◌-◌, ◌*◌, ◌%◌, ◌^◌, Bool, List, [], ◌∷◌, Option, none, some, ltb, ◌==◌,
  if◌then◌else◌, Bytes,
}
use another_c_library.Json.Parse.Scan.{is_digit}

pub data ℤ : Type 0 where
  pos negsuc : ℕ → ℤ

-- `-num`
abbrev pub negate : ℕ → ℤ
negate zero = pos 0
negate (suc n) = negsuc n

-- What the loops leave: a number, the default, or the overflow of a signed sum, which C leaves
-- undefined.
pub data Parsed (A : Type 0) : Type 0 where
  number : A → Parsed A
  no_number : Parsed A
  overflow : Parsed A

-- The loop over the digits of an `intN_t`, whose largest value is `limit - 1`.
abbrev pub signed_loop : ℕ → ℕ → Bytes → Parsed ℕ
signed_loop limit num [] = number num
signed_loop limit num (ch ∷ str) =
    let next = num * 10 + (ch - b'0') in
    let on = signed_loop limit next str in
    if is_digit ch then if ltb next limit then on else overflow else no_number

abbrev pub signed : (ℕ → ℤ) → ℤ → Parsed ℕ → Option ℤ
signed sign default_value (number n) = some (sign n)
signed sign default_value no_number = some default_value
signed sign default_value overflow = none

-- `none` is the undefined overflow. A NULL string gives the default.
unfoldable pub parse_signed : ℕ → Option Bytes → ℤ → Option ℤ
parse_signed limit none default_value = some default_value
parse_signed limit (some []) default_value = some (pos 0)
parse_signed limit (some (ch ∷ str)) default_value =
    if ch == b'-'
    then signed negate default_value (signed_loop limit 0 str)
    else signed pos default_value (signed_loop limit 0 (ch ∷ str))

unfoldable pub parse_int32 : Option Bytes → ℤ → Option ℤ
unfolding parse_signed
parse_int32 str default_value = parse_signed (2 ^ 31) str default_value

unfoldable pub parse_int64 : Option Bytes → ℤ → Option ℤ
unfolding parse_signed
parse_int64 str default_value = parse_signed (2 ^ 63) str default_value

-- The sum of a `uintN_t` wraps around.
abbrev pub unsigned_loop : ℕ → ℕ → Bytes → ℕ → ℕ
unsigned_loop w num [] default_value = num
unsigned_loop w num (ch ∷ str) default_value =
    let on = unsigned_loop w ((num * 10 + (ch - b'0')) % 2 ^ w) str default_value in
    if is_digit ch then on else default_value

unfoldable pub parse_unsigned : ℕ → Option Bytes → ℕ → ℕ
parse_unsigned w none default_value = default_value
parse_unsigned w (some str) default_value = unsigned_loop w 0 str default_value

unfoldable pub parse_uint32 : Option Bytes → ℕ → ℕ
unfolding parse_unsigned
parse_uint32 str default_value = parse_unsigned 32 str default_value

unfoldable pub parse_uint64 : Option Bytes → ℕ → ℕ
unfolding parse_unsigned
parse_uint64 str default_value = parse_unsigned 64 str default_value
