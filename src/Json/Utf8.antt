-- ===== src/Json/Utf8.antt =====
-- unicode_to_utf8: the four hexadecimal digits behind `\u`, or two groups of them for a surrogate
-- pair, as UTF-8. What is read lies in a list that begins at `*src`.
pub mod Laws
pub mod Code
use Prim.Native.Nat.{bit_and, bit_or}
use another_c_library.Prelude.{
  ℕ, zero, suc, ◌+◌, ◌-◌, ◌*◌, ◌/◌, ◌%◌, ◌^◌, Bool, true, false, ◌&&◌, ◌||◌, List, [], ◌∷◌, Option,
  none, some, ◌==◌, ltb, leb, if◌then◌else◌, Bytes,
}
use another_c_library.Prelude.Outcome.{Outcome, done, overread, ◌>>=◌}

-- `none` for a character that is no digit.
unfoldable pub hex_value : ℕ → Option ℕ
hex_value c =
    if leb b'0' c && leb c b'9'
    then some (c - b'0')
    else if leb b'A' c && leb c b'F'
    then some (c - b'A' + 10)
    else if leb b'a' c && leb c b'f'
    then some (c - b'a' + 10)
    else none

-- The result of reading: `none` is the return of -1, and else the value and what stands behind it.
abbrev pub Scan : Type 0 → Type 0
Scan A = Outcome (Option (A × Bytes))

-- `k` more digits of an `unsigned int`, each shifted in by `ch = (ch << 4) + …`.
unfoldable pub hex_digits : ℕ → ℕ → Bytes → Scan ℕ
hex_digits zero ch s = done (some (ch, s))
hex_digits (suc k) ch [] = overread
hex_digits (suc k) ch (c ∷ s) = elim (hex_value c) [
  | none ↦ done none
  | some d ↦ hex_digits k ((ch * 16 + d) % 2 ^ 32) s
]

-- The code point of a pair, if the second half is one.
unfoldable pub pair_value : ℕ → Option (ℕ × Bytes) → Scan ℕ
pair_value ch none = done none
pair_value ch (some (ch2, s)) =
    if ltb ch2 0xDC00 || ltb 0xDFFF ch2
    then done none
    else done (some ((ch - 0xD800) * 2 ^ 10 + (ch2 - 0xDC00) + 0x10000, s))

-- Behind a high surrogate `ch`.
unfoldable pub second_half : ℕ → Bytes → Scan ℕ
unfolding pair_value
second_half ch [] = overread
second_half ch (c ∷ []) = if c == b'\\' then overread else done none
second_half ch (c ∷ u ∷ s) =
    if c == b'\\' && u == b'u' then hex_digits 4 0 s >>= pair_value ch else done none

-- The bytes put to `dest`; none at or above 0x110000.
unfoldable pub utf8 : ℕ → Bytes
utf8 ch =
    if ltb ch 0x80
    then (ch % 2 ^ 8) ∷ []
    else if ltb ch 0x800
    then bit_or (ch / 2 ^ 6) 0xC0 ∷ bit_or (bit_and ch 0x3F) 0x80 ∷ []
    else if ltb ch 0x10000
    then bit_or (ch / 2 ^ 12) 0xE0
      ∷ bit_or (bit_and (ch / 2 ^ 6) 0x3F) 0x80
      ∷ bit_or (bit_and ch 0x3F) 0x80
      ∷ []
    else if ltb ch 0x110000
    then bit_or (ch / 2 ^ 18) 0xF0
      ∷ bit_or (bit_and (ch / 2 ^ 12) 0x3F) 0x80
      ∷ bit_or (bit_and (ch / 2 ^ 6) 0x3F) 0x80
      ∷ bit_or (bit_and ch 0x3F) 0x80
      ∷ []
    else []

abbrev pub encoded : Option (ℕ × Bytes) → Scan Bytes
encoded none = done none
encoded (some (ch, s)) = done (some (utf8 ch, s))

-- A high surrogate wants its second half.
unfoldable pub code_point : Option (ℕ × Bytes) → Scan ℕ
unfolding second_half
code_point none = done none
code_point (some (ch, s)) =
    if leb 0xD800 ch && leb ch 0xDBFF then second_half ch s else done (some (ch, s))

unfoldable pub unicode_to_utf8 : Bytes → Scan Bytes
unfolding hex_digits hex_value code_point utf8
unicode_to_utf8 src = hex_digits 4 0 src >>= code_point >>= encoded
