-- ===== src/Json/Parse/Scan.antt =====
-- The parts of ac_json_parse that read a string, a key, a number or a word.
use another_c_library.Prelude.{
  ℕ, zero, suc, ◌+◌, ◌-◌, ◌*◌, ◌%◌, Bool, ◌&&◌, ◌||◌, [], ◌∷◌, ◌++◌, Option, none, some, leb, ltb,
  ◌==◌, if◌then◌else◌, Bytes, length, take, drop,
}
use another_c_library.Json.Value.{
  Kind, json_binary, json_null, json_string, json_false, json_zero, json_number, json_decimal,
  json_true,
}

-- AC_JSON_SPACE_CASE
abbrev pub is_space : ℕ → Bool
is_space ch = ch == 32 || ch == 9 || ch == 13 || ch == 10

abbrev pub is_digit : ℕ → Bool
is_digit ch = leb b'0' ch && leb ch b'9'

-- How far `backtrack` goes: the backslashes in front of `p`, of which the nearest comes first.
abbrev pub backslashes : Bytes → ℕ
backslashes [] = 0
backslashes (c ∷ seen) = if c == b'\\' then suc (backslashes seen) else 0

abbrev pub is_escaped : Bytes → Bool
is_escaped seen = backslashes seen % 2 == 1

-- A string up to its quote, with what is behind the quote; or the end, at `ep`.
pub data Found : Type 0 where
  found : Bytes → ℕ → Bytes → Found
  ended : Bytes → Found
  beyond : Found

abbrev pub rev_onto : Bytes → Bytes → Bytes
rev_onto [] s = s
rev_onto (c ∷ seen) s = rev_onto seen (c ∷ s)

-- keyed_start_string and start_string; `seen` is what has been read, the last byte first.
abbrev pub string_end : Bytes → ℕ → Bytes → Found
string_end seen zero mem = ended mem
string_end seen (suc left) [] = beyond
string_end seen (suc left) (c ∷ mem) =
    let on = string_end (c ∷ seen) left mem in
    if c == b'"' then if is_escaped seen then on else found (rev_onto seen []) left mem else on

-- The second loop of get_end_of_key; `none` is a read behind the memory.
abbrev pub to_colon : ℕ → Bytes → Option (ℕ × Bytes)
to_colon zero mem = some (0, drop 1 mem)
to_colon (suc left) [] = none
to_colon (suc left) (c ∷ mem) =
    let on = to_colon left mem in if c == b':' then some (left, mem) else on

-- A scalar with its type, and what is behind it; or the error, or a read behind the memory.
pub data Scanned : Type 0 where
  token : Kind → Bytes → ℕ → Bytes → Scanned
  bad_at : Bytes → Scanned
  past : Scanned

abbrev pub as_token : Found → Scanned
as_token (found s left mem) = token json_string s left mem
as_token (ended mem) = bad_at mem
as_token beyond = past

-- The digits at `p`, and what is behind them.
abbrev pub digits : Bytes → Bytes × Bytes
digits [] = ([], [])
digits (c ∷ mem) = let on = digits mem in if is_digit c then (c ∷ on.0, on.1) else ([], c ∷ mem)

-- What a loop over digits has read, if it ends within the memory.
abbrev pub ends_within : Scanned → Bytes → Scanned
ends_within s [] = past
ends_within s (c ∷ mem) = s

-- decimal_number, where `pre` is the text up to the point.
abbrev pub decimal_number : Bytes → ℕ → Bytes → Scanned
decimal_number pre left [] = past
decimal_number pre left (d ∷ mem) =
    let ds = (digits mem).0 in
    let rest = (digits mem).1 in
    if is_digit d
    then ends_within (token json_decimal (pre ++ (d ∷ ds)) (left - 1 - length ds) rest) rest
    else bad_at mem

abbrev pub behind_digits : Bytes → ℕ → Bytes → Scanned
behind_digits pre left [] = past
behind_digits pre left (c ∷ rest) =
    if c == b'.'
    then decimal_number (pre ++ (b'.' ∷ [])) (left - 1) rest
    else token json_number pre left (c ∷ rest)

-- next_digit
abbrev pub next_digit : Bytes → ℕ → Bytes → Scanned
next_digit pre left mem =
    let ds = (digits mem).0 in behind_digits (pre ++ ds) (left - length ds) (digits mem).1

-- `case '0'`, behind the zero.
abbrev pub at_zero : Bytes → ℕ → Bytes → Scanned
at_zero pre left [] = past
at_zero pre left (ch ∷ mem) =
    if ltb 1 left && ch == b'.'
    then decimal_number (pre ++ (b'.' ∷ [])) (left - 1) mem
    else token json_zero (b'0' ∷ []) left (ch ∷ mem)

-- `case '-'`
abbrev pub at_minus : ℕ → Bytes → Scanned
at_minus left [] = past
at_minus left (ch ∷ mem) =
    if leb b'1' ch && leb ch b'9'
    then next_digit (b'-' ∷ ch ∷ []) (left - 1) mem
    else if ch == b'0'
    then at_zero (b'-' ∷ ch ∷ []) (left - 1) mem
    else bad_at mem

-- The rest of a word, letter by letter.
abbrev pub word : Kind → Bytes → Bytes → ℕ → Bytes → Scanned
word kind s [] left mem = token kind s left mem
word kind s (e ∷ es) left [] = past
word kind s (e ∷ es) left (ch ∷ mem) =
    let on = word kind s es (left - 1) mem in if ch == e then on else bad_at mem

abbrev pub true_text : Bytes
true_text = b't' ∷ b'r' ∷ b'u' ∷ b'e' ∷ []

abbrev pub false_text : Bytes
false_text = b'f' ∷ b'a' ∷ b'l' ∷ b's' ∷ b'e' ∷ []

abbrev pub null_text : Bytes
null_text = b'n' ∷ b'u' ∷ b'l' ∷ b'l' ∷ []

-- A `uint32_t` at `p`, on a machine that stores its low byte first.
abbrev pub read_uint32 : ℕ → ℕ → ℕ → ℕ → ℕ
read_uint32 a b c d = a + b * 0x100 + c * 0x10000 + d * 0x1000000

abbrev pub binary_of : ℕ → ℕ → Bytes → Scanned
binary_of n left mem =
    if leb left n
    then bad_at mem
    else if ltb (length mem) n
    then past
    else token json_binary (take n mem) (left - n) (drop n mem)

abbrev pub binary_at : ℕ → Bytes → Scanned
binary_at left (a ∷ b ∷ c ∷ d ∷ mem) = binary_of (read_uint32 a b c d) (left - 4) mem
binary_at left _ = past

-- Behind `nb`.
abbrev pub binary : ℕ → Bytes → Scanned
binary left mem = if leb left 3 then bad_at mem else binary_at left mem

-- `case 'n'`
abbrev pub at_n : ℕ → Bytes → Scanned
at_n left [] = past
at_n left (ch ∷ mem) =
    if ch == b'u'
    then word json_null null_text (b'l' ∷ b'l' ∷ []) (left - 1) mem
    else if ch == b'b'
    then binary (left - 1) mem
    else bad_at mem

-- The cases of start_key_object and of start_value for a scalar, `p` being behind its first byte;
-- `keyed` says that the checks are made which only start_key_object makes.
unfoldable pub start_scalar : Bool → ℕ → ℕ → Bytes → Scanned
start_scalar keyed ch left mem =
    if ch == b'"'
    then as_token (string_end [] left mem)
    else if ch == b'-'
    then at_minus left mem
    else if ch == b'0'
    then at_zero (ch ∷ []) left mem
    else if leb b'1' ch && leb ch b'9'
    then next_digit (ch ∷ []) left mem
    else if ch == b't'
    then if keyed && leb left 3
      then bad_at mem
      else word json_true true_text (b'r' ∷ b'u' ∷ b'e' ∷ []) left mem
    else if ch == b'f'
    then if keyed && leb left 4
      then bad_at mem
      else word json_false false_text (b'a' ∷ b'l' ∷ b's' ∷ b'e' ∷ []) left mem
    else if ch == b'n'
    then at_n left mem
    else bad_at mem
