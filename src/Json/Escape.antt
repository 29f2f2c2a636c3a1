-- ===== src/Json/Escape.antt =====
-- ac_json_encode, ac_json_decode and ac_json_decode2.
pub mod Laws
pub mod Ends
use another_c_library.Prelude.{
  ℕ, zero, suc, ◌+◌, ◌-◌, Bool, true, false, ◌&&◌, ◌||◌, List, [], ◌∷◌, ◌++◌, Option, none, some,
  ◌==◌, if◌then◌else◌, Bytes, length,
}
use another_c_library.Prelude.Outcome.{Outcome, done, overread, out_of_fuel}
use another_c_library.Json.Utf8.{Scan, unicode_to_utf8}

-- The switch of _ac_json_encode: what is written for one byte.
unfoldable pub escape : ℕ → Bytes
escape c =
    if c == b'"'
    then b'\\' ∷ b'"' ∷ []
    else if c == b'\\'
    then b'\\' ∷ b'\\' ∷ []
    else if c == b'/'
    then b'\\' ∷ b'/' ∷ []
    else if c == 8
    then b'\\' ∷ b'b' ∷ []
    else if c == 12
    then b'\\' ∷ b'f' ∷ []
    else if c == 10
    then b'\\' ∷ b'n' ∷ []
    else if c == 13
    then b'\\' ∷ b'r' ∷ []
    else if c == 9
    then b'\\' ∷ b't' ∷ []
    else c ∷ []

-- The loop of _ac_json_encode, behind what has been written.
unfoldable pub encode_loop : Bytes → Bytes → Bytes
encode_loop res [] = res
encode_loop res (c ∷ p) = encode_loop (res ++ escape c) p

-- The bytes at which the scan of ac_json_encode stops.
unfoldable pub stops : ℕ → Bool
stops c =
    c == 0
    || c == b'"'
    || c == b'\\'
    || c == b'/'
    || c == 8
    || c == 12
    || c == 10
    || c == 13
    || c == 9

-- The scan: what is in front of the first such byte is copied as it is.
unfoldable pub encode_from : Bytes → Bytes → Bytes
encode_from res [] = res
encode_from res (c ∷ p) =
    let slow = encode_loop res (c ∷ p) in
    let on = encode_from (res ++ c ∷ []) p in if stops c then slow else on

unfoldable pub encode : Bytes → Bytes
unfolding encode_from encode_loop escape stops
encode s = encode_from [] s

-- The cases of the switch of _ac_json_decode that write one byte.
unfoldable pub unescape : ℕ → Option ℕ
unescape ch =
    if ch == b'"'
    then some b'"'
    else if ch == b'\\'
    then some b'\\'
    else if ch == b'/'
    then some b'/'
    else if ch == b'b'
    then some 8
    else if ch == b'f'
    then some 12
    else if ch == b'n'
    then some 10
    else if ch == b'r'
    then some 13
    else if ch == b't'
    then some 9
    else none

-- Six bytes copied from the backslash on, where `\u` has no proper digits behind it: these bytes,
-- and what stands behind them.
unfoldable pub copy_six : Bytes → Outcome (Bytes × Bytes)
copy_six (a ∷ b ∷ c ∷ d ∷ e ∷ f ∷ p) = done (a ∷ b ∷ c ∷ d ∷ e ∷ f ∷ [], p)
copy_six _ = overread

-- What is left to do once the bytes from `p` on have been dealt with: `left`, the memory, the result.
abbrev pub Rest : Type 0
Rest = ℕ → Bytes → Bytes → Outcome Bytes

-- After six bytes have been copied.
unfoldable pub after_copy : Rest → ℕ → Bytes → Outcome (Bytes × Bytes) → Outcome Bytes
after_copy loop left res (done (six, rest)) = loop (left - 5) rest (res ++ six)
after_copy loop left res overread = overread
after_copy loop left res out_of_fuel = out_of_fuel

-- `case 'u'`, on what unicode_to_utf8 has returned; `seen` is the memory from the backslash on,
-- and `room` the number of bytes in the memory behind the `u`.
unfoldable pub after_unicode : Rest → ℕ → Bytes → ℕ → Bytes → Scan Bytes → Outcome Bytes
after_unicode loop left seen room res (done none) = after_copy loop left res (copy_six seen)
after_unicode loop left seen room res (done (some (bytes, rest))) =
    loop (left - 1 - (room - length rest)) rest (res ++ bytes)
after_unicode loop left seen room res overread = overread
after_unicode loop left seen room res out_of_fuel = out_of_fuel

-- The other cases; a letter that is none of them is passed over.
unfoldable pub after_letter : Rest → ℕ → Bytes → Bytes → Option ℕ → Outcome Bytes
after_letter loop left p res none = loop (left - 1) p res
after_letter loop left p res (some b) = loop (left - 1) p (res ++ b ∷ [])

-- The loop of _ac_json_decode. `left` is `ep - p`, or 0 from where `p` has passed `ep`; the list is
-- the memory from `p` on; each round takes one of the fuel.
unfoldable pub decode_loop : ℕ → ℕ → Bytes → Bytes → Outcome Bytes
decode_loop fuel zero p res = done res
decode_loop zero (suc left) p res = out_of_fuel
decode_loop (suc fuel) (suc left) [] res = overread
decode_loop (suc fuel) (suc left) (c ∷ []) res =
    let on = decode_loop fuel left [] (res ++ c ∷ []) in if c == b'\\' then overread else on
decode_loop (suc fuel) (suc left) (c ∷ ch ∷ p) res =
    let plain = decode_loop fuel left (ch ∷ p) (res ++ c ∷ []) in
    let short = after_letter (decode_loop fuel) left p res (unescape ch) in
    let long =
      after_unicode (decode_loop fuel) left (c ∷ ch ∷ p) (length p) res (unicode_to_utf8 p) in
    if c == b'\\' then if ch == b'u' then long else short else plain

-- The scan of ac_json_decode and ac_json_decode2 for the first backslash: with none in the `left`
-- bytes the string is given back as it is.
unfoldable pub decode_from : ℕ → Bytes → Bytes → Outcome Bytes
decode_from zero p res = done res
decode_from (suc left) [] res = overread
decode_from (suc left) (c ∷ p) res =
    let slow = decode_loop (suc left) (suc left) (c ∷ p) res in
    let on = decode_from left p (res ++ c ∷ []) in if c == b'\\' then slow else on

-- The decoded bytes of the `len` bytes at `s`; `*rlen` is their number.
unfoldable pub decode : ℕ → Bytes → Outcome Bytes
unfolding decode_from decode_loop after_unicode after_copy after_letter copy_six unescape
    unicode_to_utf8
decode len s = decode_from len s []
