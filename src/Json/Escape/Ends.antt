-- ===== src/Json/Escape/Ends.antt =====
-- The rounds of the loop of _ac_json_decode.
use another_c_library.Prelude.{
  ℕ, zero, suc, ◌-◌, ◌≤◌, [], ◌∷◌, ◌++◌, Option, none, some, ◌≢◌, refl, arith, Bytes, length,
}
use another_c_library.Prelude.Outcome.{Outcome, done, overread, out_of_fuel}
use another_c_library.Json.Utf8.{Scan, unicode_to_utf8}
use another_c_library.Json.Utf8.Laws.{unicode_to_utf8-Ends}
use another_c_library.Json.Escape.{
  unescape, copy_six, Rest, after_copy, after_unicode, after_letter, decode_loop, decode_from,
  decode,
}

copy_six-ends : (p : Bytes) → copy_six p ≢ out_of_fuel
unfolding copy_six
copy_six-ends (a ∷ b ∷ c ∷ d ∷ e ∷ f ∷ p) = λ h. cc h
copy_six-ends _ = λ h. cc h

-- The loop ends on whatever is left of at most `n` bytes.
abbrev EndsBelow : ℕ → Rest → Type 0
EndsBelow n loop = (left : ℕ) (p res : Bytes) → left ≤ n → loop left p res ≢ out_of_fuel

after_copy-ends :
    (loop : Rest) (left : ℕ) (res : Bytes) (o : Outcome (Bytes × Bytes))
    → EndsBelow left loop
    → o ≢ out_of_fuel
    → after_copy loop left res o ≢ out_of_fuel
unfolding after_copy
after_copy-ends loop left res (done (six, rest)) h k = h (left - 5) rest (res ++ six) (omega arith)
after_copy-ends loop left res overread h k = λ e. cc e
after_copy-ends loop left res out_of_fuel h k = absurd (k refl)

after_unicode-ends :
    (loop : Rest) (left : ℕ) (seen : Bytes) (room : ℕ) (res : Bytes) (o : Scan Bytes)
    → EndsBelow left loop
    → o ≢ out_of_fuel
    → after_unicode loop left seen room res o ≢ out_of_fuel
unfolding after_unicode
after_unicode-ends loop left seen room res (done none) h k =
    after_copy-ends loop left res (copy_six seen) h (copy_six-ends seen)
after_unicode-ends loop left seen room res (done (some (bytes, rest))) h k =
    h (left - 1 - (room - length rest)) rest (res ++ bytes) (omega arith)
after_unicode-ends loop left seen room res overread h k = λ e. cc e
after_unicode-ends loop left seen room res out_of_fuel h k = absurd (k refl)

after_letter-ends :
    (loop : Rest) (left : ℕ) (p res : Bytes) (o : Option ℕ)
    → EndsBelow left loop
    → after_letter loop left p res o ≢ out_of_fuel
unfolding after_letter
after_letter-ends loop left p res none h = h (left - 1) p res (omega arith)
after_letter-ends loop left p res (some b) h = h (left - 1) p (res ++ b ∷ []) (omega arith)

decode_loop-ends :
    (fuel left : ℕ) (p res : Bytes) → left ≤ fuel → decode_loop fuel left p res ≢ out_of_fuel
unfolding decode_loop
decode_loop-ends zero zero p res h = λ e. cc e
decode_loop-ends (suc fuel) zero p res h = λ e. cc e
decode_loop-ends zero (suc left) p res h = absurd (omega arith)
decode_loop-ends (suc fuel) (suc left) [] res h = λ e. cc e
decode_loop-ends (suc fuel) (suc left) (c ∷ []) res h =
    ground (arith, decode_loop-ends fuel left [] (res ++ c ∷ []))
decode_loop-ends (suc fuel) (suc left) (c ∷ ch ∷ p) res h =
    let below : EndsBelow left (decode_loop fuel) =
      λ l q r k. decode_loop-ends fuel l q r (omega arith) in
    ground (
      arith,
      decode_loop-ends fuel left (ch ∷ p) (res ++ c ∷ []),
      after_letter-ends (decode_loop fuel) left p res (unescape ch) below,
      after_unicode-ends (decode_loop fuel) left (c ∷ ch ∷ p) (length p) res (unicode_to_utf8 p)
          below (unicode_to_utf8-Ends p),
    )

decode_from-ends : (left : ℕ) (p res : Bytes) → decode_from left p res ≢ out_of_fuel
unfolding decode_from
decode_from-ends zero p res = λ e. cc e
decode_from-ends (suc left) [] res = λ e. cc e
decode_from-ends (suc left) (c ∷ p) res = ground (
  arith,
  decode_loop-ends (suc left) (suc left) (c ∷ p) res,
  decode_from-ends left p (res ++ c ∷ []),
)

-- `ac_json_decode` ends on every input: as many rounds as there are bytes are enough.
pub decode-ends : (len : ℕ) (s : Bytes) → decode len s ≢ out_of_fuel
unfolding decode
decode-ends len s = decode_from-ends len s []
