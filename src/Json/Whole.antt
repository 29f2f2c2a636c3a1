-- ===== src/Json/Whole.antt =====
-- ac_json_encode, ac_json_dump_to_buffer, ac_json_parse and ac_json_decode one behind the other.
use another_c_library.Prelude.{
  ℕ, zero, suc, ◌+◌, ◌%◌, true, false, List, [], ◌∷◌, ◌++◌, some, ◌==◌, Bytes, length, take, drop,
  ◌≡◌, ◌≢◌, inl, inr, refl, sym, ap, ap₂, ◌∙◌, arith,
}
use mathlib.Core.Path.{subst⁻¹}
use another_c_library.Buffer.{Buffer, Allocator}
use another_c_library.Buffer.Valid.{Holds, len-Holds}
use another_c_library.Buffer.Run.{Op, run}
use another_c_library.Json.Escape.{escape, encode}
use another_c_library.Json.Escape.Laws.{letter, escape-cases, escaped, encode-escaped}
use another_c_library.Json.Value.{Value}
use another_c_library.Json.Text.{text, ClosedFrom, Closed, IsPlain}
use another_c_library.Json.Print.{dump}
use another_c_library.Json.Print.Laws.{IsPrintable, SmallDump, dump-Holds}
use another_c_library.Json.Parse.Scan.{backslashes, is_escaped}
use another_c_library.Json.Parse.RoundTrip.{IsContainer, parse-container}
use another_c_library.Json.Parse.{parsed, parse}

-- Behind a complete escape, the number of backslashes is even.
abbrev Even : Bytes → Type 0
Even seen = backslashes seen % 2 ≡ 0

not_quote : (c : ℕ) → escape c ≡ c ∷ [] → c ≢ b'"'
unfolding escape
not_quote c h = λ e. ground (arith, h, e)

Even-plain : (c : ℕ) (seen : Bytes) → (c == b'\\') ≡ false → Even (c ∷ seen)
Even-plain c seen h = rw h refl

Even-pair : (e : ℕ) (seen : Bytes) → Even seen → Even (e ∷ b'\\' ∷ seen)
Even-pair e seen h = ground (arith, h)

pair-is_escaped : (seen : Bytes) → Even seen → is_escaped (b'\\' ∷ seen) ≡ true
pair-is_escaped seen h = ground (arith, h)

escape-ClosedFrom :
    (seen t : Bytes) (c : ℕ)
    → Even seen
    → ((after : Bytes) → Even after → ClosedFrom after t)
    → ClosedFrom seen (escape c ++ t)
escape-ClosedFrom seen t c h on = elim (escape-cases c) [
  | inl (e, plain) ↦
      subst⁻¹ (λ p. ClosedFrom seen (p ++ t)) e
        ((λ q. absurd (not_quote c e q)), on (c ∷ seen) (Even-plain c seen plain))
  | inr (e, back, other) ↦
      subst⁻¹ (λ p. ClosedFrom seen (p ++ t)) e
        (
          (λ q. absurd (omega (arith, q))),
          (
            (λ q. pair-is_escaped seen h),
            on (letter c ∷ b'\\' ∷ seen) (Even-pair (letter c) seen h),
          ),
        )
]

escaped-ClosedFrom : (s seen : Bytes) → Even seen → ClosedFrom seen (escaped s)
escaped-ClosedFrom [] seen h = ground (arith, h)
escaped-ClosedFrom (c ∷ s) seen h =
    escape-ClosedFrom seen (escaped s) c h (λ after k. escaped-ClosedFrom s after k)

-- What ac_json_encode gives ends, as a string, where it ends.
pub encode-Closed : (s : Bytes) → Closed (encode s)
encode-Closed s = subst⁻¹ Closed (encode-escaped s) (escaped-ClosedFrom s [] refl)

take-drop : (n : ℕ) (s : Bytes) → take n s ++ drop n s ≡ s
take-drop zero s = refl
take-drop (suc n) [] = refl
take-drop (suc n) (c ∷ s) = ap (◌∷◌ c) (take-drop n s)

parse-Holds :
    {h : Buffer} (v : Value)
    → IsPlain v
    → IsContainer v
    → Holds h (text v)
    → parse h.len h.store ≡ some (parsed v)
parse-Holds {h} v plain c holds =
    let l : h.len ≡ length (text v) + 0 = omega (arith, len-Holds holds) in
    let m : h.store ≡ text v ++ drop h.len h.store =
      sym (take-drop h.len h.store) ∙ ap (λ s. s ++ drop h.len h.store) holds.contents in
    ap₂ parse l m ∙ parse-container v plain c 0 (drop h.len h.store)

-- An object or an array that the parser can give, with no null in it, is printed to an empty buffer,
-- and ac_json_parse on the bytes of the buffer gives it back, if no size comes near the end of the address space.
pub parse-dump :
    (a : Allocator) (v : Value) {h : Buffer}
    → IsPlain v
    → IsPrintable v
    → IsContainer v
    → Holds h []
    → SmallDump a (dump v) h
    → (ops : List Op) × (dump v ≡ some ops)
      × (parse (run a ops h).len (run a ops h).store ≡ some (parsed v))
parse-dump a v plain printable c holds small =
    let (ops, given, holds') = dump-Holds a v printable holds small in
    (ops, given, parse-Holds v plain c holds')
