-- ===== src/Json/Parse/Words.antt =====
-- Strings, words and binary values are read back from their text, and so every scalar is.
use another_c_library.Prelude.{
  ℕ, suc, ◌+◌, ◌-◌, ◌/◌, ◌%◌, ◌^◌, ◌<◌, Bool, true, false, ◌&&◌, [], ◌∷◌, ◌++◌, append_assoc, leb,
  ltb, ◌==◌, if◌then◌else◌, Bytes, length, length-append, take_append, drop_append, ◌≡◌, refl, ap,
  ap₂, ◌∙◌, arith,
}
use mathlib.Core.Path.{subst⁻¹}
use another_c_library.Json.Value.{
  Kind, json_binary, json_null, json_string, json_false, json_zero, json_number, json_decimal,
  json_true,
}
use another_c_library.Json.Print.{uint32_bytes}
use another_c_library.Json.Text.{text_scalar, Closed, IsScalar}
use another_c_library.Json.Parse.Scan.{
  true_text, false_text, null_text, string_end, Scanned, token, bad_at, as_token, at_zero, word,
  read_uint32, binary_of, start_scalar,
}
use another_c_library.Json.Parse.Scalars.{
  Reads, string_end-ClosedFrom, start-quote, token_left, number-Reads, decimal-Reads, zero-Reads,
}

string-Reads :
    (keyed : Bool) (s : Bytes) → Closed s → Reads keyed json_string s (b'"' ∷ (s ++ (b'"' ∷ [])))
string-Reads keyed s h = record {
  first = b'"';
  others = s ++ (b'"' ∷ []);
  shape = refl;
  not_space = refl;
  not_brace = refl;
  not_bracket = refl;
  not_close = refl;
  scanned = λ n d rest e f.
      let left = length (s ++ (b'"' ∷ [])) + suc n in
      start-quote keyed left ((s ++ (b'"' ∷ [])) ++ (d ∷ rest))
      ∙ ap (λ m. as_token (string_end [] left m)) (append_assoc s (b'"' ∷ []) (d ∷ rest))
      ∙ ap as_token (
          string_end-ClosedFrom [] s left (suc n) (d ∷ rest)
            (omega (arith, length-append {0} s (b'"' ∷ []))) h);
}

plain_zero :
    (n d : ℕ) (rest : Bytes)
    → (d == b'.') ≡ false
    → at_zero (b'0' ∷ []) (0 + suc n) (d ∷ rest) ≡ token json_zero (b'0' ∷ []) (suc n) (d ∷ rest)
plain_zero n d rest f = ground (arith, f)

-- The checks of the room behind `t` and `f` pass.
room :
    (keyed : Bool) (k left : ℕ) (x y : Scanned)
    → k < left
    → (if keyed && leb left k then x else y) ≡ y
room true k left x y l = let h : leb left k ≡ false = ground arith in rw h refl
room false k left x y l = refl

start-true :
    (keyed : Bool) (left : ℕ) (mem : Bytes)
    → 3 < left
    → start_scalar keyed b't' left mem ≡ word json_true true_text (b'r' ∷ b'u' ∷ b'e' ∷ []) left mem
unfolding start_scalar
start-true keyed left mem h =
    room keyed 3 left (bad_at mem) (word json_true true_text (b'r' ∷ b'u' ∷ b'e' ∷ []) left mem) h

start-false :
    (keyed : Bool) (left : ℕ) (mem : Bytes)
    → 4 < left
    → start_scalar keyed b'f' left mem
      ≡ word json_false false_text (b'a' ∷ b'l' ∷ b's' ∷ b'e' ∷ []) left mem
unfolding start_scalar
start-false keyed left mem h =
    room keyed 4 left (bad_at mem)
      (word json_false false_text (b'a' ∷ b'l' ∷ b's' ∷ b'e' ∷ []) left mem) h

start-binary :
    (keyed : Bool) (left a b c d : ℕ) (mem : Bytes)
    → 4 < left
    → start_scalar keyed b'n' left (b'b' ∷ a ∷ b ∷ c ∷ d ∷ mem)
      ≡ binary_of (read_uint32 a b c d) (left - 5) mem
unfolding start_scalar
start-binary keyed left a b c d mem h =
    let more : leb (left - 1) 3 ≡ false = ground arith in
    let l : left - 1 - 4 ≡ left - 5 = omega arith in rw (more, l) refl

true-Reads : (keyed : Bool) → Reads keyed json_true true_text true_text
true-Reads keyed = record {
  first = b't';
  others = b'r' ∷ b'u' ∷ b'e' ∷ [];
  shape = refl;
  not_space = refl;
  not_brace = refl;
  not_bracket = refl;
  not_close = refl;
  scanned = λ n d rest e f.
      start-true keyed (3 + suc n) (b'r' ∷ b'u' ∷ b'e' ∷ d ∷ rest) (omega arith)
      ∙ token_left (omega arith);
}

false-Reads : (keyed : Bool) → Reads keyed json_false false_text false_text
false-Reads keyed = record {
  first = b'f';
  others = b'a' ∷ b'l' ∷ b's' ∷ b'e' ∷ [];
  shape = refl;
  not_space = refl;
  not_brace = refl;
  not_bracket = refl;
  not_close = refl;
  scanned = λ n d rest e f.
      start-false keyed (4 + suc n) (b'a' ∷ b'l' ∷ b's' ∷ b'e' ∷ d ∷ rest) (omega arith)
      ∙ token_left (omega arith);
}

null-Reads : (keyed : Bool) → Reads keyed json_null null_text null_text
unfolding start_scalar
null-Reads keyed = record {
  first = b'n';
  others = b'u' ∷ b'l' ∷ b'l' ∷ [];
  shape = refl;
  not_space = refl;
  not_brace = refl;
  not_bracket = refl;
  not_close = refl;
  scanned = λ n d rest e f. token_left (omega arith);
}

-- The bytes of a length give the length.
uint32-bytes :
    (n : ℕ)
    → n < 2 ^ 32
    → read_uint32 (n % 0x100) (n / 0x100 % 0x100) (n / 0x10000 % 0x100) (n / 0x1000000 % 0x100) ≡ n
uint32-bytes n h = omega arith

binary_of-append :
    (s : Bytes) (n d : ℕ) (rest : Bytes)
    → binary_of (length s) (length s + suc n) (s ++ (d ∷ rest))
      ≡ token json_binary s (suc n) (d ∷ rest)
binary_of-append s n d rest =
    let long : leb (length s + suc n) (length s) ≡ false = ground arith in
    let fits : ltb (length (s ++ (d ∷ rest))) (length s) ≡ false =
      ground (arith, length-append {0} s (d ∷ rest)) in
    rw (long, fits, take_append {0} s (d ∷ rest), drop_append {0} s (d ∷ rest))
      (token_left (omega arith))

binary-Reads :
    (keyed : Bool) (s : Bytes)
    → length s < 2 ^ 32
    → Reads keyed json_binary s (text_scalar json_binary s)
binary-Reads keyed s h = record {
  first = b'n';
  others = b'b' ∷ (uint32_bytes (length s) ++ s);
  shape = refl;
  not_space = refl;
  not_brace = refl;
  not_bracket = refl;
  not_close = refl;
  scanned = λ n d rest e f.
      start-binary keyed (length (b'b' ∷ (uint32_bytes (length s) ++ s)) + suc n) _ _ _ _
        (s ++ (d ∷ rest)) (omega arith)
      ∙ ap₂ (λ k l. binary_of k l (s ++ (d ∷ rest))) (uint32-bytes (length s) h) (omega arith)
      ∙ binary_of-append s n d rest;
}

-- Each scalar is read back from its text.
pub scalar-Reads :
    (keyed : Bool) (kind : Kind) (s : Bytes)
    → IsScalar kind s
    → Reads keyed kind s (text_scalar kind s)
scalar-Reads keyed json_string s h = string-Reads keyed s h
scalar-Reads keyed json_binary s h = binary-Reads keyed s h
scalar-Reads keyed json_null s h = subst⁻¹ (λ t. Reads keyed json_null t t) h (null-Reads keyed)
scalar-Reads keyed json_false s h = subst⁻¹ (λ t. Reads keyed json_false t t) h (false-Reads keyed)
scalar-Reads keyed json_true s h = subst⁻¹ (λ t. Reads keyed json_true t t) h (true-Reads keyed)
scalar-Reads keyed json_zero s h =
    subst⁻¹ (λ t. Reads keyed json_zero t t) h
      (zero-Reads keyed json_zero [] (b'0' ∷ []) (λ n d rest e f. plain_zero n d rest f))
scalar-Reads keyed json_number s h = number-Reads keyed s h
scalar-Reads keyed json_decimal s h = decimal-Reads keyed s h
