-- ===== src/Json/Utf8/Code.antt =====
-- The escapes of code points, and their UTF-8.
use Prim.Native.Nat.{bit_and, bit_or}
use another_c_library.Prelude.{
  ℕ, suc, ◌+◌, ◌-◌, ◌*◌, ◌/◌, ◌%◌, ◌^◌, ◌≤◌, ◌<◌, Bool, true, ◌&&◌, [], ◌∷◌, ◌++◌, Option, none,
  some, ltb, leb, ◌≡◌, ◌⊎◌, refl, ap, ◌∙◌, arith, Bool-cases, inl, inr, ltb→lt, if◌then◌else◌,
  Bytes,
}
use another_c_library.Prelude.Bits.{bit_and-63, bit_or-80, bit_or-C0, bit_or-E0, bit_or-F0}
use another_c_library.Prelude.Outcome.{Outcome, done, ◌>>=◌}
use another_c_library.Json.Utf8.{
  hex_value, encoded, hex_digits, pair_value, utf8, code_point, unicode_to_utf8,
}
use another_c_library.Json.Utf8.Laws.{unicode_to_utf8-digits}

-- A hexadecimal digit, and the four digits of a 16-bit number.
abbrev pub digit : ℕ → ℕ
digit d = if ltb d 10 then b'0' + d else b'a' + (d - 10)

abbrev pub hex4 : ℕ → Bytes
hex4 n = digit (n / 4096 % 16) ∷ digit (n / 256 % 16) ∷ digit (n / 16 % 16) ∷ digit (n % 16) ∷ []

-- How JSON writes a code point behind `\u`: above 0xFFFF as a surrogate pair.
abbrev pub escape_of : ℕ → Bytes
escape_of cp =
    if ltb cp 0x10000
    then hex4 cp
    else hex4 (0xD800 + (cp - 0x10000) / 1024)
      ++ (b'\\' ∷ b'u' ∷ hex4 (0xDC00 + (cp - 0x10000) % 1024))

hex_value-digit : (d : ℕ) → d < 16 → hex_value (digit d) ≡ some d
unfolding hex_value
hex_value-digit d h = ground arith

hex_digits_step :
    (k ch c d : ℕ) (s : Bytes)
    → hex_value c ≡ some d
    → ch * 16 + d < 2 ^ 32
    → hex_digits (suc k) ch (c ∷ s) ≡ hex_digits k (ch * 16 + d) s
unfolding hex_digits
hex_digits_step k ch c d s h small =
    let same : (ch * 16 + d) % 2 ^ 32 ≡ ch * 16 + d = omega arith in
    rw (h, hex_digits) (ap (λ (t : ℕ). hex_digits k t s) same)

hex_digits_end : (ch : ℕ) (s : Bytes) → hex_digits 0 ch s ≡ done (some (ch, s))
unfolding hex_digits
hex_digits_end ch s = refl

hex_digits-hex4 :
    (n : ℕ) (rest : Bytes) → n < 0x10000 → hex_digits 4 0 (hex4 n ++ rest) ≡ done (some (n, rest))
hex_digits-hex4 n rest h =
    let a = n / 4096 % 16 in
    let b = n / 256 % 16 in
    let c = n / 16 % 16 in
    let d = n % 16 in
    let whole : ((0 * 16 + a) * 16 + b) * 16 + c ≡ n / 16 = omega arith in
    let all : (n / 16) * 16 + d ≡ n = omega arith in
    hex_digits_step 3 0 (digit a) a _ (hex_value-digit a (omega arith)) (omega arith)
    ∙ hex_digits_step 2 (0 * 16 + a) (digit b) b _ (hex_value-digit b (omega arith)) (omega arith)
    ∙ hex_digits_step 1 ((0 * 16 + a) * 16 + b) (digit c) c _ (hex_value-digit c (omega arith))
        (omega arith)
    ∙ hex_digits_step 0 (((0 * 16 + a) * 16 + b) * 16 + c) (digit d) d rest
        (hex_value-digit d (omega arith)) (omega arith)
    ∙ hex_digits_end _ rest
    ∙ rw (whole, all)

code_point-plain :
    (ch : ℕ) (s : Bytes)
    → (ch < 0xD800) ⊎ (0xDBFF < ch)
    → code_point (some (ch, s)) ≡ done (some (ch, s))
unfolding code_point
code_point-plain ch s h = ground arith

pair-value :
    (hi lo : ℕ) (s : Bytes)
    → 0xDC00 ≤ lo
    → lo ≤ 0xDFFF
    → pair_value hi (some (lo, s))
      ≡ done (some ((hi - 0xD800) * 2 ^ 10 + (lo - 0xDC00) + 0x10000, s))
unfolding pair_value
pair-value hi lo s h k = ground arith

code_point-pair :
    (hi lo : ℕ) (s : Bytes)
    → 0xD800 ≤ hi
    → hi ≤ 0xDBFF
    → 0xDC00 ≤ lo
    → lo ≤ 0xDFFF
    → code_point (some (hi, b'\\' ∷ b'u' ∷ (hex4 lo ++ s)))
      ≡ done (some ((hi - 0xD800) * 2 ^ 10 + (lo - 0xDC00) + 0x10000, s))
unfolding code_point
code_point-pair hi lo s a b c d =
    let from : leb 0xD800 hi ≡ true = ground arith in
    let to : leb hi 0xDBFF ≡ true = ground arith in
    rw (from, to, hex_digits-hex4 lo s (omega arith)) (pair-value hi lo s c d)

-- The escape of every code point that is no high surrogate is read as that code point, and its
-- UTF-8 is what is written: one group of digits, or a surrogate pair from 0x10000 on.
pub unicode_to_utf8-escape_of :
    (cp : ℕ) (rest : Bytes)
    → cp < 0x110000
    → (cp < 0xD800) ⊎ (0xDBFF < cp)
    → unicode_to_utf8 (escape_of cp ++ rest) ≡ done (some (utf8 cp, rest))
unicode_to_utf8-escape_of cp rest h k = elim (Bool-cases (ltb cp 0x10000)) [
  | inl e ↦ rw e (
      unicode_to_utf8-digits (hex4 cp ++ rest) (hex_digits-hex4 cp rest (ltb→lt _ _ e))
      ∙ ap (λ (o : Outcome (Option (ℕ × Bytes))). o >>= encoded) (code_point-plain cp rest k))
  | inr e ↦
      let hi = 0xD800 + (cp - 0x10000) / 1024 in
      let lo = 0xDC00 + (cp - 0x10000) % 1024 in
      let high : 0x10000 ≤ cp = ground arith in
      let value : (hi - 0xD800) * 2 ^ 10 + (lo - 0xDC00) + 0x10000 ≡ cp = omega arith in
      rw e (
        unicode_to_utf8-digits (hex4 hi ++ (b'\\' ∷ b'u' ∷ (hex4 lo ++ rest)))
          (hex_digits-hex4 hi (b'\\' ∷ b'u' ∷ (hex4 lo ++ rest)) (omega arith))
        ∙ ap (λ (o : Outcome (Option (ℕ × Bytes))). o >>= encoded)
            (code_point-pair hi lo rest (omega arith) (omega arith) (omega arith) (omega arith)
              ∙ ap (λ (v : ℕ). done (some (v, rest))) value))
]

-- The code points that are for the halves of surrogate pairs, which UTF-8 does not have.
abbrev pub is_surrogate : ℕ → Bool
is_surrogate v = leb 0xD800 v && ltb v 0xE000

-- What a sequence of bytes stands for in UTF-8, of which it is the shortest one.
abbrev is_tail : ℕ → Bool
is_tail c = leb 0x80 c && ltb c 0xC0

abbrev pub value_of : Bytes → Option ℕ
value_of (a ∷ []) = if ltb a 0x80 then some a else none
value_of (a ∷ b ∷ []) =
    let v = (a - 0xC0) * 64 + (b - 0x80) in
    if leb 0xC0 a && ltb a 0xE0 && is_tail b && leb 0x80 v then some v else none
value_of (a ∷ b ∷ c ∷ []) =
    let v = ((a - 0xE0) * 64 + (b - 0x80)) * 64 + (c - 0x80) in
    if leb 0xE0 a && ltb a 0xF0 && is_tail b && is_tail c && leb 0x800 v
    then if is_surrogate v then none else some v
    else none
value_of (a ∷ b ∷ c ∷ d ∷ []) =
    let v = (((a - 0xF0) * 64 + (b - 0x80)) * 64 + (c - 0x80)) * 64 + (d - 0x80) in
    if leb 0xF0 a
      && ltb a 0xF8
      && is_tail b
      && is_tail c
      && is_tail d
      && leb 0x10000 v
      && ltb v 0x110000
    then some v
    else none
value_of _ = none

-- The bytes behind the first one hold six bits each.
tail_byte : (x : ℕ) → bit_or (bit_and x 0x3F) 0x80 ≡ x % 64 + 0x80
tail_byte x = rw bit_and-63 (bit_or-80 (x % 64) (omega arith))

-- What is written for a number below 0x110000 is the shortest sequence of bytes that stands for it
-- in UTF-8; but for the half of a surrogate pair it is no UTF-8 at all.
pub value_of-utf8 :
    (cp : ℕ) → cp < 0x110000 → value_of (utf8 cp) ≡ (if is_surrogate cp then none else some cp)
unfolding utf8
value_of-utf8 cp h = elim (Bool-cases (ltb cp 0x80)) [
  | inl e ↦ let same : cp % 2 ^ 8 ≡ cp = omega (arith, ltb→lt _ _ e) in rw (e, same) (ground arith)
  | inr e ↦ elim (Bool-cases (ltb cp 0x800)) [
    | inl f ↦
        rw (e, f, bit_or-C0 (cp / 2 ^ 6) (omega (arith, ltb→lt _ _ f)), tail_byte cp) (ground arith)
    | inr f ↦ elim (Bool-cases (ltb cp 0x10000)) [
      | inl g ↦
          rw
            (
              e,
              f,
              g,
              bit_or-E0 (cp / 2 ^ 12) (omega (arith, ltb→lt _ _ g)),
              tail_byte cp,
              tail_byte (cp / 2 ^ 6),
            )
            (ground arith)
      | inr g ↦
          let last : ltb cp 0x110000 ≡ true = ground arith in
          rw
            (
              e,
              f,
              g,
              last,
              bit_or-F0 (cp / 2 ^ 18) (omega arith),
              tail_byte cp,
              tail_byte (cp / 2 ^ 6),
              tail_byte (cp / 2 ^ 12),
            )
            (ground arith)
    ]
  ]
]
