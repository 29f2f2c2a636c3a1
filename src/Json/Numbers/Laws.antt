-- ===== src/Json/Numbers/Laws.antt =====
-- The numbers that digits stand for.
use another_c_library.Prelude.{
  ℕ, ◌+◌, ◌-◌, ◌*◌, ◌%◌, ◌^◌, ◌≤◌, ◌<◌, true, false, [], ◌∷◌, none, some, ltb, ◌==◌, Bytes,
  Bool-cases, inl, inr, ◌≡◌, ◌⊎◌, refl, ap, ◌∙◌, arith,
}
use another_c_library.Json.Text.{Digits}
use another_c_library.Json.Parse.Scan.{is_digit}
use another_c_library.Json.Numbers.{
  ℤ, pos, negate, number, overflow, signed_loop, signed, parse_signed, unsigned_loop, parse_uint32,
  parse_uint64,
}

-- What digits stand for behind others that stand for `n`.
abbrev pub value_from : ℕ → Bytes → ℕ
value_from n [] = n
value_from n (d ∷ ds) = value_from (n * 10 + (d - b'0')) ds

abbrev pub value_of : Bytes → ℕ
value_of ds = value_from 0 ds

value_from-le : (n : ℕ) (ds : Bytes) → n ≤ value_from n ds
value_from-le n [] = omega arith
value_from-le n (d ∷ ds) = omega (arith, value_from-le (n * 10 + (d - b'0')) ds)

fits-number :
    (limit n : ℕ) (ds : Bytes)
    → Digits ds
    → value_from n ds < limit
    → signed_loop limit n ds ≡ number (value_from n ds)
fits-number limit n [] h l = refl
fits-number limit n (d ∷ ds) h l =
    let next = n * 10 + (d - b'0') in
    let small : ltb next limit ≡ true = ground (arith, value_from-le next ds, l) in
    rw (h.0, small) (fits-number limit next ds h.1 l)

long-overflow :
    (limit n : ℕ) (ds : Bytes)
    → Digits ds
    → n < limit
    → limit ≤ value_from n ds
    → signed_loop limit n ds ≡ overflow
long-overflow limit n [] h l m = absurd (omega arith)
long-overflow limit n (d ∷ ds) h l m = elim (Bool-cases (ltb (n * 10 + (d - b'0')) limit)) [
  | inl e ↦
      let less : n * 10 + (d - b'0') < limit = ground (arith, e) in
      rw (h.0, e) (long-overflow limit (n * 10 + (d - b'0')) ds h.1 less m)
  | inr e ↦ rw (h.0, e) refl
]

-- To reduce early is to reduce once.
abbrev Wraps : ℕ → Type 0
Wraps w = (n d : ℕ) → ((n % 2 ^ w) * 10 + d) % 2 ^ w ≡ (n * 10 + d) % 2 ^ w

wraps :
    (w n : ℕ) (ds : Bytes) (default_value : ℕ)
    → Wraps w
    → Digits ds
    → unsigned_loop w (n % 2 ^ w) ds default_value ≡ value_from n ds % 2 ^ w
wraps w n [] default_value s h = refl
wraps w n (d ∷ ds) default_value s h =
    rw (h.0, s n (d - b'0')) (wraps w (n * 10 + (d - b'0')) ds default_value s h.1)

Wraps-32 : Wraps 32
Wraps-32 n d = omega arith

Wraps-64 : Wraps 64
Wraps-64 n d = omega arith

-- `parse_uint32` and `parse_uint64` give the number that the digits stand for, modulo their range.
pub parse_unsigned-Digits :
    (ds : Bytes) (default_value : ℕ)
    → Digits ds
    → (parse_uint32 (some ds) default_value ≡ value_of ds % 2 ^ 32)
      × (parse_uint64 (some ds) default_value ≡ value_of ds % 2 ^ 64)
unfolding parse_uint32 parse_uint64
parse_unsigned-Digits ds default_value h =
    (wraps 32 0 ds default_value Wraps-32 h, wraps 64 0 ds default_value Wraps-64 h)

not_minus : (d : ℕ) → is_digit d ≡ true → (d == b'-') ≡ false
not_minus d h = ground (arith, h)

positive :
    (limit : ℕ) (ds : Bytes) (default_value : ℤ)
    → Digits ds
    → 0 < limit
    → parse_signed limit (some ds) default_value ≡ signed pos default_value (signed_loop limit 0 ds)
unfolding parse_signed
positive limit [] default_value h l = refl
positive limit (d ∷ ds) default_value h l = rw (not_minus d h.0) refl

-- A signed number is read from its digits, with or without a minus sign, exactly if the digits
-- alone do not stand for more than the greatest number of the type; else the sum overflows. So the
-- least number of the type is not read.
pub parse_signed-Digits :
    (limit : ℕ) (ds : Bytes) (default_value : ℤ)
    → Digits ds
    → 0 < limit
    → ((value_of ds < limit)
        × (parse_signed limit (some ds) default_value ≡ some (pos (value_of ds)))
        × (parse_signed limit (some (b'-' ∷ ds)) default_value ≡ some (negate (value_of ds))))
      ⊎ ((limit ≤ value_of ds)
          × (parse_signed limit (some ds) default_value ≡ none)
          × (parse_signed limit (some (b'-' ∷ ds)) default_value ≡ none))
unfolding parse_signed
parse_signed-Digits limit ds default_value h l = elim (Bool-cases (ltb (value_of ds) limit)) [
  | inl e ↦
      let less : value_of ds < limit = ground (arith, e) in
      let read = fits-number limit 0 ds h less in
      inl (
        less,
        positive limit ds default_value h l ∙ ap (signed pos default_value) read,
        ap (signed negate default_value) read,
      )
  | inr e ↦
      let more : limit ≤ value_of ds = ground (arith, e) in
      let read = long-overflow limit 0 ds h l more in
      inr (
        more,
        positive limit ds default_value h l ∙ ap (signed pos default_value) read,
        ap (signed negate default_value) read,
      )
]
