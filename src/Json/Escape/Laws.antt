-- ===== src/Json/Escape/Laws.antt =====
-- ac_json_encode and ac_json_decode together.
use another_c_library.Prelude.{
  ℕ, zero, suc, ◌+◌, ◌-◌, ◌*◌, ◌≤◌, false, [], ◌∷◌, ◌++◌, none, some, ◌==◌, ◌≡◌, ◌≢◌, ◌⊎◌, inl, inr,
  refl, sym, ap, ◌∙◌, arith, Bool-cases, All, if◌then◌else◌, Bytes, length, length-append,
  append-nil, append_assoc,
}
use another_c_library.Prelude.Outcome.{done}
use another_c_library.Json.Utf8.{hex_value}
use another_c_library.Json.Utf8.Laws.{unicode_to_utf8-bad}
use another_c_library.Json.Escape.{
  escape, encode_loop, stops, encode_from, encode, unescape, copy_six, after_letter, after_unicode,
  after_copy, decode_loop, decode_from, decode,
}

-- The escapes of the bytes, one behind the other.
abbrev pub escaped : Bytes → Bytes
escaped [] = []
escaped (c ∷ s) = escape c ++ escaped s

encode_loop-escaped : (res s : Bytes) → encode_loop res s ≡ res ++ escaped s
unfolding encode_loop
encode_loop-escaped res [] = sym (append-nil res)
encode_loop-escaped res (c ∷ s) =
    encode_loop-escaped (res ++ escape c) s ∙ append_assoc res (escape c) (escaped s)

escape-stops : (c : ℕ) → stops c ≡ false → escape c ≡ c ∷ []
unfolding stops escape
escape-stops c h = ground arith

encode_from-escaped : (res s : Bytes) → encode_from res s ≡ res ++ escaped s
unfolding encode_from
encode_from-escaped res [] = sym (append-nil res)
encode_from-escaped res (c ∷ s) = elim (Bool-cases (stops c)) [
  | inl e ↦ rw e (encode_loop-escaped res (c ∷ s))
  | inr e ↦
      rw (e, escape-stops c e)
        (encode_from-escaped (res ++ c ∷ []) s ∙ append_assoc res (c ∷ []) (escaped s))
]

-- The fast scan of `ac_json_encode` changes nothing: the result is each byte's escape.
pub encode-escaped : (s : Bytes) → encode s ≡ escaped s
unfolding encode
encode-escaped s = encode_from-escaped [] s

length-escape : (c : ℕ) → length (escape c) ≤ 2
unfolding escape
length-escape c = ground arith

-- The result and its terminator lie within the `length * 2 + 3` bytes that are allocated.
pub length-encode : (s : Bytes) → length (encode s) + 1 ≤ length s * 2 + 3
length-encode s = rw (encode-escaped s) (omega (arith, go s))
  where
    go : (t : Bytes) → length (escaped t) ≤ length t * 2
    go [] = omega arith
    go (c ∷ t) = omega (arith, go t, length-escape c, length-append {0} (escape c) (escaped t))

-- How one byte is escaped: as itself, or by a backslash and a letter that stands for it.
abbrev pub IsShort : ℕ → ℕ → Type 0
IsShort c e = (escape c ≡ b'\\' ∷ e ∷ []) × (unescape e ≡ some c) × ((e == b'u') ≡ false)

-- The letter behind the backslash.
abbrev pub letter : ℕ → ℕ
letter c =
    if c == 8
    then b'b'
    else if c == 12
    then b'f'
    else if c == 10
    then b'n'
    else if c == 13
    then b'r'
    else if c == 9
    then b't'
    else c

pub escape-cases : (c : ℕ) → ((escape c ≡ c ∷ []) × ((c == b'\\') ≡ false)) ⊎ IsShort c (letter c)
unfolding escape unescape
escape-cases c = ground arith

decode_loop-plain :
    (fuel left c : ℕ) (p res : Bytes)
    → (c == b'\\') ≡ false
    → decode_loop (suc fuel) (suc left) (c ∷ p) res ≡ decode_loop fuel left p (res ++ c ∷ [])
unfolding decode_loop
decode_loop-plain fuel left c [] res h = rw h
decode_loop-plain fuel left c (d ∷ p) res h = rw h

decode_loop-short :
    (fuel left e b : ℕ) (p res : Bytes)
    → unescape e ≡ some b
    → (e == b'u') ≡ false
    → decode_loop (suc fuel) (suc left) (b'\\' ∷ e ∷ p) res
      ≡ decode_loop fuel (left - 1) p (res ++ b ∷ [])
unfolding decode_loop after_letter
decode_loop-short fuel left e b p res h k = rw (k, h)

decode_loop_end : (fuel : ℕ) (p res : Bytes) → decode_loop fuel 0 p res ≡ done res
unfolding decode_loop
decode_loop_end zero p res = refl
decode_loop_end (suc fuel) p res = refl

-- The loop reads one escape back, and has fuel left for the rest.
decode_loop-escape :
    (c fuel left : ℕ) (p res : Bytes)
    → length (escape c) + left ≤ fuel
    → (f : ℕ) × (left ≤ f)
      × (decode_loop fuel (length (escape c) + left) (escape c ++ p) res
          ≡ decode_loop f left p (res ++ c ∷ []))
decode_loop-escape c zero left p res h = elim (escape-cases c) [
  | inl (e, plain) ↦ absurd (omega (arith, ap length e))
  | inr (e, back, other) ↦ absurd (omega (arith, ap length e))
]
decode_loop-escape c (suc fuel) left p res h = elim (escape-cases c) [
  | inl (e, plain) ↦
      let k : 1 + left ≡ suc left = omega arith in
      (fuel, omega (arith, ap length e), rw (e, k) (decode_loop-plain fuel left c p res plain))
  | inr (e, back, other) ↦
      let k : 2 + left ≡ suc (suc left) = omega arith in
      let l : suc left - 1 ≡ left = omega arith in
      (
        fuel,
        omega (arith, ap length e),
        rw (e, k)
            (decode_loop-short fuel (suc left) (letter c) c p res back other
              ∙ ap (λ (n : ℕ). decode_loop fuel n p (res ++ c ∷ [])) l),
      )
]

decode_loop-escaped :
    (s : Bytes) (fuel : ℕ) (rest res : Bytes)
    → length (escaped s) ≤ fuel
    → decode_loop fuel (length (escaped s)) (escaped s ++ rest) res ≡ done (res ++ s)
decode_loop-escaped [] fuel rest res h = decode_loop_end fuel rest res ∙ rw append-nil
decode_loop-escaped (c ∷ s) fuel rest res h =
    let long : length (escape c ++ escaped s) ≡ length (escape c) + length (escaped s) =
      length-append (escape c) (escaped s) in
    let (f, enough, step) =
      decode_loop-escape c fuel (length (escaped s)) (escaped s ++ rest) res
        (omega (arith, long)) in
    rw (long, append_assoc)
      (step ∙ decode_loop-escaped s f rest (res ++ c ∷ []) enough ∙ rw append_assoc)

decode_from-slow :
    (left : ℕ) (p res : Bytes)
    → decode_from (suc left) (b'\\' ∷ p) res ≡ decode_loop (suc left) (suc left) (b'\\' ∷ p) res
unfolding decode_from
decode_from-slow left p res = refl

decode_from-plain :
    (left c : ℕ) (p res : Bytes)
    → (c == b'\\') ≡ false
    → decode_from (suc left) (c ∷ p) res ≡ decode_from left p (res ++ c ∷ [])
unfolding decode_from
decode_from-plain left c p res h = rw h

decode_from_end : (p res : Bytes) → decode_from 0 p res ≡ done res
unfolding decode_from
decode_from_end p res = refl

decode_from-escaped :
    (s rest res : Bytes)
    → decode_from (length (escaped s)) (escaped s ++ rest) res ≡ done (res ++ s)
decode_from-escaped [] rest res = decode_from_end rest res ∙ rw append-nil
decode_from-escaped (c ∷ s) rest res = elim (escape-cases c) [
  | inl (e, plain) ↦ rw e (
      decode_from-plain (length (escaped s)) c (escaped s ++ rest) res plain
      ∙ decode_from-escaped s rest (res ++ c ∷ [])
      ∙ rw append_assoc)
  | inr (e, back, other) ↦
      let whole = decode_loop-escaped (c ∷ s) (length (escaped (c ∷ s))) rest res (omega arith) in
      rw e (
        decode_from-slow (suc (length (escaped s))) (letter c ∷ (escaped s ++ rest)) res
        ∙ rw e at whole)
]

-- What `ac_json_encode` has written `ac_json_decode` reads back, whatever bytes follow it.
pub decode-encode : (s rest : Bytes) → decode (length (encode s)) (encode s ++ rest) ≡ done s
unfolding decode
decode-encode s rest = rw encode-escaped (decode_from-escaped s rest [])

-- A string without a backslash is given back as it is.
decode_from-pre :
    (pre p res : Bytes) (left : ℕ)
    → All (λ c. c ≢ b'\\') pre
    → decode_from (length pre + left) (pre ++ p) res ≡ decode_from left p (res ++ pre)
decode_from-pre [] p res left h = let e : 0 + left ≡ left = omega arith in rw (e, append-nil)
decode_from-pre (c ∷ pre) p res left h =
    let e : suc (length pre) + left ≡ suc (length pre + left) = omega arith in
    rw e (
      decode_from-plain (length pre + left) c (pre ++ p) res (ground (arith, h.0))
      ∙ decode_from-pre pre p (res ++ c ∷ []) left h.1
      ∙ rw append_assoc)

decode_loop-bad :
    (fuel left a b c d : ℕ) (p res : Bytes)
    → hex_value a ≡ none
    → decode_loop (suc fuel) (suc left) (b'\\' ∷ b'u' ∷ a ∷ b ∷ c ∷ d ∷ p) res
      ≡ decode_loop fuel (left - 5) p (res ++ (b'\\' ∷ b'u' ∷ a ∷ b ∷ c ∷ d ∷ []))
unfolding decode_loop after_unicode after_copy copy_six
decode_loop-bad fuel left a b c d p res h = rw (unicode_to_utf8-bad a (b ∷ c ∷ d ∷ p) h)

-- A string that ends in `\u`, with no digit behind it, makes `ac_json_decode` copy six bytes, four of
-- them from behind the string: with its terminator the result is by four bytes longer than the
-- block that is allocated for it.
pub decode-truncated :
    (pre : Bytes) (a b c d : ℕ) (rest : Bytes)
    → All (λ x. x ≢ b'\\') pre
    → hex_value a ≡ none
    → (out : Bytes) × (decode (length pre + 2) (pre ++ (b'\\' ∷ b'u' ∷ a ∷ b ∷ c ∷ d ∷ rest))
        ≡ done out)
      × (length out + 1 ≡ (length pre + 2 + 1) + 4)
unfolding decode
decode-truncated pre a b c d rest h bad =
    let six = b'\\' ∷ b'u' ∷ a ∷ b ∷ c ∷ d ∷ [] in
    (
      pre ++ six,
      decode_from-pre pre (b'\\' ∷ b'u' ∷ a ∷ b ∷ c ∷ d ∷ rest) [] 2 h
          ∙ decode_from-slow 1 (b'u' ∷ a ∷ b ∷ c ∷ d ∷ rest) pre
          ∙ decode_loop-bad 1 1 a b c d rest pre bad
          ∙ decode_loop_end 1 rest (pre ++ six),
      omega (arith, length-append {0} pre six),
    )
