-- ===== src/Json/Parse/Within.antt =====
-- No part of ac_json_parse that reads a scalar leaves more of the memory than it was given.
use another_c_library.Prelude.{
  ℕ, zero, suc, ◌-◌, ◌≤◌, Bool, true, false, ◌&&◌, [], ◌∷◌, ◌++◌, leb, ltb, ◌==◌, if◌then◌else◌,
  Bytes, length, length-drop, arith,
}
use another_c_library.Json.Value.{Kind, json_null, json_true, json_false}
use another_c_library.Json.Parse.Scan.{
  is_escaped, rev_onto, is_digit, read_uint32, true_text, false_text, null_text, Found, found,
  ended, beyond, string_end, Scanned, token, bad_at, past, as_token, digits, ends_within,
  decimal_number, behind_digits, next_digit, at_zero, at_minus, word, binary_of, binary_at, binary,
  at_n, start_scalar,
}

-- No more than `n` bytes of the memory are left.
abbrev pub Within : ℕ → Scanned → Type 0
Within n (token kind s left mem) = length mem ≤ n
Within n (bad_at mem) = Unit
Within n past = Unit

abbrev pub FoundWithin : ℕ → Found → Type 0
FoundWithin n (found s left mem) = length mem ≤ n
FoundWithin n (ended mem) = Unit
FoundWithin n beyond = Unit

-- Whatever a test answers.
pub if_both :
    {A : Type 0} (P : A → Type 0) (b : Bool) {x y : A} → P x → P y → P (if b then x else y)
if_both P true p q = p
if_both P false p q = q

FoundWithin-suc : (n : ℕ) (f : Found) → FoundWithin n f → FoundWithin (suc n) f
FoundWithin-suc n (found s left mem) h = omega arith
FoundWithin-suc n (ended mem) h = tt
FoundWithin-suc n beyond h = tt

Within-le : {m n : ℕ} (s : Scanned) → m ≤ n → Within m s → Within n s
Within-le (token kind s left mem) l h = omega arith
Within-le (bad_at mem) l h = tt
Within-le past l h = tt

pub string_end-FoundWithin :
    (seen : Bytes) (left : ℕ) (mem : Bytes) → FoundWithin (length mem) (string_end seen left mem)
string_end-FoundWithin seen zero mem = tt
string_end-FoundWithin seen (suc left) [] = tt
string_end-FoundWithin seen (suc left) (c ∷ mem) =
    let on =
      FoundWithin-suc (length mem) (string_end (c ∷ seen) left mem)
        (string_end-FoundWithin (c ∷ seen) left mem) in
    let here : FoundWithin (suc (length mem)) (found (rev_onto seen []) left mem) = omega arith in
    if_both (FoundWithin (suc (length mem))) (c == b'"')
      (if_both (FoundWithin (suc (length mem))) (is_escaped seen) on here) on

as_token-Within : (n : ℕ) (f : Found) → FoundWithin n f → Within n (as_token f)
as_token-Within n (found s left mem) h = h
as_token-Within n (ended mem) h = tt
as_token-Within n beyond h = tt

digits-le : (mem : Bytes) → length (digits mem).1 ≤ length mem
digits-le [] = omega arith
digits-le (c ∷ mem) = ground (arith, digits-le mem)

ends_within-Within :
    (n : ℕ) (s : Scanned) (rest : Bytes) → Within n s → Within n (ends_within s rest)
ends_within-Within n s [] h = tt
ends_within-Within n s (c ∷ rest) h = h

decimal_number-Within :
    (pre : Bytes) (left : ℕ) (mem : Bytes) → Within (length mem) (decimal_number pre left mem)
decimal_number-Within pre left [] = tt
decimal_number-Within pre left (d ∷ mem) =
    if_both (Within (suc (length mem))) (is_digit d)
      (ends_within-Within (suc (length mem)) _ (digits mem).1 (omega (arith, digits-le mem))) tt

behind_digits-Within :
    (pre : Bytes) (left : ℕ) (mem : Bytes) → Within (length mem) (behind_digits pre left mem)
behind_digits-Within pre left [] = tt
behind_digits-Within pre left (c ∷ mem) =
    if_both (Within (suc (length mem))) (c == b'.')
      (Within-le (decimal_number (pre ++ (b'.' ∷ [])) (left - 1) mem) (omega arith)
        (decimal_number-Within (pre ++ (b'.' ∷ [])) (left - 1) mem))
      (omega arith)

next_digit-Within :
    (pre : Bytes) (left : ℕ) (mem : Bytes) → Within (length mem) (next_digit pre left mem)
next_digit-Within pre left mem =
    let l = left - length (digits mem).0 in
    Within-le (next_digit pre left mem) (digits-le mem)
      (behind_digits-Within (pre ++ (digits mem).0) l (digits mem).1)

at_zero-Within : (pre : Bytes) (left : ℕ) (mem : Bytes) → Within (length mem) (at_zero pre left mem)
at_zero-Within pre left [] = tt
at_zero-Within pre left (c ∷ mem) =
    if_both (Within (suc (length mem))) (ltb 1 left && c == b'.')
      (Within-le (decimal_number (pre ++ (b'.' ∷ [])) (left - 1) mem) (omega arith)
        (decimal_number-Within (pre ++ (b'.' ∷ [])) (left - 1) mem))
      (omega arith)

at_minus-Within : (left : ℕ) (mem : Bytes) → Within (length mem) (at_minus left mem)
at_minus-Within left [] = tt
at_minus-Within left (c ∷ mem) =
    if_both (Within (suc (length mem))) _
      (Within-le (next_digit (b'-' ∷ c ∷ []) (left - 1) mem) (omega arith)
        (next_digit-Within (b'-' ∷ c ∷ []) (left - 1) mem))
      (if_both (Within (suc (length mem))) (c == b'0')
        (Within-le (at_zero (b'-' ∷ c ∷ []) (left - 1) mem) (omega arith)
          (at_zero-Within (b'-' ∷ c ∷ []) (left - 1) mem))
        tt)

word-Within :
    (kind : Kind) (s es : Bytes) (left : ℕ) (mem : Bytes)
    → Within (length mem) (word kind s es left mem)
word-Within kind s [] left mem = omega arith
word-Within kind s (e ∷ es) left [] = tt
word-Within kind s (e ∷ es) left (c ∷ mem) =
    if_both (Within (suc (length mem))) (c == e)
      (Within-le (word kind s es (left - 1) mem) (omega arith)
        (word-Within kind s es (left - 1) mem))
      tt

binary_of-Within : (n left : ℕ) (mem : Bytes) → Within (length mem) (binary_of n left mem)
binary_of-Within n left mem =
    if_both (Within (length mem)) (leb left n) tt
      (if_both (Within (length mem)) (ltb (length mem) n) tt (omega (arith, length-drop {0} n mem)))

binary-Within : (left : ℕ) (mem : Bytes) → Within (length mem) (binary left mem)
binary-Within left mem = if_both (Within (length mem)) (leb left 3) tt (go mem)
  where
    go : (m : Bytes) → Within (length m) (binary_at left m)
    go [] = tt
    go (a ∷ []) = tt
    go (a ∷ b ∷ []) = tt
    go (a ∷ b ∷ c ∷ []) = tt
    go (a ∷ b ∷ c ∷ d ∷ m) =
        Within-le (binary_of (read_uint32 a b c d) (left - 4) m) (omega arith)
          (binary_of-Within (read_uint32 a b c d) (left - 4) m)

at_n-Within : (left : ℕ) (mem : Bytes) → Within (length mem) (at_n left mem)
at_n-Within left [] = tt
at_n-Within left (c ∷ mem) =
    if_both (Within (suc (length mem))) (c == b'u')
      (Within-le (word json_null null_text (b'l' ∷ b'l' ∷ []) (left - 1) mem) (omega arith)
        (word-Within json_null null_text (b'l' ∷ b'l' ∷ []) (left - 1) mem))
      (if_both (Within (suc (length mem))) (c == b'b')
        (Within-le (binary (left - 1) mem) (omega arith) (binary-Within (left - 1) mem)) tt)

pub start_scalar-Within :
    (keyed : Bool) (ch left : ℕ) (mem : Bytes)
    → Within (length mem) (start_scalar keyed ch left mem)
unfolding start_scalar
start_scalar-Within keyed ch left mem =
    let P = Within (length mem) in
    if_both P (ch == b'"')
      (as_token-Within (length mem) (string_end [] left mem) (string_end-FoundWithin [] left mem))
      (if_both P (ch == b'-') (at_minus-Within left mem) (
        if_both P (ch == b'0') (at_zero-Within (ch ∷ []) left mem) (
          if_both P (leb b'1' ch && leb ch b'9') (next_digit-Within (ch ∷ []) left mem) (
            if_both P (ch == b't')
              (if_both P (keyed && leb left 3) tt
                (word-Within json_true true_text (b'r' ∷ b'u' ∷ b'e' ∷ []) left mem))
              (if_both P (ch == b'f')
                (if_both P (keyed && leb left 4) tt
                  (word-Within json_false false_text (b'a' ∷ b'l' ∷ b's' ∷ b'e' ∷ []) left mem))
                (if_both P (ch == b'n') (at_n-Within left mem) tt))))))
