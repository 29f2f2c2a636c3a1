-- ===== src/Json/Utf8/Laws.antt =====
-- What unicode_to_utf8 reads and writes.
use another_c_library.Prelude.{
  ℕ, zero, suc, [], ◌∷◌, Option, none, some, ◌≡◌, ◌≢◌, refl, ap, arith, Bytes,
}
use another_c_library.Prelude.Outcome.{Outcome, done, overread, out_of_fuel, ◌>>=◌}
use another_c_library.Json.Utf8.{
  Scan, hex_value, hex_digits, pair_value, second_half, encoded, code_point, unicode_to_utf8,
}

hex_digits-bad :
    (k ch a : ℕ) (p : Bytes) → hex_value a ≡ none → hex_digits (suc k) ch (a ∷ p) ≡ done none
unfolding hex_digits
hex_digits-bad k ch a p h = rw (h, hex_digits)

pub unicode_to_utf8-digits :
    (src : Bytes) {o : Scan ℕ}
    → hex_digits 4 0 src ≡ o
    → unicode_to_utf8 src ≡ (o >>= code_point >>= encoded)
unfolding unicode_to_utf8
unicode_to_utf8-digits src e = ap (λ (r : Scan ℕ). r >>= code_point >>= encoded) e

-- Where the first character is no digit, -1 is returned and nothing is read behind it.
pub unicode_to_utf8-bad :
    (a : ℕ) (p : Bytes) → hex_value a ≡ none → unicode_to_utf8 (a ∷ p) ≡ done none
unfolding code_point
unicode_to_utf8-bad a p h = unicode_to_utf8-digits (a ∷ p) (hex_digits-bad 3 0 a p h)

-- Each routine ends without a bound on its rounds.
abbrev Ends {ℓ} : {A : Type ℓ} → Outcome A → Type ℓ
Ends o = o ≢ out_of_fuel

hex_digits-Ends : (k ch : ℕ) (s : Bytes) → Ends (hex_digits k ch s)
unfolding hex_digits
hex_digits-Ends zero ch s = λ e. cc e
hex_digits-Ends (suc k) ch [] = λ e. cc e
hex_digits-Ends (suc k) ch (c ∷ s) = grind (arith, hex_digits-Ends k)

pair_value-Ends : (ch : ℕ) (o : Option (ℕ × Bytes)) → Ends (pair_value ch o)
unfolding pair_value
pair_value-Ends ch none = λ e. cc e
pair_value-Ends ch (some (c, s)) = ground arith

bind-Ends {ℓ κ} :
    {A : Type ℓ} {B : Type κ} (o : Outcome A) (f : A → Outcome B)
    → Ends o
    → ((a : A) → Ends (f a))
    → Ends (o >>= f)
bind-Ends (done a) f h k = k a
bind-Ends overread f h k = λ e. cc e
bind-Ends out_of_fuel f h k = absurd (h refl)

second_half-Ends : (ch : ℕ) (s : Bytes) → Ends (second_half ch s)
unfolding second_half
second_half-Ends ch [] = λ e. cc e
second_half-Ends ch (c ∷ []) = ground arith
second_half-Ends ch (c ∷ u ∷ s) = ground (
  arith,
  bind-Ends (hex_digits 4 0 s) (pair_value ch) (hex_digits-Ends 4 0 s) (pair_value-Ends ch),
)

code_point-Ends : (o : Option (ℕ × Bytes)) → Ends (code_point o)
unfolding code_point
code_point-Ends none = λ e. cc e
code_point-Ends (some (ch, s)) = ground (arith, second_half-Ends ch s)

encoded-Ends : (o : Option (ℕ × Bytes)) → Ends (encoded o)
encoded-Ends none = λ e. cc e
encoded-Ends (some (ch, s)) = λ e. cc e

pub unicode_to_utf8-Ends : (src : Bytes) → Ends (unicode_to_utf8 src)
unfolding unicode_to_utf8
unicode_to_utf8-Ends src =
    bind-Ends (hex_digits 4 0 src >>= code_point) encoded
      (bind-Ends (hex_digits 4 0 src) code_point (hex_digits-Ends 4 0 src) code_point-Ends)
      encoded-Ends
