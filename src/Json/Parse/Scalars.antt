-- ===== src/Json/Parse/Scalars.antt =====
-- Scalars are read back from their text.
use another_c_library.Prelude.{
  ℕ, zero, suc, ◌+◌, ◌-◌, Bool, true, false, ◌&&◌, [], ◌∷◌, ◌++◌, append_assoc, leb, ltb, ◌==◌,
  Bytes, length, length-append, ◌≡◌, ◌≢◌, ◌⊎◌, inl, inr, refl, ap, ap₂, ◌∙◌, arith,
}
use mathlib.Core.Path.{subst⁻¹}
use another_c_library.Json.Value.{Kind, json_number, json_decimal}
use another_c_library.Json.Text.{ClosedFrom, Digits, IsNatural, IsNumber, IsDecimal}
use another_c_library.Json.Parse.Scan.{
  is_space, is_digit, rev_onto, found, string_end, token, as_token, digits, decimal_number,
  next_digit, at_zero, at_minus, start_scalar,
}

pub string_end-ClosedFrom :
    (seen s : Bytes) (left m : ℕ) (rest : Bytes)
    → left ≡ length s + suc m
    → ClosedFrom seen s
    → string_end seen left (s ++ (b'"' ∷ rest)) ≡ found (rev_onto seen s) m rest
string_end-ClosedFrom seen [] zero m rest e h = absurd (omega arith)
string_end-ClosedFrom seen [] (suc left) m rest e h =
    let z : left ≡ m = omega arith in rw (h, z) refl
string_end-ClosedFrom seen (c ∷ s) zero m rest e h = absurd (omega arith)
string_end-ClosedFrom seen (c ∷ s) (suc left) m rest e h =
    let on = string_end-ClosedFrom (c ∷ seen) s left m rest (omega arith) h.1 in
    ground (arith, on, h.0)

digits-Digits :
    (ds : Bytes) (d : ℕ) (rest : Bytes)
    → Digits ds
    → is_digit d ≡ false
    → digits (ds ++ (d ∷ rest)) ≡ (ds, d ∷ rest)
digits-Digits [] d rest h e = rw e refl
digits-Digits (c ∷ ds) d rest h e = rw (h.0, digits-Digits ds d rest h.1 e) refl

next_digit-Digits :
    (pre ds : Bytes) (left d : ℕ) (rest : Bytes)
    → Digits ds
    → is_digit d ≡ false
    → (d == b'.') ≡ false
    → next_digit pre left (ds ++ (d ∷ rest))
      ≡ token json_number (pre ++ ds) (left - length ds) (d ∷ rest)
next_digit-Digits pre ds left d rest h e f = rw (digits-Digits ds d rest h e, f) refl

decimal_number-Digits :
    (pre : Bytes) (c : ℕ) (ds : Bytes) (left d : ℕ) (rest : Bytes)
    → Digits (c ∷ ds)
    → is_digit d ≡ false
    → decimal_number pre left (c ∷ (ds ++ (d ∷ rest)))
      ≡ token json_decimal (pre ++ (c ∷ ds)) (left - 1 - length ds) (d ∷ rest)
decimal_number-Digits pre c ds left d rest h e = rw (digits-Digits ds d rest h.1 e, h.0) refl

-- Digits, and a point behind them.
next_digit-point :
    (pre ds : Bytes) (left : ℕ) (mem : Bytes)
    → Digits ds
    → next_digit pre left (ds ++ (b'.' ∷ mem))
      ≡ decimal_number ((pre ++ ds) ++ (b'.' ∷ [])) (left - length ds - 1) mem
next_digit-point pre ds left mem h = rw (digits-Digits ds b'.' mem h refl) refl

pub start-quote :
    (keyed : Bool) (left : ℕ) (mem : Bytes)
    → start_scalar keyed b'"' left mem ≡ as_token (string_end [] left mem)
unfolding start_scalar
start-quote keyed left mem = refl

start-minus :
    (keyed : Bool) (left : ℕ) (mem : Bytes) → start_scalar keyed b'-' left mem ≡ at_minus left mem
unfolding start_scalar
start-minus keyed left mem = refl

start-zero :
    (keyed : Bool) (left : ℕ) (mem : Bytes)
    → start_scalar keyed b'0' left mem ≡ at_zero (b'0' ∷ []) left mem
unfolding start_scalar
start-zero keyed left mem = refl

start-natural :
    (keyed : Bool) (c left : ℕ) (mem : Bytes)
    → (leb b'1' c && leb c b'9') ≡ true
    → start_scalar keyed c left mem ≡ next_digit (c ∷ []) left mem
unfolding start_scalar
start-natural keyed c left mem h = ground (arith, h)

minus-natural :
    (c left : ℕ) (mem : Bytes)
    → (leb b'1' c && leb c b'9') ≡ true
    → at_minus left (c ∷ mem) ≡ next_digit (b'-' ∷ c ∷ []) (left - 1) mem
minus-natural c left mem h = rw h refl

-- A text whose first byte begins a scalar, and which is read as that scalar, in front of a byte
-- that no number goes on with.
pub record Reads (keyed : Bool) (kind : Kind) (s : Bytes) (t : Bytes) : Type 0 where
  pub first : ℕ
  pub others : Bytes
  pub shape : t ≡ first ∷ others
  pub not_space : is_space first ≡ false
  pub not_brace : (first == b'{') ≡ false
  pub not_bracket : (first == b'[') ≡ false
  pub not_close : (first == b']') ≡ false
  pub scanned :
      (n d : ℕ) (rest : Bytes)
      → is_digit d ≡ false
      → (d == b'.') ≡ false
      → start_scalar keyed first (length others + suc n) (others ++ (d ∷ rest))
        ≡ token kind s (suc n) (d ∷ rest)

pub token_left :
    {kind : Kind} {s : Bytes} {k l : ℕ} {rest : Bytes}
    → k ≡ l
    → token kind s k rest ≡ token kind s l rest
token_left {kind} {s} {k} {l} {rest} e = ap (λ n. token kind s n rest) e

natural-Reads :
    (keyed : Bool) (c : ℕ) (ds : Bytes)
    → IsNatural (c ∷ ds)
    → Reads keyed json_number (c ∷ ds) (c ∷ ds)
natural-Reads keyed c ds h = record {
  first = c;
  others = ds;
  shape = refl;
  not_space = ground (arith, h.0);
  not_brace = ground (arith, h.0);
  not_bracket = ground (arith, h.0);
  not_close = ground (arith, h.0);
  scanned = λ n d rest e f.
      start-natural keyed c (length ds + suc n) (ds ++ (d ∷ rest)) h.0
      ∙ next_digit-Digits (c ∷ []) ds (length ds + suc n) d rest h.1 e f
      ∙ token_left (omega arith);
}

-- What begins with a minus sign.
minus-Reads :
    (keyed : Bool) (kind : Kind) (s : Bytes)
    → ((n d : ℕ) (rest : Bytes)
        → is_digit d ≡ false
        → (d == b'.') ≡ false
        → at_minus (length s + suc n) (s ++ (d ∷ rest)) ≡ token kind (b'-' ∷ s) (suc n) (d ∷ rest))
    → Reads keyed kind (b'-' ∷ s) (b'-' ∷ s)
minus-Reads keyed kind s h = record {
  first = b'-';
  others = s;
  shape = refl;
  not_space = refl;
  not_brace = refl;
  not_bracket = refl;
  not_close = refl;
  scanned = λ n d rest e f. start-minus keyed (length s + suc n) (s ++ (d ∷ rest)) ∙ h n d rest e f;
}

pub zero-Reads :
    (keyed : Bool) (kind : Kind) (s t : Bytes)
    → ((n d : ℕ) (rest : Bytes)
        → is_digit d ≡ false
        → (d == b'.') ≡ false
        → at_zero (b'0' ∷ []) (length s + suc n) (s ++ (d ∷ rest))
          ≡ token kind t (suc n) (d ∷ rest))
    → Reads keyed kind t (b'0' ∷ s)
zero-Reads keyed kind s t h = record {
  first = b'0';
  others = s;
  shape = refl;
  not_space = refl;
  not_brace = refl;
  not_bracket = refl;
  not_close = refl;
  scanned = λ n d rest e f. start-zero keyed (length s + suc n) (s ++ (d ∷ rest)) ∙ h n d rest e f;
}

pub number-Reads : (keyed : Bool) (s : Bytes) → IsNumber s → Reads keyed json_number s s
number-Reads keyed [] h = absurd h
number-Reads keyed (c ∷ s) (inl h) = natural-Reads keyed c s h
number-Reads keyed (c ∷ []) (inr h) = absurd h.1
number-Reads keyed (c ∷ d ∷ ds) (inr h) =
    subst⁻¹ (λ k. Reads keyed json_number (k ∷ d ∷ ds) (k ∷ d ∷ ds)) h.0
      (minus-Reads keyed json_number (d ∷ ds) (λ n e rest p q.
        minus-natural d (suc (length ds) + suc n) (ds ++ (e ∷ rest)) h.1.0
        ∙ next_digit-Digits (b'-' ∷ d ∷ []) ds (suc (length ds) + suc n - 1) e rest h.1.1 p q
        ∙ token_left (omega arith)))

-- The fraction of a decimal.
module _ (f : ℕ) (fs : Bytes) (h : Digits (f ∷ fs)) where
  zero_decimal :
      (pre : Bytes) (left n d : ℕ) (rest : Bytes)
      → is_digit d ≡ false
      → left ≡ suc (suc (length fs)) + suc n
      → at_zero pre left ((b'.' ∷ f ∷ fs) ++ (d ∷ rest))
        ≡ token json_decimal ((pre ++ (b'.' ∷ [])) ++ (f ∷ fs)) (suc n) (d ∷ rest)
  zero_decimal pre left n d rest e l =
      let more : ltb 1 left ≡ true = ground arith in
      let on = decimal_number-Digits (pre ++ (b'.' ∷ [])) f fs (left - 1) d rest h e in
      rw more (on ∙ token_left (omega arith))

  natural_decimal :
      (pre ds : Bytes) (left n d : ℕ) (rest : Bytes)
      → Digits ds
      → is_digit d ≡ false
      → left ≡ length (ds ++ (b'.' ∷ f ∷ fs)) + suc n
      → next_digit pre left ((ds ++ (b'.' ∷ f ∷ fs)) ++ (d ∷ rest))
        ≡ token json_decimal ((pre ++ ds) ++ (b'.' ∷ f ∷ fs)) (suc n) (d ∷ rest)
  natural_decimal pre ds left n d rest k e l =
      ap (next_digit pre left) (append_assoc ds (b'.' ∷ f ∷ fs) (d ∷ rest))
      ∙ next_digit-point pre ds left (f ∷ (fs ++ (d ∷ rest))) k
      ∙ decimal_number-Digits ((pre ++ ds) ++ (b'.' ∷ [])) f fs (left - length ds - 1) d rest h e
      ∙ ap₂ (λ s m. token json_decimal s m (d ∷ rest))
          (append_assoc (pre ++ ds) (b'.' ∷ []) (f ∷ fs))
          (omega (arith, l, length-append {0} ds (b'.' ∷ f ∷ fs)))

  decimal_of :
      (keyed : Bool) (whole : Bytes)
      → (whole ≡ b'0' ∷ []) ⊎ ((whole ≡ b'-' ∷ b'0' ∷ []) ⊎ IsNumber whole)
      → Reads keyed json_decimal (whole ++ (b'.' ∷ f ∷ fs)) (whole ++ (b'.' ∷ f ∷ fs))
  decimal_of keyed whole (inl e) =
      subst⁻¹ (λ w. Reads keyed json_decimal (w ++ (b'.' ∷ f ∷ fs)) (w ++ (b'.' ∷ f ∷ fs))) e
        (zero-Reads keyed json_decimal (b'.' ∷ f ∷ fs) (b'0' ∷ b'.' ∷ f ∷ fs) (λ n d rest p q.
          zero_decimal (b'0' ∷ []) (suc (suc (length fs)) + suc n) n d rest p refl))
  decimal_of keyed whole (inr (inl e)) =
      subst⁻¹ (λ w. Reads keyed json_decimal (w ++ (b'.' ∷ f ∷ fs)) (w ++ (b'.' ∷ f ∷ fs))) e
        (minus-Reads keyed json_decimal (b'0' ∷ b'.' ∷ f ∷ fs) (λ n d rest p q.
          zero_decimal (b'-' ∷ b'0' ∷ []) (suc (suc (suc (length fs))) + suc n - 1) n d rest p
            (omega arith)))
  decimal_of keyed [] (inr (inr k)) = absurd k
  decimal_of keyed (c ∷ ds) (inr (inr (inl k))) = record {
    first = c;
    others = ds ++ (b'.' ∷ f ∷ fs);
    shape = refl;
    not_space = ground (arith, k.0);
    not_brace = ground (arith, k.0);
    not_bracket = ground (arith, k.0);
    not_close = ground (arith, k.0);
    scanned = λ n d rest p q.
        start-natural keyed c (length (ds ++ (b'.' ∷ f ∷ fs)) + suc n)
          ((ds ++ (b'.' ∷ f ∷ fs)) ++ (d ∷ rest)) k.0
        ∙ natural_decimal (c ∷ []) ds (length (ds ++ (b'.' ∷ f ∷ fs)) + suc n) n d rest k.1 p refl;
  }
  decimal_of keyed (c ∷ []) (inr (inr (inr k))) = absurd k.1
  decimal_of keyed (c ∷ e ∷ ds) (inr (inr (inr k))) =
      subst⁻¹
        (λ w.
          Reads keyed json_decimal (w ∷ e ∷ (ds ++ (b'.' ∷ f ∷ fs)))
            (w ∷ e ∷ (ds ++ (b'.' ∷ f ∷ fs))))
        k.0
        (minus-Reads keyed json_decimal (e ∷ (ds ++ (b'.' ∷ f ∷ fs))) (λ n d rest p q.
          let l = suc (length (ds ++ (b'.' ∷ f ∷ fs))) + suc n in
          minus-natural e l ((ds ++ (b'.' ∷ f ∷ fs)) ++ (d ∷ rest)) k.1.0
          ∙ natural_decimal (b'-' ∷ e ∷ []) ds (l - 1) n d rest k.1.1 p (omega arith)))

pub decimal-Reads : (keyed : Bool) (s : Bytes) → IsDecimal s → Reads keyed json_decimal s s
decimal-Reads keyed s h =
    subst⁻¹ (λ t. Reads keyed json_decimal t t) h.parts
      (go h.fraction h.some_digits.0 h.some_digits.1)
  where
    go :
        (fr : Bytes)
        → Digits fr
        → fr ≢ []
        → Reads keyed json_decimal (h.whole ++ (b'.' ∷ fr)) (h.whole ++ (b'.' ∷ fr))
    go [] k ne = absurd (ne refl)
    go (f ∷ fs) k ne = decimal_of f fs k keyed h.whole h.zero_or_number
