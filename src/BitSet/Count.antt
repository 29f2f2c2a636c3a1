-- ===== src/BitSet/Count.antt =====
-- The numbers in a set are counted by taking away one bit at a time.
use Prim.Native.Nat.{bit_and}
use native.Mathlib.Nat.{pow-suc}
use another_c_library.Prelude.{
  ℕ, zero, suc, ◌+◌, ◌-◌, ◌*◌, ◌/◌, ◌%◌, ◌^◌, ◌≤◌, ◌<◌, ◌≡◌, refl, sym, ap, ◌∙◌, arith, false, List,
  [], ◌∷◌, ◌==◌, get_or, Bool-cases, inl, inr, ==→eq,
}
use another_c_library.Prelude.Outcome.{done, map_outcome, ◌>>=◌}
use another_c_library.Prelude.Bits.{bit, bit-zero, bit_and_low, bit_and-lt}
use another_c_library.BitSet.{
  BitSet, map_words, count_word, count_words, bit_set_count, count_and_zero, member,
}
use another_c_library.BitSet.Members.{Words, member-has}

-- How many of the lowest `w` bits are 1.
abbrev pub ones : ℕ → ℕ → ℕ
ones zero n = 0
ones (suc w) n = n % 2 + ones w (n / 2)

abbrev pub population : List ℕ → ℕ
population [] = 0
population (x ∷ xs) = ones 64 x + population xs

ones-zero : (w : ℕ) → ones w 0 ≡ 0
ones-zero zero = refl
ones-zero (suc w) = omega (arith, ones-zero w)

ones-le : (w n : ℕ) → ones w n ≤ w
ones-le zero n = omega arith
ones-le (suc w) n = omega (arith, ones-le w (n / 2))

bit_and-same : (w n : ℕ) → n < 2 ^ w → bit_and n n ≡ n
bit_and-same zero n h = let e : n ≡ 0 = omega arith in rw e refl
bit_and-same (suc w) n h =
    omega (arith, bit_and_low n n, bit_and-same w (n / 2) (omega (arith, pow-suc 2 w)))

-- A number and the one before it share all bits but the lowest that is 1.
lowest_bit : (w n : ℕ) → n < 2 ^ w → 0 < n → ones w (bit_and n (n - 1)) + 1 ≡ ones w n
lowest_bit zero n h k = absurd (omega arith)
lowest_bit (suc w) n h k =
    let half : n / 2 < 2 ^ w = omega (arith, pow-suc 2 w) in
    elim (Bool-cases (n % 2 == 0)) [
      | inl p ↦
          let q = ==→eq (n % 2) 0 p in
          let a : (n - 1) / 2 ≡ n / 2 - 1 = omega arith in
          let e : bit_and n (n - 1) ≡ bit_and (n / 2) (n / 2 - 1) * 2 =
            omega (arith, bit_and_low n (n - 1), ap (bit_and (n / 2)) a) in
          let t : bit_and n (n - 1) / 2 ≡ bit_and (n / 2) (n / 2 - 1) = omega (arith, e) in
          omega (arith, e, ap (ones w) t, lowest_bit w (n / 2) half (omega arith))
      | inr p ↦
          let q : n % 2 ≡ 1 = ground arith in
          let a : (n - 1) / 2 ≡ n / 2 = omega arith in
          let e : bit_and n (n - 1) ≡ bit_and (n / 2) (n / 2) * 2 =
            omega (arith, bit_and_low n (n - 1), ap (bit_and (n / 2)) a) in
          let t : bit_and n (n - 1) / 2 ≡ n / 2 = omega (arith, e, bit_and-same w (n / 2) half) in
          omega (arith, e, ap (ones w) t)
    ]

count_word-ones :
    (w fuel n count : ℕ)
    → n < 2 ^ w
    → ones w n ≤ fuel
    → count < 2 ^ 32
    → count_word fuel n count ≡ done ((count + ones w n) % 2 ^ 32)
count_word-ones w fuel zero count h k c = ap done (omega (arith, ones-zero w))
count_word-ones w zero (suc n) count h k c =
    absurd (omega (arith, lowest_bit w (suc n) h (omega arith)))
count_word-ones w (suc fuel) (suc n) count h k c =
    let p : suc n - 1 ≡ n = omega arith in
    let l : ones w (bit_and (suc n) n) + 1 ≡ ones w (suc n) =
      ap (λ m. ones w (bit_and (suc n) m) + 1) (sym p) ∙ lowest_bit w (suc n) h (omega arith) in
    count_word-ones w fuel (bit_and (suc n) n) ((count + 1) % 2 ^ 32) (bit_and-lt w (suc n) n h)
      (omega arith) (omega arith)
    ∙ ap done (omega arith)

count_words-population :
    (xs : List ℕ) (count : ℕ)
    → Words xs
    → count < 2 ^ 32
    → count_words xs count ≡ done ((count + population xs) % 2 ^ 32)
count_words-population [] count w c = ap done (omega arith)
count_words-population (x ∷ xs) count w c =
    ap (λ o. o >>= (λ d. count_words xs d)) (count_word-ones 64 64 x count w.0 (ones-le 64 x) c)
    ∙ count_words-population xs ((count + ones 64 x) % 2 ^ 32) w.1 (omega arith)
    ∙ ap done (omega arith)

-- The loops end, and the count is the number of bits that are 1, as a 32-bit number.
pub bit_set_count-population :
    (h : BitSet) → Words h.items → bit_set_count h ≡ done (population h.items % 2 ^ 32)
unfolding bit_set_count
bit_set_count-population h w =
    count_words-population h.items 0 w (omega arith) ∙ ap done (omega arith)

cleared-get : (xs : List ℕ) (k : ℕ) → get_or (map_words (λ x. 0) xs) k 0 ≡ 0
cleared-get [] k = refl
cleared-get (x ∷ xs) zero = refl
cleared-get (x ∷ xs) (suc k) = cleared-get xs k

-- A set that is counted and emptied gives the same count as one that is counted, and no number is
-- in it any more.
pub count_and_zero-member :
    (h : BitSet)
    → Words h.items
    → (t : BitSet) × (count_and_zero h ≡ map_outcome (λ c. (c, t)) (bit_set_count h))
      × ((j : ℕ) → member t j ≡ false)
unfolding count_and_zero bit_set_count
count_and_zero-member h w =
    let t = record h { items = map_words (λ x. 0) h.items } in
    (
      t,
      refl,
      λ j.
          member-has t j
          ∙ ap (λ x. bit x (j % 64) == 1) (cleared-get h.items (j / 64))
          ∙ ap (λ b. b == 1) (bit-zero (j % 64)),
    )
