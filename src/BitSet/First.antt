-- ===== src/BitSet/First.antt =====
-- ac_bit_set_first: the least number of a set.
use another_c_library.Prelude.{
  ℕ, zero, suc, ◌+◌, ◌-◌, ◌*◌, ◌/◌, ◌%◌, ◌^◌, ◌≤◌, ◌<◌, ◌≡◌, ◌≢◌, refl, sym, ap, ap₂, ◌∙◌, arith,
  true, false, List, [], ◌∷◌, ◌==◌, ==→eq, eq→==, ltb, ltb→lt, if◌then◌else◌, get_or, Bool-cases,
  inl, inr,
}
use native.Mathlib.Nat.{pow-suc}
use mathlib.Core.Path.{subst⁻¹}
use another_c_library.Prelude.Bits.{bit, bit-zero}
use another_c_library.Prelude.Outcome.{done}
use another_c_library.BitSet.{BitSet, member, low_bit, first_from, bit_set_first}
use another_c_library.BitSet.Members.{Words, has, member-has}

-- The lowest bit of a word that is not 0.
record Lowest (n k : ℕ) : Type 0 where
  here : bit n k ≡ 1
  below : (j : ℕ) → j < k → bit n j ≡ 0

below_suc : (n k : ℕ) → n % 2 ≡ 0 → Lowest (n / 2) k → (j : ℕ) → j < suc k → bit n j ≡ 0
below_suc n k e low zero l = e
below_suc n k e low (suc j) l = low.below j (omega arith)

low_bit-suc :
    (fuel n id : ℕ) → (n % 2 == 0) ≡ true → low_bit (suc fuel) n id ≡ low_bit fuel (n / 2) (id + 1)
unfolding low_bit
low_bit-suc fuel n id h =
    ap (λ b. elim b [ true ↦ low_bit fuel (n / 2) (id + 1) | false ↦ done id ]) h

low_bit-done : (fuel n id : ℕ) → (n % 2 == 0) ≡ false → low_bit (suc fuel) n id ≡ done id
unfolding low_bit
low_bit-done fuel n id h =
    ap (λ b. elim b [ true ↦ low_bit fuel (n / 2) (id + 1) | false ↦ done id ]) h

low_bit-Lowest :
    (fuel n id : ℕ)
    → n ≢ 0
    → n < 2 ^ fuel
    → (k : ℕ) × (k < fuel) × (low_bit fuel n id ≡ done (id + k)) × Lowest n k
low_bit-Lowest zero n id ne h = absurd (omega (arith, ne))
low_bit-Lowest (suc fuel) n id ne h = elim (Bool-cases (n % 2 == 0)) [
  | inl e ↦
      let even : n % 2 ≡ 0 = ==→eq (n % 2) 0 e in
      let (k, small, found, low) =
        low_bit-Lowest fuel (n / 2) (id + 1) (λ z. absurd (omega (arith, ne, even, z)))
          (omega (arith, pow-suc 2 fuel)) in
      (
        suc k,
        omega arith,
        low_bit-suc fuel n id e ∙ found ∙ ap (λ i. done i) (omega arith),
        record { here = low.here; below = below_suc n k even low },
      )
  | inr e ↦
      let odd : n % 2 ≡ 1 = ground (arith, e) in
      (
        0,
        omega arith,
        low_bit-done fuel n id e ∙ ap (λ i. done i) (omega arith),
        record { here = odd; below = λ j l. absurd (omega (arith, l)) },
      )
]

has-cons : (n y : ℕ) (items : List ℕ) → has (n ∷ items) (64 + y) ≡ has items y
has-cons n y items =
    let block : (64 + y) / 64 ≡ suc (y / 64) = omega arith in
    let mask : (64 + y) % 64 ≡ y % 64 = omega arith in
    ap₂ (λ b m. bit (get_or (n ∷ items) b 0) m == 1) block mask

has-first : (n y : ℕ) (items : List ℕ) → y < 64 → has (n ∷ items) y ≡ (bit n y == 1)
has-first n y items l =
    let block : y / 64 ≡ 0 = omega arith in
    let mask : y % 64 ≡ y = omega arith in
    ap₂ (λ b m. bit (get_or (n ∷ items) b 0) m == 1) block mask

-- The least number at or behind the words in front, if there is any in `items`.
abbrev IsFirst : List ℕ → ℕ → ℕ → Type 0
IsFirst items block r =
    (y : ℕ)
    → has items y ≡ true
    → (block * 64 ≤ r) × (r ≤ block * 64 + y) × (has items (r - block * 64) ≡ true)

no_bits : (i : ℕ) → (bit 0 i == 1) ≡ true → ⊥
no_bits i e = ground (arith, bit-zero i, e)

zero_word :
    (items : List ℕ) (block r : ℕ) → IsFirst items (block + 1) r → IsFirst (0 ∷ items) block r
zero_word items block r h y e = elim (Bool-cases (ltb y 64)) [
  | inl l ↦ absurd (no_bits y (sym (has-first 0 y items (ltb→lt y 64 l)) ∙ e))
  | inr l ↦
      let split : 64 + (y - 64) ≡ y = ground (arith, l) in
      let there : has items (y - 64) ≡ true =
        sym (has-cons 0 (y - 64) items) ∙ ap (has (0 ∷ items)) split ∙ e in
      let (le, ge, have) = h (y - 64) there in
      let place : r - block * 64 ≡ 64 + (r - (block + 1) * 64) = omega (arith, le) in
      (
        omega (arith, le),
        omega (arith, ge, split),
        ap (has (0 ∷ items)) place ∙ has-cons 0 (r - (block + 1) * 64) items ∙ have,
      )
]

low_word :
    (n k block : ℕ) (items : List ℕ)
    → k < 64
    → Lowest n k
    → IsFirst (n ∷ items) block (block * 64 + k)
low_word n k block items l low y e =
    let place : block * 64 + k - block * 64 ≡ k = omega arith in
    (
      omega arith,
      omega (arith, least),
      ap (has (n ∷ items)) place ∙ has-first n k items l ∙ eq→== (bit n k) 1 low.here,
    )
  where
    least : k ≤ y
    least = elim (Bool-cases (ltb y k)) [
      | inl m ↦
          let less = ltb→lt y k m in
          let one = ==→eq (bit n y) 1 (sym (has-first n y items (omega arith)) ∙ e) in
          absurd (omega (arith, one, low.below y less))
      | inr m ↦ ground (arith, m)
    ]

first_from-IsFirst :
    (items : List ℕ) (block : ℕ)
    → Words items
    → (r : ℕ) × (first_from items block ≡ done r) × IsFirst items block r
unfolding first_from
first_from-IsFirst [] block h = (0, refl, λ y e. absurd (no_bits (y % 64) e))
first_from-IsFirst (n ∷ items) block h = elim (Bool-cases (n == 0)) [
  | inl e ↦
      let (r, found, first) = first_from-IsFirst items (block + 1) h.1 in
      (
        r,
        ap (λ b. if b then first_from items (block + 1) else low_bit 64 n (block * 64)) e ∙ found,
        subst⁻¹ (λ m. IsFirst (m ∷ items) block r) (==→eq n 0 e) (zero_word items block r first),
      )
  | inr e ↦
      let (k, small, found, low) =
        low_bit-Lowest 64 n (block * 64) (λ z. ground (arith, z, e)) h.0 in
      (
        block * 64 + k,
        ap (λ b. if b then first_from items (block + 1) else low_bit 64 n (block * 64)) e ∙ found,
        low_word n k block items small low,
      )
]

-- For 64-bit words the loops of ac_bit_set_first end, and if there is a number in the set, then the
-- one returned is in it, and none that is less.
pub bit_set_first-member :
    (h : BitSet)
    → Words h.items
    → (r : ℕ) × (bit_set_first h ≡ done r)
      × ((y : ℕ) → member h y ≡ true → (r ≤ y) × (member h r ≡ true))
unfolding bit_set_first
bit_set_first-member h words =
    let (r, found, first) = first_from-IsFirst h.items 0 words in
    (
      r,
      found,
      λ y e.
          let (le, ge, have) = first y (sym (member-has h y) ∙ e) in
          let place : r ≡ r - 0 * 64 = omega arith in
          (omega (arith, ge), member-has h r ∙ ap (has h.items) place ∙ have),
    )
