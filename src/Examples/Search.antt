-- ===== src/Examples/Search.antt =====
-- src/ac-search/ac_bit_set.c and src/ac-search/ac_cursor.c at concrete inputs.
use another_c_library.Prelude.{
  ℕ, ◌≤◌, ◌/◌, ◌*◌, ◌%◌, ◌^◌, ◌∷◌, [], ◌≡◌, refl, arith, false, not, true, ◌&&◌, ltb, ◌==◌,
  if◌then◌else◌, length,
}
use another_c_library.Prelude.Outcome.{done}
use another_c_library.BitSet.{
  BitSet, boolean, member, complement, copy, bit_set_count, bit_set_first,
}
use another_c_library.BitSet.First.{bit_set_first-member}
use another_c_library.BitSet.Members.{boolean-member}
use another_c_library.BitSet.Whole.{Sized, complement-member, copy-complement}
use another_c_library.BitSet.Count.{population, bit_set_count-population}

-- Sets for the numbers below 66.
abbrev odd : BitSet
odd = record { items = 0x2A ∷ 2 ∷ []; last_mask = 3 }

abbrev low : BitSet
low = record { items = 0xFF ∷ 0 ∷ []; last_mask = 3 }

odd-Sized : Sized 66 odd
odd-Sized = record { blocks = refl; masked = refl; words = (omega arith, (omega arith, tt)) }

boolean-member_example :
    member (boolean odd 65 false) 65
    ≡ (if (65 == 65) && ltb (65 / 64) (length odd.items) then false else member odd 65)
boolean-member_example = boolean-member odd 65 false 65

complement-member_example : member (complement odd) 64 ≡ (ltb 64 66 && not (member odd 64))
complement-member_example = complement-member 66 odd odd-Sized 64

copy-complement_example :
    member (complement (copy odd)) 64 ≡ (ltb 64 (66 / 64 * 64) && not (member odd 64))
copy-complement_example = copy-complement 66 odd odd-Sized 64

bit_set_count-population_example : bit_set_count odd ≡ done (population odd.items % 2 ^ 32)
bit_set_count-population_example = bit_set_count-population odd (omega arith, (omega arith, tt))

abbrev high_word : BitSet
high_word = record { items = 0 ∷ 12 ∷ []; last_mask = 0 }

bit_set_first-member_example :
    (r : ℕ) × (bit_set_first high_word ≡ done r)
    × ((y : ℕ) → member high_word y ≡ true → (r ≤ y) × (member high_word r ≡ true))
bit_set_first-member_example = bit_set_first-member high_word (omega arith, (omega arith, tt))
