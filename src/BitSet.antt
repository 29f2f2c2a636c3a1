-- ===== src/BitSet.antt =====
-- src/ac-search/ac_bit_set.c: sets of numbers as bits in 64-bit words, less the cursor over them.
pub mod Members
pub mod Whole
pub mod Count
pub mod First
use Prim.Native.Nat.{bit_and, bit_or}
use another_c_library.Prelude.{
  ℕ, zero, suc, ◌+◌, ◌-◌, ◌*◌, ◌/◌, ◌%◌, ◌^◌, Bool, true, false, not, ◌&&◌, List, [], ◌∷◌, leb, ltb,
  ◌==◌, if◌then◌else◌, length, get_or, set, drop, replicate,
}
use another_c_library.Prelude.Outcome.{Outcome, done, overread, out_of_fuel, map_outcome, ◌>>=◌}

pub record BitSet : Type 0 where
  pub items : List ℕ
  pub last_mask : ℕ

abbrev pub complement_word : ℕ → ℕ
complement_word n = 2 ^ 64 - 1 - n

-- Two sets word by word, for as long as the first one is.
abbrev pub combine : (ℕ → ℕ → ℕ) → List ℕ → List ℕ → Outcome (List ℕ)
combine f [] ys = done []
combine f (x ∷ xs) [] = overread
combine f (x ∷ xs) (y ∷ ys) = map_outcome (◌∷◌ (f x y)) (combine f xs ys)

abbrev pub with_items : BitSet → List ℕ → BitSet
with_items h items = record h { items = items }

-- ac_bit_set_not, ac_bit_set_or and ac_bit_set_and
unfoldable pub bit_set_not : BitSet → BitSet → Outcome BitSet
bit_set_not dest to_not =
    map_outcome (with_items dest)
      (combine (λ x y. bit_and x (complement_word y)) dest.items to_not.items)

unfoldable pub bit_set_or : BitSet → BitSet → Outcome BitSet
bit_set_or dest to_or = map_outcome (with_items dest) (combine bit_or dest.items to_or.items)

unfoldable pub bit_set_and : BitSet → BitSet → Outcome BitSet
bit_set_and dest to_and = map_outcome (with_items dest) (combine bit_and dest.items to_and.items)

abbrev pub map_words : (ℕ → ℕ) → List ℕ → List ℕ
map_words f [] = []
map_words f (x ∷ xs) = f x ∷ map_words f xs

-- The last word under the mask.
abbrev pub mask_last : ℕ → List ℕ → List ℕ
mask_last m [] = []
mask_last m (x ∷ []) = bit_and x m ∷ []
mask_last m (x ∷ y ∷ xs) = x ∷ mask_last m (y ∷ xs)

unfoldable pub bit_set_false : BitSet → BitSet
bit_set_false h = record h { items = map_words (λ x. 0) h.items }

unfoldable pub bit_set_true : BitSet → BitSet
bit_set_true h = record h { items = mask_last h.last_mask (map_words (λ x. 2 ^ 64 - 1) h.items) }

unfoldable pub complement : BitSet → BitSet
complement h = record h { items = mask_last h.last_mask (map_words complement_word h.items) }

-- The mask is left out, as in the source: the new structure is zeroed.
unfoldable pub copy : BitSet → BitSet
copy src = record { items = src.items; last_mask = 0 }

abbrev pub ones_mask : ℕ → ℕ
ones_mask zero = 0
ones_mask (suc n) = (ones_mask n * 2 + 1) % 2 ^ 64

unfoldable pub init : ℕ → BitSet
init num_items = record {
  items = replicate (num_items / 64 + 1) 0;
  last_mask = ones_mask (bit_and num_items 63);
}

abbrev pub one_bit : ℕ → ℕ
one_bit mask = 2 ^ mask

-- ac_bit_set_set, ac_bit_set_unset and ac_bit_set_boolean
unfoldable pub set_bit : BitSet → ℕ → BitSet
set_bit h id =
    let block = id / 64 in
    let mask = bit_and id 63 in
    if leb (length h.items) block
    then h
    else record h { items = set h.items block (bit_or (get_or h.items block 0) (one_bit mask)) }

unfoldable pub unset_bit : BitSet → ℕ → BitSet
unset_bit h id =
    let block = id / 64 in
    let mask = bit_and id 63 in
    if leb (length h.items) block then h else record h {
      items = set h.items block (bit_and (get_or h.items block 0) (complement_word (one_bit mask)));
    }

unfoldable pub boolean : BitSet → ℕ → Bool → BitSet
unfolding set_bit unset_bit
boolean h id v = if v then set_bit h id else unset_bit h id

-- ac_bit_set
unfoldable pub member : BitSet → ℕ → Bool
member h id =
    let block = id / 64 in
    let mask = bit_and id 63 in
    if leb (length h.items) block
    then false
    else not (bit_and (get_or h.items block 0) (one_bit mask) == 0)

-- The loop of Kernighan over one word, which takes its lowest bit away.
abbrev pub count_word : ℕ → ℕ → ℕ → Outcome ℕ
count_word fuel zero count = done count
count_word zero (suc n) count = out_of_fuel
count_word (suc fuel) (suc n) count = count_word fuel (bit_and (suc n) n) ((count + 1) % 2 ^ 32)

abbrev pub count_words : List ℕ → ℕ → Outcome ℕ
count_words [] count = done count
count_words (x ∷ xs) count = count_word 64 x count >>= (λ c. count_words xs c)

unfoldable pub bit_set_count : BitSet → Outcome ℕ
bit_set_count h = count_words h.items 0

-- The set is left empty.
unfoldable pub count_and_zero : BitSet → Outcome (ℕ × BitSet)
count_and_zero h =
    map_outcome (λ c. (c, record h { items = map_words (λ x. 0) h.items })) (count_words h.items 0)

-- The loop of ac_bit_set_first over the bits of a word, and that over the words.
unfoldable pub low_bit : ℕ → ℕ → ℕ → Outcome ℕ
low_bit zero n id = out_of_fuel
low_bit (suc fuel) n id = elim (n % 2 == 0) [
  | true ↦ low_bit fuel (n / 2) (id + 1)
  | false ↦ done id
]

unfoldable pub first_from : List ℕ → ℕ → Outcome ℕ
unfolding low_bit
first_from [] block = done 0
first_from (n ∷ items) block =
    let on = first_from items (block + 1) in if n == 0 then on else low_bit 64 n (block * 64)

-- ac_bit_set_first
unfoldable pub bit_set_first : BitSet → Outcome ℕ
unfolding first_from
bit_set_first h = first_from h.items 0
