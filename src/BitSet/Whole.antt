-- ===== src/BitSet/Whole.antt =====
-- The operations on a whole set, which keep the bits behind the last number clear by the mask.
use Prim.Native.Nat.{bit_and}
use native.Mathlib.Nat.{pow-suc, one-le-pow}
use another_c_library.Prelude.{
  ℕ, zero, suc, ◌+◌, ◌-◌, ◌*◌, ◌/◌, ◌%◌, ◌^◌, ◌≤◌, ◌<◌, ◌≡◌, refl, sym, ap, ◌∙◌, arith, Bool, true,
  false, not, ◌&&◌, List, [], ◌∷◌, ltb, ◌==◌, if◌then◌else◌, length, get_or, replicate,
  length-replicate, Bool-cases, inl, inr, ltb→lt,
}
use another_c_library.Prelude.Bits.{
  bit, bit-le-one, bit-zero, bit-bit_and, bit-complement, bit-high, bit_and-63,
}
use another_c_library.BitSet.{
  BitSet, complement_word, map_words, mask_last, ones_mask, bit_set_true, complement, copy, init,
  member,
}
use another_c_library.BitSet.Members.{Words, has, member-has, get_or-beyond, get_or-Words}

-- A set for the numbers below `n`.
pub record Sized (n : ℕ) (h : BitSet) : Type 0 where
  pub blocks : length h.items ≡ n / 64 + 1
  pub masked : h.last_mask ≡ 2 ^ (n % 64) - 1
  pub words : Words h.items

ones_mask-power : (n : ℕ) → n ≤ 64 → ones_mask n ≡ 2 ^ n - 1
ones_mask-power zero h = refl
ones_mask-power (suc n) h = omega (
  arith,
  ones_mask-power n (omega arith),
  pow-suc 2 n,
  one-le-pow n 2,
  power-le n 63 (omega arith),
)
  where
    power-le : (m w : ℕ) → m ≤ w → 2 ^ m ≤ 2 ^ w
    power-le zero w h = omega (arith, one-le-pow w 2)
    power-le (suc m) zero h = elim h [ ]
    power-le (suc m) (suc w) h = omega (arith, pow-suc 2 m, pow-suc 2 w, power-le m w (omega arith))

ones-bit : (m i : ℕ) → bit (2 ^ m - 1) i ≡ (if ltb i m then 1 else 0)
ones-bit m i = elim (Bool-cases (ltb i m)) [
  | inl p ↦
      ap (λ k. bit k i) (omega arith)
      ∙ bit-complement i m 0 (ltb→lt i m p) (omega (arith, one-le-pow m 2))
      ∙ omega (arith, bit-zero i)
      ∙ ap (λ b. if b then 1 else 0) (sym p)
  | inr p ↦
      bit-high m i (2 ^ m - 1) (omega (arith, one-le-pow m 2)) (ground arith)
      ∙ ap (λ b. if b then 1 else 0) (sym p)
]

map_words-get :
    (f : ℕ → ℕ) (xs : List ℕ) (k : ℕ)
    → k < length xs
    → get_or (map_words f xs) k 0 ≡ f (get_or xs k 0)
map_words-get f [] k h = elim h [ ]
map_words-get f (x ∷ xs) zero h = refl
map_words-get f (x ∷ xs) (suc k) h = map_words-get f xs k (omega arith)

map_words-length : (f : ℕ → ℕ) (xs : List ℕ) → length (map_words f xs) ≡ length xs
map_words-length f [] = refl
map_words-length f (x ∷ xs) = ap suc (map_words-length f xs)

mask_last-get :
    (m : ℕ) (xs : List ℕ) (k : ℕ)
    → k < length xs
    → get_or (mask_last m xs) k 0
      ≡ (if suc k == length xs then bit_and (get_or xs k 0) m else get_or xs k 0)
mask_last-get m [] k h = elim h [ ]
mask_last-get m (x ∷ []) zero h = refl
mask_last-get m (x ∷ []) (suc k) h = absurd (omega arith)
mask_last-get m (x ∷ y ∷ xs) zero h = ground arith
mask_last-get m (x ∷ y ∷ xs) (suc k) h =
    mask_last-get m (y ∷ xs) k (omega arith)
    ∙ ap (λ b. if b then bit_and (get_or (y ∷ xs) k 0) m else get_or (y ∷ xs) k 0) (ground arith)

mask_last-length : (m : ℕ) (xs : List ℕ) → length (mask_last m xs) ≡ length xs
mask_last-length m [] = refl
mask_last-length m (x ∷ []) = refl
mask_last-length m (x ∷ y ∷ xs) = ap suc (mask_last-length m (y ∷ xs))

-- A mask whose bits are those below `m` leaves the numbers below `q * 64 + m`.
masked-has :
    (xs : List ℕ) (q m mask j : ℕ)
    → length xs ≡ q + 1
    → m < 64
    → ((i : ℕ) → bit mask i ≡ (if ltb i m then 1 else 0))
    → has (mask_last mask xs) j ≡ (ltb j (q * 64 + m) && has xs j)
masked-has xs q m mask j l h e = elim (Bool-cases (ltb (j / 64) (q + 1))) [
  | inl p ↦
      let k = ltb→lt (j / 64) (q + 1) p in
      let g = mask_last-get mask xs (j / 64) (omega (arith, l, k)) in
      ap (λ x. bit x (j % 64) == 1) g
      ∙ ground (
        arith,
        l,
        k,
        e (j % 64),
        bit-bit_and (j % 64) (get_or xs (j / 64) 0) mask,
        bit-le-one (j % 64) (get_or xs (j / 64) 0),
      )
  | inr p ↦
      ap (λ x. bit x (j % 64) == 1)
        (get_or-beyond (mask_last mask xs) (j / 64) (ground (arith, l, mask_last-length mask xs)))
      ∙ ap (λ z. z == 1) (bit-zero (j % 64))
      ∙ ground arith
]

-- The words of a set after `f`, which acts on each bit as `op`, and under a mask of `m` bits.
changed-has :
    (f : ℕ → ℕ) (op : Bool → Bool) (h : BitSet) (q m mask : ℕ)
    → length h.items ≡ q + 1
    → Words h.items
    → m < 64
    → ((i : ℕ) → bit mask i ≡ (if ltb i m then 1 else 0))
    → ((x i : ℕ) → x < 2 ^ 64 → i < 64 → (bit (f x) i == 1) ≡ op (bit x i == 1))
    → (j : ℕ)
    → has (mask_last mask (map_words f h.items)) j ≡ (ltb j (q * 64 + m) && op (member h j))
changed-has f op h q m mask l w k bits e j =
    masked-has (map_words f h.items) q m mask j (map_words-length f h.items ∙ l) k bits
    ∙ go (ltb j (q * 64 + m)) refl
  where
    go :
        (b : Bool)
        → ltb j (q * 64 + m) ≡ b
        → (b && has (map_words f h.items) j) ≡ (b && op (member h j))
    go false c = refl
    go true c =
        ap (λ x. bit x (j % 64) == 1)
          (map_words-get f h.items (j / 64) (omega (arith, l, k, ltb→lt j (q * 64 + m) c)))
        ∙ e (get_or h.items (j / 64) 0) (j % 64) (get_or-Words h.items (j / 64) w) (omega arith)
        ∙ ap op (sym (member-has h j))

changed-member :
    (f : ℕ → ℕ) (op : Bool → Bool) (n : ℕ) (h : BitSet)
    → Sized n h
    → ((x i : ℕ) → x < 2 ^ 64 → i < 64 → (bit (f x) i == 1) ≡ op (bit x i == 1))
    → (j : ℕ) → has (mask_last h.last_mask (map_words f h.items)) j ≡ (ltb j n && op (member h j))
changed-member f op n h s e j =
    changed-has f op h (n / 64) (n % 64) h.last_mask s.blocks s.words (omega arith)
      (λ i. ap (λ m. bit m i) s.masked ∙ ones-bit (n % 64) i) e j
    ∙ ap (λ k. ltb j k && op (member h j)) (omega arith)

complement-bit :
    (x i : ℕ) → x < 2 ^ 64 → i < 64 → (bit (complement_word x) i == 1) ≡ not (bit x i == 1)
complement-bit x i l k = ground (arith, bit-complement i 64 x k l, bit-le-one i x)

-- The complement of a set for the numbers below `n` holds those of them that the set does not.
pub complement-member :
    (n : ℕ) (h : BitSet)
    → Sized n h
    → (j : ℕ) → member (complement h) j ≡ (ltb j n && not (member h j))
unfolding complement
complement-member n h s j =
    member-has (complement h) j ∙ changed-member complement_word not n h s complement-bit j

-- A set that is made true holds all the numbers below `n`, and no other.
pub bit_set_true-member :
    (n : ℕ) (h : BitSet) → Sized n h → (j : ℕ) → member (bit_set_true h) j ≡ ltb j n
unfolding bit_set_true
bit_set_true-member n h s j =
    member-has (bit_set_true h) j
    ∙ changed-member (λ x. 2 ^ 64 - 1) (λ b. true) n h s
        (λ x i l k. ground (arith, bit-complement i 64 0 k (omega arith), bit-zero i)) j
    ∙ and_true (ltb j n)
  where
    and_true : (b : Bool) → (b && true) ≡ b
    and_true true = refl
    and_true false = refl

replicate-Words : (n : ℕ) → Words (replicate n 0)
replicate-Words zero = tt
replicate-Words (suc n) = (omega arith, replicate-Words n)

get_or-replicate : (n k : ℕ) → get_or {A = ℕ} (replicate n 0) k 0 ≡ 0
get_or-replicate zero k = refl
get_or-replicate (suc n) zero = refl
get_or-replicate (suc n) (suc k) = get_or-replicate n k

-- A new set has the size that is asked for, and is empty.
pub init-Sized : (n : ℕ) → Sized n (init n) × ((j : ℕ) → member (init n) j ≡ false)
unfolding init
init-Sized n = (
  record {
    blocks = length-replicate {0} (n / 64 + 1) 0;
    masked = ap ones_mask (bit_and-63 n) ∙ ones_mask-power (n % 64) (omega arith);
    words = replicate-Words (n / 64 + 1);
  },
  λ j.
      member-has (init n) j
      ∙ ap (λ x. bit x (j % 64) == 1) (get_or-replicate (n / 64 + 1) (j / 64))
      ∙ ap (λ b. b == 1) (bit-zero (j % 64)),
)

-- A copy has lost the mask: its complement has none of the numbers of the last word, below `n` or
-- not.
pub copy-complement :
    (n : ℕ) (h : BitSet)
    → Sized n h
    → (j : ℕ) → member (complement (copy h)) j ≡ (ltb j (n / 64 * 64) && not (member h j))
unfolding copy complement
copy-complement n h s j =
    member-has (complement (copy h)) j
    ∙ changed-has complement_word not h (n / 64) 0 0 s.blocks s.words (omega arith)
        (λ i. bit-zero i ∙ ground arith) complement-bit j
    ∙ ap (λ k. ltb j k && not (member h j)) (omega arith)
