-- ===== src/BitSet/Members.antt =====
-- Which numbers are in a set, through every change of one number and every combination of two sets.
use Prim.Native.Nat.{bit_and, bit_or}
use native.Mathlib.Nat.{pow-suc, one-le-pow}
use another_c_library.Prelude.{
  ℕ, zero, suc, ◌*◌, ◌/◌, ◌%◌, ◌^◌, ◌≤◌, ◌<◌, ◌≡◌, ◌≢◌, refl, sym, ap, ap₂, ◌∙◌, arith, Bool, true,
  false, not, ◌&&◌, ◌||◌, List, [], ◌∷◌, All, leb, ltb, ◌==◌, if◌then◌else◌, length, get_or,
  get_or-set, get_or-set_ne, set, Bool-cases, inl, inr, ltb→lt, leb→le, ==→eq,
}
use another_c_library.Prelude.Bits.{
  bit, bit-le-one, bit-zero, bit-bit_and, bit-bit_or, bit-complement, bit-power_self, bit-power_ne,
  bit_and_low, bit_and-zero, bit_and-63,
}
use another_c_library.Prelude.Outcome.{done, map_outcome}
use another_c_library.BitSet.{
  BitSet, with_items, combine, bit_set_and, bit_set_or, bit_set_not, complement_word, set_bit,
  unset_bit, boolean, member,
}

-- The words of a set.
abbrev pub Words : List ℕ → Type 0
Words = All (λ x. x < 2 ^ 64)

bit_and-power : (i x : ℕ) → bit_and x (2 ^ i) ≡ bit x i * 2 ^ i
bit_and-power zero x = omega (arith, bit_and_low x 1, bit_and-zero (x / 2))
bit_and-power (suc i) x =
    let half = ap (bit_and (x / 2)) (omega (arith, pow-suc 2 i)) in
    let ih = bit_and-power i (x / 2) in go (bit (x / 2) i) (bit-le-one i (x / 2)) ih half
  where
    go :
        (b : ℕ)
        → b ≤ 1
        → bit_and (x / 2) (2 ^ i) ≡ b * 2 ^ i
        → bit_and (x / 2) (2 ^ suc i / 2) ≡ bit_and (x / 2) (2 ^ i)
        → bit_and x (2 ^ suc i) ≡ b * 2 ^ suc i
    go zero h ih half = omega (arith, bit_and_low x (2 ^ suc i), pow-suc 2 i)
    go (suc zero) h ih half = omega (arith, bit_and_low x (2 ^ suc i), pow-suc 2 i)
    go (suc (suc b)) h ih half = absurd (omega arith)

-- Membership by the bit itself.
abbrev pub has : List ℕ → ℕ → Bool
has items id = bit (get_or items (id / 64) 0) (id % 64) == 1

pub get_or-beyond : (xs : List ℕ) (i : ℕ) → length xs ≤ i → get_or xs i 0 ≡ 0
get_or-beyond [] i h = refl
get_or-beyond (x ∷ xs) zero h = elim h [ ]
get_or-beyond (x ∷ xs) (suc i) h = get_or-beyond xs i (omega arith)

test-bit : (x i : ℕ) → not (bit_and x (2 ^ i) == 0) ≡ (bit x i == 1)
test-bit x i = go (bit x i) (bit-le-one i x) (bit_and-power i x)
  where
    go : (b : ℕ) → b ≤ 1 → bit_and x (2 ^ i) ≡ b * 2 ^ i → not (bit_and x (2 ^ i) == 0) ≡ (b == 1)
    go zero h e = ground (arith, e)
    go (suc zero) h e = ground (arith, e, one-le-pow i 2)
    go (suc (suc b)) h e = absurd (omega arith)

pub member-has : (h : BitSet) (id : ℕ) → member h id ≡ has h.items id
unfolding member
member-has h id =
    let e = test-bit (get_or h.items (id / 64) 0) (id % 64) in
    rw (bit_and-63 id) (elim (Bool-cases (leb (length h.items) (id / 64))) [
      | inl l ↦ rw l (
          sym (
            ap (λ w. bit w (id % 64) == 1) (get_or-beyond h.items (id / 64) (leb→le _ _ l))
            ∙ ap (λ b. b == 1) (bit-zero (id % 64))))
      | inr l ↦ rw l e
    ])

-- The index of a word and the one of a bit tell numbers apart.
same_place : (j id : ℕ) → (j / 64 == id / 64) ≡ true → (j % 64 == id % 64) ≡ (j == id)
same_place j id p = ground arith

other_place : (j id : ℕ) → (j / 64 == id / 64) ≡ false → (j == id) ≡ false
other_place j id p = ground arith

other_block : (j id : ℕ) → (j / 64 == id / 64) ≡ false → id / 64 ≢ j / 64
other_block j id p e = ground arith

-- A change of bit `id % 64` of word `id / 64` to `v` is a change of membership of `id` alone.
has-set :
    (xs : List ℕ) (id j w : ℕ) (v : Bool)
    → id / 64 < length xs
    → ((i : ℕ)
        → i < 64
        → (bit w i == 1) ≡ (if i == id % 64 then v else bit (get_or xs (id / 64) 0) i == 1))
    → has (set xs (id / 64) w) j ≡ (if j == id then v else has xs j)
has-set xs id j w v l e = elim (Bool-cases (j / 64 == id / 64)) [
  | inl p ↦
      let q = ==→eq (j / 64) (id / 64) p in
      ap (λ k. bit (get_or (set xs (id / 64) w) k 0) (j % 64) == 1) q
      ∙ ap (λ y. bit y (j % 64) == 1) (get_or-set xs (id / 64) w 0 l)
      ∙ e (j % 64) (omega arith)
      ∙ ap₂ (λ c k. if c then v else bit (get_or xs k 0) (j % 64) == 1) (same_place j id p) (sym q)
  | inr p ↦
      ap (λ y. bit y (j % 64) == 1) (get_or-set_ne xs (id / 64) (j / 64) w 0 (other_block j id p))
      ∙ ap (λ c. if c then v else has xs j) (sym (other_place j id p))
]

bit-power : (m i : ℕ) → bit (2 ^ m) i ≡ (if i == m then 1 else 0)
bit-power m i = elim (Bool-cases (i == m)) [
  | inl p ↦ ap (bit (2 ^ m)) (==→eq i m p) ∙ bit-power_self m ∙ ap (λ b. if b then 1 else 0) (sym p)
  | inr p ↦ bit-power_ne m i (λ e. ground arith) ∙ ap (λ b. if b then 1 else 0) (sym p)
]

or-bit : (x m i : ℕ) → (bit (bit_or x (2 ^ m)) i == 1) ≡ (if i == m then true else bit x i == 1)
or-bit x m i = ground (arith, bit-bit_or i x (2 ^ m), bit-power m i, bit-le-one i x)

pub get_or-Words : (xs : List ℕ) (i : ℕ) → Words xs → get_or xs i 0 < 2 ^ 64
get_or-Words [] i h = omega arith
get_or-Words (x ∷ xs) zero h = h.0
get_or-Words (x ∷ xs) (suc i) h = get_or-Words xs i h.1

power-lt : (m w : ℕ) → m < w → 2 ^ m < 2 ^ w
power-lt m zero h = elim h [ ]
power-lt zero (suc w) h = omega (arith, pow-suc 2 w, one-le-pow w 2)
power-lt (suc m) (suc w) h = omega (arith, pow-suc 2 m, pow-suc 2 w, power-lt m w (omega arith))

and-bit :
    (x m i : ℕ)
    → m < 64
    → i < 64
    → (bit (bit_and x (complement_word (2 ^ m))) i == 1) ≡ (if i == m then false else bit x i == 1)
and-bit x m i h k = ground (
  arith,
  bit-bit_and i x (complement_word (2 ^ m)),
  bit-complement i 64 (2 ^ m) k (power-lt m 64 h),
  bit-power m i,
  bit-le-one i x,
)

-- The word of `id` after the change.
abbrev changed : List ℕ → ℕ → Bool → ℕ
changed xs id v =
    let w = get_or xs (id / 64) 0 in
    if v then bit_or w (2 ^ (id % 64)) else bit_and w (complement_word (2 ^ (id % 64)))

boolean-items :
    (h : BitSet) (id : ℕ) (v : Bool)
    → (boolean h id v).items ≡ (
        if ltb (id / 64) (length h.items)
        then set h.items (id / 64) (changed h.items id v)
        else h.items)
unfolding boolean set_bit unset_bit
boolean-items h id true = rw (bit_and-63 id) (ground arith)
boolean-items h id false = rw (bit_and-63 id) (ground arith)

changed-bit :
    (xs : List ℕ) (id : ℕ) (v : Bool) (i : ℕ)
    → i < 64
    → (bit (changed xs id v) i == 1)
      ≡ (if i == id % 64 then v else bit (get_or xs (id / 64) 0) i == 1)
changed-bit xs id true i k = or-bit (get_or xs (id / 64) 0) (id % 64) i
changed-bit xs id false i k = and-bit (get_or xs (id / 64) 0) (id % 64) i (omega arith) k

-- After a change of one number, that number is in the set as the change says, if the set has a word
-- for it, and all the others are as they were.
pub boolean-member :
    (h : BitSet) (id : ℕ) (v : Bool) (j : ℕ)
    → member (boolean h id v) j
      ≡ (if (j == id) && ltb (id / 64) (length h.items) then v else member h j)
boolean-member h id v j =
    member-has (boolean h id v) j
    ∙ ap (λ xs. has xs j) (boolean-items h id v)
    ∙ go (ltb (id / 64) (length h.items)) refl
    ∙ ap (λ m. if (j == id) && ltb (id / 64) (length h.items) then v else m) (sym (member-has h j))
  where
    and_true : (b : Bool) → (b && true) ≡ b
    and_true true = refl
    and_true false = refl

    and_false : (b : Bool) → (b && false) ≡ false
    and_false true = refl
    and_false false = refl

    go :
        (b : Bool)
        → ltb (id / 64) (length h.items) ≡ b
        → has (if b then set h.items (id / 64) (changed h.items id v) else h.items) j
          ≡ (if (j == id) && ltb (id / 64) (length h.items) then v else has h.items j)
    go true l =
        has-set h.items id j (changed h.items id v) v (ltb→lt _ _ l) (changed-bit h.items id v)
        ∙ ap (λ b. if b then v else has h.items j)
            (sym (and_true (j == id)) ∙ ap (λ b. (j == id) && b) (sym l))
    go false l =
        ap (λ b. if b then v else has h.items j)
          (sym (and_false (j == id)) ∙ ap (λ b. (j == id) && b) (sym l))

-- What `combine` makes of two lists of words.
record Combined (f : ℕ → ℕ → ℕ) (xs ys t : List ℕ) : Type 0 where
  pub same_length : length t ≡ length xs
  pub each : (k : ℕ) → k < length xs → get_or t k 0 ≡ f (get_or xs k 0) (get_or ys k 0)

combine-Combined :
    (f : ℕ → ℕ → ℕ) (xs ys : List ℕ)
    → length xs ≤ length ys
    → (t : List ℕ) × (combine f xs ys ≡ done t) × Combined f xs ys t
combine-Combined f [] ys l = ([], refl, record { same_length = refl; each = λ k h. elim h [ ] })
combine-Combined f (x ∷ xs) [] l = elim l [ ]
combine-Combined f (x ∷ xs) (y ∷ ys) l =
    let r = combine-Combined f xs ys (omega arith) in
    (
      f x y ∷ r.0,
      ap (map_outcome (◌∷◌ (f x y))) r.1,
      record { same_length = ap suc r.2.same_length; each = each r.0 r.2 },
    )
  where
    each :
        (t : List ℕ)
        → Combined f xs ys t
        → (k : ℕ) → k < suc (length xs)
        → get_or (f x y ∷ t) k 0 ≡ f (get_or (x ∷ xs) k 0) (get_or (y ∷ ys) k 0)
    each t c zero h = refl
    each t c (suc k) h = c.each k (omega arith)

-- A function on words that acts on each bit as `op`.
abbrev Bitwise : (ℕ → ℕ → ℕ) → (Bool → Bool → Bool) → Type 0
Bitwise f op =
    (x y i : ℕ) → y < 2 ^ 64 → i < 64 → (bit (f x y) i == 1) ≡ op (bit x i == 1) (bit y i == 1)

combined-member :
    (f : ℕ → ℕ → ℕ) (op : Bool → Bool → Bool)
    → Bitwise f op
    → (a b : BitSet) → Words b.items
    → length a.items ≤ length b.items
    → (t : BitSet) × (map_outcome (with_items a) (combine f a.items b.items) ≡ done t)
      × ((j : ℕ) → member t j ≡ (ltb (j / 64) (length a.items) && op (member a j) (member b j)))
combined-member f op e a b w l =
    let r = combine-Combined f a.items b.items l in
    (
      with_items a r.0,
      ap (map_outcome (with_items a)) r.1,
      λ j. go j r.0 r.2 (ltb (j / 64) (length a.items)) refl,
    )
  where
    go :
        (j : ℕ) (t : List ℕ)
        → Combined f a.items b.items t
        → (c : Bool) → ltb (j / 64) (length a.items) ≡ c
        → member (with_items a t) j
          ≡ (ltb (j / 64) (length a.items) && op (member a j) (member b j))
    go j t c true h =
        member-has (with_items a t) j
        ∙ ap (λ x. bit x (j % 64) == 1) (c.each (j / 64) (ltb→lt _ _ h))
        ∙ e (get_or a.items (j / 64) 0) (get_or b.items (j / 64) 0) (j % 64)
            (get_or-Words b.items (j / 64) w) (omega arith)
        ∙ ap₂ op (sym (member-has a j)) (sym (member-has b j))
        ∙ ap (λ z. z && op (member a j) (member b j)) (sym h)
    go j t c false h =
        member-has (with_items a t) j
        ∙ ap (λ x. bit x (j % 64) == 1) (get_or-beyond t (j / 64) (ground (arith, c.same_length)))
        ∙ ap (λ z. z == 1) (bit-zero (j % 64))
        ∙ ap (λ z. z && op (member a j) (member b j)) (sym h)

-- A conjunction holds what both sets hold, of the numbers that the first one has words for; it
-- reads no word that the second one does not have, if that has as many.
pub bit_set_and-member :
    (a b : BitSet)
    → Words b.items
    → length a.items ≤ length b.items
    → (t : BitSet) × (bit_set_and a b ≡ done t)
      × ((j : ℕ) → member t j ≡ (ltb (j / 64) (length a.items) && (member a j && member b j)))
unfolding bit_set_and
bit_set_and-member =
    combined-member bit_and ◌&&◌
      (λ x y i h k. ground (arith, bit-bit_and i x y, bit-le-one i x, bit-le-one i y))

-- A disjunction holds what one of the sets holds, of the numbers that the first one has words for.
pub bit_set_or-member :
    (a b : BitSet)
    → Words b.items
    → length a.items ≤ length b.items
    → (t : BitSet) × (bit_set_or a b ≡ done t)
      × ((j : ℕ) → member t j ≡ (ltb (j / 64) (length a.items) && (member a j || member b j)))
unfolding bit_set_or
bit_set_or-member =
    combined-member bit_or ◌||◌
      (λ x y i h k. ground (arith, bit-bit_or i x y, bit-le-one i x, bit-le-one i y))

-- A difference holds what the first set holds and the second one does not.
pub bit_set_not-member :
    (a b : BitSet)
    → Words b.items
    → length a.items ≤ length b.items
    → (t : BitSet) × (bit_set_not a b ≡ done t)
      × ((j : ℕ) → member t j ≡ (ltb (j / 64) (length a.items) && (member a j && not (member b j))))
unfolding bit_set_not
bit_set_not-member =
    combined-member (λ x y. bit_and x (complement_word y)) (λ p q. p && not q)
      (λ x y i h k. ground (
        arith,
        bit-bit_and i x (complement_word y),
        bit-complement i 64 y k h,
        bit-le-one i x,
        bit-le-one i y,
      ))
