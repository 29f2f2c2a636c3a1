-- ===== src/Buffer/Memory.antt =====
-- Writes into a block of memory.
use another_c_library.Prelude.{
  ℕ, zero, suc, ◌+◌, ◌≤◌, ◌<◌, leb, if◌then◌else◌, true, ◌∙◌, [], ◌∷◌, ◌++◌, ◌≡◌, refl, sym, ap,
  length-append, arith, Bytes, length, get_or, take,
}

-- memcpy of the bytes to index `i`; what would lie outside of the block is left out.
unfoldable pub write : Bytes → ℕ → Bytes → Bytes
write [] i bs = []
write (x ∷ st) (suc i) bs = x ∷ write st i bs
write (x ∷ st) zero [] = x ∷ st
write (x ∷ st) zero (b ∷ bs) = b ∷ write st zero bs

pub length-write : (st : Bytes) (i : ℕ) (bs : Bytes) → length (write st i bs) ≡ length st
unfolding write
length-write [] i bs = refl
length-write (x ∷ st) (suc i) bs = ap suc (length-write st i bs)
length-write (x ∷ st) zero [] = refl
length-write (x ∷ st) zero (b ∷ bs) = ap suc (length-write st zero bs)

-- What lies in front of the index is as it was.
pub take-write_before :
    (n : ℕ) (st : Bytes) (i : ℕ) (bs : Bytes) → n ≤ i → take n (write st i bs) ≡ take n st
unfolding write
take-write_before zero st i bs h = refl
take-write_before (suc n) [] i bs h = refl
take-write_before (suc n) (x ∷ st) zero bs h = absurd (omega arith)
take-write_before (suc n) (x ∷ st) (suc i) bs h =
    ap (◌∷◌ x) (take-write_before n st i bs (omega arith))

-- Up to the end of the bytes written stand what was in front of the index, and these bytes.
pub take-write :
    (st : Bytes) (i : ℕ) (bs : Bytes)
    → i + length bs ≤ length st
    → take (i + length bs) (write st i bs) ≡ take i st ++ bs
unfolding write
take-write [] zero [] h = refl
take-write [] zero (b ∷ bs) h = absurd (omega arith)
take-write [] (suc i) bs h = absurd (omega arith)
take-write (x ∷ st) zero [] h = refl
take-write (x ∷ st) zero (b ∷ bs) h =
    let e : 0 + suc (length bs) ≡ suc (0 + length bs) = omega arith in
    rw e (ap (◌∷◌ b) (take-write st 0 bs (omega arith)))
take-write (x ∷ st) (suc i) bs h =
    let e : suc i + length bs ≡ suc (i + length bs) = omega arith in
    rw e (ap (◌∷◌ x) (take-write st i bs (omega arith)))

pub get_or-write : (st : Bytes) (i v d : ℕ) → i < length st → get_or (write st i (v ∷ [])) i d ≡ v
unfolding write
get_or-write [] i v d h = absurd (omega arith)
get_or-write (x ∷ st) zero v d h = refl
get_or-write (x ∷ st) (suc i) v d h = get_or-write st i v d (omega arith)

pub take-append_le : (n : ℕ) (xs ys : Bytes) → n ≤ length xs → take n (xs ++ ys) ≡ take n xs
take-append_le zero xs ys h = refl
take-append_le (suc n) [] ys h = absurd (omega arith)
take-append_le (suc n) (x ∷ xs) ys h = ap (◌∷◌ x) (take-append_le n xs ys (omega arith))

pub take-take : (n m : ℕ) (xs : Bytes) → n ≤ m → take n (take m xs) ≡ take n xs
take-take zero m xs h = refl
take-take (suc n) zero xs h = absurd (omega arith)
take-take (suc n) (suc m) [] h = refl
take-take (suc n) (suc m) (x ∷ xs) h = ap (◌∷◌ x) (take-take n m xs (omega arith))

pub write-append :
    (st : Bytes) (i : ℕ) (xs ys : Bytes)
    → write st i (xs ++ ys) ≡ write (write st i xs) (i + length xs) ys
unfolding write
write-append [] i xs ys = refl
write-append (x ∷ st) (suc i) xs ys =
    let e : suc i + length xs ≡ suc (i + length xs) = omega arith in
    rw e (ap (◌∷◌ x) (write-append st i xs ys))
write-append (x ∷ st) zero [] ys = refl
write-append (x ∷ st) zero (b ∷ xs) ys =
    let e : 0 + suc (length xs) ≡ suc (0 + length xs) = omega arith in
    rw e (ap (◌∷◌ b) (write-append st 0 xs ys))

-- memcpy into a block. What is in memory is not defined once a write goes over the end of the block:
-- nothing is kept then.
unfoldable pub copy_to : Bytes → ℕ → Bytes → Bytes
copy_to st i bs = if leb (i + length bs) (length st) then write st i bs else []

pub copy_to_inside :
    (st : Bytes) (i : ℕ) (bs : Bytes) → i + length bs ≤ length st → copy_to st i bs ≡ write st i bs
unfolding copy_to
copy_to_inside st i bs h =
    let inside : leb (i + length bs) (length st) ≡ true = ground (arith, h) in
    ap (λ b. if b then write st i bs else []) inside

pub copy_to-append :
    (st : Bytes) (i : ℕ) (xs ys : Bytes)
    → i + length xs + length ys ≤ length st
    → copy_to st i (xs ++ ys) ≡ copy_to (copy_to st i xs) (i + length xs) ys
copy_to-append st i xs ys h =
    let whole = length-append {0} xs ys in
    let same = length-write st i xs in
    copy_to_inside st i (xs ++ ys) (omega (arith, whole, h))
    ∙ write-append st i xs ys
    ∙ sym (
        ap (λ s. copy_to s (i + length xs) ys) (copy_to_inside st i xs (omega (arith, h)))
        ∙ copy_to_inside (write st i xs) (i + length xs) ys (omega (arith, same, h)))
