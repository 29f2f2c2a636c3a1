-- ===== src/InBase/Lists.antt =====
-- Parts of a block of memory.
use another_c_library.Prelude.{
  ℕ, zero, suc, ◌+◌, ◌-◌, ◌≤◌, ◌≡◌, refl, sym, ap, ◌∙◌, arith, [], ◌∷◌, ◌++◌, Bytes, length, get_or,
  set, take, drop, length-take, length-drop,
}
use another_c_library.Buffer.Memory.{write, take-write}
use another_c_library.InBase.{slice}

pub set-set_back : (m : Bytes) (i v : ℕ) → set (set m i v) i (get_or m i 0) ≡ m
set-set_back [] i v = refl
set-set_back (x ∷ m) zero v = refl
set-set_back (x ∷ m) (suc i) v = ap (◌∷◌ x) (set-set_back m i v)

pub take-drop : (n : ℕ) (xs : Bytes) → take n xs ++ drop n xs ≡ xs
take-drop zero xs = refl
take-drop (suc n) [] = refl
take-drop (suc n) (x ∷ xs) = ap (◌∷◌ x) (take-drop n xs)

pub drop_all : (n : ℕ) (xs : Bytes) → length xs ≤ n → drop n xs ≡ []
drop_all zero [] h = refl
drop_all zero (x ∷ xs) h = absurd (omega arith)
drop_all (suc n) [] h = refl
drop_all (suc n) (x ∷ xs) h = drop_all n xs (omega arith)

pub drop-append_le : (n : ℕ) (xs ys : Bytes) → n ≤ length xs → drop n (xs ++ ys) ≡ drop n xs ++ ys
drop-append_le zero xs ys h = refl
drop-append_le (suc n) [] ys h = absurd (omega arith)
drop-append_le (suc n) (x ∷ xs) ys h = drop-append_le n xs ys (omega arith)

pub drop-append_ge :
    (n : ℕ) (xs ys : Bytes) → length xs ≤ n → drop n (xs ++ ys) ≡ drop (n - length xs) ys
drop-append_ge n [] ys h = ap (λ k. drop k ys) (omega arith)
drop-append_ge zero (x ∷ xs) ys h = absurd (omega arith)
drop-append_ge (suc n) (x ∷ xs) ys h =
    let e : n - length xs ≡ suc n - suc (length xs) = omega arith in
    drop-append_ge n xs ys (omega arith) ∙ ap (λ k. drop k ys) e

pub take-append_ge :
    (n : ℕ) (xs ys : Bytes) → length xs ≤ n → take n (xs ++ ys) ≡ xs ++ take (n - length xs) ys
take-append_ge n [] ys h = ap (λ k. take k ys) (omega arith)
take-append_ge zero (x ∷ xs) ys h = absurd (omega arith)
take-append_ge (suc n) (x ∷ xs) ys h =
    let e : n - length xs ≡ suc n - suc (length xs) = omega arith in
    ap (◌∷◌ x) (take-append_ge n xs ys (omega arith) ∙ ap (λ k. xs ++ take k ys) e)

take-nil : (n : ℕ) → take {A = ℕ} n [] ≡ []
take-nil zero = refl
take-nil (suc n) = refl

drop-nil : (n : ℕ) → drop {A = ℕ} n [] ≡ []
drop-nil zero = refl
drop-nil (suc n) = refl

pub slice-eq_take : (i n j : ℕ) (m : Bytes) → i + n ≤ j → slice i (i + n) m ≡ take n (slice i j m)
slice-eq_take zero n j m h = ap (λ k. take k m) (omega arith) ∙ inner n j m (omega arith)
  where
    inner : (n j : ℕ) (m : Bytes) → n ≤ j → take n m ≡ take n (take j m)
    inner zero j m h = refl
    inner (suc n) zero m h = absurd (omega arith)
    inner (suc n) (suc j) [] h = refl
    inner (suc n) (suc j) (x ∷ m) h = ap (◌∷◌ x) (inner n j m (omega arith))
slice-eq_take (suc i) n zero m h = absurd (omega arith)
slice-eq_take (suc i) n (suc j) [] h = ap (drop (suc i)) (take-nil (suc i + n)) ∙ sym (take-nil n)
slice-eq_take (suc i) n (suc j) (x ∷ m) h =
    let e : suc i + n ≡ suc (i + n) = omega arith in rw e (slice-eq_take i n j m (omega arith))

pub drop-drop : (i n : ℕ) (xs : Bytes) → drop n (drop i xs) ≡ drop (i + n) xs
drop-drop zero n xs = ap (λ k. drop k xs) (omega arith)
drop-drop (suc i) n [] = drop-nil n ∙ sym (drop-nil (suc i + n))
drop-drop (suc i) n (x ∷ xs) =
    let e : suc i + n ≡ suc (i + n) = omega arith in
    drop-drop i n xs ∙ ap (λ k. drop k (x ∷ xs)) (sym e)

pub length-slice : (i j : ℕ) (m : Bytes) → j ≤ length m → length (slice i j m) ≡ j - i
length-slice i j m h = omega (arith, length-drop i (take j m), length-take j m)

-- Bytes that are put at the end of a part of the block make it longer.
pub slice-write :
    (i j : ℕ) (m bs : Bytes)
    → i ≤ j
    → j + length bs ≤ length m
    → slice i (j + length bs) (write m j bs) ≡ slice i j m ++ bs
slice-write i j m bs h k =
    ap (drop i) (take-write m j bs k)
    ∙ drop-append_le i (take j m) bs (omega (arith, length-take j m))

-- A part of the block that is moved to its front.
pub take-write_front : (m bs : Bytes) → length bs ≤ length m → take (length bs) (write m 0 bs) ≡ bs
take-write_front m bs h =
    ap (λ k. take k (write m 0 bs)) (omega arith) ∙ take-write m 0 bs (omega arith)
