-- ===== src/Cursor/Range.antt =====
-- What a cursor over a range returns.
pub mod Seeks
use another_c_library.Prelude.{
  ℕ, zero, suc, ◌+◌, ◌%◌, ◌^◌, ◌<◌, ◌≡◌, refl, ap, ◌∙◌, arith, true, false, List, [], ◌∷◌,
}
use another_c_library.Cursor.{
  Cursor, empty, advance, advance_range, range, post_reset_advance, read,
}

-- `n` numbers from `i` on.
abbrev pub numbers : ℕ → ℕ → List ℕ
numbers zero i = []
numbers (suc n) i = i ∷ numbers n (suc i)

abbrev at : ℕ → ℕ → Cursor
at i end = record {
  current = i;
  next = (i + 1) % 2 ^ 32;
  end = end;
  pending = false;
  stuck = false;
  emptied = false;
}

advance-at : (i end : ℕ) → end < 2 ^ 32 → i + 1 < end → advance (at i end) ≡ at (i + 1) end
unfolding advance advance_range
advance-at i end h k = ground arith

read-at :
    (n i end : ℕ)
    → end < 2 ^ 32
    → i + suc n ≡ end
    → read n (at i end) ≡ (numbers n (suc i), at (i + n) end)
read-at zero i end h e = let z : i ≡ i + 0 = omega arith in ap (λ k. ([], at k end)) z
read-at (suc n) i end h e =
    let a = advance-at i end h (omega arith) in
    let one : i + 1 ≡ suc i = omega arith in
    let b = ap (λ c. (c.current ∷ (read n c).0, (read n c).1)) (a ∙ ap (λ k. at k end) one) in
    let r = read-at n (suc i) end h (omega arith) in
    let z : suc i + n ≡ i + suc n = omega arith in
    b ∙ ap (λ q. (suc i ∷ q.0, q.1)) r ∙ ap (λ k. (suc i ∷ numbers n (suc (suc i)), at k end)) z

finish-at :
    (i end : ℕ)
    → end < 2 ^ 32
    → i + 1 ≡ end
    → ((advance (at i end)).current ≡ 0) × ((advance (at i end)).emptied ≡ true)
unfolding advance advance_range empty
finish-at i end h e = ground arith

-- A cursor over the numbers from `start` to `end`, without `end`, returns each of them in order, if
-- there is one, and 0 from then on.
pub read-range :
    (start n : ℕ)
    → start + suc n < 2 ^ 32
    → ((read (suc n) (range start (start + suc n))).0 ≡ numbers (suc n) start)
      × ((advance (read (suc n) (range start (start + suc n))).1).current ≡ 0)
      × ((advance (read (suc n) (range start (start + suc n))).1).emptied ≡ true)
unfolding advance range post_reset_advance
read-range start n h =
    let r = read-at n start (start + suc n) h refl in
    (
      ap (λ q. start ∷ q.0) r,
      ap (λ q. (advance q.1).current) r ∙ last.0,
      ap (λ q. (advance q.1).emptied) r ∙ last.1,
    )
  where
    last :
        ((advance (at (start + n) (start + suc n))).current ≡ 0)
        × ((advance (at (start + n) (start + suc n))).emptied ≡ true)
    last = finish-at (start + n) (start + suc n) h (omega arith)
