-- ===== src/Merge/Sorted.antt =====
-- The records of sorted readers come out sorted.
use another_c_library.Prelude.{
  ℕ, ◌+◌, ◌≡◌, refl, ap, ◌∙◌, arith, Bool, true, false, ◌&&◌, if◌then◌else◌, List, [], ◌∷◌,
}
use mathlib.Core.Path.{subst}
use another_c_library.Merge.{
  Input, Ext, in_less, heap_push, advance_one, move_all, move_active_to_heap,
}
use another_c_library.Merge.Heap.{IsOrder, IsHeap, push-IsHeap}
use another_c_library.Merge.Pop.{pop-IsHeap, first_least}
use another_c_library.Merge.Held.{total_zero, zero_total}
use another_c_library.Merge.Records.{
  sum, whole, in_heap, left, ahead, after, in_heap-moved, in_heap-after,
}

module _ {A : Type 0} (less : A → A → Bool) where
  -- No record of the list is below `m`.
  unfoldable pub above : A → List A → Bool
  above m [] = true
  above m (x ∷ xs) = if less x m then false else above m xs

  unfoldable pub sorted : List A → Bool
  sorted [] = true
  sorted (x ∷ xs) = above x xs && sorted xs

  abbrev pub unsorted : List A → ℕ
  unsorted xs = if sorted xs then 0 else 1

  abbrev pub below : A → A → ℕ
  below m x = if less x m then 1 else 0

  -- The heap is in order and each reader is sorted.
  abbrev pub IsReady : Ext A → Type 0
  IsReady ext = IsHeap (in_less less) ext.size ext.heap × (ahead unsorted ext ≡ 0)

  pub none_below : (m : A) (xs : List A) → sum (below m) xs ≡ 0 → above m xs ≡ true
  unfolding above sum
  none_below m [] h = refl
  none_below m (x ∷ xs) h =
      ap (λ b. if b then false else above m xs) (first (less x m) h)
      ∙ none_below m xs (omega (arith, h))
    where
      first : (b : Bool) → (if b then 1 else 0) + sum (below m) xs ≡ 0 → b ≡ false
      first true e = absurd (omega (arith, e))
      first false e = refl

module _ {A : Type 0} {less : A → A → Bool} (order : IsOrder less) where
  above_trans :
      (m x : A) (xs : List A)
      → less x m ≡ false
      → above less x xs ≡ true
      → sum (below less m) xs ≡ 0
  unfolding above sum
  above_trans m x [] h a = refl
  above_trans m x (y ∷ ys) h a =
      let (p, q) = parts a in
      let low = order.trans m x y h p in
      let rest = above_trans m x ys h q in
      let zero_low : below less m y ≡ 0 = ap (λ b. if b then 1 else 0) low in
      omega (arith, zero_low, rest)
    where
      parts :
          (if less y x then false else above less x ys) ≡ true
          → (less y x ≡ false) × (above less x ys ≡ true)
      parts e = ground (arith, e)

  pub in_less-IsOrder : IsOrder (in_less less)
  in_less-IsOrder = record {
    asym = λ a b. order.asym a.current b.current;
    trans = λ a b c. order.trans a.current b.current c.current;
  }

  pub sorted_rest :
      (x : A) (xs : List A)
      → unsorted less (x ∷ xs) ≡ 0
      → (above less x xs ≡ true) × (unsorted less xs ≡ 0)
  unfolding sorted
  sorted_rest x xs h = ground (arith, h)

  -- The moves in front of an advance leave a heap.
  move_all-IsHeap :
      (inputs : List (Input A)) (ext : Ext A)
      → IsHeap (in_less less) ext.size ext.heap
      → let moved = move_all less true inputs ext in IsHeap (in_less less) moved.size moved.heap
  unfolding move_all
  move_all-IsHeap [] ext h = h
  move_all-IsHeap (input ∷ inputs) ext h =
      move_all-IsHeap inputs (advance_one less input.rest ext) (one input.rest)
    where
      one :
          (xs : List A)
          → let next = advance_one less xs ext in IsHeap (in_less less) next.size next.heap
      one [] = h
      one (x ∷ xs) =
          push-IsHeap in_less-IsOrder ext.size ext.heap (record { current = x; rest = xs }) h

  pub move_back-IsHeap :
      (inputs : List (Input A)) (ext : Ext A)
      → IsHeap (in_less less) ext.size ext.heap
      → let moved = move_all less false inputs ext in IsHeap (in_less less) moved.size moved.heap
  unfolding move_all
  move_back-IsHeap [] ext h = h
  move_back-IsHeap (input ∷ inputs) ext h =
      move_back-IsHeap inputs (heap_push less input ext)
        (push-IsHeap in_less-IsOrder ext.size ext.heap input h)

  -- The first record of a heap of sorted readers is the least of all that are in it.
  heap_least :
      (moved : Ext A)
      → IsHeap (in_less less) moved.size moved.heap
      → in_heap (unsorted less) moved ≡ 0
      → in_heap (sum (below less (moved.heap 1).current)) moved ≡ 0
  unfolding sum
  heap_least moved h u =
      total_zero (λ i. sum (below less (moved.heap 1).current) (whole i)) moved.size moved.heap
        λ k a b.
          let (above_first, _) =
            sorted_rest (moved.heap k).current (moved.heap k).rest
              (zero_total (λ i. unsorted less (whole i)) moved.size moved.heap k u a b) in
          let low = first_least in_less-IsOrder k moved.size k moved.heap (omega arith) h a b in
          let zero_low : below less (moved.heap 1).current (moved.heap k).current ≡ 0 =
            ap (λ t. if t then 1 else 0) low in
          let rest =
            above_trans (moved.heap 1).current (moved.heap k).current (moved.heap k).rest low
              above_first in
          omega (arith, zero_low, rest)

  -- One advance of a ready merge: nothing is ahead, or the least record is given.
  module _ (ext : Ext A) (ready : IsReady less ext) where
    abbrev moved : Ext A
    moved = move_active_to_heap less true ext

    moved-IsHeap : IsHeap (in_less less) moved.size moved.heap
    moved-IsHeap = move_all-IsHeap ext.active ext ready.0

    moved_sorted : in_heap (unsorted less) moved ≡ 0
    unfolding sorted
    moved_sorted = in_heap-moved less (unsorted less) refl ext ∙ ready.1

    module _ (n : ℕ) (size : moved.size ≡ n + 1) where
      abbrev first : A
      first = (moved.heap 1).current

      -- What weighs nothing in an empty list loses what the first record weighs.
      pub after_ahead :
          (f : A → ℕ) → ahead (sum f) ext ≡ f first + ahead (sum f) (after less n moved)
      unfolding sum left
      after_ahead f =
          let before = in_heap-moved less (sum f) refl ext in
          let one = in_heap-after less (sum f) refl n moved size in omega (arith, before, one)

      pub after-IsReady : IsReady less (after less n moved)
      unfolding left sorted
      after-IsReady =
          let one = in_heap-after less (unsorted less) refl n moved size in
          let (_, rest) =
            sorted_rest first (moved.heap 1).rest (omega (arith, one, moved_sorted)) in
          (
            pop-IsHeap in_less-IsOrder n moved.heap
                (subst (λ k. IsHeap (in_less less) k moved.heap) size moved-IsHeap),
            omega (arith, one, moved_sorted, rest),
          )

      pub after_least : ahead (sum (below less first)) (after less n moved) ≡ 0
      unfolding left sum
      after_least =
          let before = heap_least moved moved-IsHeap moved_sorted in
          let one = in_heap-after less (sum (below less first)) refl n moved size in
          omega (arith, before, one)
