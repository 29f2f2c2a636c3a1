-- ===== src/Merge/Unique.antt =====
-- What ac_in_ext_advance_unique gives.
use another_c_library.Prelude.{
  ℕ, ◌+◌, ◌≡◌, refl, ap, arith, Bool, true, if◌then◌else◌, inl, inr, ◌⊎◌, List, [], ◌∷◌, ◌++◌, map,
  All, Option, some, none,
}
use another_c_library.Merge.{Input, Ext, move_active_to_heap, take_same, ext_advance_unique}
use another_c_library.Merge.Held.{total_zero, zero_total}
use another_c_library.Merge.Records.{
  sum, whole, in_heap, left, again, ahead, after, ext_advance_cases,
}
use another_c_library.Merge.Sorted.{
  unsorted, below, IsReady, sorted_rest, after_ahead, after-IsReady, after_least,
}
use another_c_library.Merge.Whole.{nothing_ahead}
use another_c_library.Merge.Same.{IsCompare, same_count, low_count, Taken, take_same-Taken}

abbrev currents : {A : Type 0} → List (Input A) → List A
currents inputs = map (λ input. input.current) inputs

again-sum :
    {A : Type 0} (f : A → ℕ) (inputs : List (Input A))
    → again (sum f) inputs ≡ sum f (currents inputs) + left (sum f) inputs
unfolding again left sum
again-sum f [] = refl
again-sum f (input ∷ inputs) = let rest = again-sum f inputs in omega (arith, rest)

module _ {A : Type 0} {less same : A → A → Bool} (compare : IsCompare less same) where
  left_sorted :
      (inputs : List (Input A)) → again (unsorted less) inputs ≡ 0 → left (unsorted less) inputs ≡ 0
  unfolding again left
  left_sorted [] h = refl
  left_sorted (input ∷ inputs) h =
      let (_, one) = sorted_rest compare.order input.current input.rest (omega (arith, h)) in
      let rest = left_sorted inputs (omega (arith, h)) in omega (arith, one, rest)

  left_below :
      (m : A) (inputs : List (Input A))
      → again (sum (below less m)) inputs ≡ 0
      → left (sum (below less m)) inputs ≡ 0
  left_below m inputs h = let parts = again-sum (below less m) inputs in omega (arith, parts, h)

  low_count_lem :
      (m : A) (ext : Ext A) → in_heap (sum (below less m)) ext ≡ 0 → low_count compare m ext ≡ 0
  unfolding sum
  low_count_lem m ext h =
      total_zero (λ i. if less i.current m then 1 else 0) ext.size ext.heap
        λ k a b.
          let zero_sum = zero_total (λ i. sum (below less m) (whole i)) ext.size ext.heap k h a b in
          omega (arith, zero_sum)

  -- The records that are given together, and what is left.
  abbrev pub GivesSame : Ext A → A → List A → Ext A → Type 0
  GivesSame ext first others next =
      All (λ x. same first x ≡ true) others
      × ((f : A → ℕ) → sum f (first ∷ others) + ahead (sum f) next ≡ ahead (sum f) ext)
      × IsReady less next
      × (ahead (sum (below less first)) next ≡ 0)
      × (same_count compare first next ≡ 0)

  All-currents :
      (first : A) (inputs : List (Input A))
      → All (λ input. same first input.current ≡ true) inputs
      → All (λ x. same first x ≡ true) (currents inputs)
  All-currents first [] h = tt
  All-currents first (input ∷ inputs) h = (h.0, All-currents first inputs h.1)

  module _ (ext : Ext A) (ready : IsReady less ext) where
    abbrev moved : Ext A
    moved = move_active_to_heap less true ext

    -- The readers behind the first one, once it is taken.
    gives_same :
        (n : ℕ) (inputs : List (Input A)) (others : Ext A)
        → moved.size ≡ n + 1
        → Taken compare (moved.heap 1).current (after less n moved) (inputs, others)
        → GivesSame ext
            (moved.heap 1).current
            (currents inputs)
            (record others { active = moved.heap 1 ∷ inputs })
    unfolding left sum
    gives_same n inputs others size (heap, held, all, no_other) = (
      All-currents (moved.heap 1).current inputs all,
      (λ f.
          let before = after_ahead compare.order ext ready n size f in
          let one = held (sum f) in
          let parts = again-sum f inputs in omega (arith, before, one, parts)),
      (
        heap,
        (let before = (after-IsReady compare.order ext ready n size).1 in
            let one = held (unsorted less) in
            let rest = left_sorted inputs (omega (arith, one, before)) in
            omega (arith, before, one, rest)),
      ),
      (let before = after_least compare.order ext ready n size in
          let one = held (sum (below less (moved.heap 1).current)) in
          let rest = left_below (moved.heap 1).current inputs (omega (arith, one, before)) in
          omega (arith, before, one, rest)),
      no_other,
    )

    -- A merge in order, whose readers are sorted, either has no record left and gives none, or
    -- ac_in_ext_advance_unique gives the least record with others that compare as equal to it, and
    -- the merge is in order again. What is given and what is then ahead are what was ahead; nothing
    -- ahead is below what is given, and no reader of the heap stands at a record that compares as
    -- equal to it. The comparison orders the records.
    pub ext_advance_unique-GivesSame :
        (((f : A → ℕ) → 0 ≡ ahead (sum f) ext) × (ext_advance_unique less same ext ≡ ([], moved)))
        ⊎ ((first : A) × (others : List A) × (next : Ext A) × (ext_advance_unique less same ext
              ≡ (first ∷ others, next))
            × GivesSame ext first others next)
    unfolding ext_advance_unique
    ext_advance_unique-GivesSame = elim (ext_advance_cases less ext) [
      | inl (size, e) ↦ inl (nothing_ahead compare.order ext size, ap give e)
      | inr (n, size, e) ↦
          let first = (moved.heap 1).current in
          let taken = take_same less same n first (after less n moved) in
          inr (
            first,
            currents taken.0,
            record taken.1 { active = moved.heap 1 ∷ taken.0 },
            ap give e,
            gives_same n taken.0 taken.1 size (
                take_same-Taken compare n first (after less n moved) (omega arith)
                  (after-IsReady compare.order ext ready n size).0
                  (low_count_lem first (after less n moved) (in_heap_low n size))),
          )
    ]
      where
        give : Option A × Ext A → List A × Ext A
        give (given, next) = elim given [
          | some first ↦
              let (inputs, others) = take_same less same next.size first next in
              (first ∷ currents inputs, record others { active = next.active ++ inputs })
          | none ↦ ([], next)
        ]

        in_heap_low :
            (n : ℕ)
            → (size : moved.size ≡ n + 1)
            → in_heap (sum (below less (moved.heap 1).current)) (after less n moved) ≡ 0
        in_heap_low n size =
            let before = after_least compare.order ext ready n size in omega (arith, before)
