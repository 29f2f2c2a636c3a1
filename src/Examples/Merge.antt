-- ===== src/Examples/Merge.antt =====
-- The merge of src/ac-io/ac_in.c at concrete readers.
use another_c_library.Prelude.{ℕ, suc, ◌≡◌, refl, arith, true, ltb, ◌==◌, ◌⊎◌, List, [], ◌∷◌}
use another_c_library.Prelude.Outcome.{done}
use another_c_library.Merge.{
  Input, Ext, move_active_to_heap, take_same, ext_advance_unique, ext_advance, move_all, push, pop,
  ext_init, ext_add, add_all, read_merged,
}
use another_c_library.Merge.Heap.{IsOrder}
use another_c_library.Merge.Records.{sum, ahead, left}
use another_c_library.Merge.Held.{total}
use another_c_library.Merge.Same.{IsCompare}
use another_c_library.Merge.Unique.{GivesSame, ext_advance_unique-GivesSame}
use another_c_library.Merge.Sorted.{above, sorted, IsReady}
use another_c_library.Merge.Whole.{read_merged-add_all}

ltb-IsOrder : IsOrder ltb
ltb-IsOrder = record {
  asym = λ a b h. ground (arith, h);
  trans = λ a b c h k. ground (arith, h, k);
}

abbrev blank : ℕ → Input ℕ
blank k = record { current = 0; rest = [] }

-- The second reader has no record.
abbrev readers : List (List ℕ)
readers = (1 ∷ 4 ∷ []) ∷ [] ∷ (2 ∷ 3 ∷ 4 ∷ []) ∷ (0 ∷ []) ∷ []

read_merged_test :
    read_merged ltb 7 (add_all ltb readers (ext_init ltb blank)) ≡ done (0 ∷ 1 ∷ 2 ∷ 3 ∷ 4 ∷ 4 ∷ [])
unfolding read_merged add_all move_all ext_add push pop
read_merged_test = refl

read_merged-add_all_example :
    (out : List ℕ) × (read_merged ltb
        (suc (sum (sum (λ x. 1)) readers))
        (add_all ltb readers (ext_init ltb blank))
      ≡ done out)
    × ((f : ℕ → ℕ) → sum f out ≡ sum (sum f) readers)
    × (sorted ltb out ≡ true)
unfolding sorted above
read_merged-add_all_example =
    read_merged-add_all ltb-IsOrder blank readers (refl, (refl, (refl, (refl, tt))))

ltb-IsCompare : IsCompare ltb (λ a b. a == b)
ltb-IsCompare = record {
  order = ltb-IsOrder;
  alike = λ a b h. (ground (arith, h), ground (arith, h));
  equal = λ a b h k. ground (arith, h, k);
}

-- Two readers stand at 1, and the third at 2.
abbrev standing : Ext ℕ
standing = add_all ltb ((1 ∷ 4 ∷ []) ∷ (1 ∷ 1 ∷ []) ∷ (2 ∷ []) ∷ []) (ext_init ltb blank)

ext_advance_unique_test : (ext_advance_unique ltb (λ a b. a == b) standing).0 ≡ 1 ∷ 1 ∷ []
unfolding ext_advance_unique ext_advance move_all add_all ext_add push take_same pop
ext_advance_unique_test = refl

-- Three readers of the same records in the heap.
abbrev three_alike : Ext ℕ
three_alike = record {
  active = [];
  size = 3;
  heap = λ k. record { current = 1; rest = 1 ∷ 3 ∷ [] };
}

three_alike-IsReady : IsReady ltb three_alike
unfolding sorted above total left
three_alike-IsReady = (λ k a b. refl, refl)

ext_advance_unique-GivesSame_example :
    (((f : ℕ → ℕ) → 0 ≡ ahead (sum f) three_alike)
      × (ext_advance_unique ltb (λ a b. a == b) three_alike
          ≡ ([], move_active_to_heap ltb true three_alike)))
    ⊎ ((first : ℕ) × (others : List ℕ) × (next : Ext ℕ) × (ext_advance_unique ltb
            (λ a b. a == b)
            three_alike
          ≡ (first ∷ others, next))
        × GivesSame ltb-IsCompare three_alike first others next)
ext_advance_unique-GivesSame_example =
    ext_advance_unique-GivesSame ltb-IsCompare three_alike three_alike-IsReady
