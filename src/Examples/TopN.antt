-- ===== src/Examples/TopN.antt =====
-- src/ac-search/ac_top_n.c at concrete inputs.
use another_c_library.Prelude.{
  ℕ, ◌≡◌, refl, arith, Bool, List, [], ◌∷◌, ltb, if◌then◌else◌, replicate, length-replicate, take,
  not, ◌==◌,
}
use another_c_library.TopN.{Parts, TopN, sort_items, init, add, add_all, finish}
use another_c_library.TopN.Laws.{finish-add_all, add_full}

abbrev insert : (ℕ × ℕ → ℕ × ℕ → Bool) → ℕ × ℕ → List (ℕ × ℕ) → List (ℕ × ℕ)
insert before x [] = x ∷ []
insert before x (y ∷ ys) = let on = insert before x ys in if before y x then y ∷ on else x ∷ y ∷ ys

abbrev sort_by : (ℕ × ℕ → ℕ × ℕ → Bool) → List (ℕ × ℕ) → List (ℕ × ℕ)
sort_by before [] = []
sort_by before (x ∷ xs) = insert before x (sort_by before xs)

abbrev numbers : Parts ℕ
numbers = record {
  greater = λ a b. ltb b a;
  differ = λ a b. not (a == b);
  fresh = λ n. replicate n (0, 0);
  macro_sort = sort_by;
}

abbrev three : List (ℕ × ℕ)
three = (4, 7) ∷ (5, 9) ∷ (6, 8) ∷ []

finish-add_all_example :
    (take (add_all numbers (init numbers 2) three).p (add_all numbers (init numbers 2) three).items
      ≡ three)
    × ((finish numbers (add_all numbers (init numbers 2) three)).0 ≡ sort_items numbers three)
finish-add_all_example =
    finish-add_all numbers 2 three (λ n. length-replicate {0} n (0, 0)) (omega arith)

abbrev full_block : TopN ℕ
full_block = record { items = (5, 9) ∷ (4, 7) ∷ []; p = 2; split = 2 }

add_full_example : add numbers full_block (6, 8) ≡ add numbers full_block (7, 100)
add_full_example = add_full numbers full_block (6, 8) (7, 100) (omega arith, omega arith) refl

-- The items that weigh 9 and 7 are kept, those that weigh 3 and 2 may be written over.
abbrev sorted_block : TopN ℕ
sorted_block = record { items = (5, 9) ∷ (4, 7) ∷ (3, 3) ∷ (2, 2) ∷ []; p = 2; split = 2 }
