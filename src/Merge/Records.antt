-- ===== src/Merge/Records.antt =====
-- ac_in_ext_advance gives every record of its readers once, in order.
use another_c_library.Prelude.{
  ℕ, ◌+◌, ◌-◌, ◌≡◌, sym, ap, ◌∙◌, arith, Bool, true, false, ltb, Bool-cases, inl, inr, ◌⊎◌, List,
  [], ◌∷◌, some, none,
}
use another_c_library.Merge.{
  Input, Ext, in_less, heap_push, advance_one, move_all, move_active_to_heap, ext_add, ext_advance,
  pop,
}
use another_c_library.Merge.Held.{total, total-push, total-pop}

-- The records weigh `f` each.
unfoldable pub sum : {A : Type 0} → (A → ℕ) → List A → ℕ
sum f [] = 0
sum f (x ∷ xs) = f x + sum f xs

abbrev pub whole : {A : Type 0} → Input A → List A
whole input = input.current ∷ input.rest

-- What is ahead of the readers, where `g` is the weight of a list.
module _ {A : Type 0} (g : List A → ℕ) where
  abbrev pub in_heap : Ext A → ℕ
  in_heap ext = total (λ input. g (whole input)) ext.size ext.heap

  unfoldable pub left : List (Input A) → ℕ
  left [] = 0
  left (input ∷ inputs) = g input.rest + left inputs

  unfoldable pub again : List (Input A) → ℕ
  again [] = 0
  again (input ∷ inputs) = g (whole input) + again inputs

  abbrev pub ahead : Ext A → ℕ
  ahead ext = in_heap ext + left ext.active

  module _ (less : A → A → Bool) where
    pub in_heap-heap_push :
        (input : Input A) (ext : Ext A)
        → in_heap (heap_push less input ext) ≡ in_heap ext + g (whole input)
    in_heap-heap_push input ext =
        total-push (λ i. g (whole i)) (in_less less) ext.size ext.heap input

    in_heap-advance_one :
        (xs : List A) (ext : Ext A)
        → g [] ≡ 0
        → in_heap (advance_one less xs ext) ≡ in_heap ext + g xs
    in_heap-advance_one [] ext h = omega (arith, h)
    in_heap-advance_one (x ∷ xs) ext h = in_heap-heap_push (record { current = x; rest = xs }) ext

    in_heap-move_all :
        (inputs : List (Input A)) (ext : Ext A)
        → g [] ≡ 0
        → in_heap (move_all less true inputs ext) ≡ in_heap ext + left inputs
    unfolding move_all left
    in_heap-move_all [] ext h = omega arith
    in_heap-move_all (input ∷ inputs) ext h =
        let one = in_heap-advance_one input.rest ext h in
        let next = in_heap-move_all inputs (advance_one less input.rest ext) h in
        omega (arith, next, one)

    in_heap-move_back :
        (inputs : List (Input A)) (ext : Ext A)
        → in_heap (move_all less false inputs ext) ≡ in_heap ext + again inputs
    unfolding move_all again
    in_heap-move_back [] ext = omega arith
    in_heap-move_back (input ∷ inputs) ext =
        let pushed = in_heap-heap_push input ext in
        let next = in_heap-move_back inputs (heap_push less input ext) in
        omega (arith, next, pushed)

    -- A reader that is added brings its records, and those that were given last are given again.
    pub ahead-ext_add :
        (x : A) (xs : List A) (ext : Ext A)
        → ahead (ext_add less (x ∷ xs) ext) ≡ in_heap ext + again ext.active + g (x ∷ xs)
    unfolding ext_add left
    ahead-ext_add x xs ext =
        let moved = in_heap-move_back ext.active ext in
        let pushed =
          in_heap-heap_push (record { current = x; rest = xs })
            (move_active_to_heap less false ext) in
        omega (arith, moved, pushed)

module _ {A : Type 0} (less : A → A → Bool) where
  abbrev pub after : ℕ → Ext A → Ext A
  after n moved = record {
    active = moved.heap 1 ∷ [];
    size = n;
    heap = pop (in_less less) n moved.heap;
  }

  pub ext_advance_cases :
      (ext : Ext A)
      → let moved = move_active_to_heap less true ext in
        ((moved.size ≡ 0) × (ext_advance less ext ≡ (none, moved)))
        ⊎ ((n : ℕ) × (moved.size ≡ n + 1)
            × (ext_advance less ext ≡ (some (moved.heap 1).current, after n moved)))
  unfolding ext_advance
  ext_advance_cases ext =
      let moved = move_active_to_heap less true ext in
      elim (Bool-cases (ltb 0 moved.size)) [
        | inl e ↦ inr (
          moved.size - 1,
          ground (arith, e),
          ap
              (λ b. elim b [
                | true ↦ (some (moved.heap 1).current, after (moved.size - 1) moved)
                | false ↦ (none, moved)
              ])
              e,
        )
        | inr e ↦ inl (
          ground (arith, e),
          ap
              (λ b. elim b [
                | true ↦ (some (moved.heap 1).current, after (moved.size - 1) moved)
                | false ↦ (none, moved)
              ])
              e,
        )
      ]

  module _ (g : List A → ℕ) (empty : g [] ≡ 0) where
    -- What the heap holds after the readers in front are moved.
    pub in_heap-moved : (ext : Ext A) → in_heap g (move_active_to_heap less true ext) ≡ ahead g ext
    in_heap-moved ext = in_heap-move_all g less ext.active ext empty

    -- What is ahead when a record is given is what was, without this record.
    pub in_heap-after :
        (n : ℕ) (moved : Ext A)
        → moved.size ≡ n + 1
        → in_heap g (after n moved) + g (whole (moved.heap 1)) ≡ in_heap g moved
    in_heap-after n moved h =
        total-pop (λ i. g (whole i)) (in_less less) n moved.heap
        ∙ ap (λ k. total (λ i. g (whole i)) k moved.heap) (sym h)
