-- ===== src/Merge.antt =====
-- src/ac-io/ac_in.c: records from several readers, in order. The heap is that of in_heap_push and
-- in_heap_pop, as a function of the index, from 1 on; or_push and or_pop of
-- src/ac-search/ac_cursor.c are the same.
pub mod Heap
pub mod Pop
pub mod Held
pub mod Records
pub mod Sorted
pub mod Whole
pub mod Same
pub mod Unique
use another_c_library.Prelude.{
  ℕ, zero, suc, ◌+◌, ◌*◌, ◌/◌, Bool, true, false, ◌&&◌, leb, ltb, ◌==◌, if◌then◌else◌, ◌-◌, List,
  [], ◌∷◌, Option, some, none, map, ◌++◌,
}
use another_c_library.Prelude.Outcome.{Outcome, done, out_of_fuel, map_outcome}

-- Where the first item is exchanged with the second one.
abbrev pub swap : {A : Type 0} → (ℕ → A) → ℕ → ℕ → ℕ → A
swap c i j k = if k == i then c j else if k == j then c i else c k

abbrev pub put_at : {A : Type 0} → (ℕ → A) → ℕ → A → ℕ → A
put_at c i v k = if k == i then v else c k

-- `less a b` is that the comparison of `a` and `b` is below 0.
module _ {A : Type 0} (less : A → A → Bool) where
  -- The loop of in_heap_push; `i` halves at each round.
  unfoldable pub up : ℕ → (ℕ → A) → ℕ → ℕ → A
  up zero c i = c
  up (suc fuel) c i =
      let j = i / 2 in
      elim (ltb 0 j && less (c i) (c j)) [ true ↦ up fuel (swap c i j) j | false ↦ c ]

  -- The lesser child of `i`, or the left one if there is no other.
  unfoldable pub child : ℕ → (ℕ → A) → ℕ → ℕ
  child num c i = let j = i * 2 in let k = j + 1 in if leb k num && less (c k) (c j) then k else j

  -- The loop of in_heap_pop; `i` grows at each round.
  unfoldable pub down : ℕ → ℕ → (ℕ → A) → ℕ → ℕ → A
  unfolding child
  down zero num c i = c
  down (suc fuel) num c i =
      let j = child num c i in
      elim (leb j num && less (c j) (c i)) [ true ↦ down fuel num (swap c i j) j | false ↦ c ]

  -- in_heap_push, where the heap holds `num` items
  unfoldable pub push : ℕ → (ℕ → A) → A → ℕ → A
  unfolding up
  push num c item = up (num + 1) (put_at c (num + 1) item) (num + 1)

  -- in_heap_pop: what is left in the heap of `num + 1` items whose first one is taken
  unfoldable pub pop : ℕ → (ℕ → A) → ℕ → A
  unfolding down
  pop num c = down num num (put_at c 1 (c (num + 1))) 1

-- A reader as the merge sees it: the record it stands at and those that it still gives.
pub record Input {ℓ} (A : Type ℓ) : Type ℓ where
  pub current : A
  pub rest : List A

-- ac_in_ext_t: the readers whose records were given last, and the heap of the others
pub record Ext {ℓ} (A : Type ℓ) : Type ℓ where
  pub active : List (Input A)
  pub size : ℕ
  pub heap : ℕ → Input A

-- `less a b` is that h->compare of `a` and `b` is below 0.
module _ {A : Type 0} (less : A → A → Bool) where
  -- in_heap_compare is below 0
  abbrev pub in_less : Input A → Input A → Bool
  in_less a b = less a.current b.current

  abbrev pub heap_push : Input A → Ext A → Ext A
  heap_push input ext = record ext {
    size = ext.size + 1;
    heap = push in_less ext.size ext.heap input;
  }

  -- ac_in_advance of a reader, which is destroyed at its end and pushed otherwise
  abbrev pub advance_one : List A → Ext A → Ext A
  advance_one [] ext = ext
  advance_one (x ∷ xs) ext = heap_push (record { current = x; rest = xs }) ext

  -- ac_in_ext_init, where the memory of the heap is what it is
  abbrev pub ext_init : (ℕ → Input A) → Ext A
  ext_init blank = record { active = []; size = 0; heap = blank }

  -- The loop of move_active_to_heap.
  unfoldable pub move_all : Bool → List (Input A) → Ext A → Ext A
  move_all advance [] ext = ext
  move_all true (input ∷ inputs) ext = move_all true inputs (advance_one input.rest ext)
  move_all false (input ∷ inputs) ext = move_all false inputs (heap_push input ext)

  abbrev pub move_active_to_heap : Bool → Ext A → Ext A
  move_active_to_heap advance ext = record (move_all advance ext.active ext) { active = [] }

  -- ac_in_ext_add of a reader that gives these records once it is reset
  unfoldable pub ext_add : List A → Ext A → Ext A
  ext_add [] ext = ext
  ext_add (x ∷ xs) ext =
      heap_push (record { current = x; rest = xs }) (move_active_to_heap false ext)

  -- One ac_in_ext_add after the other.
  unfoldable pub add_all : List (List A) → Ext A → Ext A
  add_all [] ext = ext
  add_all (xs ∷ rest) ext = add_all rest (ext_add xs ext)

  -- ac_in_ext_advance
  unfoldable pub ext_advance : Ext A → Option A × Ext A
  ext_advance ext =
      let moved = move_active_to_heap true ext in
      elim (ltb 0 moved.size) [
        | true ↦
            let input = moved.heap 1 in
            (
              some input.current,
              record {
                active = input ∷ [];
                size = moved.size - 1;
                heap = pop in_less (moved.size - 1) moved.heap;
              },
            )
        | false ↦ (none, moved)
      ]

  -- Every record that ac_in_ext_advance gives until it gives none.
  unfoldable pub read_merged : ℕ → Ext A → Outcome (List A)
  unfolding ext_advance
  read_merged zero ext = out_of_fuel
  read_merged (suc fuel) ext =
      let (given, next) = ext_advance ext in
      elim given [ some x ↦ map_outcome (◌∷◌ x) (read_merged fuel next) | none ↦ done [] ]

  -- `same a b` is that h->compare of `a` and `b` is 0.
  module _ (same : A → A → Bool) where
    -- The loop of ac_in_ext_advance_unique: the readers that stand at a record like `first`.
    unfoldable pub take_same : ℕ → A → Ext A → List (Input A) × Ext A
    take_same zero first ext = ([], ext)
    take_same (suc fuel) first ext =
        let input = ext.heap 1 in
        let popped = record ext {
          size = ext.size - 1;
          heap = pop in_less (ext.size - 1) ext.heap;
        } in
        elim (ltb 0 ext.size) [
          | true ↦ elim (same first input.current) [
            | true ↦ let (inputs, next) = take_same fuel first popped in (input ∷ inputs, next)
            | false ↦ ([], heap_push input popped)
          ]
          | false ↦ ([], ext)
        ]

    -- ac_in_ext_advance_unique
    unfoldable pub ext_advance_unique : Ext A → List A × Ext A
    ext_advance_unique ext =
        let (given, next) = ext_advance ext in
        elim given [
          | some first ↦
              let (inputs, others) = take_same next.size first next in
              (
                first ∷ map (λ input. input.current) inputs,
                record others { active = next.active ++ inputs },
              )
          | none ↦ ([], next)
        ]
