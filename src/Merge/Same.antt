-- ===== src/Merge/Same.antt =====
-- The readers that ac_in_ext_advance_unique takes together.
use another_c_library.Prelude.{
  ℕ, zero, suc, ◌+◌, ◌-◌, ◌≤◌, ◌<◌, ◌≡◌, ap, ◌∙◌, arith, Bool, true, false, ltb, if◌then◌else◌,
  Bool-cases, inl, inr, List, [], ◌∷◌, All,
}
use mathlib.Core.Path.{subst, subst⁻¹}
use another_c_library.Merge.{Input, Ext, in_less, heap_push, pop, take_same}
use another_c_library.Merge.Heap.{IsOrder, IsHeap, push-IsHeap}
use another_c_library.Merge.Pop.{pop-IsHeap, first_least}
use another_c_library.Merge.Held.{total, total_zero, zero_total, total-push, total-pop}
use another_c_library.Merge.Records.{whole, in_heap, again, in_heap-heap_push}
use another_c_library.Merge.Sorted.{in_less-IsOrder}

-- The two sides of one comparison: it is 0 exactly if neither item is below the other.
pub record IsCompare {A : Type 0} (less same : A → A → Bool) : Type 0 where
  pub order : IsOrder less
  pub alike : (a b : A) → same a b ≡ true → (less a b ≡ false) × (less b a ≡ false)
  pub equal : (a b : A) → less a b ≡ false → less b a ≡ false → same a b ≡ true

module _ {A : Type 0} {less same : A → A → Bool} (compare : IsCompare less same) where
  -- How many readers of the heap stand at a record like `first`.
  abbrev pub same_count : A → Ext A → ℕ
  same_count first ext = total (λ i. if same first i.current then 1 else 0) ext.size ext.heap

  -- How many stand at a record below `first`.
  abbrev pub low_count : A → Ext A → ℕ
  low_count first ext = total (λ i. if less i.current first then 1 else 0) ext.size ext.heap

  -- The readers that are taken and the heap that is left.
  abbrev pub Taken : A → Ext A → List (Input A) × Ext A → Type 0
  Taken first ext given =
      IsHeap (in_less less) given.1.size given.1.heap
      × ((g : List A → ℕ) → in_heap g given.1 + again g given.0 ≡ in_heap g ext)
      × All (λ input. same first input.current ≡ true) given.0
      × (same_count first given.1 ≡ 0)

  -- Behind a record that is not like the least one `first`, none is.
  none_same :
      (first : A) (ext : Ext A)
      → IsHeap (in_less less) ext.size ext.heap
      → less (ext.heap 1).current first ≡ false
      → same first (ext.heap 1).current ≡ false
      → same_count first ext ≡ 0
  none_same first ext h l ne =
      total_zero (λ i. if same first i.current then 1 else 0) ext.size ext.heap
        λ k a b.
          let low =
            first_least (in_less-IsOrder compare.order) k ext.size k ext.heap (omega arith) h a b in
          let other : same first (ext.heap k).current ≡ false =
            elim (Bool-cases (same first (ext.heap k).current)) [
              | inl e ↦
                  let (below, _) = compare.alike first (ext.heap k).current e in
                  absurd (
                    differ (
                      compare.equal first (ext.heap 1).current
                        (compare.order.trans (ext.heap 1).current (ext.heap k).current first low
                          below)
                        l))
              | inr e ↦ e
            ] in
          ap (λ t. if t then 1 else 0) other
    where
      differ : same first (ext.heap 1).current ≡ true → ⊥
      differ e = ground (arith, e, ne)

  abbrev popped : Ext A → Ext A
  popped ext = record ext { size = ext.size - 1; heap = pop (in_less less) (ext.size - 1) ext.heap }

  total-popped :
      (f : Input A → ℕ) (ext : Ext A)
      → 0 < ext.size
      → total f (popped ext).size (popped ext).heap + f (ext.heap 1) ≡ total f ext.size ext.heap
  total-popped f ext h =
      let one : ext.size - 1 + 1 ≡ ext.size = omega (arith, h) in
      total-pop f (in_less less) (ext.size - 1) ext.heap ∙ ap (λ n. total f n ext.heap) one

  popped-IsHeap :
      (ext : Ext A)
      → 0 < ext.size
      → IsHeap (in_less less) ext.size ext.heap
      → IsHeap (in_less less) (popped ext).size (popped ext).heap
  popped-IsHeap ext p h =
      let one : ext.size ≡ ext.size - 1 + 1 = omega (arith, p) in
      pop-IsHeap (in_less-IsOrder compare.order) (ext.size - 1) ext.heap
        (subst (λ n. IsHeap (in_less less) n ext.heap) one h)

  none_left : (ext : Ext A) (first : A) → ext.size ≡ 0 → same_count first ext ≡ 0
  unfolding total
  none_left ext first z = ap (λ n. total (λ i. if same first i.current then 1 else 0) n ext.heap) z

  -- A reader that is taken at `first`, in front of those that are taken from what is left.
  take_one :
      (first : A) (ext : Ext A) (given : List (Input A) × Ext A)
      → 0 < ext.size
      → same first (ext.heap 1).current ≡ true
      → Taken first (popped ext) given
      → Taken first ext (ext.heap 1 ∷ given.0, given.1)
  unfolding again
  take_one first ext given p e (heap, held, all, no_other) = (
    heap,
    (λ g.
        let one = held g in
        let before = total-popped (λ i. g (whole i)) ext p in omega (arith, one, before)),
    (e, all),
    no_other,
  )

  -- The reader that is put back, as it stands at another record.
  put_back :
      (first : A) (ext : Ext A)
      → 0 < ext.size
      → IsHeap (in_less less) ext.size ext.heap
      → low_count first ext ≡ 0
      → same first (ext.heap 1).current ≡ false
      → Taken first ext ([], heap_push less (ext.heap 1) (popped ext))
  unfolding again
  put_back first ext p h l e = (
    push-IsHeap (in_less-IsOrder compare.order) (popped ext).size (popped ext).heap (ext.heap 1)
        (popped-IsHeap ext p h),
    (λ g.
        let back = in_heap-heap_push g less (ext.heap 1) (popped ext) in
        let before = total-popped (λ i. g (whole i)) ext p in omega (arith, back, before)),
    tt,
    (let f = λ (i : Input A). if same first i.current then 1 else 0 in
        total-push f (in_less less) (popped ext).size (popped ext).heap (ext.heap 1)
        ∙ total-popped f ext p
        ∙ none_same first ext h (low_at l p) e),
  )
    where
      low_at : low_count first ext ≡ 0 → 0 < ext.size → less (ext.heap 1).current first ≡ false
      low_at l p =
          let zero_low =
            zero_total (λ i. if less i.current first then 1 else 0) ext.size ext.heap 1 l
              (omega arith) (omega (arith, p)) in
          ground (arith, zero_low)

  pub take_same-Taken :
      (fuel : ℕ) (first : A) (ext : Ext A)
      → ext.size ≤ fuel
      → IsHeap (in_less less) ext.size ext.heap
      → low_count first ext ≡ 0
      → Taken first ext (take_same less same fuel first ext)
  unfolding take_same again
  take_same-Taken zero first ext s h l =
      (h, (λ g. omega arith), tt, none_left ext first (omega (arith, s)))
  take_same-Taken (suc fuel) first ext s h l = elim (Bool-cases (ltb 0 ext.size)) [
    | inl e ↦
        let p : 0 < ext.size = ground (arith, e) in
        subst⁻¹ (λ b. Taken first ext (answer fuel b (same first (ext.heap 1).current))) e
          (elim (Bool-cases (same first (ext.heap 1).current)) [
            | inl alike ↦
                subst⁻¹ (λ b. Taken first ext (answer fuel true b)) alike
                  (take_one first ext (take_same less same fuel first (popped ext)) p alike (
                    take_same-Taken fuel first (popped ext) (omega (arith, s))
                      (popped-IsHeap ext p h) (low_count-popped p)))
            | inr other ↦
                subst⁻¹ (λ b. Taken first ext (answer fuel true b)) other
                  (put_back first ext p h l other)
          ])
    | inr e ↦
        subst⁻¹ (λ b. Taken first ext (answer fuel b (same first (ext.heap 1).current))) e
          (h, (λ g. omega arith), tt, none_left ext first (ground (arith, e)))
  ]
    where
      low_count-popped : 0 < ext.size → low_count first (popped ext) ≡ 0
      low_count-popped p =
          let before = total-popped (λ i. if less i.current first then 1 else 0) ext p in
          omega (arith, before, l)

      answer : ℕ → Bool → Bool → List (Input A) × Ext A
      answer fuel some_left alike = elim some_left [
        | true ↦ elim alike [
          | true ↦
              let (inputs, next) = take_same less same fuel first (popped ext) in
              (ext.heap 1 ∷ inputs, next)
          | false ↦ ([], heap_push less (ext.heap 1) (popped ext))
        ]
        | false ↦ ([], ext)
      ]
