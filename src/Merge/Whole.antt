-- ===== src/Merge/Whole.antt =====
-- A merge from ac_in_ext_init on, until ac_in_ext_advance gives no record.
use another_c_library.Prelude.{
  ℕ, zero, suc, ◌+◌, ◌<◌, ◌≡◌, refl, sym, ap, ap₂, ◌∙◌, arith, Bool, true, false, ◌&&◌,
  if◌then◌else◌, inl, inr, List, [], ◌∷◌, All, Option, some, none,
}
use another_c_library.Prelude.Outcome.{Outcome, done, map_outcome}
use another_c_library.Merge.{
  Input, Ext, move_active_to_heap, ext_init, ext_add, add_all, read_merged,
}
use another_c_library.Merge.Heap.{IsOrder, push-IsHeap}
use another_c_library.Merge.Held.{total}
use another_c_library.Merge.Records.{
  sum, whole, in_heap, left, again, ahead, after, ext_advance_cases, in_heap-moved, ahead-ext_add,
}
use another_c_library.Merge.Sorted.{
  sorted, unsorted, below, IsReady, none_below, in_less-IsOrder, move_back-IsHeap, after_ahead,
  after-IsReady, after_least,
}

module _ {A : Type 0} {less : A → A → Bool} (order : IsOrder less) where
  -- The records `out` are all that is ahead, in order.
  abbrev pub Gives : Ext A → List A → Type 0
  Gives ext out = ((f : A → ℕ) → sum f out ≡ ahead (sum f) ext) × (sorted less out ≡ true)

  pub nothing_ahead :
      (ext : Ext A)
      → (move_active_to_heap less true ext).size ≡ 0
      → (f : A → ℕ) → 0 ≡ ahead (sum f) ext
  unfolding total sum
  nothing_ahead ext h f =
      let moved = move_active_to_heap less true ext in
      sym (ap (λ n. total (λ i. sum f (whole i)) n moved.heap) h)
      ∙ in_heap-moved less (sum f) refl ext

  -- The record that an advance gives in front of those that are given later.
  one_more :
      (ext : Ext A) (ready : IsReady less ext) (n : ℕ) (out : List A)
      → let moved = move_active_to_heap less true ext in
        moved.size ≡ n + 1
        → Gives (after less n moved) out
        → Gives ext ((moved.heap 1).current ∷ out)
  unfolding sum sorted
  one_more ext ready n out size (sums, ordered) =
      let moved = move_active_to_heap less true ext in
      let x = (moved.heap 1).current in
      (
        λ f.
            let ahead_one = after_ahead order ext ready n size f in
            let rest = sums f in omega (arith, ahead_one, rest),
        ap₂ (◌&&◌)
            (none_below less x out (sums (below less x) ∙ after_least order ext ready n size))
            ordered,
      )

  read_merged-Gives :
      (fuel : ℕ) (ext : Ext A)
      → IsReady less ext
      → ahead (sum (λ x. 1)) ext < fuel
      → (out : List A) × (read_merged less fuel ext ≡ done out) × Gives ext out
  unfolding read_merged sorted sum
  read_merged-Gives zero ext ready h = absurd (omega (arith, h))
  read_merged-Gives (suc fuel) ext ready h = elim (ext_advance_cases less ext) [
    | inl (size, e) ↦ ([], ap (read fuel) e, (nothing_ahead ext size, refl))
    | inr (n, size, e) ↦
        let moved = move_active_to_heap less true ext in
        let weight = after_ahead order ext ready n size (λ x. 1) in
        let (out, given, gives) =
          read_merged-Gives fuel (after less n moved) (after-IsReady order ext ready n size)
            (omega (arith, h, weight)) in
        let x = (moved.heap 1).current in
        (
          x ∷ out,
          ap (read fuel) e ∙ ap (map_outcome (◌∷◌ x)) given,
          one_more ext ready n out size gives,
        )
  ]
    where
      read : ℕ → Option A × Ext A → Outcome (List A)
      read fuel (given, next) = elim given [
        | some x ↦ map_outcome (◌∷◌ x) (read_merged less fuel next)
        | none ↦ done []
      ]

  -- Nothing is given again where nothing was given.
  none_again :
      (g : List A → ℕ) (ext : Ext A)
      → ext.active ≡ []
      → in_heap g ext + again g ext.active ≡ ahead g ext
  unfolding again left
  none_again g ext h =
      ap (λ inputs. in_heap g ext + again g inputs) h
      ∙ ap (λ inputs. in_heap g ext + left g inputs) (sym h)

  -- A merge before the first advance.
  abbrev IsNew : Ext A → Type 0
  IsNew ext = IsReady less ext × (ext.active ≡ [])

  ext_add-IsNew :
      (xs : List A) (ext : Ext A)
      → IsNew ext
      → sorted less xs ≡ true
      → IsNew (ext_add less xs ext)
        × ((f : A → ℕ) → ahead (sum f) (ext_add less xs ext) ≡ ahead (sum f) ext + sum f xs)
  unfolding ext_add sum
  ext_add-IsNew [] ext new h = (new, λ f. omega arith)
  ext_add-IsNew (x ∷ xs) ext ((heap, held), empty) h = (
    (
      (
        push-IsHeap (in_less-IsOrder order) back.size back.heap (record { current = x; rest = xs })
            (move_back-IsHeap order ext.active ext heap),
        ahead-ext_add (unsorted less) less x xs ext
            ∙ ap₂ (◌+◌) (none_again (unsorted less) ext empty ∙ held)
                (ap (λ b. if b then 0 else 1) h),
      ),
      refl,
    ),
    λ f.
        ahead-ext_add (sum f) less x xs ext
        ∙ ap (λ k. k + sum f (x ∷ xs)) (none_again (sum f) ext empty),
  )
    where
      back : Ext A
      back = move_active_to_heap less false ext

  add_all-IsNew :
      (xss : List (List A)) (ext : Ext A)
      → IsNew ext
      → All (λ xs. sorted less xs ≡ true) xss
      → IsNew (add_all less xss ext)
        × ((f : A → ℕ) → ahead (sum f) (add_all less xss ext) ≡ ahead (sum f) ext + sum (sum f) xss)
  unfolding add_all sum
  add_all-IsNew [] ext new h = (new, λ f. omega arith)
  add_all-IsNew (xs ∷ xss) ext new h =
      let (one, first) = ext_add-IsNew xs ext new h.0 in
      let (all, others) = add_all-IsNew xss (ext_add less xs ext) one h.1 in
      (all, λ f. let a = first f in let b = others f in omega (arith, a, b))

  ext_init-IsNew : (blank : ℕ → Input A) → IsNew (ext_init less blank)
  unfolding total left
  ext_init-IsNew blank = ((λ k a b. absurd (omega (arith, a, b)), refl), refl)

  init_ahead : (blank : ℕ → Input A) (g : List A → ℕ) → ahead g (ext_init less blank) ≡ 0
  unfolding total left
  init_ahead blank g = refl

  -- Readers whose records are in order are merged: after each was added, ac_in_ext_advance gives
  -- all of their records and no others, in order, and then none. Where the records weigh `f`,
  -- whatever `f` is, those that are given weigh what those of the readers weigh. The comparison
  -- orders the records.
  pub read_merged-add_all :
      (blank : ℕ → Input A) (xss : List (List A))
      → All (λ xs. sorted less xs ≡ true) xss
      → (out : List A) × (read_merged less
            (suc (sum (sum (λ x. 1)) xss))
            (add_all less xss (ext_init less blank))
          ≡ done out)
        × ((f : A → ℕ) → sum f out ≡ sum (sum f) xss)
        × (sorted less out ≡ true)
  read_merged-add_all blank xss h =
      let ((ready, _), held) = add_all-IsNew xss (ext_init less blank) (ext_init-IsNew blank) h in
      let many = held (λ x. 1) in
      let none_yet = init_ahead blank (sum (λ x. 1)) in
      let (out, given, (sums, ordered)) =
        read_merged-Gives (suc (sum (sum (λ x. 1)) xss)) (add_all less xss (ext_init less blank))
          ready (omega (arith, many, none_yet)) in
      (
        out,
        given,
        (λ f.
            sums f
            ∙ held f
            ∙ ap (λ k. k + sum (sum f) xss) (init_ahead blank (sum f))
            ∙ omega arith),
        ordered,
      )
