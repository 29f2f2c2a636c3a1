-- ===== src/TopN/Laws.antt =====
-- What is kept of the items that are added, and what is lost.
use another_c_library.Prelude.{
  ℕ, zero, suc, ◌+◌, ◌*◌, ◌/◌, ◌%◌, ◌^◌, ◌≤◌, ◌<◌, Bool, true, false, List, [], ◌∷◌, ◌++◌, ltb,
  ◌==◌, if◌then◌else◌, length, length-set, get_or, get_or-set, set, take, ◌≡◌, refl, sym, ap, ◌∙◌,
  arith, length-append, append-nil, append_assoc,
}
use mathlib.Core.Path.{subst, subst⁻¹}
use another_c_library.TopN.{Parts, TopN, sort_items, ep, init, put, passes, add, add_all, finish}

take-set :
    {A : Type 0} (xs : List A) (n : ℕ) (x : A)
    → n < length xs
    → take (n + 1) (set xs n x) ≡ take n xs ++ (x ∷ [])
take-set [] n x h = absurd (omega arith)
take-set (y ∷ xs) zero x h = refl
take-set (y ∷ xs) (suc n) x h =
    let one : suc n + 1 ≡ suc (n + 1) = omega arith in
    ap (λ k. take k (y ∷ set xs n x)) one ∙ ap (◌∷◌ y) (take-set xs n x (omega arith))

module _ {W : Type 0} (parts : Parts W) where
  -- `p` and `split` lie within the block.
  abbrev pub Within : TopN W → Type 0
  Within top = (top.p ≤ length top.items) × (top.split ≤ length top.items)

  if_false : {A : Type 0} (b : Bool) (x y : A) → b ≡ false → (if b then x else y) ≡ y
  if_false true x y e = cc e
  if_false false x y e = refl

  -- The block is full, and `half` is where it is split.
  abbrev pub sorted_at : TopN W → ℕ → TopN W
  sorted_at top half = record top { items = sort_items parts top.items; split = half; p = half }

  abbrev pub half : TopN W → ℕ
  half top = if top.split == ep parts top then ep parts top / 2 else top.split

  -- As long as there is room an item is put behind the others.
  add-room :
      (top : TopN W) (item : ℕ × W)
      → top.split ≡ length top.items
      → top.p < length top.items
      → add parts top item ≡ put parts top item
  unfolding add
  add-room top item e h =
      let room : ltb top.p top.split ≡ true = ground (arith, e, h) in
      ap
        (λ b.
          if b
          then put parts top item
          else if ltb top.p (ep parts top)
          then if passes parts top item then put parts top item else top
          else sorted_at top (half top))
        room

  -- The block of which nothing has been sorted holds the items `xs`.
  record Filled (xs : List (ℕ × W)) (top : TopN W) : Type 0 where
    pub in_order : take top.p top.items ≡ xs
    pub counted : top.p ≡ length xs
    pub unsplit : top.split ≡ length top.items

  add-Filled :
      (xs : List (ℕ × W)) (x : ℕ × W) (top : TopN W)
      → Filled xs top
      → top.p < length top.items
      → Filled (xs ++ x ∷ []) (add parts top x)
        × (length (add parts top x).items ≡ length top.items)
  add-Filled xs x top f h =
      let same = length-set {0} top.items top.p x in
      subst⁻¹ (λ t. Filled (xs ++ x ∷ []) t × (length t.items ≡ length top.items))
        (add-room top x f.unsplit h)
        (
          record {
            in_order = take-set top.items top.p x h ∙ ap (λ ys. ys ++ x ∷ []) f.in_order;
            counted = omega (arith, f.counted, length-append {0} xs (x ∷ []));
            unsplit = f.unsplit ∙ sym same;
          },
          same,
        )

  add_all-Filled :
      (xs ys : List (ℕ × W)) (top : TopN W)
      → Filled xs top
      → length xs + length ys ≤ length top.items
      → Filled (xs ++ ys) (add_all parts top ys)
  add_all-Filled xs [] top f h = subst⁻¹ (λ zs. Filled zs top) (append-nil xs) f
  add_all-Filled xs (y ∷ ys) top f h =
      let (g, same) = add-Filled xs y top f (omega (arith, f.counted, h)) in
      subst (λ zs. Filled zs (add_all parts (add parts top y) ys)) (append_assoc xs (y ∷ []) ys)
        (add_all-Filled (xs ++ y ∷ []) ys (add parts top y) g
          (omega (arith, h, same, length-append {0} xs (y ∷ []))))

  -- If not more than `2 * size` items are added to a new block, as a `uint32_t`, then it holds all of
  -- them, in the order in which they were added, and ac_top_n_finish gives what the sort makes of
  -- them. The pool gives a block of the size that is asked for.
  pub finish-add_all :
      (size : ℕ) (xs : List (ℕ × W))
      → ((n : ℕ) → length (parts.fresh n) ≡ n)
      → length xs ≤ size * 2 % 2 ^ 32
      → let top = add_all parts (init parts size) xs in
        (take top.p top.items ≡ xs) × ((finish parts top).0 ≡ sort_items parts xs)
  unfolding init finish
  finish-add_all size xs fresh h =
      let block = fresh (size * 2 % 2 ^ 32) in
      let f =
        add_all-Filled [] xs (init parts size)
          (record { in_order = refl; counted = refl; unsplit = refl }) (omega (arith, h, block)) in
      (f.in_order, ap (sort_items parts) f.in_order)

  add-full :
      (top : TopN W) (item : ℕ × W)
      → Within top
      → top.p ≡ length top.items
      → add parts top item ≡ sorted_at top (half top)
  unfolding add
  add-full top item h e =
      if_false (ltb top.p top.split) _ _ (ground (arith, h.1, e))
      ∙ if_false (ltb top.p (ep parts top)) _ _ (ground (arith, e))

  -- The item with which ac_top_n_add finds its block full leaves no trace: any other would have had
  -- the same effect.
  pub add_full :
      (top : TopN W) (item other : ℕ × W)
      → Within top
      → top.p ≡ length top.items
      → add parts top item ≡ add parts top other
  add_full top item other h e = add-full top item h e ∙ sym (add-full top other h e)

  put_first :
      (top : TopN W) (item : ℕ × W)
      → top.p ≡ top.split
      → top.p < length top.items
      → passes parts top item ≡ true
      → add parts top item ≡ put parts top item
  unfolding add
  put_first top item e l q =
      if_false (ltb top.p top.split) _ _ (ground (arith, e))
      ∙ ap
          (λ b.
            if b
            then (if passes parts top item then put parts top item else top)
            else sorted_at top (half top))
          room
      ∙ ap (λ b. if b then put parts top item else top) q
    where
      room : ltb top.p (ep parts top) ≡ true
      room = ground (arith, l)

  refuse :
      (top : TopN W) (item : ℕ × W)
      → top.split ≤ top.p
      → top.p < length top.items
      → passes parts top item ≡ false
      → add parts top item ≡ top
  unfolding add
  refuse top item e l q =
      if_false (ltb top.p top.split) _ _ (ground (arith, e))
      ∙ ap
          (λ b.
            if b
            then (if passes parts top item then put parts top item else top)
            else sorted_at top (half top))
          room
      ∙ ap (λ b. if b then put parts top item else top) q
    where
      room : ltb top.p (ep parts top) ≡ true
      room = ground (arith, l)

  -- The first item that is added behind a sort takes the place of the one that it was compared
  -- with: from then on an item that does not weigh more than it is refused, whatever it weighs
  -- against the items of the first half.
  pub add-threshold :
      (top : TopN W) (item other : ℕ × W)
      → top.p ≡ top.split
      → top.p + 1 < length top.items
      → passes parts top item ≡ true
      → parts.greater other.1 item.1 ≡ false
      → add parts (add parts top item) other ≡ add parts top item
  add-threshold top item other e l q r =
      let first = put_first top item e (omega arith) q in
      let same = length-set {0} top.items top.p item in
      let at_split : get_or (set top.items top.p item) top.split other ≡ item =
        subst (λ k. get_or (set top.items top.p item) k other ≡ item) e
          (get_or-set top.items top.p item other (omega arith)) in
      let refused : passes parts (put parts top item) other ≡ false =
        ap (λ k. parts.greater other.1 k.1) at_split ∙ r in
      ap (λ t. add parts t other) first
      ∙ refuse (put parts top item) other (omega (arith, e)) (omega (arith, same)) refused
      ∙ sym first
