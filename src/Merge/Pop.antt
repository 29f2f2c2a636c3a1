-- ===== src/Merge/Pop.antt =====
-- The heap after its first item is taken, and that this item is the least one.
use another_c_library.Prelude.{
  ℕ, zero, suc, ◌+◌, ◌*◌, ◌/◌, ◌≤◌, ◌<◌, ◌≡◌, ◌≢◌, sym, ap, ap₂, ◌∙◌, arith, Bool, true, false,
  ◌&&◌, leb, if◌then◌else◌, Bool-cases, inl, inr, ◌⊎◌,
}
use mathlib.Core.Path.{subst⁻¹}
use another_c_library.Merge.{swap, put_at, child, down, pop}
use another_c_library.Merge.Heap.{
  IsOrder, IsHeap, swap_first, swap_second, swap_other, eq-or-ne, put_at_other,
}

module _ {A : Type 0} (less : A → A → Bool) where
  -- No item is above its parent, but for those below `i`.
  abbrev pub DownTo : ℕ → ℕ → (ℕ → A) → Type 0
  DownTo num i c =
      ((k : ℕ) → 2 ≤ k → k ≤ num → k / 2 ≢ i → less (c k) (c (k / 2)) ≡ false)
      × ((k : ℕ) → 2 ≤ i → k ≤ num → k / 2 ≡ i → less (c k) (c (i / 2)) ≡ false)

  child_cases :
      (num : ℕ) (c : ℕ → A) (i : ℕ)
      → ((child less num c i ≡ i * 2 + 1)
          × (i * 2 + 1 ≤ num)
          × (less (c (i * 2 + 1)) (c (i * 2)) ≡ true))
        ⊎ ((child less num c i ≡ i * 2)
            × (i * 2 + 1 ≤ num → less (c (i * 2 + 1)) (c (i * 2)) ≡ false))
  unfolding child
  child_cases num c i =
      elim (Bool-cases (leb (i * 2 + 1) num && less (c (i * 2 + 1)) (c (i * 2)))) [
        | inl e ↦
            inl (ap (λ b. if b then i * 2 + 1 else i * 2) e, ground (arith, e), ground (arith, e))
        | inr e ↦ inr (ap (λ b. if b then i * 2 + 1 else i * 2) e, λ n. ground (arith, e, n))
      ]

  pub child_half : (num : ℕ) (c : ℕ → A) (i : ℕ) → child less num c i / 2 ≡ i
  child_half num c i = elim (child_cases num c i) [
    | inl h ↦ omega (arith, h.0)
    | inr h ↦ omega (arith, h.0)
  ]

module _ {A : Type 0} {less : A → A → Bool} (order : IsOrder less) where
  irrefl : (a : A) → less a a ≡ false
  irrefl a = elim (Bool-cases (less a a)) [ inl e ↦ order.asym a a e | inr e ↦ e ]

  -- No child is below the one that is chosen.
  child_least :
      (num : ℕ) (c : ℕ → A) (i k : ℕ)
      → k ≤ num
      → k / 2 ≡ i
      → (child less num c i ≤ num) × (less (c k) (c (child less num c i)) ≡ false)
  child_least num c i k m e = elim (child_cases less num c i) [
    | inl (z, n, l) ↦ (
      omega (arith, z, n),
      ap (λ x. less (c k) (c x)) z ∙ elim (eq-or-ne k (i * 2)) [
        | inl q ↦ ap (λ x. less (c x) (c (i * 2 + 1))) q ∙ order.asym (c (i * 2 + 1)) (c (i * 2)) l
        | inr q ↦
            let r : k ≡ i * 2 + 1 = omega (arith, e, λ (y : k ≡ i * 2). q y) in
            ap (λ x. less (c x) (c (i * 2 + 1))) r ∙ irrefl (c (i * 2 + 1))
      ],
    )
    | inr (z, l) ↦ (
      omega (arith, z, m, e),
      ap (λ x. less (c k) (c x)) z ∙ elim (eq-or-ne k (i * 2)) [
        | inl q ↦ ap (λ x. less (c x) (c (i * 2))) q ∙ irrefl (c (i * 2))
        | inr q ↦
            let r : k ≡ i * 2 + 1 = omega (arith, e, λ (y : k ≡ i * 2). q y) in
            ap (λ x. less (c x) (c (i * 2))) r ∙ l (omega (arith, r, m))
      ],
    )
  ]

  -- An exchange with the chosen child, which is below the item.
  module _ (num i j : ℕ) (c : ℕ → A) (p : 1 ≤ i) (half : j / 2 ≡ i) (l : less (c j) (c i) ≡ true)
      (n : j ≤ num) (least : (k : ℕ) → k ≤ num → k / 2 ≡ i → less (c k) (c j) ≡ false)
      (d : DownTo less num i c) where
    down_edge :
        (k : ℕ) → 2 ≤ k → k ≤ num → k / 2 ≢ j → less (swap c i j k) (swap c i j (k / 2)) ≡ false
    down_edge k h m ne = elim (eq-or-ne k j) [
      | inl e ↦
          ap₂ less (ap (swap c i j) e ∙ swap_second c i j)
            (ap (swap c i j) (ap (λ x. x / 2) e ∙ half) ∙ swap_first c i j)
          ∙ order.asym (c j) (c i) l
      | inr g ↦ elim (eq-or-ne k i) [
        | inl e ↦
            ap₂ less (ap (swap c i j) e ∙ swap_first c i j)
              (swap_other c i j (k / 2) (λ z. omega (arith, z, e, p)) ne ∙ ap (λ x. c (x / 2)) e)
            ∙ d.1 j (omega (arith, h, e)) n half
        | inr f ↦
            ap (λ x. less x (swap c i j (k / 2))) (swap_other c i j k f g)
            ∙ elim (eq-or-ne (k / 2) i) [
              | inl e ↦ ap (λ x. less (c k) x) (ap (swap c i j) e ∙ swap_first c i j) ∙ least k m e
              | inr e ↦ ap (λ x. less (c k) x) (swap_other c i j (k / 2) e ne) ∙ d.0 k h m e
            ]
      ]
    ]

    down_bridge :
        (k : ℕ) → 2 ≤ j → k ≤ num → k / 2 ≡ j → less (swap c i j k) (swap c i j (j / 2)) ≡ false
    down_bridge k h m e =
        ap₂ less
          (swap_other c i j k (λ z. omega (arith, z, e, half, p)) (λ z. omega (arith, z, e, h)))
          (ap (swap c i j) half ∙ swap_first c i j)
        ∙ ap (λ x. less (c k) (c x)) (sym e)
        ∙ d.0 k (omega (arith, e, h)) m (λ z. omega (arith, z, e, half, p))

  -- The loop ends with a heap.
  down-IsHeap :
      (fuel num i : ℕ) (c : ℕ → A)
      → num < fuel + i
      → 1 ≤ i
      → DownTo less num i c
      → IsHeap less num (down less fuel num c i)
  unfolding down
  down-IsHeap zero num i c h p d = λ k a b. d.0 k a b (λ z. omega (arith, z, a, b, h))
  down-IsHeap (suc fuel) num i c h p d =
      let j = child less num c i in
      let half = child_half less num c i in
      elim (Bool-cases (leb j num && less (c j) (c i))) [
        | inl e ↦
            let (n, l) = both j e in
            subst⁻¹
              (λ b.
                IsHeap less num (elim b [ true ↦ down less fuel num (swap c i j) j | false ↦ c ]))
              e
              (down-IsHeap fuel num j (swap c i j) (omega (arith, h, half, p))
                (omega (arith, half, p))
                (
                  down_edge num i j c p half l n (λ k a b. (child_least num c i k a b).1) d,
                  down_bridge num i j c p half l n (λ k a b. (child_least num c i k a b).1) d,
                ))
        | inr e ↦
            subst⁻¹
              (λ b.
                IsHeap less num (elim b [ true ↦ down less fuel num (swap c i j) j | false ↦ c ]))
              e
              λ k a b. elim (eq-or-ne (k / 2) i) [
                | inl z ↦
                    let (n, l) = child_least num c i k b z in
                    ap (λ x. less (c k) (c x)) z ∙ order.trans (c i) (c j) (c k) (stop j e n) l
                | inr z ↦ d.0 k a b z
              ]
      ]
    where
      both :
          (j : ℕ) → (leb j num && less (c j) (c i)) ≡ true → (j ≤ num) × (less (c j) (c i) ≡ true)
      both j e = ground (arith, e)

      stop : (j : ℕ) → (leb j num && less (c j) (c i)) ≡ false → j ≤ num → less (c j) (c i) ≡ false
      stop j e a = ground (arith, e, a)

  -- What is left is a heap when the first item is taken.
  pub pop-IsHeap :
      (num : ℕ) (c : ℕ → A) → IsHeap less (num + 1) c → IsHeap less num (pop less num c)
  unfolding pop
  pop-IsHeap num c h =
      down-IsHeap num num 1 (put_at c 1 (c (num + 1))) (omega arith) (omega arith) (
        λ k a b ne.
            ap₂ less (put_at_other c 1 (c (num + 1)) k (λ z. omega (arith, z, a)))
              (put_at_other c 1 (c (num + 1)) (k / 2) ne)
            ∙ h k a (omega (arith, b)),
        λ k a b e. absurd (omega (arith, a)),
      )

  -- No item is below the first one.
  pub first_least :
      (fuel num k : ℕ) (c : ℕ → A)
      → k ≤ fuel
      → IsHeap less num c
      → 1 ≤ k
      → k ≤ num
      → less (c k) (c 1) ≡ false
  first_least zero num k c f h p m = absurd (omega (arith, f, p))
  first_least (suc fuel) num k c f h p m = elim (eq-or-ne k 1) [
    | inl e ↦ ap (λ x. less (c x) (c 1)) e ∙ irrefl (c 1)
    | inr e ↦
        order.trans (c 1) (c (k / 2)) (c k)
          (first_least fuel num (k / 2) c (omega (arith, f, p)) h
            (omega (arith, p, λ (z : k ≡ 1). e z)) (omega (arith, m)))
          (h k (omega (arith, p, λ (z : k ≡ 1). e z)) m)
  ]
