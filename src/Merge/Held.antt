-- ===== src/Merge/Held.antt =====
-- What the heap holds: a push adds the item, and a pop takes the first one and nothing else.
use another_c_library.Prelude.{
  ℕ, zero, suc, ◌+◌, ◌/◌, ◌≤◌, ◌<◌, ◌≡◌, ◌≢◌, refl, sym, ap, ap₂, ◌∙◌, arith, Bool, true, false,
  ◌&&◌, leb, ltb, Bool-cases, inl, inr,
}
use another_c_library.Merge.{swap, put_at, up, child, down, push, pop}
use another_c_library.Merge.Heap.{eq-or-ne, put_at_self, put_at_other}
use another_c_library.Merge.Pop.{child_half}

-- What the items from 1 to `n` weigh together.
unfoldable pub total : {A : Type 0} → (A → ℕ) → ℕ → (ℕ → A) → ℕ
total f zero c = 0
total f (suc n) c = total f n c + f (c (suc n))

module _ {A : Type 0} (f : A → ℕ) where
  pub total_next : (n : ℕ) (c : ℕ → A) → total f (n + 1) c ≡ total f n c + f (c (n + 1))
  unfolding total
  total_next n c =
      let one : n + 1 ≡ suc n = omega arith in
      ap (λ k. total f k c) one ∙ ap (λ k. total f n c + f (c k)) (sym one)

  pub total_zero : (n : ℕ) (c : ℕ → A) → ((k : ℕ) → 1 ≤ k → k ≤ n → f (c k) ≡ 0) → total f n c ≡ 0
  unfolding total
  total_zero zero c h = refl
  total_zero (suc n) c h =
      let rest = total_zero n c (λ k a b. h k a (omega (arith, b))) in
      let last = h (suc n) (omega arith) (omega arith) in omega (arith, rest, last)

  pub zero_total : (n : ℕ) (c : ℕ → A) (k : ℕ) → total f n c ≡ 0 → 1 ≤ k → k ≤ n → f (c k) ≡ 0
  unfolding total
  zero_total zero c k h a b = absurd (omega (arith, a, b))
  zero_total (suc n) c k h a b = elim (eq-or-ne k (suc n)) [
    | inl e ↦ ap (λ i. f (c i)) e ∙ omega (arith, h)
    | inr e ↦ zero_total n c k (omega (arith, h)) a (omega (arith, b, λ (z : k ≡ suc n). e z))
  ]

  total_same :
      (n : ℕ) (c d : ℕ → A) → ((k : ℕ) → 1 ≤ k → k ≤ n → c k ≡ d k) → total f n c ≡ total f n d
  unfolding total
  total_same zero c d h = refl
  total_same (suc n) c d h =
      ap₂ (◌+◌) (total_same n c d (λ k a b. h k a (omega (arith, b))))
        (ap f (h (suc n) (omega arith) (omega arith)))

  total-put_at :
      (n : ℕ) (c : ℕ → A) (i : ℕ) (v : A)
      → 1 ≤ i
      → i ≤ n
      → total f n (put_at c i v) + f (c i) ≡ total f n c + f v
  unfolding total
  total-put_at zero c i v a b = absurd (omega (arith, a, b))
  total-put_at (suc n) c i v a b = elim (eq-or-ne (suc n) i) [
    | inl e ↦
        let same : total f n (put_at c i v) ≡ total f n c =
          total_same n (put_at c i v) c
            (λ k p q. put_at_other c i v k (λ z. omega (arith, z, q, e))) in
        let last : f (put_at c i v (suc n)) ≡ f v =
          ap f (ap (put_at c i v) e ∙ put_at_self c i v) in
        let old : f (c (suc n)) ≡ f (c i) = ap (λ k. f (c k)) e in omega (arith, same, last, old)
    | inr e ↦
        let rest = total-put_at n c i v a (omega (arith, b, λ (z : suc n ≡ i). e z)) in
        let last : f (put_at c i v (suc n)) ≡ f (c (suc n)) = ap f (put_at_other c i v (suc n) e) in
        omega (arith, rest, last)
  ]

  swap_as_put_at :
      (c : ℕ → A) (i j k : ℕ) → j ≢ i → swap c i j k ≡ put_at (put_at c i (c j)) j (c i) k
  swap_as_put_at c i j k h = ground (arith, h)

  total-swap :
      (n : ℕ) (c : ℕ → A) (i j : ℕ)
      → 1 ≤ i
      → i ≤ n
      → 1 ≤ j
      → j ≤ n
      → j ≢ i
      → total f n (swap c i j) ≡ total f n c
  total-swap n c i j a b p q h =
      let first = total-put_at n c i (c j) a b in
      let second = total-put_at n (put_at c i (c j)) j (c i) p q in
      let at : f (put_at c i (c j) j) ≡ f (c j) = ap f (put_at_other c i (c j) j h) in
      total_same n (swap c i j) (put_at (put_at c i (c j)) j (c i))
        (λ k x y. swap_as_put_at c i j k h)
      ∙ omega (arith, first, second, at)

  module _ (less : A → A → Bool) where
    total-up :
        (fuel num i : ℕ) (c : ℕ → A) → i ≤ num → total f num (up less fuel c i) ≡ total f num c
    unfolding up
    total-up zero num i c h = refl
    total-up (suc fuel) num i c h = elim (Bool-cases (ltb 0 (i / 2) && less (c i) (c (i / 2)))) [
      | inl e ↦
          let p : 0 < i / 2 = ground (arith, e) in
          ap
            (λ b.
              total f num (elim b [ true ↦ up less fuel (swap c i (i / 2)) (i / 2) | false ↦ c ]))
            e
          ∙ total-up fuel num (i / 2) (swap c i (i / 2)) (omega (arith, h))
          ∙ total-swap num c i (i / 2) (omega (arith, p)) h (omega (arith, p)) (omega (arith, h))
              (λ z. omega (arith, z, p))
      | inr e ↦
          ap
            (λ b.
              total f num (elim b [ true ↦ up less fuel (swap c i (i / 2)) (i / 2) | false ↦ c ]))
            e
    ]

    total-down :
        (fuel num i : ℕ) (c : ℕ → A) → 1 ≤ i → total f num (down less fuel num c i) ≡ total f num c
    unfolding down
    total-down zero num i c h = refl
    total-down (suc fuel) num i c h =
        let j = child less num c i in
        let half = child_half less num c i in
        elim (Bool-cases (leb j num && less (c j) (c i))) [
          | inl e ↦
              let n : j ≤ num = within j e in
              ap
                (λ b. total f num (elim b [ true ↦ down less fuel num (swap c i j) j | false ↦ c ]))
                e
              ∙ total-down fuel num j (swap c i j) (omega (arith, h, half))
              ∙ total-swap num c i j h (omega (arith, half, n)) (omega (arith, h, half)) n
                  (λ z. omega (arith, z, half, h))
          | inr e ↦
              ap
                (λ b. total f num (elim b [ true ↦ down less fuel num (swap c i j) j | false ↦ c ]))
                e
        ]
      where
        within : (j : ℕ) → (leb j num && less (c j) (c i)) ≡ true → j ≤ num
        within j e = ground (arith, e)

    pub total-push :
        (num : ℕ) (c : ℕ → A) (item : A)
        → total f (num + 1) (push less num c item) ≡ total f num c + f item
    unfolding push
    total-push num c item =
        total-up (num + 1) (num + 1) (num + 1) (put_at c (num + 1) item) (omega arith)
        ∙ total_next num (put_at c (num + 1) item)
        ∙ ap₂ (◌+◌)
            (total_same num (put_at c (num + 1) item) c
              (λ k a b. put_at_other c (num + 1) item k (λ z. omega (arith, z, b))))
            (ap f (put_at_self c (num + 1) item))

    pub total-pop :
        (num : ℕ) (c : ℕ → A) → total f num (pop less num c) + f (c 1) ≡ total f (num + 1) c
    unfolding pop total
    total-pop zero c = refl
    total-pop (suc n) c =
        let moved = total-down (suc n) (suc n) 1 (put_at c 1 (c (suc n + 1))) (omega arith) in
        let held = total-put_at (suc n) c 1 (c (suc n + 1)) (omega arith) (omega arith) in
        let next = total_next (suc n) c in omega (arith, moved, held, next)
