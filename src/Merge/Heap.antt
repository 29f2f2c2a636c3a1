-- ===== src/Merge/Heap.antt =====
-- The order of the heap, which a push and a pop keep.
use another_c_library.Prelude.{
  ℕ, zero, suc, ◌+◌, ◌/◌, ◌≤◌, ◌<◌, ◌≡◌, ◌≢◌, sym, ap, ap₂, ◌∙◌, arith, Bool, true, false, ◌&&◌,
  ltb, ◌==◌, Bool-cases, inl, inr, ◌⊎◌, ==→eq,
}
use mathlib.Core.Path.{subst⁻¹}
use another_c_library.Merge.{swap, put_at, up, push}

-- A comparison that orders.
pub record IsOrder {A : Type 0} (less : A → A → Bool) : Type 0 where
  pub asym : (a b : A) → less a b ≡ true → less b a ≡ false
  pub trans : (a b c : A) → less b a ≡ false → less c b ≡ false → less c a ≡ false

module _ {A : Type 0} (less : A → A → Bool) where
  -- No item is above its parent, but for the one at `i`.
  abbrev pub UpTo : ℕ → ℕ → (ℕ → A) → Type 0
  UpTo num i c =
      ((k : ℕ) → 2 ≤ k → k ≤ num → k ≢ i → less (c k) (c (k / 2)) ≡ false)
      × ((k : ℕ) → 2 ≤ i → k ≤ num → k / 2 ≡ i → less (c k) (c (i / 2)) ≡ false)

  abbrev pub IsHeap : ℕ → (ℕ → A) → Type 0
  IsHeap num c = (k : ℕ) → 2 ≤ k → k ≤ num → less (c k) (c (k / 2)) ≡ false

-- The items that an exchange leaves and moves.
module _ {A : Type 0} (c : ℕ → A) (i j : ℕ) where
  pub swap_first : swap c i j i ≡ c j
  swap_first = ground arith

  pub swap_second : swap c i j j ≡ c i
  swap_second = ground arith

  pub swap_other : (k : ℕ) → k ≢ i → k ≢ j → swap c i j k ≡ c k
  swap_other k h l = ground arith

pub put_at_self : {A : Type 0} (c : ℕ → A) (i : ℕ) (v : A) → put_at c i v i ≡ v
put_at_self c i v = ground arith

pub put_at_other : {A : Type 0} (c : ℕ → A) (i : ℕ) (v : A) (k : ℕ) → k ≢ i → put_at c i v k ≡ c k
put_at_other c i v k h = ground arith

pub eq-or-ne : (a b : ℕ) → (a ≡ b) ⊎ (a ≢ b)
eq-or-ne a b = elim (Bool-cases (a == b)) [
  | inl e ↦ inl (==→eq a b e)
  | inr e ↦ inr (λ h. ground (arith, e, h))
]

module _ {A : Type 0} {less : A → A → Bool} (order : IsOrder less) where
  -- An exchange with the parent, which the item is below.
  module _ (num i : ℕ) (c : ℕ → A) (p : 0 < i / 2) (l : less (c i) (c (i / 2)) ≡ true)
      (u : UpTo less num i c) where
    up_edge :
        (k : ℕ)
        → 2 ≤ k
        → k ≤ num
        → k ≢ i / 2
        → less (swap c i (i / 2) k) (swap c i (i / 2) (k / 2)) ≡ false
    up_edge k h m ne = elim (eq-or-ne k i) [
      | inl e ↦
          subst⁻¹ (λ x. less (swap c i (i / 2) x) (swap c i (i / 2) (x / 2)) ≡ false) e
            (ap₂ less (swap_first c i (i / 2)) (swap_second c i (i / 2))
              ∙ order.asym (c i) (c (i / 2)) l)
      | inr d ↦
          ap (λ x. less x (swap c i (i / 2) (k / 2))) (swap_other c i (i / 2) k d ne)
          ∙ elim (eq-or-ne (k / 2) i) [
            | inl e ↦
                ap (λ x. less (c k) x) (ap (swap c i (i / 2)) e ∙ swap_first c i (i / 2))
                ∙ u.1 k (omega (arith, p)) m e
            | inr f ↦ elim (eq-or-ne (k / 2) (i / 2)) [
              | inl e ↦
                  ap (λ x. less (c k) x) (ap (swap c i (i / 2)) e ∙ swap_second c i (i / 2))
                  ∙ order.trans (c i) (c (i / 2)) (c k) (order.asym (c i) (c (i / 2)) l)
                      (ap (λ x. less (c k) (c x)) (sym e) ∙ u.0 k h m d)
              | inr g ↦ ap (λ x. less (c k) x) (swap_other c i (i / 2) (k / 2) f g) ∙ u.0 k h m d
            ]
          ]
    ]

    up_bridge :
        (k : ℕ)
        → 2 ≤ i / 2
        → k ≤ num
        → k / 2 ≡ i / 2
        → i ≤ num
        → less (swap c i (i / 2) k) (swap c i (i / 2) (i / 2 / 2)) ≡ false
    up_bridge k h m e n =
        let above = u.0 (i / 2) h (omega (arith, n)) (λ z. omega (arith, z, p)) in
        ap (λ x. less (swap c i (i / 2) k) x)
          (swap_other c i (i / 2) (i / 2 / 2) (λ z. omega (arith, z, p)) (λ z. omega (arith, z, p)))
        ∙ elim (eq-or-ne k i) [
          | inl f ↦
              ap (λ x. less x (c (i / 2 / 2))) (ap (swap c i (i / 2)) f ∙ swap_first c i (i / 2))
              ∙ above
          | inr f ↦
              ap (λ x. less x (c (i / 2 / 2)))
                (swap_other c i (i / 2) k f (λ z. omega (arith, z, e, p)))
              ∙ order.trans (c (i / 2 / 2)) (c (i / 2)) (c k) above
                  (ap (λ x. less (c k) (c x)) (sym e) ∙ u.0 k (omega (arith, e, h)) m f)
        ]

  -- The loop ends with a heap.
  up-IsHeap :
      (fuel num i : ℕ) (c : ℕ → A)
      → i ≤ fuel
      → i ≤ num
      → UpTo less num i c
      → IsHeap less num (up less fuel c i)
  unfolding up
  up-IsHeap zero num i c h n u = λ k a b. u.0 k a b (λ z. omega (arith, z, a, h))
  up-IsHeap (suc fuel) num i c h n u = elim (Bool-cases (ltb 0 (i / 2) && less (c i) (c (i / 2)))) [
    | inl e ↦
        let (p, l) = both e in
        subst⁻¹
          (λ b.
            IsHeap less num (elim b [ true ↦ up less fuel (swap c i (i / 2)) (i / 2) | false ↦ c ]))
          e
          (up-IsHeap fuel num (i / 2) (swap c i (i / 2)) (omega (arith, h, p)) (omega (arith, n))
            (up_edge num i c p l u, λ k a b q. up_bridge num i c p l u k a b q n))
    | inr e ↦
        subst⁻¹
          (λ b.
            IsHeap less num (elim b [ true ↦ up less fuel (swap c i (i / 2)) (i / 2) | false ↦ c ]))
          e
          λ k a b. elim (eq-or-ne k i) [
            | inl z ↦ ap (λ x. less (c x) (c (x / 2))) z ∙ stop e (omega (arith, z, a))
            | inr z ↦ u.0 k a b z
          ]
  ]
    where
      both :
          (ltb 0 (i / 2) && less (c i) (c (i / 2))) ≡ true
          → (0 < i / 2) × (less (c i) (c (i / 2)) ≡ true)
      both e = ground (arith, e)

      stop :
          (ltb 0 (i / 2) && less (c i) (c (i / 2))) ≡ false → 2 ≤ i → less (c i) (c (i / 2)) ≡ false
      stop e a = ground (arith, e, a)

  -- An item that is pushed leaves a heap.
  pub push-IsHeap :
      (num : ℕ) (c : ℕ → A) (item : A)
      → IsHeap less num c
      → IsHeap less (num + 1) (push less num c item)
  unfolding push
  push-IsHeap num c item h =
      up-IsHeap (num + 1) (num + 1) (num + 1) (put_at c (num + 1) item) (omega arith) (omega arith)
        (
          λ k a b ne.
              ap₂ less (put_at_other c (num + 1) item k ne)
                (put_at_other c (num + 1) item (k / 2) (λ z. omega (arith, z, b)))
              ∙ h k a (omega (arith, b, λ (z : k ≡ num + 1). ne z)),
          λ k a b e. absurd (omega (arith, e, b)),
        )
