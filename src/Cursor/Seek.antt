-- ===== src/Cursor/Seek.antt =====
-- ac_cursor_t as its clients see it: the pointers `advance` and `advance_to`, and what they promise.
use another_c_library.Prelude.{ℕ, suc, ◌≤◌, ◌<◌, ◌^◌, ◌≡◌, ◌≢◌}

-- What `advance` and `advance_to` return is `current` of the cursor.
pub record Operations (S : Type 0) : Type 0 where
  pub current : S → ℕ
  pub advance : S → S
  pub advance_to : S → ℕ → S

-- `r` is the least number from `start` on that is in `P`, or 0 if there is none.
pub record Least (P : ℕ → Type 0) (start r : ℕ) : Type 0 where
  pub in_it : r ≢ 0 → (start ≤ r) × P r
  pub least : (x : ℕ) → start ≤ x → P x → (r ≢ 0) × (r ≤ x)

-- The same numbers from `start` on.
abbrev pub SameFrom : ℕ → (ℕ → Type 0) → (ℕ → Type 0) → Type 0
SameFrom start P Q = (x : ℕ) → start ≤ x → (P x → Q x) × (Q x → P x)

-- A cursor stands for a set of numbers: those that it can still return, and the one that it has
-- returned last. `advance` returns the least of them from `lower` on, and `advance_to` the least of
-- them from the number that it is given on. A cursor is settled if `advance` goes on behind `current`;
-- behind a reset it is not.
pub record Seeks {S : Type 0} (o : Operations S) : Type 1 where
  pub Good : S → Type 0
  pub Has : S → ℕ → Type 0
  pub lower : S → ℕ
  pub Settled : S → Type 0
  pub bound : (s : S) (x : ℕ) → Good s → Has s x → x < 2 ^ 32
  pub floor : (s : S) (x : ℕ) → Good s → Has s x → o.current s ≤ x
  pub positive : (s : S) → Good s → 0 < lower s
  pub next_good : (s : S) → Good s → Good (o.advance s)
  pub next : (s : S) → Good s → Least (Has s) (lower s) (o.current (o.advance s))
  pub next_keeps : (s : S) → Good s → SameFrom (lower s) (Has s) (Has (o.advance s))
  pub next_settled : (s : S) → Good s → o.current (o.advance s) ≢ 0 → Settled (o.advance s)
  pub to_good : (s : S) (id : ℕ) → Good s → 0 < id → Good (o.advance_to s id)
  pub to : (s : S) (id : ℕ) → Good s → 0 < id → Least (Has s) id (o.current (o.advance_to s id))
  pub to_keeps : (s : S) (id : ℕ) → Good s → 0 < id → SameFrom id (Has s) (Has (o.advance_to s id))
  pub to_settled :
      (s : S) (id : ℕ)
      → Good s
      → 0 < id
      → Settled s
      → o.current (o.advance_to s id) ≢ 0
      → Settled (o.advance_to s id)
  pub settled_lower : (s : S) → Good s → Settled s → o.current s ≢ 0 → lower s ≡ suc (o.current s)
