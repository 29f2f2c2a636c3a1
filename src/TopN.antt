-- ===== src/TopN.antt =====
-- src/ac-search/ac_top_n.c: the items of greatest weight, in a block for twice as many.
pub mod Laws
use another_c_library.Prelude.{
  ℕ, zero, suc, ◌+◌, ◌*◌, ◌/◌, ◌%◌, ◌^◌, Bool, true, List, [], ◌∷◌, ltb, ◌==◌, if◌then◌else◌,
  length, get_or, set, take, drop, ◌++◌,
}

-- A type of weights with `>` and `!=`, the block from the pool, and the sort of the-macro-library,
-- which is given a comparison. Nothing is relied on for it.
pub record Parts (W : Type 0) : Type 0 where
  pub greater : W → W → Bool
  pub differ : W → W → Bool
  pub fresh : ℕ → List (ℕ × W)
  pub macro_sort : (ℕ × W → ℕ × W → Bool) → List (ℕ × W) → List (ℕ × W)

-- `items` is the memory from `iw` to `ep`; `p` and `split` are counted from `iw`.
pub record TopN (W : Type 0) : Type 0 where
  pub items : List (ℕ × W)
  pub p : ℕ
  pub split : ℕ

module _ {W : Type 0} (parts : Parts W) where
  abbrev pub ep : TopN W → ℕ
  ep top = length top.items

  -- compare_ac_top_n_item: as a bool both 1 and -1 are true.
  unfoldable pub compare_item : ℕ × W → ℕ × W → Bool
  compare_item a b =
      if parts.differ a.1 b.1 then if parts.greater b.1 a.1 then true else true else ltb a.0 b.0

  -- sort_ac_top_n_item
  abbrev pub sort_items : List (ℕ × W) → List (ℕ × W)
  sort_items items = parts.macro_sort compare_item items

  -- ac_top_n_init
  unfoldable pub init : ℕ → TopN W
  init size =
      let items = parts.fresh (size * 2 % 2 ^ 32) in
      record { items = items; p = 0; split = length items }

  -- ac_top_n_clear
  unfoldable pub clear : TopN W → TopN W
  clear top = record top { split = ep top; p = 0 }

  abbrev pub put : TopN W → ℕ × W → TopN W
  put top item = record top { items = set top.items top.p item; p = top.p + 1 }

  -- Whether the weight is greater than that of the item at `split`.
  abbrev pub passes : TopN W → ℕ × W → Bool
  passes top item = parts.greater item.1 (get_or top.items top.split item).1

  unfoldable pub add : TopN W → ℕ × W → TopN W
  add top item =
      let split = if top.split == ep top then ep top / 2 else top.split in
      if ltb top.p top.split
      then put top item
      else if ltb top.p (ep top)
      then if passes top item then put top item else top
      else record top { items = sort_items top.items; split = split; p = split }

  abbrev pub add_all : TopN W → List (ℕ × W) → TopN W
  add_all top [] = top
  add_all top (item ∷ items) = add_all (add top item) items

  -- ac_top_n_finish: the first items are sorted where they are, and handed out.
  unfoldable pub finish : TopN W → List (ℕ × W) × TopN W
  finish top =
      let sorted = sort_items (take top.p top.items) in
      (sorted, record top { items = sorted ++ drop top.p top.items })
