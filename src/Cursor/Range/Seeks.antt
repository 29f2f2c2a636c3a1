-- ===== src/Cursor/Range/Seeks.antt =====
-- The cursor over a range of numbers is a cursor for the numbers of the range.
use another_c_library.Prelude.{
  ℕ, suc, ◌+◌, ◌-◌, ◌^◌, ◌≤◌, ◌<◌, true, false, if◌then◌else◌, ◌≡◌, ◌≢◌, arith,
}
use another_c_library.Cursor.{
  Cursor, empty, advance, advance_range, advance_range_to, advance_to, post_reset_advance,
}
use another_c_library.Cursor.Seek.{Operations, Least, SameFrom, Seeks}

abbrev pub range_operations : Operations Cursor
range_operations = record { current = λ c. c.current; advance = advance; advance_to = advance_to }

-- A range that is not empty, without 0, within 32 bits, and not reset twice in a row.
abbrev pub GoodRange : Cursor → Type 0
GoodRange c =
    (c.emptied ≡ true → c.current ≡ 0)
    × (c.emptied ≡ false
        → (0 < c.current)
          × (c.current < c.end)
          × (c.end < 2 ^ 32)
          × (c.next ≡ c.current + 1)
          × (c.stuck ≡ false))

abbrev pub HasRange : Cursor → ℕ → Type 0
HasRange c x = (c.emptied ≡ false) × (c.current ≤ x) × (x < c.end)

abbrev pub range_lower : Cursor → ℕ
range_lower c = if c.pending then suc (c.current - 1) else suc c.current

-- What a call leads to.
module _ (c : Cursor) (g : GoodRange c) where
  pub advance-good : GoodRange (advance c)
  unfolding advance advance_range empty post_reset_advance
  advance-good = ground (arith, g.0, g.1)

  pub advance-least : Least (HasRange c) (range_lower c) (advance c).current
  unfolding advance advance_range empty post_reset_advance
  advance-least = record {
    in_it = λ ne. ground (arith, g.0, g.1, ne);
    least = λ x le h. ground (arith, g.0, g.1, le, h);
  }

  pub advance-keeps : SameFrom (range_lower c) (HasRange c) (HasRange (advance c))
  unfolding advance advance_range empty post_reset_advance
  advance-keeps =
      λ x le. ((λ h. ground (arith, g.0, g.1, le, h)), (λ h. ground (arith, g.0, g.1, le, h)))

  pub advance-settled : (advance c).current ≢ 0 → (advance c).pending ≡ false
  unfolding advance advance_range empty post_reset_advance
  advance-settled = λ ne. ground (arith, g.0, g.1, ne)

  module _ (id : ℕ) (p : 0 < id) where
    pub advance_to-good : GoodRange (advance_to c id)
    unfolding advance_to advance_range_to empty
    advance_to-good = ground (arith, g.0, g.1, p)

    pub advance_to-least : Least (HasRange c) id (advance_to c id).current
    unfolding advance_to advance_range_to empty
    advance_to-least = record {
      in_it = λ ne. ground (arith, g.0, g.1, p, ne);
      least = λ x le h. ground (arith, g.0, g.1, p, le, h);
    }

    pub advance_to-keeps : SameFrom id (HasRange c) (HasRange (advance_to c id))
    unfolding advance_to advance_range_to empty
    advance_to-keeps = λ x le.
        ((λ h. ground (arith, g.0, g.1, p, le, h)), (λ h. ground (arith, g.0, g.1, p, le, h)))

    pub advance_to-settled :
        c.pending ≡ false → (advance_to c id).current ≢ 0 → (advance_to c id).pending ≡ false
    unfolding advance_to advance_range_to empty
    advance_to-settled = λ s ne. ground (arith, g.0, g.1, p, s, ne)

pub floor-range : (c : Cursor) (x : ℕ) → GoodRange c → HasRange c x → c.current ≤ x
floor-range c x g h = h.1

pub positive-range : (c : Cursor) → 0 < range_lower c
positive-range c = ground arith

pub settled-range : (c : Cursor) → c.pending ≡ false → range_lower c ≡ suc c.current
settled-range c s = ground (arith, s)

unfoldable pub range_laws : Seeks range_operations
range_laws = record {
  Good = GoodRange;
  Has = HasRange;
  lower = range_lower;
  Settled = λ c. c.pending ≡ false;
  bound = λ c x g h. omega (arith, h.2, (g.1 h.0).2);
  floor = floor-range;
  positive = λ c g. positive-range c;
  next_good = advance-good;
  next = advance-least;
  next_keeps = advance-keeps;
  next_settled = advance-settled;
  to_good = λ c id g p. advance_to-good c g id p;
  to = λ c id g p. advance_to-least c g id p;
  to_keeps = λ c id g p. advance_to-keeps c g id p;
  to_settled = λ c id g p s ne. advance_to-settled c g id p s ne;
  settled_lower = λ c g s ne. settled-range c s;
}
