-- ===== src/Cursor.antt =====
-- src/ac-search/ac_cursor.c: the cursor over a range of numbers, with its reset and its end. The
-- children model the cursors that join others, but for the or cursor.
pub mod Range
pub mod Seek
pub mod And
pub mod Not
use another_c_library.Prelude.{
  ℕ, zero, suc, ◌+◌, ◌%◌, ◌^◌, Bool, true, false, List, [], ◌∷◌, leb, ltb, if◌then◌else◌,
}

-- range_cursor_t: `next` and `end` are its own fields. `pending` says that `advance` is
-- post_reset_advance, `stuck` that `_advance` is, and `emptied` that `advance` is advance_empty.
pub record Cursor : Type 0 where
  pub current : ℕ
  pub next : ℕ
  pub end : ℕ
  pub pending : Bool
  pub stuck : Bool
  pub emptied : Bool

-- ac_cursor_init_empty
unfoldable pub init_empty : Cursor
init_empty = record {
  current = 0;
  next = 0;
  end = 0;
  pending = false;
  stuck = false;
  emptied = true;
}

-- What is returned is `current` of the cursor.
unfoldable pub empty : Cursor → Cursor
empty c = record c { current = 0; pending = false; emptied = true }

unfoldable pub advance_range : Cursor → Cursor
unfolding empty
advance_range c =
    if leb c.end c.next
    then empty c
    else record c { current = c.next; next = (c.next + 1) % 2 ^ 32 }

unfoldable pub advance_range_to : Cursor → ℕ → Cursor
unfolding empty
advance_range_to c id =
    if leb id c.current
    then c
    else if leb c.end id
    then empty c
    else record c { current = id; next = (id + 1) % 2 ^ 32 }

-- `c->advance = c->_advance`
unfoldable pub post_reset_advance : Cursor → Cursor
post_reset_advance c = record c { pending = c.stuck }

-- ac_cursor_reset: the function that is kept in `_advance` may be post_reset_advance itself.
unfoldable pub reset : Cursor → Cursor
reset c = record c { pending = true; stuck = c.pending }

-- `c->advance(c)`; advance_empty returns 0, to which `empty` has set `current`.
unfoldable pub advance : Cursor → Cursor
unfolding post_reset_advance advance_range
advance c = if c.emptied then c else if c.pending then post_reset_advance c else advance_range c

-- `c->advance_to(c, id)`
unfoldable pub advance_to : Cursor → ℕ → Cursor
unfolding advance_range_to
advance_to c id = if c.emptied then c else advance_range_to c id

unfoldable pub range : ℕ → ℕ → Cursor
range start end = record {
  current = start;
  next = (start + 1) % 2 ^ 32;
  end = end;
  pending = true;
  stuck = false;
  emptied = false;
}

-- The numbers that so many calls of `advance` return, and the cursor behind them.
abbrev pub read : ℕ → Cursor → List ℕ × Cursor
read zero c = ([], c)
read (suc n) c = let d = advance c in let rest = read n d in (d.current ∷ rest.0, rest.1)
