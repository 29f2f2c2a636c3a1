-- ===== src/Cursor/And.antt =====
-- The conjunction of cursors of src/ac-search/ac_cursor.c.
pub mod Loop
pub mod Laws
use another_c_library.Prelude.{
  ℕ, zero, suc, ◌+◌, ◌*◌, ◌^◌, Bool, true, false, List, [], ◌∷◌, ◌++◌, Option, none, some, leb,
  ◌==◌, if◌then◌else◌, length,
}
use another_c_library.Cursor.Seek.{Operations}

-- and_cursor_t; `emptied` says that `advance` is advance_empty. The first cursor stands apart, since
-- `advance` reads it without a check of their number.
pub record And (S : Type 0) : Type 0 where
  pub first : S
  pub others : List S
  pub current : ℕ
  pub emptied : Bool

module _ {S : Type 0} (o : Operations S) where
  -- The loop of advance_and and advance_and_to: the cursors in front of `i`, and those from `i` on.
  unfoldable pub and_loop : ℕ → ℕ → List S → List S → Option (ℕ × List S)
  and_loop fuel zero front rest = some (0, front ++ rest)
  and_loop fuel (suc id) front [] = some (suc id, front)
  and_loop zero (suc id) front (c ∷ rest) = none
  and_loop (suc fuel) (suc id) front (c ∷ rest) =
      let moved = o.advance_to c (suc id) in
      let id2 = o.current moved in
      let same = suc id == id2 in
      and_loop fuel id2 (if same then front ++ (moved ∷ []) else [])
        (if same then rest else front ++ (moved ∷ rest))

  -- Behind the loop; the fuel runs out for no cursors that return 32-bit numbers.
  abbrev pub finish : And S → Option (ℕ × List S) → And S
  finish c (some (suc id, first ∷ others)) = record {
    first = first;
    others = others;
    current = suc id;
    emptied = false;
  }
  finish c (some (zero, first ∷ others)) = record {
    first = first;
    others = others;
    current = 0;
    emptied = true;
  }
  finish c _ = c

  abbrev pub rounds : And S → ℕ
  rounds c = 2 ^ 32 * (length c.others + 2) + (length c.others + 1)

  unfoldable pub advance_and : And S → And S
  unfolding and_loop
  advance_and c =
      let first = o.advance c.first in
      if c.emptied
      then c
      else finish c (and_loop (rounds c) (o.current first) (first ∷ []) c.others)

  unfoldable pub advance_and_to : And S → ℕ → And S
  unfolding and_loop
  advance_and_to c id =
      if c.emptied
      then c
      else if leb id c.current
      then c
      else finish c (and_loop (rounds c) id [] (c.first ∷ c.others))

  abbrev pub and_operations : Operations (And S)
  and_operations = record {
    current = λ c. c.current;
    advance = advance_and;
    advance_to = advance_and_to;
  }
