-- ===== src/Cursor/Not.antt =====
-- The difference of two cursors of src/ac-search/ac_cursor.c.
pub mod Laws
pub mod Calls
use another_c_library.Prelude.{
  ℕ, zero, suc, ◌^◌, Bool, true, false, Option, none, some, leb, ◌==◌, if◌then◌else◌,
}
use another_c_library.Cursor.Seek.{Operations}

-- not_cursor_t; `pos_only` says that `advance` is advance_pos, and `emptied` that it is
-- advance_empty.
pub record Not (S T : Type 0) : Type 0 where
  pub pos : S
  pub neg : T
  pub current : ℕ
  pub pos_only : Bool
  pub emptied : Bool

module _ {S T : Type 0} (o : Operations S) (n : Operations T) where
  -- ac_cursor_empty, after `pos` has come to its end.
  abbrev pub ended : Not S T → S → Not S T
  ended c pos = record c { pos = pos; current = 0; emptied = true }

  -- `id` is in `pos` and not in `neg`, of which `id2` is the next number.
  abbrev pub at_id : Not S T → S → T → Not S T
  at_id c pos neg = record c {
    pos = pos;
    neg = neg;
    current = o.current pos;
    pos_only = n.current neg == 0;
  }

  -- The loop of advance_not.
  unfoldable pub not_loop : ℕ → Not S T → Option (Not S T)
  not_loop zero c = none
  not_loop (suc fuel) c =
      let pos = o.advance c.pos in
      let neg = n.advance_to c.neg (o.current pos) in
      elim (o.current pos == 0) [
        | true ↦ some (ended c pos)
        | false ↦ elim (o.current pos == n.current neg) [
          | true ↦ not_loop fuel (record c { pos = pos; neg = neg })
          | false ↦ some (at_id c pos neg)
        ]
      ]

  -- The loop ends for a `pos` that returns 32-bit numbers.
  unfoldable pub advance_not : Not S T → Not S T
  unfolding not_loop
  advance_not c = elim (not_loop (2 ^ 32) c) [ none ↦ c | some d ↦ d ]

  -- Behind the call for `pos` in advance_not_to.
  abbrev pub behind_pos : Not S T → S → Not S T
  behind_pos c pos =
      let neg = n.advance_to c.neg (o.current pos) in
      let on = advance_not (record c { pos = pos; neg = neg }) in
      if o.current pos == 0
      then ended c pos
      else if o.current pos == n.current neg
      then on
      else at_id c pos neg

  unfoldable pub advance_not_to : Not S T → ℕ → Not S T
  advance_not_to c id = if leb id c.current then c else behind_pos c (o.advance_to c.pos id)

  -- advance_pos and advance_pos_to
  abbrev pub pos_at : Not S T → S → Not S T
  pos_at c pos =
      if o.current pos == 0 then ended c pos else record c { pos = pos; current = o.current pos }

  unfoldable pub advance : Not S T → Not S T
  advance c =
      if c.emptied then c else if c.pos_only then pos_at c (o.advance c.pos) else advance_not c

  unfoldable pub advance_to : Not S T → ℕ → Not S T
  unfolding advance_not_to
  advance_to c id =
      if c.emptied
      then c
      else if c.pos_only
      then if leb id c.current then c else pos_at c (o.advance_to c.pos id)
      else advance_not_to c id
