-- ===== src/InBase/Delimited.antt =====
-- ac_in_base_read_delimited: a record up to a delimiter, in the block and across blocks.
use another_c_library.Prelude.{
  ℕ, zero, suc, ◌+◌, ◌≤◌, ◌<◌, ◌≡◌, refl, sym, ap, ap₂, ◌∙◌, arith, Bool, true, false, Option, none,
  some, [], ◌++◌, append_assoc, if◌then◌else◌, ltb, ltb→lt, Bytes, length, take, drop,
  length-append,
}
use mathlib.Core.Path.{subst, subst⁻¹}
use another_c_library.InBase.{
  Reader, emptied, Result, returned, block, slice, found, end_of_block, found_long, end_long,
  gather, fill_blocks,
}
use another_c_library.InBase.Lists.{take-append_ge, drop-append_ge}
use another_c_library.InBase.State.{IsFile, IsSound, behind, to_come, length-block}
use another_c_library.InBase.Fill.{Filled, fill_blocks-Filled}
use another_c_library.InBase.Move.{
  Answers, unread-none, behind_eof, to_come-move, to_come-end, slice-move, end_of_block-Answers,
  move-Answers,
}
use another_c_library.InBase.Fixed.{Answers-if, Answers-elim}
use another_c_library.InBase.Scan.{
  scan_within, scan-append, plain, plain-append, plain-shift, shift,
}

-- The record, where `n` is the index of its delimiter, and what follows it.
abbrev pub record_at : Bool → Option ℕ → Bytes → Option Bytes
record_at required (some n) u = some (take n u)
record_at required none u = if required then none else some u

abbrev pub rest_at : Option ℕ → Bytes → Bytes
rest_at (some n) u = drop (n + 1) u
rest_at none u = []

-- A call reads the record of `u` whose delimiter has the index `s`.
abbrev pub Reads :
    {F : Type 0} → (F → Bytes) → Bool → Result (Option Bytes × Reader F) → Option ℕ → Bytes → Type 0
Reads {F} contents required result s u =
    Answers contents result (record_at required s u) (rest_at s u)

module _ {F : Type 0} (contents : F → Bytes) where
  pub found-Reads :
      (required : Bool) (r : Reader F) (n : ℕ)
      → IsSound r
      → n < length (block r)
      → Reads contents required (found r n) (some n) (to_come contents r)
  unfolding found
  found-Reads required r n g l =
      let fits : r.pos + (n + 1) ≤ r.used = omega (arith, l, length-block g) in
      Answers-if (ltb r.used (r.pos + (n + 1)))
        (λ m. absurd (omega (arith, fits, ltb→lt r.used (r.pos + (n + 1)) m)))
        λ m. move-Answers contents r g n (n + 1) (omega arith) fits

  pub end-Reads :
      (required : Bool) (r : Reader F)
      → IsSound r
      → r.zerop ≡ none
      → r.eof ≡ true
      → Reads contents required (end_of_block r required) none (to_come contents r)
  end-Reads required r g z e = end_of_block-Answers contents r g required e z

  with_bh :
      {r : Reader F} (p : ℕ) (bh : Option Bytes)
      → IsSound r
      → p ≤ r.used
      → IsSound (record r { pos = p; bh = bh })
  with_bh p bh g h = ground arith

  -- The record that begins with `bh`.
  pub found_long-Reads :
      (required : Bool) (r : Reader F) (bh : Bytes) (n : ℕ)
      → IsSound r
      → r.zerop ≡ none
      → r.pos ≡ 0
      → n < length (block r)
      → Reads contents required
          (found_long r bh n)
          (some (length bh + n))
          (bh ++ to_come contents r)
  unfolding found_long
  found_long-Reads required r bh n g z p l =
      let fits : r.pos + (n + 1) ≤ r.used = omega (arith, l, length-block g) in
      Answers-if (ltb r.used (r.pos + (n + 1)))
        (λ m. absurd (omega (arith, fits, ltb→lt r.used (r.pos + (n + 1)) m)))
        λ m. record {
          after = after;
          is_result = ap (λ x. returned (some x, after)) bytes;
          sound = with_bh (r.pos + (n + 1)) (some (bh ++ take n r.buffer)) g fits;
          leaves =
              unread-none contents after z
              ∙ to_come-move contents r g (n + 1) fits
              ∙ sym (
                  drop-append_ge (length bh + n + 1) bh (to_come contents r) (omega arith)
                  ∙ ap (λ k. drop k (to_come contents r)) (omega arith));
        }
    where
      after : Reader F
      after = record r { pos = r.pos + (n + 1); bh = some (bh ++ take n r.buffer) }

      start : take n r.buffer ≡ take n (to_come contents r)
      start =
          ap₂ (λ i j. slice i j r.buffer) (sym p) (omega (arith, p))
          ∙ slice-move contents r g n (omega (arith, l, length-block g))

      bytes : bh ++ take n r.buffer ≡ take (length bh + n) (bh ++ to_come contents r)
      bytes =
          ap (◌++◌ bh) start
          ∙ sym (
              take-append_ge (length bh + n) bh (to_come contents r) (omega arith)
              ∙ ap (λ k. bh ++ take k (to_come contents r)) (omega arith))

  end_long-Reads :
      (required : Bool) (r : Reader F) (bh : Bytes)
      → IsSound r
      → r.zerop ≡ none
      → r.pos ≡ 0
      → r.eof ≡ true
      → Reads contents required (end_long r bh required) none (bh ++ to_come contents r)
  unfolding end_long
  end_long-Reads true r bh g z p e = record {
    after = record r { pos = r.used; bh = none };
    is_result = refl;
    sound = with_bh r.used none g (omega arith);
    leaves =
        unread-none contents (record r { pos = r.used; bh = none }) z ∙ to_come-end contents r g e;
  }
  end_long-Reads false r bh g z p e = record {
    after = after;
    is_result =
        ap (λ i. returned (some (bh ++ drop i (take r.used r.buffer)), after)) (sym p)
        ∙ ap (λ x. returned (some (bh ++ x), after)) (sym (behind_eof contents r e));
    sound = with_bh r.used (some (bh ++ take r.used r.buffer)) g (omega arith);
    leaves = unread-none contents after z ∙ to_come-end contents r g e;
  }
    where
      after : Reader F
      after = record r { pos = r.used; bh = some (bh ++ take r.used r.buffer) }

-- The delimiter is behind a text without one.
plain_behind :
    (delim : ℕ) (all ys : Bytes)
    → plain delim all 0 ≡ none
    → plain delim (all ++ ys) 0 ≡ shift (length all) (plain delim ys 0)
plain_behind delim all ys h =
    plain-append delim all ys 0 h
    ∙ ap (plain delim ys) (omega arith)
    ∙ plain-shift delim ys (length all) 0

module _ {F : Type 0} (contents : F → Bytes) (delim : ℕ) (required : Bool) (t : Reader F) where
  plain_end :
      t.eof ≡ true → plain delim (block t) 0 ≡ none → plain delim (to_come contents t) 0 ≡ none
  plain_end e h = ap (λ x. plain delim x 0) (behind_eof contents t e) ∙ h

  -- A round of the loop, where `next` is the next one.
  gather_step-Reads :
      (all : Bytes) (next : Result (Option Bytes × Reader F))
      → IsSound t
      → t.zerop ≡ none
      → t.pos ≡ 0
      → plain delim all 0 ≡ none
      → (t.eof ≡ false
          → plain delim (block t) 0 ≡ none
          → Reads contents required next
              (plain delim (all ++ to_come contents t) 0)
              (all ++ to_come contents t))
      → (o : Option ℕ) → plain delim (block t) 0 ≡ o
      → Reads contents required
          (elim o [
            | some n ↦ found_long t all n
            | none ↦ elim t.eof [ true ↦ end_long t all required | false ↦ next ]
          ])
          (plain delim (all ++ to_come contents t) 0)
          (all ++ to_come contents t)
  gather_step-Reads all next g z p k go (some n) h =
      subst⁻¹ (λ s. Reads contents required (found_long t all n) s (all ++ to_come contents t))
        (plain_behind delim all (to_come contents t) k
          ∙ ap (shift (length all))
              (scan-append false delim false (block t) (behind contents t) 0 n h))
        (found_long-Reads contents required t all n g z p
          (omega (arith, scan_within false delim false (block t) 0 n h)))
  gather_step-Reads all next g z p k go none h =
      Answers-elim t.eof
        (λ e.
          subst⁻¹
            (λ s. Reads contents required (end_long t all required) s (all ++ to_come contents t))
            (plain_behind delim all (to_come contents t) k
              ∙ ap (shift (length all)) (plain_end e h))
            (end_long-Reads contents required t all g z p e))
        (λ e. go e h)

-- The loop over the blocks.
module _ {F : Type 0} {read : F → ℕ → Option Bytes × F} {contents : F → Bytes}
    (file : IsFile read contents) where
  -- What is filled behind a block that has been put away.
  pub emptied-Filled :
      (r : Reader F) (all : Bytes)
      → IsSound r
      → r.eof ≡ false
      → Filled contents (emptied r all) (fill_blocks read (emptied r all))
  emptied-Filled r all g e =
      fill_blocks-Filled file (emptied r all)
        record {
          room = g.room;
          used_size = omega arith;
          pos_used = omega arith;
          sized = g.sized;
          open_file = g.open_file;
        }
        e

  -- There is less behind the block that is filled, if the file goes on.
  behind_less :
      (r : Reader F) (all : Bytes)
      → IsSound r
      → r.eof ≡ false
      → (fill_blocks read (emptied r all)).eof ≡ false
      → length (behind contents (fill_blocks read (emptied r all))) < length (behind contents r)
  behind_less r all g e h =
      let f = emptied-Filled r all g e in
      let t = fill_blocks read (emptied r all) in
      omega (
        arith,
        f.full h,
        f.same_pos,
        f.sound.sized h,
        ap length f.comes,
        length-block f.sound,
        length-append (block t) (behind contents t),
      )

  pub gather-Reads :
      (delim : ℕ) (required : Bool) (fuel : ℕ) (r : Reader F) (bh : Bytes)
      → IsSound r
      → r.eof ≡ false
      → r.zerop ≡ none
      → length (behind contents r) < fuel
      → plain delim (bh ++ take r.used r.buffer) 0 ≡ none
      → Reads contents required
          (gather read false delim required fuel r bh)
          (plain delim ((bh ++ take r.used r.buffer) ++ behind contents r) 0)
          ((bh ++ take r.used r.buffer) ++ behind contents r)
  unfolding gather
  gather-Reads delim required zero r bh g e z h k = absurd (omega arith)
  gather-Reads delim required (suc fuel) r bh g e z h k =
      let all = bh ++ take r.used r.buffer in
      let t = fill_blocks read (emptied r all) in
      let f = emptied-Filled r all g e in
      let start : block t ≡ take t.used t.buffer = ap (λ i. slice i t.used t.buffer) f.same_pos in
      subst
        (λ u.
          Reads contents required (gather read false delim required (suc fuel) r bh)
            (plain delim (all ++ u) 0) (all ++ u))
        f.comes
        (gather_step-Reads contents delim required t all
          (gather read false delim required fuel t all) f.sound (f.same_zerop ∙ z) f.same_pos k
          (λ more h'.
            subst
              (λ x.
                Reads contents required (gather read false delim required fuel t all)
                  (plain delim x 0) x)
              (append_assoc all (take t.used t.buffer) (behind contents t)
                ∙ ap (λ x. all ++ (x ++ behind contents t)) (sym start))
              (gather-Reads delim required fuel t all f.sound more (f.same_zerop ∙ z)
                (omega (arith, behind_less r all g e more, h))
                (ap (λ x. plain delim (all ++ x) 0) (sym start)
                  ∙ plain_behind delim all (block t) k
                  ∙ ap (shift (length all)) h')))
          (plain delim (block t) 0) refl)
