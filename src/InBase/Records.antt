-- ===== src/InBase/Records.antt =====
-- ac_in_base_read_delimited: a whole call.
use another_c_library.Prelude.{
  ℕ, ◌-◌, ◌≤◌, ◌<◌, ◌≡◌, refl, sym, ap, ◌∙◌, arith, Bool, true, false, Option, none, some, [], ◌++◌,
  if◌then◌else◌, ltb, leb, Bytes, length, take, drop, length-append, take_append,
}
use mathlib.Core.Path.{subst, subst⁻¹}
use another_c_library.InBase.{
  Reader, Result, block, slice, scan, found, end_of_block, gather, after_fill, read_block,
  read_delimited, cleanup_last_read, reset_block, fill_blocks,
}
use another_c_library.Buffer.Memory.{take-append_le}
use another_c_library.InBase.Lists.{take-drop}
use another_c_library.InBase.State.{
  IsFile, IsSound, behind, to_come, unread, cleanup-IsSound, pos-reset_block, zerop-reset_block,
  used-reset_block, length-block,
}
use another_c_library.InBase.Move.{behind_eof}
use another_c_library.InBase.Fixed.{Answers-elim, reset-Filled}
use another_c_library.InBase.Scan.{scan_within, scan-append, plain, plain-append}
use another_c_library.InBase.Delimited.{Reads, found-Reads, end-Reads, gather-Reads}

module _ {F : Type 0} (contents : F → Bytes) (csv : Bool) (delim : ℕ) (required : Bool) where
  -- The index of the delimiter in what is to come.
  abbrev pub index : Reader F → Option ℕ
  index t = scan csv delim false (to_come contents t) 0

  -- What a search of the block finds, where `next` is what is done if it goes on behind the block.
  pub block_step-Reads :
      (t : Reader F) (next : Result (Option Bytes × Reader F))
      → IsSound t
      → t.zerop ≡ none
      → (o : Option ℕ) → ((n : ℕ) → o ≡ some n → (index t ≡ some n) × (n < length (block t)))
      → (o ≡ none → t.eof ≡ true → index t ≡ none)
      → (o ≡ none → t.eof ≡ false → Reads contents required next (index t) (to_come contents t))
      → Reads contents required
          (elim o [
            | some n ↦ found t n
            | none ↦ elim t.eof [ true ↦ end_of_block t required | false ↦ next ]
          ])
          (index t)
          (to_come contents t)
  block_step-Reads t next g z (some n) here end go =
      subst⁻¹ (λ s. Reads contents required (found t n) s (to_come contents t)) (here n refl).0
        (found-Reads contents required t n g (here n refl).1)
  block_step-Reads t next g z none here end go =
      Answers-elim t.eof
        (λ e.
          subst⁻¹ (λ s. Reads contents required (end_of_block t required) s (to_come contents t))
            (end refl e) (end-Reads contents required t g z e))
        (λ e. go refl e)

  pub index_here :
      (t : Reader F) (n : ℕ)
      → scan csv delim false (block t) 0 ≡ some n
      → (index t ≡ some n) × (n < length (block t))
  index_here t n h = (
    scan-append csv delim false (block t) (behind contents t) 0 n h,
    omega (arith, scan_within csv delim false (block t) 0 n h),
  )

  pub index_end :
      (t : Reader F) → scan csv delim false (block t) 0 ≡ none → t.eof ≡ true → index t ≡ none
  index_end t h e = ap (λ x. scan csv delim false x 0) (behind_eof contents t e) ∙ h

take-front :
    (xs ys old bs : Bytes)
    → xs ++ ys ≡ old ++ bs
    → length old ≤ length xs
    → take (length old) xs ≡ old
take-front xs ys old bs e h =
    sym (take-append_le (length old) xs ys h) ∙ ap (take (length old)) e ∙ take_append old bs

-- The search that goes on at an index finds what one from the start finds.
plain-from :
    (delim : ℕ) (old new : Bytes)
    → take (length old) new ≡ old
    → plain delim old 0 ≡ none
    → plain delim (drop (length old) new) (length old) ≡ plain delim new 0
plain-from delim old new e h =
    ap (plain delim (drop (length old) new)) (omega arith)
    ∙ sym (plain-append delim old (drop (length old) new) 0 h)
    ∙ ap (λ x. plain delim (x ++ drop (length old) new) 0) (sym e)
    ∙ ap (λ x. plain delim x 0) (take-drop (length old) new)

module _ {F : Type 0} {read : F → ℕ → Option Bytes × F} {contents : F → Bytes}
    (file : IsFile read contents) where
  -- A block from index 0 on.
  block_start : (t : Reader F) → t.pos ≡ 0 → block t ≡ take t.used t.buffer
  block_start t p = ap (λ i. slice i t.used t.buffer) p

  gather-all-Reads :
      (delim : ℕ) (required : Bool) (fuel : ℕ) (t : Reader F)
      → IsSound t
      → t.zerop ≡ none
      → length (behind contents t) < fuel
      → t.pos ≡ 0
      → t.eof ≡ false
      → plain delim (block t) 0 ≡ none
      → Reads contents required
          (gather read false delim required fuel t [])
          (plain delim (to_come contents t) 0)
          (to_come contents t)
  gather-all-Reads delim required fuel t g z l p e h =
      subst⁻¹
        (λ u.
          Reads contents required (gather read false delim required fuel t [])
            (plain delim (u ++ behind contents t) 0) (u ++ behind contents t))
        (block_start t p)
        (gather-Reads file delim required fuel t [] g e z l
          (ap (λ u. plain delim u 0) (sym (block_start t p)) ∙ h))

  -- What is behind the block is part of what is to come.
  behind-le : (r : Reader F) → length (behind contents r) ≤ length (to_come contents r)
  behind-le r = omega (arith, length-append (block r) (behind contents r))

  after_fill-Reads :
      (delim : ℕ) (required : Bool) (fuel : ℕ) (r : Reader F)
      → IsSound r
      → r.zerop ≡ none
      → r.eof ≡ false
      → length (to_come contents r) < fuel
      → plain delim (block r) 0 ≡ none
      → Reads contents required
          (after_fill read false delim required fuel
            (r.used - r.pos)
            (fill_blocks read (reset_block r)))
          (plain delim (to_come contents r) 0)
          (to_come contents r)
  unfolding after_fill
  after_fill-Reads delim required fuel r g z e l h =
      let (f, same) = reset-Filled file r g e in
      let start = f.same_pos ∙ pos-reset_block r in
      let zero = f.same_zerop ∙ zerop-reset_block r ∙ z in
      let count = length-block g in
      let more : length (block r) ≤ length (block t) =
        omega (arith, count, length-block f.sound, f.grows, used-reset_block r, start) in
      let from : plain delim (drop seen (block t)) seen ≡ plain delim (block t) 0 =
        ap (λ n. plain delim (drop n (block t)) n) (sym count)
        ∙ plain-from delim (block r) (block t)
            (take-front (block t) (behind contents t) (block r) (behind contents r) same more) h in
      subst
        (λ u.
          Reads contents required (after_fill read false delim required fuel seen t)
            (plain delim u 0) u)
        same
        (block_step-Reads contents false delim required t
          (gather read false delim required fuel t []) f.sound zero
          (plain delim (drop seen (block t)) seen)
          (λ n o. index_here contents false delim required t n (sym from ∙ o))
          (λ o. index_end contents false delim required t (sym from ∙ o))
          (λ o b.
            gather-all-Reads delim required fuel t f.sound zero
              (omega (arith, behind-le t, ap length same, l)) start b (sym from ∙ o)))
    where
      seen : ℕ
      seen = r.used - r.pos

      t : Reader F
      t = fill_blocks read (reset_block r)

  read_block-Reads :
      (delim : ℕ) (required : Bool) (fuel : ℕ) (r : Reader F)
      → IsSound r
      → r.zerop ≡ none
      → length (to_come contents r) < fuel
      → Reads contents required
          (read_block read false delim required fuel r)
          (plain delim (to_come contents r) 0)
          (to_come contents r)
  unfolding read_block
  read_block-Reads delim required fuel r g z l =
      block_step-Reads contents false delim required r
        (elim (ltb 0 r.pos) [
          | true ↦
              after_fill read false delim required fuel (r.used - r.pos)
                (fill_blocks read (reset_block r))
          | false ↦ gather read false delim required fuel r []
        ])
        g z (plain delim (block r) 0) (index_here contents false delim required r)
        (index_end contents false delim required r)
        (λ o e.
          Answers-elim (ltb 0 r.pos) (λ m. after_fill-Reads delim required fuel r g z e l o)
            (λ m.
              gather-all-Reads delim required fuel r g z (omega (arith, behind-le r, l))
                (ground (arith, m)) e o))

  -- A call of ac_in_base_read_delimited for a delimiter below 256 ends, and gives the bytes up to the
  -- first one of it that is to come, or all of them if there is none, or nothing if one is required; the
  -- next call goes on behind it. It does not matter where the blocks begin and end.
  pub read_delimited-Reads :
      (fuel : ℕ) (r : Reader F) (delim : ℕ) (required : Bool)
      → IsSound r
      → delim < 256
      → length (unread contents r) < fuel
      → Reads contents required
          (read_delimited read fuel r delim required)
          (plain delim (unread contents r) 0)
          (unread contents r)
  unfolding read_delimited cleanup_last_read
  read_delimited-Reads fuel r₀ delim required g₀ small l =
      subst⁻¹
        (λ b.
          Reads contents required
            (read_block read b (if b then delim - 256 else delim) required fuel r)
            (plain delim (unread contents r₀) 0) (unread contents r₀))
        below (read_block-Reads delim required fuel r g refl l)
    where
      r : Reader F
      r = cleanup_last_read r₀

      g : IsSound r
      g = cleanup-IsSound g₀

      below : leb 256 delim ≡ false
      below = ground arith
