-- ===== src/InBase/Fill.antt =====
-- fill_blocks: what is read from a file comes behind the bytes of the block.
use another_c_library.Prelude.{
  ℕ, ◌+◌, ◌-◌, ◌≤◌, ◌<◌, ◌≡◌, inl, inr, refl, sym, ap, ap₂, ◌∙◌, arith, Bool, false, Option, none,
  some, [], ◌++◌, append-nil, append_assoc, if◌then◌else◌, ltb, ltb→lt, Bool-cases, Bytes, length,
  take, drop, take_all, length-take,
}
use mathlib.Core.Path.{subst⁻¹}
use another_c_library.Buffer.Memory.{write, length-write}
use another_c_library.InBase.{Reader, block, filled, fill_blocks, fill_file}
use another_c_library.InBase.Lists.{take-drop, slice-write}
use another_c_library.InBase.State.{IsFile, IsSound, ahead, behind, to_come}

-- What a call of fill_blocks leads to.
pub record Filled {F : Type 0} (contents : F → Bytes) (r r' : Reader F) : Type 0 where
  pub sound : IsSound r'
  pub same_pos : r'.pos ≡ r.pos
  pub same_zerop : r'.zerop ≡ r.zerop
  pub comes : to_come contents r' ≡ to_come contents r
  pub full : r'.eof ≡ false → (r'.used ≡ r'.size) × (r'.size ≡ r.size)
  pub within : r'.size ≤ r.size
  pub grows : r.used ≤ r'.used

module _ {F : Type 0} (contents : F → Bytes) where
  behind_file :
      (r : Reader F) (f : F) → r.eof ≡ false → r.file ≡ some f → behind contents r ≡ contents f
  behind_file r f e o = ap₂ (λ b x. if b then [] else ahead contents x) e o

  read_comes :
      (r : Reader F) (f : F) (bs rest : Bytes) (b : Bool)
      → IsSound r
      → r.eof ≡ false
      → r.file ≡ some f
      → r.used + length bs ≤ r.size
      → bs ++ (if b then [] else rest) ≡ contents f
      → drop r.pos (take (r.used + length bs) (write r.buffer r.used bs))
          ++ (if b then [] else rest)
        ≡ to_come contents r
  read_comes r f bs rest b g e o h k =
      ap (λ x. x ++ (if b then [] else rest))
        (slice-write r.pos r.used r.buffer bs g.pos_used (omega (arith, g.room)))
      ∙ append_assoc (block r) bs (if b then [] else rest)
      ∙ ap (◌++◌ (block r)) (k ∙ sym (behind_file r f e o))

  filled_short :
      (r : Reader F) (f f' : F)
      → IsSound r
      → r.eof ≡ false
      → r.file ≡ some f
      → length (contents f) < r.size - r.used
      → Filled contents r (filled r (r.size - r.used) (some (contents f)) f')
  unfolding filled
  filled_short r f f' g e o h = record {
    sound = ground (arith, length-write r.buffer r.used (contents f), g.sized e);
    same_pos = refl;
    same_zerop = refl;
    comes =
        read_comes r f (contents f) (contents f') (ltb (length (contents f)) (r.size - r.used)) g e
          o (omega arith) (short ∙ append-nil (contents f));
    full = λ x. absurd (ground (arith, x));
    within = ground arith;
    grows = omega arith;
  }
    where
      short :
          contents f ++ (if ltb (length (contents f)) (r.size - r.used) then [] else contents f')
          ≡ contents f ++ []
      short = ground arith

  filled_full :
      (r : Reader F) (f f' : F) (bs : Bytes)
      → IsSound r
      → r.eof ≡ false
      → r.file ≡ some f
      → length bs ≡ r.size - r.used
      → bs ++ contents f' ≡ contents f
      → Filled contents r (filled r (r.size - r.used) (some bs) f')
  unfolding filled
  filled_full r f f' bs g e o h k = record {
    sound = ground (arith, length-write r.buffer r.used bs, g.sized e);
    same_pos = refl;
    same_zerop = refl;
    comes =
        read_comes r f bs (contents f') (ltb (length bs) (r.size - r.used)) g e o
          (omega (arith, g.used_size)) (rest ∙ k);
    full = λ x. ground arith;
    within = ground arith;
    grows = omega arith;
  }
    where
      rest :
          bs ++ (if ltb (length bs) (r.size - r.used) then [] else contents f') ≡ bs ++ contents f'
      rest = ground arith

module _ {F : Type 0} {read : F → ℕ → Option Bytes × F} {contents : F → Bytes}
    (file : IsFile read contents) where
  fill_file-Filled :
      (r : Reader F) (o : Option F)
      → r.file ≡ o
      → IsSound r
      → r.eof ≡ false
      → Filled contents r (fill_file read r o)
  fill_file-Filled r none o g e = absurd (ground (arith, g.open_file o))
  fill_file-Filled r (some f) o g e = elim (Bool-cases (ltb (length (contents f)) n)) [
    | inl l ↦
        let short = ltb→lt (length (contents f)) n l in
        subst⁻¹ (λ x. Filled contents r (filled r n x (read f n).1))
          (file.what f n ∙ ap (λ bs. some bs) (take_all n (contents f) (omega arith)))
          (filled_short contents r f (read f n).1 g e o short)
    | inr m ↦
        subst⁻¹ (λ x. Filled contents r (filled r n x (read f n).1)) (file.what f n)
          (filled_full contents r f (read f n).1 (take n (contents f)) g e o
            (ground (arith, m, length-take n (contents f)))
            (ap (◌++◌ (take n (contents f))) (file.rest f n) ∙ take-drop n (contents f)))
  ]
    where
      n : ℕ
      n = r.size - r.used

  pub fill_blocks-Filled :
      (r : Reader F) → IsSound r → r.eof ≡ false → Filled contents r (fill_blocks read r)
  unfolding fill_blocks
  fill_blocks-Filled r g e =
      subst⁻¹ (λ b. Filled contents r (if b then r else fill_file read r r.file)) e
        (fill_file-Filled r r.file refl g e)
