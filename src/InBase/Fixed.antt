-- ===== src/InBase/Fixed.antt =====
-- ac_in_base_readz and ac_in_base_read: so many bytes.
use another_c_library.Prelude.{
  ℕ, zero, suc, ◌+◌, ◌-◌, ◌≤◌, ◌<◌, ◌≡◌, inl, inr, refl, sym, ap, ap₂, ◌∙◌, arith, Bool, true,
  false, Option, none, some, [], ◌∷◌, ◌++◌, if◌then◌else◌, ltb, leb, ltb→lt, leb→le, Bool-cases,
  Bytes, length, take, drop, take_all,
}
use mathlib.Core.Path.{subst, subst⁻¹}
use another_c_library.Buffer.{Allocator}
use another_c_library.Buffer.Memory.{write, length-write}
use another_c_library.InBase.{
  Reader, Result, returned, block, put_zero, cleanup_last_read, reset_block, fill_blocks, fill_file,
  filled, long_block, taken_long, readz, read_long, first_bytes,
}
use another_c_library.InBase.Lists.{drop_all, take-write_front}
use another_c_library.InBase.State.{
  IsFile, IsSound, ahead, behind, to_come, unread, cleanup-IsSound, reset_block-IsSound,
  block-reset_block, pos-reset_block, length-block,
}
use another_c_library.InBase.Fill.{Filled, fill_blocks-Filled}
use another_c_library.InBase.Move.{
  Answers, unread-none, behind_eof, end_of_block-Answers, move-Answers,
}

pub leb→gt : (a b : ℕ) → leb a b ≡ false → b < a
leb→gt a b h = ground arith

-- Bytes up to a number that parts them from what follows, or that there is nothing behind.
pub take-parts :
    (xs ys : Bytes) (n : ℕ)
    → length xs ≤ n
    → (length xs < n → ys ≡ [])
    → (take n (xs ++ ys) ≡ xs) × (drop n (xs ++ ys) ≡ ys)
take-parts [] ys zero h e = (refl, refl)
take-parts [] ys (suc n) h e =
    subst⁻¹ (λ y. (take (suc n) y ≡ []) × (drop (suc n) y ≡ y)) (e (omega arith)) (refl, refl)
take-parts (x ∷ xs) ys zero h e = absurd (omega arith)
take-parts (x ∷ xs) ys (suc n) h e =
    let p = take-parts xs ys n (omega arith) (λ l. e (omega arith)) in (ap (◌∷◌ x) p.0, p.1)

module _ {F : Type 0} {contents : F → Bytes} where
  pub Answers-same :
      {result : Result (Option Bytes × Reader F)} {x y : Option Bytes} {xs ys : Bytes}
      → x ≡ y
      → xs ≡ ys
      → Answers contents result x xs
      → Answers contents result y ys
  Answers-same {result} {x} {y} {xs} {ys} e h r =
      subst (λ u. Answers contents result u ys) e (subst (λ v. Answers contents result x v) h r)

  pub Answers-if :
      {A B : Result (Option Bytes × Reader F)} {x : Option Bytes} {xs : Bytes}
      → (b : Bool) → (b ≡ true → Answers contents A x xs)
      → (b ≡ false → Answers contents B x xs)
      → Answers contents (if b then A else B) x xs
  Answers-if true h k = h refl
  Answers-if false h k = k refl

  pub Answers-elim :
      {A B : Result (Option Bytes × Reader F)} {x : Option Bytes} {xs : Bytes}
      → (b : Bool) → (b ≡ true → Answers contents A x xs)
      → (b ≡ false → Answers contents B x xs)
      → Answers contents (elim b [ true ↦ A | false ↦ B ]) x xs
  Answers-elim true h k = h refl
  Answers-elim false h k = k refl

module _ {F : Type 0} (contents : F → Bytes) where
  block_parts :
      (t : Reader F) (len : ℕ)
      → IsSound t
      → t.pos ≡ 0
      → t.used ≤ len
      → (t.used < len → t.eof ≡ true)
      → (take len (to_come contents t) ≡ block t)
        × (drop len (to_come contents t) ≡ behind contents t)
  block_parts t len g p h short =
      take-parts (block t) (behind contents t) len (omega (arith, length-block g, p)) (λ l.
        ap (λ b. if b then [] else ahead contents t.file)
          (short (omega (arith, l, length-block g, p))))

  first_bytes-start :
      (t : Reader F) (len : ℕ)
      → IsSound t
      → (t.used < len → t.eof ≡ true)
      → (z : t.pos ≡ 0)
      → Answers contents
          (first_bytes t len)
          (some (take len (to_come contents t)))
          (drop len (to_come contents t))
  unfolding first_bytes
  first_bytes-start t len g short z = elim (Bool-cases (ltb t.used len)) [
    | inl l ↦
        let less = ltb→lt t.used len l in
        let long = block_parts t len g z (omega arith) short in
        let exact = block_parts t t.used g z (omega arith) (λ m. absurd (omega (arith, m))) in
        subst⁻¹ (λ b. Answers contents (taken (if b then t.used else len)) all rest) l
          (Answers-same (ap (λ x. some x) (exact.0 ∙ sym long.0)) (exact.1 ∙ sym long.1)
            (start t.used (omega arith)))
    | inr m ↦
        subst⁻¹ (λ b. Answers contents (taken (if b then t.used else len)) all rest) m
          (start len (ground (arith, m)))
  ]
    where
      taken : ℕ → Result (Option Bytes × Reader F)
      taken n = returned (some (take n t.buffer), put_zero (record t { pos = n }) n)

      all : Option Bytes
      all = some (take len (to_come contents t))

      rest : Bytes
      rest = drop len (to_come contents t)

      start :
          (n : ℕ)
          → n ≤ t.used
          → Answers contents
              (taken n)
              (some (take n (to_come contents t)))
              (drop n (to_come contents t))
      start n h =
          let e : t.pos + n ≡ n = omega (arith, z) in
          subst
            (λ p.
              Answers contents
                (returned (some (drop p (take n t.buffer)), put_zero (record t { pos = n }) n))
                (some (take n (to_come contents t))) (drop n (to_come contents t)))
            z
            (subst
              (λ q.
                Answers contents
                  (returned
                    (some (drop t.pos (take q t.buffer)), put_zero (record t { pos = q }) q))
                  (some (take n (to_come contents t))) (drop n (to_come contents t)))
              e (move-Answers contents t g n n (omega arith) (omega (arith, z))))

module _ {F : Type 0} {read : F → ℕ → Option Bytes × F} {contents : F → Bytes}
    (file : IsFile read contents) where
  -- The block that is filled behind its bytes.
  pub reset-Filled :
      (r : Reader F)
      → IsSound r
      → r.eof ≡ false
      → Filled contents (reset_block r) (fill_blocks read (reset_block r))
        × (to_come contents (fill_blocks read (reset_block r)) ≡ to_come contents r)
  unfolding reset_block
  reset-Filled r g e =
      let f = fill_blocks-Filled file (reset_block r) (reset_block-IsSound g) e in
      (f, f.comes ∙ ap (λ x. x ++ behind contents r) (block-reset_block g))

  -- The block is filled if the file has not ended.
  pub ended :
      {r t : Reader F}
      → Filled contents r t
      → (len : ℕ) → len ≤ r.size
      → t.used < len
      → t.eof ≡ true
  ended {r} {t} f len h l = elim (Bool-cases t.eof) [
    | inl e ↦ e
    | inr e ↦ let x = f.full e in absurd (omega (arith, x, l, h))
  ]

  long_block-Filled :
      (a : Allocator) (r : Reader F) (len : ℕ)
      → IsSound r
      → r.eof ≡ false
      → r.size < len
      → Filled contents
          (record (long_block a r len) { pos = 0 })
          (fill_blocks read (record (long_block a r len) { pos = 0 }))
  long_block-Filled a r len g e l =
      fill_blocks-Filled file (record (long_block a r len) { pos = 0 })
        record {
          room = omega (arith, size);
          used_size = omega (arith, g.used_size);
          pos_used = omega arith;
          sized = λ x. omega (arith, g.sized e, l);
          open_file = λ o. sym e ∙ g.open_file o;
        }
        refl
    where
      size : len < length (write (a.fresh (len + 1)) 0 (block r))
      size = omega (arith, length-write (a.fresh (len + 1)) 0 (block r), a.length-fresh (len + 1))

  -- What is to come is what was to come.
  long_block-comes :
      (a : Allocator) (r : Reader F) (len : ℕ)
      → IsSound r
      → r.eof ≡ false
      → r.size < len
      → to_come contents (record (long_block a r len) { pos = 0 }) ≡ to_come contents r
  long_block-comes a r len g e l =
      let n = length-block g in
      ap₂ ◌++◌
        (ap (λ k. take k (write (a.fresh (len + 1)) 0 (block r))) (sym n)
          ∙ take-write_front (a.fresh (len + 1)) (block r)
              (omega (arith, n, a.length-fresh (len + 1), g.used_size)))
        (ap (λ b. if b then [] else ahead contents r.file) (sym e))

  pos-fill_file :
      (r : Reader F) (p : ℕ) (o : Option F)
      → fill_file read (record r { pos = p }) o ≡ record (fill_file read r o) { pos = p }
  unfolding filled
  pos-fill_file r p none = refl
  pos-fill_file r p (some f) = by_result (read f (r.size - r.used)).0 (read f (r.size - r.used)).1
    where
      by_result :
          (x : Option Bytes) (f' : F)
          → filled (record r { pos = p }) (r.size - r.used) x f'
            ≡ record (filled r (r.size - r.used) x f') { pos = p }
      by_result none f' = refl
      by_result (some bs) f' = refl

  pos-fill_blocks :
      (r : Reader F) (p : ℕ)
      → fill_blocks read (record r { pos = p }) ≡ record (fill_blocks read r) { pos = p }
  unfolding fill_blocks
  pos-fill_blocks r p = ground (arith, pos-fill_file r p r.file)

  taken_long-Answers :
      (r t : Reader F) (len : ℕ)
      → IsSound r
      → r.zerop ≡ none
      → IsSound t
      → t.pos ≡ 0
      → t.used ≤ len
      → (t.used < len → t.eof ≡ true)
      → r.eof ≡ false
      → Answers contents
          (taken_long r t)
          (some (take len (to_come contents t)))
          (drop len (to_come contents t))
  unfolding taken_long
  taken_long-Answers r t len g z h p l short e =
      let parts = block_parts contents t len h p l short in
      record {
        after = after;
        is_result =
            ap (λ i. returned (some (drop i (take t.used t.buffer)), after)) (sym p)
            ∙ ap (λ bs. returned (some bs, after)) (sym parts.0);
        sound = record {
          room = g.room;
          used_size = omega arith;
          pos_used = omega arith;
          sized = λ x. g.sized e;
          open_file = h.open_file;
        };
        leaves = unread-none contents after z ∙ sym parts.1;
      }
    where
      after : Reader F
      after = record r {
        pos = 0;
        used = 0;
        eof = t.eof;
        file = t.file;
        bh = some (take t.used t.buffer);
      }

  read_long-Answers :
      (a : Allocator) (r : Reader F) (len : ℕ)
      → IsSound r
      → r.eof ≡ false
      → r.zerop ≡ none
      → r.size < len
      → Answers contents
          (read_long read a r len)
          (some (take len (to_come contents r)))
          (drop len (to_come contents r))
  unfolding read_long taken_long
  read_long-Answers a r len g e z l =
      let f = long_block-Filled a r len g e l in
      let same = f.comes ∙ long_block-comes a r len g e l in
      let tmp = record (long_block a r len) { pos = 0 } in
      Answers-same (ap (λ x. some (take len x)) same) (ap (drop len) same) (
        subst
          (λ t.
            Answers contents (taken_long r t)
              (some (take len (to_come contents (fill_blocks read tmp))))
              (drop len (to_come contents (fill_blocks read tmp))))
          (pos-fill_blocks (long_block a r len) 0)
          (taken_long-Answers r (fill_blocks read tmp) len g z f.sound f.same_pos
            (omega (arith, f.within, f.sound.used_size)) (λ m. ended f len (omega arith) m) e))

  -- ac_in_base_readz gives the bytes that are to come, up to so many, and goes on behind them.
  pub readz-Answers :
      (a : Allocator) (r : Reader F) (len : ℕ)
      → IsSound r
      → Answers contents
          (readz read a r len)
          (some (take len (unread contents r)))
          (drop len (unread contents r))
  unfolding readz cleanup_last_read
  readz-Answers a r₀ len g₀ =
      Answers-if (leb (r.pos + len) r.used)
        (λ l. move-Answers contents r g len len (omega arith) (leb→le (r.pos + len) r.used l))
        λ m.
          Answers-if r.eof
            (λ e.
              Answers-same (ap (λ x. some x) (sym (all e m).0)) (sym (all e m).1)
                (end_of_block-Answers contents r g false e refl))
            λ e.
              Answers-if (ltb r.size len)
                (λ l. read_long-Answers a r len g e refl (ltb→lt r.size len l))
                λ k.
                  let (f, same) = reset-Filled r g e in
                  Answers-same (ap (λ x. some (take len x)) same) (ap (drop len) same) (
                    first_bytes-start contents (fill_blocks read (reset_block r)) len f.sound
                      (ended f len (size k)) (f.same_pos ∙ pos-reset_block r))
    where
      r : Reader F
      r = cleanup_last_read r₀

      g : IsSound r
      g = cleanup-IsSound g₀

      all :
          r.eof ≡ true
          → leb (r.pos + len) r.used ≡ false
          → (take len (to_come contents r) ≡ to_come contents r)
            × (drop len (to_come contents r) ≡ [])
      all e m =
          let short : length (to_come contents r) ≤ len = omega (
            arith,
            leb→gt (r.pos + len) r.used m,
            ap length (behind_eof contents r e),
            length-block g,
          ) in
          (take_all len (to_come contents r) short, drop_all len (to_come contents r) short)

      size : ltb r.size len ≡ false → len ≤ (reset_block r).size
      size k = ground (arith, k)
