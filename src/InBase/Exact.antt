-- ===== src/InBase/Exact.antt =====
-- ac_in_base_read: exactly so many bytes, or none.
use another_c_library.Prelude.{
  ℕ, ◌+◌, ◌-◌, ◌≤◌, ◌<◌, ◌≡◌, refl, sym, ap, ◌∙◌, arith, true, false, Option, none, some,
  if◌then◌else◌, ltb, leb, ltb→lt, leb→le, Bool-cases, inl, inr, Bytes, length, take, drop,
  length-append,
}
use mathlib.Core.Path.{subst}
use another_c_library.InBase.{
  Reader, Result, returned, aborted, block, slice, restore, reset_block, fill_blocks, read_bytes,
  read_filled,
}
use another_c_library.InBase.Lists.{drop_all}
use another_c_library.InBase.State.{
  IsFile, IsSound, behind, to_come, unread, restore-IsSound, pos-reset_block, zerop-reset_block,
  size-reset_block, length-block,
}
use another_c_library.InBase.Move.{
  Answers, unread-none, behind_eof, to_come-move, to_come-end, slice-move, move-IsSound,
}
use another_c_library.InBase.Fixed.{Answers-same, Answers-if, ended, reset-Filled, leb→gt}

lt→ltb : (a b : ℕ) → a < b → ltb a b ≡ true
lt→ltb a b h = ground arith

gt→leb : (a b : ℕ) → b < a → leb a b ≡ false
gt→leb a b h = ground arith

-- So many bytes, if there are so many.
abbrev pub exactly : ℕ → Bytes → Option Bytes
exactly len u = if leb len (length u) then some (take len u) else none

pub exactly-some : (len : ℕ) (u : Bytes) → len ≤ length u → some (take len u) ≡ exactly len u
exactly-some len u h = ground arith

exactly-none : (len : ℕ) (u : Bytes) → length u < len → none ≡ exactly len u
exactly-none len u h = ground arith

module _ {F : Type 0} (contents : F → Bytes) where
  -- `pos` is moved over the bytes returned.
  pass-Answers :
      (r : Reader F)
      → IsSound r
      → r.zerop ≡ none
      → (n : ℕ) → r.pos + n ≤ r.used
      → Answers contents
          (returned (some (slice r.pos (r.pos + n) r.buffer), record r { pos = r.pos + n }))
          (exactly n (to_come contents r))
          (drop n (to_come contents r))
  pass-Answers r g z n h = record {
    after = record r { pos = r.pos + n };
    is_result =
        ap (λ x. returned (x, record r { pos = r.pos + n }))
          (ap (λ x. some x) (slice-move contents r g n h)
            ∙ exactly-some n (to_come contents r) long);
    sound = move-IsSound contents (r.pos + n) g h;
    leaves = unread-none contents (record r { pos = r.pos + n }) z ∙ to_come-move contents r g n h;
  }
    where
      long : n ≤ length (to_come contents r)
      long = omega (arith, length-append (block r) (behind contents r), length-block g)

  -- All is passed over, since it is too short.
  fail-Answers :
      (r : Reader F)
      → IsSound r
      → r.zerop ≡ none
      → r.eof ≡ true
      → (n : ℕ) → r.used - r.pos < n
      → Answers contents
          (returned (none, record r { pos = r.used }))
          (exactly n (to_come contents r))
          (drop n (to_come contents r))
  fail-Answers r g z e n h = record {
    after = record r { pos = r.used };
    is_result =
        ap (λ x. returned (x, record r { pos = r.used }))
          (exactly-none n (to_come contents r) short);
    sound = move-IsSound contents r.used g (omega arith);
    leaves =
        unread-none contents (record r { pos = r.used }) z
        ∙ to_come-end contents r g e
        ∙ sym (drop_all n (to_come contents r) (omega (arith, short)));
  }
    where
      short : length (to_come contents r) < n
      short = omega (arith, ap length (behind_eof contents r e), length-block g)

  read_filled-Answers :
      (t : Reader F) (len : ℕ)
      → IsSound t
      → t.zerop ≡ none
      → t.pos ≡ 0
      → (t.used < len → t.eof ≡ true)
      → Answers contents
          (read_filled t len)
          (exactly len (to_come contents t))
          (drop len (to_come contents t))
  unfolding read_filled
  read_filled-Answers t len g z p short =
      Answers-if (ltb t.used len)
        (λ l.
          let less = ltb→lt t.used len l in
          Answers-if t.eof (λ e. fail-Answers t g z e len (omega arith))
            (λ e. absurd (ground (arith, short less, e))))
        λ m.
          subst (λ n. Answers contents (taken n) all rest) (omega (arith, p))
            (pass-zero (pass-Answers t g z len (ground (arith, m, p))))
    where
      all : Option Bytes
      all = exactly len (to_come contents t)

      rest : Bytes
      rest = drop len (to_come contents t)

      taken : ℕ → Result (Option Bytes × Reader F)
      taken n = returned (some (take n t.buffer), record t { pos = n })

      pass-zero :
          Answers contents
            (returned (some (slice t.pos (t.pos + len) t.buffer), record t { pos = t.pos + len }))
            all
            rest
          → Answers contents (taken (t.pos + len)) all rest
      pass-zero h =
          subst
            (λ i.
              Answers contents
                (returned (some (slice i (t.pos + len) t.buffer), record t { pos = t.pos + len }))
                all rest)
            p h

  module _ {read : F → ℕ → Option Bytes × F} (file : IsFile read contents) where
    -- If so many bytes fit into the block, or the file has ended, then ac_in_base_read gives exactly so many, or none if there
    -- are fewer, and goes on behind them.
    pub read_bytes-Answers :
        (r : Reader F) (len : ℕ)
        → IsSound r
        → (r.eof ≡ false → len ≤ r.size)
        → Answers contents
            (read_bytes read r len)
            (exactly len (unread contents r))
            (drop len (unread contents r))
    unfolding read_bytes restore
    read_bytes-Answers r₀ len g₀ fits =
        Answers-if (leb (r.pos + len) r.used)
          (λ l. pass-Answers r g refl len (leb→le (r.pos + len) r.used l))
          λ m.
            Answers-if r.eof
              (λ e.
                fail-Answers r g refl e len
                  (omega (arith, leb→gt (r.pos + len) r.used m, g.pos_used)))
              λ e.
                let (f, same) = reset-Filled file r g e in
                let t = fill_blocks read (reset_block r) in
                Answers-same (ap (exactly len) same) (ap (drop len) same) (
                  read_filled-Answers t len f.sound (f.same_zerop ∙ zerop-reset_block r)
                    (f.same_pos ∙ pos-reset_block r)
                    (ended file f len (omega (arith, fits e, size-reset_block r))))
      where
        r : Reader F
        r = restore r₀

        g : IsSound r
        g = restore-IsSound g₀

    -- Where a file goes on behind the block, and more bytes are to come than the block has room for,
    -- ac_in_base_read of more bytes than it has room for is aborted, though they may all be to come.
    pub read_bytes-aborted :
        (r : Reader F) (len : ℕ)
        → IsSound r
        → r.eof ≡ false
        → r.size < len
        → r.size < length (unread contents r)
        → read_bytes read r len ≡ aborted
    unfolding read_bytes restore read_filled
    read_bytes-aborted r₀ len g₀ e long more =
        let (f, same) = reset-Filled file r g e in
        let large : ltb t.used len ≡ true =
          lt→ltb t.used len
            (omega (arith, f.sound.used_size, f.within, size-reset_block r, long)) in
        let goes_on : t.eof ≡ false = elim (Bool-cases t.eof) [
          | inr no_end ↦ no_end
          | inl end ↦ absurd (
              omega (
                arith,
                ap length (behind_eof contents t end),
                ap length same,
                length-block f.sound,
                f.sound.used_size,
                f.within,
                size-reset_block r,
                more,
              ))
        ] in
        ap
          (λ b.
            if b
            then returned
                (some (slice r.pos (r.pos + len) r.buffer), record r { pos = r.pos + len })
            else (if r.eof then returned (none, record r { pos = r.used }) else read_filled t len))
          behind_block
        ∙ ap (λ b. if b then returned (none, record r { pos = r.used }) else read_filled t len) e
        ∙ ap
            (λ b.
              if b
              then (if t.eof then returned (none, record t { pos = t.used }) else aborted)
              else returned (some (take len t.buffer), record t { pos = len }))
            large
        ∙ ap (λ b. if b then returned (none, record t { pos = t.used }) else aborted) goes_on
      where
        r : Reader F
        r = restore r₀

        g : IsSound r
        g = restore-IsSound g₀

        t : Reader F
        t = fill_blocks read (reset_block r)

        behind_block : leb (r.pos + len) r.used ≡ false
        behind_block = gt→leb (r.pos + len) r.used (omega (arith, g.used_size, long))
