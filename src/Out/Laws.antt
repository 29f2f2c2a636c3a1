-- ===== src/Out/Laws.antt =====
-- What is written to a file that takes all that is written.
use another_c_library.Prelude.{
  ℕ, zero, suc, ◌+◌, ◌-◌, ◌≤◌, ◌<◌, ◌≡◌, ◌≢◌, inl, inr, refl, sym, ap, ◌∙◌, arith, Bool, true,
  false, Option, none, some, [], ◌∷◌, ◌++◌, append_assoc, append-nil, ltb, leb, ◌==◌, if◌then◌else◌,
  ltb→lt, Bool-cases, Bytes, length, take, drop, length-take, length-drop,
}
use another_c_library.Buffer.Memory.{write, take-write, take-take, length-write}
use another_c_library.InBase.{Result, returned, ◌>>=◌}
use another_c_library.InBase.Lists.{take-drop}
use another_c_library.Out.{
  Out, write_loop, write_to_fd, after_write, write_rest, write_buffered, at_most,
}

-- A file that takes some of the bytes at each call of write, at its end.
pub record IsSink {W : Type 0} (put : W → Bytes → Option ℕ × W) (written : W → Bytes) : Type 0 where
  pub count : W → Bytes → ℕ
  pub some_bytes : (w : W) (bs : Bytes) → bs ≢ [] → 0 < count w bs
  pub no_more : (w : W) (bs : Bytes) → count w bs ≤ length bs
  pub result : (w : W) (bs : Bytes) → (put w bs).0 ≡ some (count w bs)
  pub appends : (w : W) (bs : Bytes) → written (put w bs).1 ≡ written w ++ take (count w bs) bs

at_most-some : (x : ℕ) (xs : Bytes) → at_most (x ∷ xs) ≢ []
unfolding at_most
at_most-some x xs e = absurd (omega (arith, ap length e))

take-at_most :
    (n : ℕ) (p : Bytes) → n ≤ length (at_most p) → (take n (at_most p) ≡ take n p) × (n ≤ length p)
unfolding at_most
take-at_most n p h = within 0x7FFFFFFF h
  where
    within : (m : ℕ) → n ≤ length (take m p) → (take n (take m p) ≡ take n p) × (n ≤ length p)
    within m k = (take-take n m p (omega (arith, length-take m p)), omega (arith, length-take m p))

-- What a round of the loop leads to, where `n` bytes have been taken.
round :
    {W : Type 0} (put : W → Bytes → Option ℕ × W) (fuel : ℕ) (w w' : W) (p : Bytes) (o : Option ℕ)
    (n : ℕ)
    → o ≡ some n
    → 0 < n
    → (elim o [
      | none ↦ returned (false, w')
      | some m ↦ elim (m == 0) [
        | true ↦ returned (false, w')
        | false ↦ write_loop put fuel w' (drop m p)
      ]
    ])
      ≡ write_loop put fuel w' (drop n p)
round put fuel w w' p o n e h = simp (e, no_zero) refl
  where
    no_zero : (n == 0) ≡ false
    no_zero = ground (arith, h)

module _ {W : Type 0} {put : W → Bytes → Option ℕ × W} {written : W → Bytes}
    (sink : IsSink put written) where
  -- The loop writes all of the bytes, however few each call takes.
  write_loop-written :
      (fuel : ℕ) (w : W) (p : Bytes)
      → length p ≤ fuel
      → (w' : W) × (write_loop put fuel w p ≡ returned (true, w')) × (written w' ≡ written w ++ p)
  unfolding write_loop
  write_loop-written fuel w [] h = (w, refl, sym (append-nil (written w)))
  write_loop-written zero w (x ∷ xs) h = absurd (omega arith)
  write_loop-written (suc fuel) w (x ∷ xs) h =
      let p : Bytes = x ∷ xs in
      let n = sink.count w (at_most p) in
      let w₁ = (put w (at_most p)).1 in
      let pos_n = sink.some_bytes w (at_most p) (at_most-some x xs) in
      let (same, few) = take-at_most n p (sink.no_more w (at_most p)) in
      let (w', result, all) =
        write_loop-written fuel w₁ (drop n p) (omega (arith, length-drop n p, pos_n, h)) in
      (
        w',
        round put fuel w w₁ p (put w (at_most p)).0 n (sink.result w (at_most p)) pos_n ∙ result,
        all
            ∙ ap (λ b. b ++ drop n p) (sink.appends w (at_most p) ∙ ap (◌++◌ (written w)) same)
            ∙ append_assoc (written w) (take n p) (drop n p)
            ∙ ap (◌++◌ (written w)) (take-drop n p),
      )

  pub write_to_fd-written :
      (w : W) (p : Bytes)
      → (w' : W) × (write_to_fd put w p ≡ returned (true, w')) × (written w' ≡ written w ++ p)
  unfolding write_to_fd
  write_to_fd-written w p = write_loop-written (length p) w p (omega arith)

-- The block has room, and nothing has failed.
pub record IsOut {W : Type 0} (o : Out W) : Type 0 where
  pub fits : o.buffer_size ≤ length o.buffer
  pub room : o.buffer_pos < o.buffer_size
  pub works : o.failed ≡ false

-- A call returns true, and `bytes` have been put behind what the writer had been given.
pub record Takes {W : Type 0} (written : W → Bytes) (o : Out W) (result : Result (Bool × Out W))
    (bytes : Bytes) : Type 0 where
  pub after : Out W
  pub is_result : result ≡ returned (true, after)
  pub is_out : IsOut after
  pub same_format : after.format ≡ o.format
  pub taken :
      written after.file ++ take after.buffer_pos after.buffer
      ≡ (written o.file ++ take o.buffer_pos o.buffer) ++ bytes

-- What has been given to the writer.
abbrev pub given : {W : Type 0} → (W → Bytes) → Out W → Bytes
given written o = written o.file ++ take o.buffer_pos o.buffer

module _ {W : Type 0} {put : W → Bytes → Option ℕ × W} {written : W → Bytes}
    (sink : IsSink put written) where
  given-append :
      (o : Out W) (d : Bytes)
      → o.buffer_pos + length d ≤ length o.buffer
      → written o.file ++ take (o.buffer_pos + length d) (write o.buffer o.buffer_pos d)
        ≡ given written o ++ d
  given-append o d h =
      ap (◌++◌ (written o.file)) (take-write o.buffer o.buffer_pos d h)
      ∙ sym (append_assoc (written o.file) (take o.buffer_pos o.buffer) d)

  write_rest-Takes :
      (o : Out W) (p : Bytes) → IsOut o → o.buffer_pos ≡ 0 → Takes written o (write_rest put o p) p
  unfolding write_rest
  write_rest-Takes o p g z = elim (Bool-cases (leb o.buffer_size (length p))) [
    | inl l ↦
        let (w, result, all) = write_to_fd-written sink o.file p in
        let o' = record o { file = w; buffer_pos = 0 } in
        record {
          after = o';
          is_result =
              ap
                (λ b.
                  if b
                  then (write_to_fd put o.file p >>= λ r.
                      after_write put o r
                        (returned (true, record o { file = r.1; buffer_pos = 0 })))
                  else small)
                l
              ∙ ap
                  (λ c. c >>= λ r.
                    after_write put o r (returned (true, record o { file = r.1; buffer_pos = 0 })))
                  result;
          is_out = record { fits = g.fits; room = omega (arith, g.room, z); works = g.works };
          same_format = refl;
          taken =
              append-nil (written w)
              ∙ all
              ∙ ap (λ b. b ++ p)
                  (sym
                    (ap (λ n. written o.file ++ take n o.buffer) z ∙ append-nil (written o.file)));
        }
    | inr m ↦ record {
      after = record o { buffer = write o.buffer 0 p; buffer_pos = length p };
      is_result =
          ap
            (λ b.
              if b
              then (write_to_fd put o.file p >>= λ r.
                  after_write put o r (returned (true, record o { file = r.1; buffer_pos = 0 })))
              else small)
            m;
      is_out = record {
        fits = omega (arith, length-write o.buffer 0 p, g.fits);
        room = short m;
        works = g.works;
      };
      same_format = refl;
      taken =
          ap (λ n. written o.file ++ take n (write o.buffer 0 p)) (omega arith)
          ∙ ap (λ i. written o.file ++ take (i + length p) (write o.buffer i p)) (sym z)
          ∙ given-append o p (omega (arith, z, short m, g.fits));
    }
  ]
    where
      small : Result (Bool × Out W)
      small = returned (true, record o { buffer = write o.buffer 0 p; buffer_pos = length p })

      short : leb o.buffer_size (length p) ≡ false → length p < o.buffer_size
      short m = ground (arith, m)

  -- A block that is full is written, and the rest behind it.
  full-Takes :
      (o : Out W) (d : Bytes)
      → IsOut o
      → o.buffer_size ≤ o.buffer_pos + length d
      → Takes written o
          (write_to_fd put o.file (
              take
                (o.buffer_pos + (o.buffer_size - o.buffer_pos))
                (write o.buffer o.buffer_pos (take (o.buffer_size - o.buffer_pos) d)))
            >>= λ r. after_write put o r (
                write_rest put
                  (record o {
                    file = r.1;
                    buffer = write o.buffer o.buffer_pos (take (o.buffer_size - o.buffer_pos) d);
                    buffer_pos = 0;
                  })
                  (drop (o.buffer_size - o.buffer_pos) d)))
          d
  full-Takes o d g l =
      let count : length part ≡ diff = omega (arith, length-take diff d, l) in
      let (w, result, all) = write_to_fd-written sink o.file (take (o.buffer_pos + diff) full) in
      let o₁ = record o { file = w; buffer = full; buffer_pos = 0 } in
      let first : written w ++ [] ≡ given written o ++ part =
        append-nil (written w)
        ∙ all
        ∙ ap (λ n. written o.file ++ take (o.buffer_pos + n) full) (sym count)
        ∙ given-append o part (omega (arith, count, g.fits, g.room)) in
      let t =
        write_rest-Takes o₁ (drop diff d)
          record {
            fits = omega (arith, length-write o.buffer o.buffer_pos part, g.fits);
            room = omega (arith, g.room);
            works = g.works;
          }
          refl in
      record {
        after = t.after;
        is_result =
            ap
              (λ c. c >>= λ r. after_write put o r (
                write_rest put (record o { file = r.1; buffer = full; buffer_pos = 0 })
                  (drop diff d)))
              result
            ∙ t.is_result;
        is_out = t.is_out;
        same_format = t.same_format;
        taken =
            t.taken
            ∙ ap (λ b. b ++ drop diff d) first
            ∙ append_assoc (given written o) part (drop diff d)
            ∙ ap (◌++◌ (given written o)) (take-drop diff d);
      }
    where
      diff : ℕ
      diff = o.buffer_size - o.buffer_pos

      part : Bytes
      part = take diff d

      full : Bytes
      full = write o.buffer o.buffer_pos part

  pub write_buffered-Takes :
      (o : Out W) (d : Bytes) → IsOut o → 0 < length d → Takes written o (write_buffered put o d) d
  unfolding write_buffered
  write_buffered-Takes o d g h = elim (Bool-cases (ltb (o.buffer_pos + length d) o.buffer_size)) [
    | inl l ↦
        let less = ltb→lt (o.buffer_pos + length d) o.buffer_size l in
        record {
          after = record o {
            buffer = write o.buffer o.buffer_pos d;
            buffer_pos = o.buffer_pos + length d;
          };
          is_result = simp (l, not_zero) refl;
          is_out = record {
            fits = omega (arith, length-write o.buffer o.buffer_pos d, g.fits);
            room = less;
            works = g.works;
          };
          same_format = refl;
          taken = given-append o d (omega (arith, less, g.fits));
        }
    | inr m ↦
        let t = full-Takes o d g (ground (arith, m)) in
        record {
          after = t.after;
          is_result = simp m t.is_result;
          is_out = t.is_out;
          same_format = t.same_format;
          taken = t.taken;
        }
  ]
    where
      not_zero : (length d == 0) ≡ false
      not_zero = ground (arith, h)
