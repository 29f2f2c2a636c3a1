-- ===== src/Out/Records.antt =====
-- Records in a file: what ac_out_write_record and ac_out_flush put there.
use another_c_library.Prelude.{
  ℕ, suc, ◌+◌, ◌-◌, ◌<◌, ◌^◌, ◌%◌, ◌≡◌, refl, sym, ap, ap₂, ◌∙◌, arith, Bool, true, false, Option,
  List, [], ◌∷◌, ◌++◌, append_assoc, append-nil, ltb, leb, ◌==◌, if◌then◌else◌, eq→==, Bytes,
  length, take, take_all, All,
}
use mathlib.Core.Path.{subst⁻¹}
use another_c_library.InBase.{Result, returned, aborted, ◌>>=◌}
use another_c_library.Out.{
  Format, delimited, fixed, prefix, Out, uint32_bytes, write_block, write_buffered, or_abort,
  out_write, flush, and_then, write_record_as, write_record, write_records,
}
use another_c_library.Out.Laws.{
  IsSink, IsOut, Takes, given, write_buffered-Takes, write_to_fd-written,
}

-- The byte that ends a record.
abbrev pub end_byte : ℕ → ℕ
end_byte delim = (if leb 256 delim then delim - 256 else delim) % 256

-- A record in a file.
abbrev pub encode : Format → Bytes → Bytes
encode prefix d = uint32_bytes (length d) ++ d
encode (fixed n) d = d
encode (delimited delim) d = d ++ end_byte delim ∷ []

abbrev pub encode_all : Format → List Bytes → Bytes
encode_all format [] = []
encode_all format (d ∷ ds) = encode format d ++ encode_all format ds

-- A record that can be written.
abbrev pub IsRecord : Format → Bytes → Type 0
IsRecord prefix d = length d < 2 ^ 32
IsRecord (fixed n) d = length d ≡ n
IsRecord (delimited delim) d = Unit

module _ {W : Type 0} {put : W → Bytes → Option ℕ × W} {written : W → Bytes}
    (sink : IsSink put written) where
  out_write-Takes : (o : Out W) (d : Bytes) → IsOut o → Takes written o (out_write put o d) d
  unfolding out_write
  out_write-Takes o [] g = record {
    after = o;
    is_result = refl;
    is_out = g;
    same_format = refl;
    taken = sym (append-nil (given written o));
  }
  out_write-Takes o (x ∷ d) g =
      let t = write_buffered-Takes sink o (x ∷ d) g (omega arith) in
      record {
        after = t.after;
        is_result =
            ap₂
              (λ b c.
                if b
                then returned (true, o)
                else if c
                then or_abort put o.abort_on_error (false, o)
                else write_buffered put o (x ∷ d) >>= or_abort put o.abort_on_error)
              not_zero g.works
            ∙ ap (λ c. c >>= or_abort put o.abort_on_error) t.is_result;
        is_out = t.is_out;
        same_format = t.same_format;
        taken = t.taken;
      }
    where
      not_zero : (suc (length d) == 0) ≡ false
      not_zero = ground arith

  then-Takes :
      (o : Out W) (result : Result (Bool × Out W)) (d e : Bytes)
      → Takes written o result d
      → Takes written o (result >>= and_then put o e) (d ++ e)
  unfolding and_then
  then-Takes o result d e t =
      let u = out_write-Takes t.after e t.is_out in
      record {
        after = u.after;
        is_result = ap (λ c. c >>= and_then put o e) t.is_result ∙ u.is_result;
        is_out = u.is_out;
        same_format = u.same_format ∙ t.same_format;
        taken = u.taken ∙ ap (λ b. b ++ e) t.taken ∙ append_assoc (given written o) d e;
      }

  write_record_as-Takes :
      (format : Format) (o : Out W) (d : Bytes)
      → IsRecord format d
      → IsOut o
      → Takes written o (write_record_as put format o d) (encode format d)
  unfolding write_record_as
  write_record_as-Takes prefix o d h g =
      subst⁻¹
        (λ n.
          Takes written o (out_write put o (uint32_bytes n) >>= and_then put o (take n d))
            (uint32_bytes (length d) ++ d))
        small
        (subst⁻¹
          (λ e.
            Takes written o (out_write put o (uint32_bytes (length d)) >>= and_then put o e)
              (uint32_bytes (length d) ++ d))
          (take_all (length d) d (omega arith))
          (then-Takes o (out_write put o (uint32_bytes (length d))) (uint32_bytes (length d)) d
            (out_write-Takes o (uint32_bytes (length d)) g)))
    where
      small : length d % 2 ^ 32 ≡ length d
      small = omega (arith, h)
  write_record_as-Takes (fixed n) o d h g =
      subst⁻¹ (λ b. Takes written o (if b then out_write put o d else aborted) d)
        (eq→== (length d) n h) (out_write-Takes o d g)
  write_record_as-Takes (delimited delim) o d h g =
      then-Takes o (out_write put o d) d (end_byte delim ∷ []) (out_write-Takes o d g)

  write_records-Takes :
      (ds : List Bytes) (o : Out W)
      → All (IsRecord o.format) ds
      → IsOut o
      → Takes written o (write_records put o ds) (encode_all o.format ds)
  unfolding write_records write_record
  write_records-Takes [] o h g = record {
    after = o;
    is_result = refl;
    is_out = g;
    same_format = refl;
    taken = sym (append-nil (given written o));
  }
  write_records-Takes (d ∷ ds) o h g =
      let t = write_record_as-Takes o.format o d h.0 g in
      let u =
        write_records-Takes ds t.after (subst⁻¹ (λ f. All (IsRecord f) ds) t.same_format h.1)
          t.is_out in
      record {
        after = u.after;
        is_result =
            ap
              (λ c. c >>= λ r. elim r.0 [
                | true ↦ write_records put r.1 ds
                | false ↦ returned (false, r.1)
              ])
              t.is_result
            ∙ u.is_result;
        is_out = u.is_out;
        same_format = u.same_format ∙ t.same_format;
        taken =
            u.taken
            ∙ ap₂ (λ b f. b ++ encode_all f ds) t.taken t.same_format
            ∙ append_assoc (given written o) (encode o.format d) (encode_all o.format ds);
      }

  -- ac_out_flush leaves nothing in the block.
  flush-written :
      (o : Out W)
      → IsOut o
      → (o' : Out W) × (flush put o ≡ returned (true, o')) × (written o'.file ≡ given written o)
  unfolding flush write_buffered write_block
  flush-written o g =
      let (w, result, all) = write_to_fd-written sink o.file (take o.buffer_pos o.buffer) in
      (record o { file = w; buffer_pos = 0 }, simp (g.works, room, result) refl, all)
    where
      room : ltb (o.buffer_pos + 0) o.buffer_size ≡ true
      room = ground (arith, g.room)

  -- To a file that takes some of the bytes at each call of write, ac_out_write_record with one record after
  -- another, and ac_out_flush behind them, return true and put the records at the end of the file, each as
  -- the format has it, whatever the size of the block and however few bytes each call takes.
  pub write_records-flush :
      (o : Out W) (ds : List Bytes)
      → IsOut o
      → All (IsRecord o.format) ds
      → (o₁ o₂ : Out W) × (write_records put o ds ≡ returned (true, o₁))
        × (flush put o₁ ≡ returned (true, o₂))
        × (written o₂.file ≡ given written o ++ encode_all o.format ds)
  write_records-flush o ds g h =
      let t = write_records-Takes ds o h g in
      let (o₂, flushed, all) = flush-written t.after t.is_out in
      (t.after, o₂, t.is_result, flushed, all ∙ t.taken)
