-- ===== src/In/RoundTrip.antt =====
-- What ac_out writes, ac_in reads.
use another_c_library.Prelude.{
  ℕ, zero, suc, ◌≤◌, ◌<◌, ◌≡◌, ◌≢◌, refl, sym, ap, ap₂, ◌∙◌, arith, true, false, Option, none, some,
  List, [], ◌∷◌, ◌++◌, append_assoc, if◌then◌else◌, Bytes, length, take_append, drop_append,
  length-append, All,
}
use mathlib.Core.Path.{subst, subst⁻¹}
use another_c_library.Buffer.{Allocator}
use another_c_library.InBase
use another_c_library.InBase.{Result, returned, ◌>>=◌, Reader}
use another_c_library.InBase.State.{IsFile, IsSound, unread}
use another_c_library.InBase.Run.{cut, or_all, init-to_come}
use another_c_library.Out.{Format, delimited, fixed, prefix, Out, write_records, flush}
use another_c_library.Out.Laws.{IsSink, IsOut, given}
use another_c_library.Out.Records.{encode, encode_all, end_byte, IsRecord, write_records-flush}
use another_c_library.In.{In, whole, advance_as, advance, read_records, init, reset, post_reset}
use another_c_library.In.Laws.{
  IsReadable, Advances, readz-Advances, prefix-Advances, prefix_end, delimited-Advances, cut-record,
  whole_all, whole_short, take-nil, drop-nil,
}

Readable-IsRecord : (format : Format) (d : Bytes) → IsReadable format d → IsRecord format d
Readable-IsRecord prefix d h = omega (arith, h)
Readable-IsRecord (fixed n) d h = h.1
Readable-IsRecord (delimited delim) d h = tt

All-IsRecord :
    (format : Format) (ds : List Bytes) → All (IsReadable format) ds → All (IsRecord format) ds
All-IsRecord format [] h = tt
All-IsRecord format (d ∷ ds) h = (Readable-IsRecord format d h.0, All-IsRecord format ds h.1)

-- A file of some format that can be read to its end.
abbrev pub IsSplit : Format → Type 0
IsSplit prefix = Unit
IsSplit (fixed n) = 0 < n
IsSplit (delimited delim) = (delim < 128) × (delim ≢ b'"')

end_byte-small : (delim : ℕ) → delim < 128 → end_byte delim ≡ delim
end_byte-small delim h = ground (arith, h)

module _ {F : Type 0} {read : F → ℕ → Option Bytes × F} {contents : F → Bytes}
    (file : IsFile read contents) (a : Allocator) (fuel : ℕ) where
  next_record :
      (format : Format) (i : In F) (d rest : Bytes)
      → IsSound i.base
      → IsReadable format d
      → length (unread contents i.base) < fuel
      → unread contents i.base ≡ encode format d ++ rest
      → Advances contents i (advance_as read a fuel format i) (some d) rest
  unfolding advance_as
  next_record prefix i d rest g h l u = prefix-Advances file a fuel i d rest g h u
  next_record (fixed n) i d rest g h l u =
      subst (λ k. Advances contents i (advance_as read a fuel (fixed k) i) (some d) rest) h.1
        (readz-Advances file a fuel i i.base (length d) (some d) (d ++ rest) rest g u
          (ap (λ v. whole (length d) (some v)) (take_append d rest) ∙ whole_all d)
          (drop_append d rest))
  next_record (delimited delim) i d rest g h l u =
      let text : unread contents i.base ≡ d ++ (delim ∷ rest) =
        u
        ∙ ap (λ c. (d ++ c ∷ []) ++ rest) (end_byte-small delim h.0)
        ∙ append_assoc d (delim ∷ []) rest in
      delimited-Advances file a fuel i delim (some d) rest g h.0 h.1 l (
        ap (λ v. or_all i.required v (cut delim v)) text
        ∙ ap (or_all i.required (d ++ (delim ∷ rest))) (cut-record delim d rest h.2))

  no_record :
      (format : Format) (i : In F)
      → IsSound i.base
      → IsSplit format
      → i.required ≡ true
      → 0 < fuel
      → unread contents i.base ≡ []
      → Advances contents i (advance_as read a fuel format i) none []
  unfolding advance_as cut
  no_record prefix i g h q l u = prefix_end file a fuel i g u
  no_record (fixed n) i g h q l u =
      readz-Advances file a fuel i i.base n none [] [] g u
        (ap (λ v. whole n (some v)) (take-nil n) ∙ whole_short n h) (drop-nil n)
  no_record (delimited delim) i g h q l u =
      delimited-Advances file a fuel i delim none [] g h.0 h.1 (omega (arith, ap length u, l))
        (ap₂ (λ b v. or_all b v (cut delim v)) q u)

  -- All that is in the file is read.
  read_records-encode_all :
      (ds : List Bytes) (n : ℕ) (i : In F)
      → IsSound i.base
      → IsSplit i.format
      → All (IsReadable i.format) ds
      → i.required ≡ true
      → i.again ≡ false
      → length ds < n
      → length (unread contents i.base) < fuel
      → unread contents i.base ≡ encode_all i.format ds
      → read_records read a fuel n i ≡ returned ds
  unfolding read_records advance
  read_records-encode_all ds zero i g s h q w k l u = absurd (omega (arith, k))
  read_records-encode_all [] (suc n) i g s h q w k l u =
      let t = no_record i.format i g s q (omega (arith, l)) u in
      ap
        (λ b. (if b then returned (post_reset i) else advance_as read a fuel i.format i) >>= λ r.
          elim r.0 [
            | none ↦ returned []
            | some x ↦ read_records read a fuel n r.1 >>= λ xs. returned (x ∷ xs)
          ])
        w
      ∙ ap
          (λ c. c >>= λ r. elim r.0 [
            | none ↦ returned []
            | some x ↦ read_records read a fuel n r.1 >>= λ xs. returned (x ∷ xs)
          ])
          t.is_result
  read_records-encode_all (d ∷ ds) (suc n) i g s h q w k l u =
      let t = next_record i.format i d (encode_all i.format ds) g h.0 l u in
      let rest : read_records read a fuel n t.after ≡ returned ds =
        read_records-encode_all ds n t.after t.sound (subst⁻¹ IsSplit t.same_format s)
          (subst⁻¹ (λ f. All (IsReadable f) ds) t.same_format h.1) (t.same_required ∙ q)
          (t.not_again ∙ w) (omega (arith, k))
          (omega (
            arith,
            ap length t.leaves,
            ap length u,
            length-append (encode i.format d) (encode_all i.format ds),
            l,
          ))
          (t.leaves ∙ ap (λ f. encode_all f ds) (sym t.same_format)) in
      ap
        (λ b. (if b then returned (post_reset i) else advance_as read a fuel i.format i) >>= λ r.
          elim r.0 [
            | none ↦ returned []
            | some x ↦ read_records read a fuel n r.1 >>= λ xs. returned (x ∷ xs)
          ])
        w
      ∙ ap
          (λ c. c >>= λ r. elim r.0 [
            | none ↦ returned []
            | some x ↦ read_records read a fuel n r.1 >>= λ xs. returned (x ∷ xs)
          ])
          t.is_result
      ∙ ap (λ c. c >>= λ xs. returned (d ∷ xs)) rest

  -- Where partial records are allowed, a file of records up to a delimiter has no end: behind the last
  -- record each call of ac_in_advance gives one without bytes, and never NULL.
  pub advance_end :
      (i : In F) (delim : ℕ)
      → i.format ≡ delimited delim
      → delim < 128
      → delim ≢ b'"'
      → i.required ≡ false
      → i.again ≡ false
      → IsSound i.base
      → 0 < fuel
      → unread contents i.base ≡ []
      → (i' : In F) × (advance read a fuel i ≡ returned (some [], i'))
        × IsSound i'.base
        × (i'.format ≡ delimited delim)
        × (i'.required ≡ false)
        × (i'.again ≡ false)
        × (unread contents i'.base ≡ [])
  unfolding advance advance_as cut
  advance_end i delim f h q p w g l u =
      let t =
        delimited-Advances file a fuel i delim (some []) [] g h q (omega (arith, ap length u, l))
          (ap₂ (λ b v. or_all b v (cut delim v)) p u) in
      (
        t.after,
        ap₂ (λ b k. if b then returned (post_reset i) else advance_as read a fuel k i) w f
            ∙ t.is_result,
        t.sound,
        t.same_format ∙ f,
        t.same_required ∙ p,
        t.not_again ∙ w,
        t.leaves,
      )

-- Behind ac_in_reset the record that has been read is read again, and the reader is as it was.
pub advance-reset :
    {F : Type 0} (read : F → ℕ → Option Bytes × F) (a : Allocator) (fuel : ℕ) (i : In F) (x : Bytes)
    → i.current ≡ some x
    → (i' : In F) × (advance read a fuel (reset i) ≡ returned (some x, i'))
      × (i'.current ≡ some x)
      × (i'.base ≡ i.base)
      × (i'.num_current ≡ i.num_current)
      × (i'.again ≡ false)
unfolding advance reset post_reset
advance-reset read a fuel i x e = (
  record i { current = some x; again = false; current_tmp = none; num_current_tmp = 0 },
  ap (advance read a fuel) back,
  refl,
  refl,
  refl,
  refl,
)
  where
    back : reset i ≡ record i {
      again = true;
      current_tmp = some x;
      current = none;
      num_current_tmp = i.num_current;
      num_current = 0;
    }
    back =
        ap
          (λ c. elim c [
            | none ↦ i
            | some r ↦ record i {
              again = true;
              current_tmp = some r;
              current = none;
              num_current_tmp = i.num_current;
              num_current = 0;
            }
          ])
          e

module _ {W F : Type 0} {put : W → Bytes → Option ℕ × W} {written : W → Bytes}
    (sink : IsSink put written) {read : F → ℕ → Option Bytes × F} {contents : F → Bytes}
    (file : IsFile read contents) where
  -- Records that are written one after another to an empty file and flushed, which are then read from it
  -- up to the first NULL, are the records that were written: in each of the three formats, whatever the sizes of
  -- the two blocks and however few bytes each call of write takes. Records of a fixed length have this length,
  -- not 0; those in front of which the length stands are shorter than 2^31; those up to a delimiter, which is
  -- below 128 and no quote, do not hold it.
  pub write_records-read_records :
      (reopen : W → F)
      → ((w : W) → contents (reopen w) ≡ written w)
      → (o : Out W) (ds : List Bytes) (a : Allocator) (least buffer_size fuel : ℕ) → IsOut o
      → given written o ≡ []
      → IsSplit o.format
      → All (IsReadable o.format) ds
      → 4 ≤ least
      → length (encode_all o.format ds) < fuel
      → (o₁ o₂ : Out W) × (base : Reader F) × (write_records put o ds ≡ returned (true, o₁))
        × (flush put o₁ ≡ returned (true, o₂))
        × (InBase.init read a least (some (reopen o₂.file)) buffer_size ≡ some base)
        × (read_records read a fuel (suc (length ds)) (init base o.format true) ≡ returned ds)
  unfolding init
  write_records-read_records reopen same o ds a least buffer_size fuel g empty s h big l =
      let (o₁, o₂, wrote, flushed, all) =
        write_records-flush sink o ds g (All-IsRecord o.format ds h) in
      let (base, opened, sound, u) = init-to_come file a least (reopen o₂.file) buffer_size big in
      let text : unread contents base ≡ encode_all o.format ds =
        u ∙ same o₂.file ∙ all ∙ ap (λ v. v ++ encode_all o.format ds) empty in
      (
        o₁,
        o₂,
        base,
        wrote,
        flushed,
        opened,
        read_records-encode_all file a fuel ds (suc (length ds)) (init base o.format true) sound s h
            refl refl (omega arith) (omega (arith, ap length text, l)) text,
      )
