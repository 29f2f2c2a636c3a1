-- ===== src/Examples/Files.antt =====
-- src/ac-io/ac_out.c and src/ac-io/ac_in.c at concrete inputs.
use another_c_library.Prelude.{
  ℕ, ◌<◌, ◌≡◌, ◌≢◌, refl, arith, true, false, Option, none, some, List, [], ◌∷◌, ◌++◌, length,
  length-replicate, replicate, take, drop, Bytes, min,
}
use another_c_library.Buffer.{Allocator}
use another_c_library.InBase
use another_c_library.InBase.{Result, returned, Reader, restore}
use another_c_library.InBase.State.{IsFile, IsSound, unread}
use another_c_library.Out.{Format, delimited, prefix, Out, write_records, flush}
use another_c_library.Out.Laws.{IsSink, IsOut, given}
use another_c_library.Out.Records.{encode_all, write_records-flush}
use another_c_library.In
use another_c_library.In.{In, advance, read_records}
use another_c_library.In.RoundTrip.{write_records-read_records, advance_end}

-- A file that takes two bytes at each call of write.
abbrev put_two : Bytes → Bytes → Option ℕ × Bytes
put_two w bs = (some (min 2 (length bs)), w ++ take (min 2 (length bs)) bs)

abbrev text_of : Bytes → Bytes
text_of w = w

put_two-IsSink : IsSink put_two text_of
put_two-IsSink = record {
  count = λ w bs. min 2 (length bs);
  some_bytes = λ w bs h. two bs h;
  no_more = λ w bs. omega arith;
  result = λ w bs. refl;
  appends = λ w bs. refl;
}
  where
    two : (bs : Bytes) → bs ≢ [] → 0 < min 2 (length bs)
    two [] h = absurd (h refl)
    two (x ∷ bs) h = omega arith

abbrev read_text : Bytes → ℕ → Option Bytes × Bytes
read_text f n = (some (take n f), drop n f)

read_text-IsFile : IsFile read_text text_of
read_text-IsFile = record { what = λ f n. refl; rest = λ f n. refl }

abbrev zeros : Allocator
zeros = record { fresh = λ n. replicate n 0; length-fresh = λ n. length-replicate n 0 }

-- A writer with a block of three bytes, and a reader with one of four.
abbrev writer : Format → Out Bytes
writer format = record {
  file = [];
  failed = false;
  buffer = replicate 3 0;
  buffer_pos = 0;
  buffer_size = 3;
  format = format;
  abort_on_error = false;
}

writer-IsOut : (format : Format) → IsOut (writer format)
writer-IsOut format = record { fits = omega arith; room = omega arith; works = refl }

-- Two records, one of them without bytes.
abbrev words : List Bytes
words = (b'a' ∷ b'b' ∷ b'c' ∷ b'd' ∷ []) ∷ [] ∷ []

write_records-flush_example :
    (o₁ o₂ : Out Bytes) × (write_records put_two (writer prefix) words ≡ returned (true, o₁))
    × (flush put_two o₁ ≡ returned (true, o₂))
    × (text_of o₂.file ≡ given text_of (writer prefix) ++ encode_all prefix words)
write_records-flush_example =
    write_records-flush put_two-IsSink (writer prefix) words (writer-IsOut prefix)
      (omega arith, (omega arith, tt))

write_records-read_records_example :
    (o₁ o₂ : Out Bytes) × (base : Reader Bytes) × (write_records put_two
        (writer (delimited b'\n'))
        words
      ≡ returned (true, o₁))
    × (flush put_two o₁ ≡ returned (true, o₂))
    × (InBase.init read_text zeros 4 (some o₂.file) 4 ≡ some base)
    × (read_records read_text zeros 7 3 (In.init base (delimited b'\n') true) ≡ returned words)
write_records-read_records_example =
    write_records-read_records put_two-IsSink read_text-IsFile (λ w. w) (λ w. refl)
      (writer (delimited b'\n')) words zeros 4 4 7 (writer-IsOut (delimited b'\n')) refl
      (omega arith, omega arith)
      (
        (omega arith, omega arith, (omega arith, (omega arith, (omega arith, (omega arith, tt))))),
        ((omega arith, omega arith, tt), tt),
      )
      (omega arith) (omega arith)

abbrev at_end : In Bytes
at_end = record {
  base = record {
    buffer = b'a' ∷ b'\n' ∷ 0 ∷ [];
    pos = 2;
    used = 2;
    size = 2;
    eof = true;
    file = some [];
    bh = none;
    zerop = none;
    zero_byte = 0;
  };
  format = delimited b'\n';
  required = false;
  current = none;
  num_current = 0;
  again = false;
  current_tmp = none;
  num_current_tmp = 0;
}

nothing : unread text_of at_end.base ≡ []
unfolding restore
nothing = refl

advance_end_example :
    (i' : In Bytes) × (advance read_text zeros 1 at_end ≡ returned (some [], i'))
    × IsSound i'.base
    × (i'.format ≡ delimited b'\n')
    × (i'.required ≡ false)
    × (i'.again ≡ false)
    × (unread text_of i'.base ≡ [])
advance_end_example =
    advance_end read_text-IsFile zeros 1 at_end b'\n' refl (omega arith) (omega arith) refl refl
      record {
        room = omega arith;
        used_size = omega arith;
        pos_used = omega arith;
        sized = λ e. ground (arith, e);
        open_file = λ e. refl;
      }
      (omega arith) nothing
