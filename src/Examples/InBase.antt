-- ===== src/Examples/InBase.antt =====
-- src/ac-io/ac_in_base.c at concrete inputs.
use another_c_library.Prelude.{
  ℕ, ◌+◌, ◌≡◌, refl, arith, true, false, Option, none, some, List, [], ◌∷◌, ◌++◌, length,
  length-replicate, replicate, take, drop, Bytes,
}
use another_c_library.Prelude.Outcome.{done}
use another_c_library.Buffer.{Allocator}
use another_c_library.Buffer.Memory.{write}
use another_c_library.Text.Csv.{csv_encode, split_csv}
use another_c_library.Text.Csv.Laws.{csv_line}
use another_c_library.InBase.{
  Reader, returned, aborted, out_of_fuel, init, read_bytes, read_delimited, readz, restore, filled,
}
use another_c_library.InBase.State.{IsFile, IsSound, unread}
use another_c_library.InBase.Exact.{exactly, read_bytes-Answers, read_bytes-aborted}
use another_c_library.InBase.Move.{Answers}
use another_c_library.InBase.Run.{Op, bytes, record_to, give_all, run, init-run}
use another_c_library.InBase.Csv.{read_csv-split_csv}

-- A file is the text that is still to be read of it.
abbrev read_text : Bytes → ℕ → Option Bytes × Bytes
read_text f n = (some (take n f), drop n f)

abbrev text_of : Bytes → Bytes
text_of f = f

read_text-IsFile : IsFile read_text text_of
read_text-IsFile = record { what = λ f n. refl; rest = λ f n. refl }

abbrev zeros : Allocator
zeros = record { fresh = λ n. replicate n 0; length-fresh = λ n. length-replicate n 0 }

-- Two lines, the second one without its end.
abbrev two_lines : Bytes
two_lines = b'o' ∷ b'n' ∷ b'e' ∷ b'\n' ∷ b't' ∷ b'w' ∷ b'o' ∷ []

abbrev calls : List Op
calls = bytes 1 ∷ record_to b'\n' false ∷ record_to b'\n' true ∷ record_to b'\n' false ∷ []

-- A block of two bytes, which is shorter than the lines.
run_short :
    run read_text zeros 9 calls (record {
      buffer = b'o' ∷ b'n' ∷ 0 ∷ [];
      pos = 0;
      used = 2;
      size = 2;
      eof = false;
      file = some (drop 2 two_lines);
      bh = none;
      zerop = none;
      zero_byte = 0;
    })
    ≡ returned (some (b'o' ∷ []) ∷ some (b'n' ∷ b'e' ∷ []) ∷ none ∷ some [] ∷ [])
unfolding run readz read_delimited filled write
run_short = refl

init-run_example :
    (r : Reader Bytes) × (init read_text zeros 4 (some two_lines) 2 ≡ some r)
    × (run read_text zeros 8 calls r ≡ returned (give_all calls two_lines))
init-run_example =
    init-run read_text-IsFile zeros 4 two_lines 2 8 calls (omega arith)
      (
        tt,
        (
          (omega arith, omega arith),
          ((omega arith, omega arith), ((omega arith, omega arith), tt)),
        ),
      )
      (omega arith)

-- A line of two fields, the first of which has the end of a line, in a block of eight bytes.
abbrev fields_text : Bytes
fields_text = b'"' ∷ b'a' ∷ b'\n' ∷ b'"' ∷ b',' ∷ b'b' ∷ b'\n' ∷ b'c' ∷ []

abbrev at_fields : Reader Bytes
at_fields = record {
  buffer = fields_text ++ (0 ∷ []);
  pos = 0;
  used = 8;
  size = 8;
  eof = false;
  file = some (b'd' ∷ []);
  bh = none;
  zerop = none;
  zero_byte = 0;
}

at_fields-IsSound : IsSound at_fields
at_fields-IsSound = record {
  room = omega arith;
  used_size = omega arith;
  pos_used = omega arith;
  sized = λ e. omega arith;
  open_file = λ e. ground arith;
}

at_fields-unread :
    unread text_of at_fields
    ≡ csv_line b',' ((b'a' ∷ b'\n' ∷ []) ∷ (b'b' ∷ []) ∷ []) ++ (b'\n' ∷ b'c' ∷ b'd' ∷ [])
unfolding restore csv_line csv_encode
at_fields-unread = refl

length-fields : length (csv_line b',' ((b'a' ∷ b'\n' ∷ []) ∷ (b'b' ∷ []) ∷ [])) ≡ 6
unfolding csv_line csv_encode
length-fields = refl

read_csv-split_csv_example :
    (x : Bytes) × (r' : Reader Bytes) × (read_delimited read_text 3 at_fields (256 + b'\n') false
      ≡ returned (some x, r'))
    × IsSound r'
    × (unread text_of r' ≡ b'c' ∷ b'd' ∷ [])
    × (split_csv b',' (some x)
        ≡ done (record { num_splits = 2; pieces = (b'a' ∷ b'\n' ∷ []) ∷ (b'b' ∷ []) ∷ [] }))
read_csv-split_csv_example =
    read_csv-split_csv read_text-IsFile 3 at_fields b',' false (b'a' ∷ b'\n' ∷ [])
      ((b'b' ∷ []) ∷ []) (b'c' ∷ b'd' ∷ []) at_fields-IsSound (omega arith) (omega arith)
      at_fields-unread (omega (arith, length-fields))

read_bytes-Answers_example :
    Answers text_of
      (read_bytes read_text at_fields 3)
      (exactly 3 (unread text_of at_fields))
      (drop 3 (unread text_of at_fields))
read_bytes-Answers_example =
    read_bytes-Answers text_of read_text-IsFile at_fields 3 at_fields-IsSound (λ e. omega arith)

length-unread : length (unread text_of at_fields) ≡ 9
unfolding restore
length-unread = refl

read_bytes-aborted_example : read_bytes read_text at_fields 9 ≡ aborted
read_bytes-aborted_example =
    read_bytes-aborted text_of read_text-IsFile at_fields 9 at_fields-IsSound refl (omega arith)
      (omega (arith, length-unread))

-- A quoted field that goes on in a further block: the end of a line in it ends the record.
csv_across :
    elim (read_delimited read_text 9
      (record {
        buffer = b'"' ∷ b'a' ∷ 0 ∷ [];
        pos = 0;
        used = 2;
        size = 2;
        eof = false;
        file = some (b'\n' ∷ b'b' ∷ b'"' ∷ b'\n' ∷ []);
        bh = none;
        zerop = none;
        zero_byte = 0;
      })
      (256 + b'\n')
      false) [ returned (x, r) ↦ x | aborted ↦ none | out_of_fuel ↦ none ]
    ≡ some (b'"' ∷ b'a' ∷ [])
unfolding read_delimited filled write
csv_across = refl
