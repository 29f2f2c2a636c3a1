-- ===== src/Out.antt =====
-- src/ac-io/ac_out.c: the writer of records into a file through a block of memory.
pub mod Laws
pub mod Records
use another_c_library.Prelude.{
  ℕ, zero, suc, ◌+◌, ◌-◌, ◌*◌, ◌/◌, ◌%◌, ◌^◌, Bool, true, false, not, Option, none, some, List, [],
  ◌∷◌, ◌++◌, ltb, leb, ◌==◌, if◌then◌else◌, Bytes, length, take, drop,
}
use another_c_library.Buffer.{Allocator}
use another_c_library.Buffer.Memory.{write}
use another_c_library.InBase.{Result, returned, aborted, out_of_fuel, ◌>>=◌}

-- ac_io_format_t: below 0 it is a delimiter, from 256 on one of CSV; above 0 it is a length; 0 stands
-- for a length in front of each record.
pub data Format : Type 0 where
  delimited : ℕ → Format
  fixed : ℕ → Format
  prefix : Format

-- ac_out_s. `file` is the descriptor; `failed` says that `fd` is -1 and `write_d` NULL.
pub record Out (W : Type 0) : Type 0 where
  pub file : W
  pub failed : Bool
  pub buffer : Bytes
  pub buffer_pos : ℕ
  pub buffer_size : ℕ
  pub format : Format
  pub abort_on_error : Bool

-- The bytes of a uint32_t in memory, the lowest one first.
abbrev pub uint32_bytes : ℕ → Bytes
uint32_bytes n = n % 256 ∷ n / 256 % 256 ∷ n / 65536 % 256 ∷ n / 16777216 % 256 ∷ []

-- No more bytes than 0x7FFFFFFF are given to a call of write.
unfoldable pub at_most : Bytes → Bytes
at_most p = take 0x7FFFFFFF p

-- `put` is write(2) with the descriptor: how many bytes were written, or none for -1, and the file.
module _ {W : Type 0} (put : W → Bytes → Option ℕ × W) where
  -- The loop of _write_to_fd; the fuel is the number of bytes, of which each round writes one at least.
  unfoldable pub write_loop : ℕ → W → Bytes → Result (Bool × W)
  unfolding at_most
  write_loop fuel w [] = returned (true, w)
  write_loop zero w (x ∷ xs) = out_of_fuel
  write_loop (suc fuel) w (x ∷ xs) =
      let p = x ∷ xs in
      let call = put w (at_most p) in
      elim call.0 [
        | none ↦ returned (false, call.1)
        | some n ↦ elim (n == 0) [
          | true ↦ returned (false, call.1)
          | false ↦ write_loop fuel call.1 (drop n p)
        ]
      ]

  unfoldable pub write_to_fd : W → Bytes → Result (Bool × W)
  unfolding write_loop
  write_to_fd w p = write_loop (length p) w p

  -- What follows a call of _write_to_fd.
  abbrev pub after_write : Out W → Bool × W → Result (Bool × Out W) → Result (Bool × Out W)
  after_write o (true, w) next = next
  after_write o (false, w) next = returned (false, record o { file = w; failed = true })

  -- _ac_out_write with no bytes: what the block holds is written.
  unfoldable pub write_block : Out W → Result (Bool × Out W)
  unfolding write_to_fd
  write_block o = write_to_fd o.file (take o.buffer_pos o.buffer) >>= λ r.
      after_write o r (returned (true, record o { file = r.1; buffer_pos = 0 }))

  -- The bytes that are left where the block has been written.
  unfoldable pub write_rest : Out W → Bytes → Result (Bool × Out W)
  unfolding write_to_fd
  write_rest o p =
      if leb o.buffer_size (length p)
      then (write_to_fd o.file p >>= λ r.
          after_write o r (returned (true, record o { file = r.1; buffer_pos = 0 })))
      else returned (true, record o { buffer = write o.buffer 0 p; buffer_pos = length p })

  -- _ac_out_write
  unfoldable pub write_buffered : Out W → Bytes → Result (Bool × Out W)
  unfolding write_to_fd write_block write_rest
  write_buffered o d =
      let len = length d in
      let diff = o.buffer_size - o.buffer_pos in
      let full = write o.buffer o.buffer_pos (take diff d) in
      if ltb (o.buffer_pos + len) o.buffer_size
      then if len == 0
        then write_block o
        else returned (
          true,
          record o { buffer = write o.buffer o.buffer_pos d; buffer_pos = o.buffer_pos + len },
        )
      else write_to_fd o.file (take (o.buffer_pos + diff) full) >>= λ r.
          after_write o r
            (write_rest (record o { file = r.1; buffer = full; buffer_pos = 0 }) (drop diff d))

  abbrev pub or_abort : Bool → Bool × Out W → Result (Bool × Out W)
  or_abort abort_on_error (true, o) = returned (true, o)
  or_abort abort_on_error (false, o) = if abort_on_error then aborted else returned (false, o)

  -- ac_out_write
  unfoldable pub out_write : Out W → Bytes → Result (Bool × Out W)
  unfolding write_buffered
  out_write o d =
      if length d == 0
      then returned (true, o)
      else if o.failed
      then or_abort o.abort_on_error (false, o)
      else write_buffered o d >>= or_abort o.abort_on_error

  -- ac_out_flush
  unfoldable pub flush : Out W → Result (Bool × Out W)
  unfolding write_buffered
  flush o =
      if o.failed
      then or_abort o.abort_on_error (false, o)
      else write_buffered o [] >>= or_abort o.abort_on_error

  abbrev pub and_then : Out W → Bytes → Bool × Out W → Result (Bool × Out W)
  unfolding out_write
  and_then o d (true, o') = out_write o' d
  and_then o d (false, o') = returned (false, o')

  -- ac_out_write_record: _ac_out_write_prefix, _ac_out_write_fixed and _ac_out_write_delimiter
  unfoldable pub write_record_as : Format → Out W → Bytes → Result (Bool × Out W)
  unfolding out_write and_then
  write_record_as prefix o d =
      let n = length d % 2 ^ 32 in out_write o (uint32_bytes n) >>= and_then o (take n d)
  write_record_as (fixed n) o d = if length d == n then out_write o d else aborted
  write_record_as (delimited delim) o d =
      let delim = if leb 256 delim then delim - 256 else delim in
      out_write o d >>= and_then o (delim % 256 ∷ [])

  unfoldable pub write_record : Out W → Bytes → Result (Bool × Out W)
  unfolding write_record_as
  write_record o d = write_record_as o.format o d

  -- One record after another, while they are written.
  unfoldable pub write_records : Out W → List Bytes → Result (Bool × Out W)
  unfolding write_record
  write_records o [] = returned (true, o)
  write_records o (d ∷ ds) = write_record o d >>= λ r. elim r.0 [
    | true ↦ write_records r.1 ds
    | false ↦ returned (false, r.1)
  ]

-- _ac_out_init, with the format set by _ac_out_init_
unfoldable pub init : {W : Type 0} → Allocator → W → Format → ℕ → Bool → Out W
init a w format buffer_size abort_on_error = record {
  file = w;
  failed = false;
  buffer = a.fresh buffer_size;
  buffer_pos = 0;
  buffer_size = buffer_size;
  format = format;
  abort_on_error = abort_on_error;
}
