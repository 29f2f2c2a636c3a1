-- ===== src/InBase.antt =====
-- src/ac-io/ac_in_base.c: a reader of records through a block of memory. The block is
-- `h->buf.buffer`, and the file is behind read or gzread.
pub mod Lists
pub mod State
pub mod Fill
pub mod Move
pub mod Fixed
pub mod Exact
pub mod Scan
pub mod Delimited
pub mod Records
pub mod Run
pub mod Csv
pub mod Reinit
use another_c_library.Prelude.{
  ℕ, zero, suc, ◌+◌, ◌-◌, ◌*◌, ◌==◌, Bool, true, false, ◌&&◌, Option, none, some, [], ◌∷◌, ◌++◌,
  leb, ltb, if◌then◌else◌, Bytes, length, get_or, set, take, drop,
}
use another_c_library.Buffer.{Allocator}
use another_c_library.Buffer.Memory.{write}

-- What a call ends in: its result, abort(), or the end of the fuel that the model gives the loop.
pub data Result (A : Type 0) : Type 0 where
  returned : A → Result A
  aborted : Result A
  out_of_fuel : Result A

infixl 5 ◌>>=◌
abbrev pub ◌>>=◌ : {A B : Type 0} → Result A → (A → Result B) → Result B
returned a >>= f = f a
aborted >>= f = aborted
out_of_fuel >>= f = out_of_fuel

-- ac_in_base_s with its ac_in_buffer_t. `file` is the descriptor or the gzFile, if there is one,
-- and `bh` is what the temporary buffer holds. `zerop` is an index into the block.
pub record Reader (F : Type 0) : Type 0 where
  pub buffer : Bytes
  pub pos : ℕ
  pub used : ℕ
  pub size : ℕ
  pub eof : Bool
  pub file : Option F
  pub bh : Option Bytes
  pub zerop : Option ℕ
  pub zero_byte : ℕ

-- From index `i` to index `j`.
abbrev pub slice : ℕ → ℕ → Bytes → Bytes
slice i j m = drop i (take j m)

abbrev pub undo : Option ℕ → ℕ → Bytes → Bytes
undo none v m = m
undo (some i) v m = set m i v

module _ {F : Type 0} where
  -- What lies between `pos` and `used`.
  abbrev pub block : Reader F → Bytes
  block r = slice r.pos r.used r.buffer

  unfoldable pub reset_block : Reader F → Reader F
  reset_block r = record r { buffer = write r.buffer 0 (block r); used = r.used - r.pos; pos = 0 }

  -- `*h->zerop = h->zero`
  unfoldable pub restore : Reader F → Reader F
  restore r = record r { buffer = undo r.zerop r.zero_byte r.buffer; zerop = none }

  unfoldable pub cleanup_last_read : Reader F → Reader F
  unfolding restore
  cleanup_last_read r = record (restore r) { bh = none }

  -- `h->zerop = ep; h->zero = *ep; *ep = 0`
  unfoldable pub put_zero : Reader F → ℕ → Reader F
  put_zero r i = record r {
    zerop = some i;
    zero_byte = get_or r.buffer i 0;
    buffer = set r.buffer i 0;
  }

  -- What read returns is put behind `used`; `none` is -1, and `bytes` is what was asked for.
  unfoldable pub filled : Reader F → ℕ → Option Bytes → F → Reader F
  filled r bytes none f = record r { file = some f; eof = true; size = r.used }
  filled r bytes (some bs) f =
      let n = length bs in
      let used = r.used + n in
      record r {
        file = some f;
        buffer = write r.buffer r.used bs;
        used = used;
        eof = ltb n bytes;
        size = if ltb n bytes then used else r.size;
      }

-- The loop over the block: the index of the delimiter, if there is one, where `i` is the index of
-- the first byte, and `quoted` that it is between quotes. A `char` is signed, and a byte from 128 on
-- is never equal to a delimiter.
unfoldable pub scan : Bool → ℕ → Bool → Bytes → ℕ → Option ℕ
scan csv delim quoted [] i = none
scan csv delim false (c ∷ cs) i =
    let next = scan csv delim (c == b'"' && csv) cs (i + 1) in
    if c == b'"' then next else if ltb c 128 && c == delim then some i else next
scan csv delim true (c ∷ []) i = none
scan csv delim true (c ∷ d ∷ cs) i = elim (c == b'"') [
  | false ↦ scan csv delim true (d ∷ cs) (i + 1)
  | true ↦ elim (d == b'"') [
    | true ↦ scan csv delim true cs (i + 2)
    | false ↦ scan csv delim false (d ∷ cs) (i + 1)
  ]
]

module _ {F : Type 0} where
  -- The delimiter stands `n` bytes behind `pos`.
  unfoldable pub found : Reader F → ℕ → Result (Option Bytes × Reader F)
  unfolding put_zero
  found r n =
      let end = r.pos + n in
      let r' = record r { pos = r.pos + (n + 1) } in
      if ltb r.used (r.pos + (n + 1))
      then aborted
      else returned (some (slice r.pos end r.buffer), put_zero r' end)

  unfoldable pub end_of_block : Reader F → Bool → Result (Option Bytes × Reader F)
  unfolding put_zero
  end_of_block r required =
      let r' = record r { pos = r.used } in
      if required
      then returned (none, r')
      else returned (some (slice r.pos r.used r.buffer), put_zero r' r.used)

  -- The delimiter in a block that goes on from those in the temporary buffer.
  unfoldable pub found_long : Reader F → Bytes → ℕ → Result (Option Bytes × Reader F)
  found_long r bh n =
      let all = bh ++ take n r.buffer in
      let r' = record r { pos = r.pos + (n + 1); bh = some all } in
      if ltb r.used (r.pos + (n + 1)) then aborted else returned (some all, r')

  unfoldable pub end_long : Reader F → Bytes → Bool → Result (Option Bytes × Reader F)
  end_long r bh required =
      let all = bh ++ take r.used r.buffer in
      if required
      then returned (none, record r { pos = r.used; bh = none })
      else returned (some all, record r { pos = r.used; bh = some all })

  -- The `tmp` of ac_in_base_readz, for bytes that do not fit into the block.
  abbrev pub long_block : Allocator → Reader F → ℕ → Reader F
  long_block a r len =
      let n = r.used - r.pos in
      record r {
        buffer = write (a.fresh (len + 1)) 0 (block r);
        size = len;
        used = n;
        pos = n;
        eof = false;
      }

  unfoldable pub taken_long : Reader F → Reader F → Result (Option Bytes × Reader F)
  taken_long r t =
      let all = take t.used t.buffer in
      let r' = record r { pos = 0; used = 0; eof = t.eof; file = t.file; bh = some all } in
      returned (some all, r')

  unfoldable pub first_bytes : Reader F → ℕ → Result (Option Bytes × Reader F)
  unfolding put_zero
  first_bytes r len =
      let n = if ltb r.used len then r.used else len in
      returned (some (take n r.buffer), put_zero (record r { pos = n }) n)

  unfoldable pub read_filled : Reader F → ℕ → Result (Option Bytes × Reader F)
  read_filled r len =
      if ltb r.used len
      then if r.eof then returned (none, record r { pos = r.used }) else aborted
      else returned (some (take len r.buffer), record r { pos = len })

  -- The block has been put away.
  abbrev pub emptied : Reader F → Bytes → Reader F
  emptied r all = record r { used = 0; pos = 0; bh = some all }

-- `read` stands for read and gzread: what is read, or none for -1, and the file behind it.
module _ {F : Type 0} (read : F → ℕ → Option Bytes × F) where
  abbrev pub fill_file : Reader F → Option F → Reader F
  fill_file r none = r
  fill_file r (some f) =
      filled r (r.size - r.used) (read f (r.size - r.used)).0 (read f (r.size - r.used)).1

  -- The number of bytes that are asked for is an `int`: blocks are smaller than 2^31.
  unfoldable pub fill_blocks : Reader F → Reader F
  fill_blocks r = if r.eof then r else fill_file r r.file

  abbrev pub start : Option F → Bytes → ℕ → Reader F
  start file memory n = record {
    buffer = memory;
    pos = 0;
    used = 0;
    size = n;
    eof = false;
    file = file;
    bh = none;
    zerop = none;
    zero_byte = 0;
  }

  -- ac_in_base_init, where `least` is 256, and ac_in_base_init_gz, where it is 32000. There is no
  -- file if it cannot be opened.
  unfoldable pub init : Allocator → ℕ → Option F → ℕ → Option (Reader F)
  unfolding fill_blocks
  init a least none buffer_size = none
  init a least (some f) buffer_size =
      let n = if ltb buffer_size least then least else buffer_size in
      some (fill_blocks (start (some f) (a.fresh (n + 1)) n))

  -- The loop over further blocks.
  unfoldable pub gather : Bool → ℕ → Bool → ℕ → Reader F → Bytes → Result (Option Bytes × Reader F)
  unfolding fill_blocks scan found_long end_long
  gather csv delim required zero r bh = out_of_fuel
  gather csv delim required (suc fuel) r bh =
      let all = bh ++ take r.used r.buffer in
      let r' = fill_blocks (emptied r all) in
      elim (scan csv delim false (block r') 0) [
        | some n ↦ found_long r' all n
        | none ↦ elim r'.eof [
          | true ↦ end_long r' all required
          | false ↦ gather csv delim required fuel r' all
        ]
      ]

  -- The search goes on at index `seen`, outside of quotes, wherever it ended before.
  unfoldable pub after_fill : Bool → ℕ → Bool → ℕ → ℕ → Reader F → Result (Option Bytes × Reader F)
  unfolding scan found end_of_block gather
  after_fill csv delim required fuel seen r =
      elim (scan csv delim false (drop seen (block r)) seen) [
        | some n ↦ found r n
        | none ↦ elim r.eof [
          | true ↦ end_of_block r required
          | false ↦ gather csv delim required fuel r []
        ]
      ]

  unfoldable pub read_block : Bool → ℕ → Bool → ℕ → Reader F → Result (Option Bytes × Reader F)
  unfolding scan found end_of_block gather after_fill reset_block fill_blocks
  read_block csv delim required fuel r = elim (scan csv delim false (block r) 0) [
    | some n ↦ found r n
    | none ↦ elim r.eof [
      | true ↦ end_of_block r required
      | false ↦ elim (ltb 0 r.pos) [
        | true ↦ after_fill csv delim required fuel (r.used - r.pos) (fill_blocks (reset_block r))
        | false ↦ gather csv delim required fuel r []
      ]
    ]
  ]

  -- ac_in_base_read_delimited
  unfoldable pub read_delimited : ℕ → Reader F → ℕ → Bool → Result (Option Bytes × Reader F)
  unfolding read_block cleanup_last_read
  read_delimited fuel r delim required =
      let csv = leb 256 delim in
      read_block csv (if csv then delim - 256 else delim) required fuel (cleanup_last_read r)

  unfoldable pub read_long : Allocator → Reader F → ℕ → Result (Option Bytes × Reader F)
  unfolding fill_blocks taken_long
  read_long a r len = taken_long r (fill_blocks (long_block a r len))

  -- ac_in_base_readz
  unfoldable pub readz : Allocator → Reader F → ℕ → Result (Option Bytes × Reader F)
  unfolding cleanup_last_read put_zero end_of_block read_long reset_block fill_blocks first_bytes
  readz a r₀ len =
      let r = cleanup_last_read r₀ in
      let end = r.pos + len in
      if leb end r.used
      then returned (some (slice r.pos end r.buffer), put_zero (record r { pos = end }) end)
      else if r.eof
      then end_of_block r false
      else if ltb r.size len
      then read_long a r len
      else first_bytes (fill_blocks (reset_block r)) len

  -- ac_in_base_read
  unfoldable pub read_bytes : Reader F → ℕ → Result (Option Bytes × Reader F)
  unfolding restore reset_block fill_blocks read_filled
  read_bytes r₀ len =
      let r = restore r₀ in
      let end = r.pos + len in
      if leb end r.used
      then returned (some (slice r.pos end r.buffer), record r { pos = end })
      else if r.eof
      then returned (none, record r { pos = r.used })
      else read_filled (fill_blocks (reset_block r)) len

-- ac_in_base_reinit: the bytes are copied into a block of another size. There is no result where
-- they do not fit into it, or where a zero is still to be taken back in the block that is freed.
unfoldable pub reinit : {F : Type 0} → Allocator → Reader F → ℕ → Option (Reader F)
reinit {F} a r buffer_size = elim r.file [
  | none ↦ some r
  | some f ↦ elim r.zerop [
    | some i ↦ none
    | none ↦
        if ltb buffer_size r.used
        then none
        else some (record r {
          buffer = write (a.fresh (buffer_size + 1)) 0 (take r.used r.buffer);
          size = buffer_size;
        })
  ]
]

-- ac_in_base_init_from_buffer
unfoldable pub init_from_buffer : {F : Type 0} → Bytes → ℕ → Reader F
init_from_buffer {F} memory n = record {
  buffer = memory;
  pos = 0;
  used = n;
  size = n;
  eof = true;
  file = none;
  bh = none;
  zerop = none;
  zero_byte = 0;
}
