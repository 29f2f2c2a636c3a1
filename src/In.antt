-- ===== src/In.antt =====
-- src/ac-io/ac_in.c: the reader of records from a file that is not compressed, one at a time.
pub mod Laws
pub mod RoundTrip
use another_c_library.Prelude.{
  ℕ, zero, suc, ◌+◌, ◌*◌, Bool, true, false, Option, none, some, List, [], ◌∷◌, ◌==◌, if◌then◌else◌,
  Bytes, length,
}
use another_c_library.Buffer.{Allocator}
use another_c_library.InBase.{
  Result, returned, aborted, out_of_fuel, ◌>>=◌, Reader, read_bytes, readz, read_delimited,
}
use another_c_library.Out.{Format, delimited, fixed, prefix}

-- ac_in_s, for one file. A record is its bytes. `required` is full_record_required, and `again` says
-- that `advance` is _reset_.
pub record In (F : Type 0) : Type 0 where
  pub base : Reader F
  pub format : Format
  pub required : Bool
  pub current : Option Bytes
  pub num_current : ℕ
  pub again : Bool
  pub current_tmp : Option Bytes
  pub num_current_tmp : ℕ

-- The number that four bytes stand for, the lowest one first.
abbrev pub of_uint32 : Bytes → ℕ
of_uint32 [] = 0
of_uint32 (b ∷ bs) = b + 256 * of_uint32 bs

-- The bytes of a record, if they are as many as were asked for.
abbrev pub whole : ℕ → Option Bytes → Option Bytes
whole n none = none
whole n (some r) = if length r == n then some r else none

module _ {F : Type 0} where
  -- The record that is read, or NULL, is the current one.
  abbrev pub set_current : In F → Reader F → Option Bytes → Option Bytes × In F
  set_current i base none = (none, record i { base = base; current = none; num_current = 0 })
  set_current i base (some r) =
      (some r, record i { base = base; current = some r; num_current = 1 })

  -- ac_in_reset
  unfoldable pub reset : In F → In F
  reset i = elim i.current [
    | none ↦ i
    | some r ↦ record i {
      again = true;
      current_tmp = some r;
      current = none;
      num_current_tmp = i.num_current;
      num_current = 0;
    }
  ]

  -- _reset_
  unfoldable pub post_reset : In F → Option Bytes × In F
  post_reset i = (
    i.current_tmp,
    record i {
      current = i.current_tmp;
      num_current = i.num_current_tmp;
      current_tmp = none;
      num_current_tmp = 0;
      again = false;
    },
  )

module _ {F : Type 0} (read : F → ℕ → Option Bytes × F) (a : Allocator) (fuel : ℕ) where
  -- The bytes behind a length.
  unfoldable pub after_length : In F → Bytes → Reader F → Result (Option Bytes × In F)
  after_length i p base =
      let n = of_uint32 p in
      if n == 0
      then returned (set_current i base (some []))
      else readz read a base n >>= λ r. returned (set_current i r.1 (whole n r.0))

  unfoldable pub advance_prefix : In F → Result (Option Bytes × In F)
  unfolding after_length
  advance_prefix i = read_bytes read i.base 4 >>= λ r. elim r.0 [
    | none ↦ returned (set_current i r.1 none)
    | some p ↦ after_length i p r.1
  ]

  unfoldable pub advance_fixed : In F → ℕ → Result (Option Bytes × In F)
  advance_fixed i n = readz read a i.base n >>= λ r. returned (set_current i r.1 (whole n r.0))

  unfoldable pub advance_delimited : In F → ℕ → Result (Option Bytes × In F)
  advance_delimited i delim =
      read_delimited read fuel i.base delim i.required >>= λ r. returned (set_current i r.1 r.0)

  abbrev pub advance_as : Format → In F → Result (Option Bytes × In F)
  unfolding advance_prefix advance_fixed advance_delimited
  advance_as prefix i = advance_prefix i
  advance_as (fixed n) i = advance_fixed i n
  advance_as (delimited delim) i = advance_delimited i delim

  -- ac_in_advance
  unfoldable pub advance : In F → Result (Option Bytes × In F)
  unfolding advance_as post_reset
  advance i = if i.again then returned (post_reset i) else advance_as i.format i

  -- The records, up to the first NULL.
  unfoldable pub read_records : ℕ → In F → Result (List Bytes)
  unfolding advance
  read_records zero i = out_of_fuel
  read_records (suc n) i = advance i >>= λ r. elim r.0 [
    | none ↦ returned []
    | some x ↦ read_records n r.1 >>= λ xs. returned (x ∷ xs)
  ]

-- _ac_in_init, for a file that is not compressed
unfoldable pub init : {F : Type 0} → Reader F → Format → Bool → In F
init base format required = record {
  base = base;
  format = format;
  required = required;
  current = none;
  num_current = 0;
  again = false;
  current_tmp = none;
  num_current_tmp = 0;
}
