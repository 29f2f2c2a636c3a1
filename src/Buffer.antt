-- ===== src/Buffer.antt =====
-- include/another-c-library/ac-core/ac_buffer.h and src/ac-core/ac_buffer.c: a byte buffer that
-- grows as it is written to. `store` is the memory at `h->data`.
pub mod Memory
pub mod Valid
pub mod Contents
pub mod Run
pub mod Alloc
use another_c_library.Prelude.{
  ℕ, ◌+◌, ◌-◌, ◌/◌, ◌%◌, ◌^◌, ◌≡◌, Bool, true, false, List, [], ◌∷◌, ◌++◌, ltb, ◌==◌, if◌then◌else◌,
  Option, none, some, Bytes, length, take, replicate,
}
use Memory.{copy_to}

-- A `size_t` sum.
unfoldable pub add_size : ℕ → ℕ → ℕ
add_size a b = (a + b) % 2 ^ 64

-- A `size_t` difference.
unfoldable pub sub_size : ℕ → ℕ → ℕ
sub_size a b = (a + 2 ^ 64 - b) % 2 ^ 64

-- What malloc and the pool provide: blocks of the size asked for, with any bytes in them.
pub record Allocator : Type 0 where
  pub fresh : ℕ → Bytes
  pub length-fresh : (n : ℕ) → length (fresh n) ≡ n

-- `pooled` is `h->pool != NULL`. `owned` is false while `h->data` points to the field `h->size`.
pub record Buffer : Type 0 where
  pub store : Bytes
  pub len : ℕ
  pub size : ℕ
  pub pooled : Bool
  pub owned : Bool

-- What ac_buffer_destroy hands to ac_free.
pub data Freed : Type 0 where
  data_block size_field handle : Freed

unfoldable pub destroy : Buffer → List Freed
destroy h = if h.pooled then [] else (if h.owned then data_block else size_field) ∷ handle ∷ []

-- Writes at an index into `h->data`.
abbrev poke : Buffer → ℕ → Bytes → Buffer
poke h i bs = record h { store = copy_to h.store i bs }

-- `h->data[h->length] = 0`
abbrev terminate : Buffer → Buffer
terminate h = poke h h.len (0 ∷ [])

unfoldable pub clear : Buffer → Buffer
clear h = record h { len = 0; store = copy_to h.store 0 (0 ∷ []) }

unfoldable pub shrink_by : Buffer → ℕ → Buffer
shrink_by h n = terminate (record h { len = if ltb n h.len then h.len - n else 0 })

-- ac_buffer_data, up to ac_buffer_length
abbrev pub buffer_data : Buffer → Bytes
buffer_data h = take h.len h.store

-- `(length + 50) + (h->size >> 3)`
abbrev pub grown_size : Buffer → ℕ → ℕ
grown_size h n = add_size (add_size n 50) (h.size / 8)

-- How many bytes of the old block _ac_buffer_grow copies.
unfoldable pub grow_reads : Buffer → ℕ → ℕ
grow_reads h n = if h.pooled then add_size (grown_size h n) 1 else add_size h.len 1

-- `len + 1 - k`, the bytes of the new block behind the first `k`.
abbrev behind : ℕ → ℕ → ℕ
behind len k = add_size len 1 - k

-- `vsnprintf(r, limit, …)` at an index, for a format that comes to `text`: at most `limit - 1`
-- bytes of it and a terminator, and nothing for a limit of 0. It fails for more bytes than an `int`
-- can count.
unfoldable pub print_at : Buffer → ℕ → ℕ → Bytes → Buffer
print_at h i limit text = if limit == 0 then h else poke h i (take (limit - 1) text ++ (0 ∷ []))

-- An `int` as a `size_t`, of the bits of a number below 2 ^ 32.
abbrev size_of_int : ℕ → ℕ
size_of_int k = if ltb k (2 ^ 31) then k else k + 2 ^ 64 - 2 ^ 32

module _ (a : Allocator) where
  open a use {fresh}

  -- With `initial_size` 0 the data are the eight bytes of `h->size`, which are 0.
  unfoldable pub init : ℕ → Buffer
  init initial_size =
      if initial_size == 0
      then record { store = replicate 8 0; len = 0; size = 0; pooled = false; owned = false }
      else record {
        store = copy_to (fresh (add_size initial_size 1)) 0 (0 ∷ []);
        len = 0;
        size = initial_size;
        pooled = false;
        owned = true;
      }

  unfoldable pub pool_init : ℕ → Buffer
  pool_init initial_size = record {
    store = copy_to (fresh (add_size initial_size 1)) 0 (0 ∷ []);
    len = 0;
    size = initial_size;
    pooled = true;
    owned = true;
  }

  -- The bytes copied, and unspecified ones behind them. What is copied from behind the old block
  -- is unspecified too.
  unfoldable pub grow : Buffer → ℕ → Buffer
  unfolding add_size grow_reads
  grow h n =
      let len = grown_size h n in
      let kept = take (grow_reads h n) h.store in
      record h { store = kept ++ fresh (behind len (length kept)); size = len; owned = true }

  -- `if (n > h->size) _ac_buffer_grow(h, n)`
  unfoldable pub reserve : Buffer → ℕ → Buffer
  reserve h n = if ltb h.size n then grow h n else h

  unfoldable pub resize : Buffer → ℕ → Buffer
  resize h n = let g = reserve h n in terminate (record g { len = n })

  unfoldable pub append_ualloc : Buffer → ℕ → Buffer
  append_ualloc h n =
      let g = reserve h (add_size n h.len) in terminate (record g { len = add_size g.len n })

  -- First the padding up to a multiple of 8, by the same steps as the allocation behind it.
  unfoldable pub append_alloc : Buffer → ℕ → Buffer
  append_alloc h n =
      let m = h.len % 8 in append_ualloc (if ltb 0 m then append_ualloc h (8 - m) else h) n

  -- _ac_buffer_append, behind ac_buffer_append and ac_buffer_appends
  unfoldable pub append : Buffer → Bytes → Buffer
  append h bytes =
      let n = length bytes in
      let g = reserve h (add_size h.len n) in
      let w = poke g g.len bytes in terminate (record w { len = add_size w.len n })

  unfoldable pub appendc : Buffer → ℕ → Buffer
  appendc h ch =
      let g = reserve h (add_size h.len 1) in
      let w = poke g g.len (ch ∷ 0 ∷ []) in record w { len = add_size w.len 1 }

  -- A count that is negative returns at once, as 0 does.
  unfoldable pub appendn : Buffer → ℕ → ℕ → Buffer
  appendn h ch n =
      let g = reserve h (add_size h.len n) in
      let w = poke g g.len (replicate n ch) in
      let t = poke w (w.len + n) (0 ∷ []) in
      if n == 0 then h else record t { len = add_size t.len n }

  -- ac_buffer_appendvf, where vsnprintf has given the number of the bytes of the text
  unfoldable pub append_printed : Buffer → Bytes → Buffer
  append_printed h text =
      let n = length text in
      let leftover = sub_size h.size h.len in
      let first = print_at h h.len leftover text in
      let g = grow first (add_size h.len n) in
      let second = print_at g g.len (size_of_int (n + 1)) text in
      if ltb n leftover
      then record first { len = add_size first.len n }
      else record second { len = add_size second.len n }

  -- `none` is the abort for a number below 0.
  unfoldable pub appendvf : Buffer → Bytes → Option Buffer
  appendvf h text = if ltb (length text) (2 ^ 31) then some (append_printed h text) else none

  -- _ac_buffer_alloc: a new block, with nothing copied.
  unfoldable pub renew : Buffer → ℕ → Buffer
  renew h n = record h {
    store = fresh (add_size (grown_size h n) 1);
    size = grown_size h n;
    owned = true;
  }

  -- ac_buffer_alloc
  unfoldable pub alloc : Buffer → ℕ → Buffer
  alloc h n = let g = if ltb h.size n then renew h n else h in terminate (record g { len = n })

  -- _ac_buffer_set, behind ac_buffer_set, ac_buffer_sets and ac_buffer_setc
  unfoldable pub assign : Buffer → Bytes → Buffer
  assign h bytes =
      let n = length bytes in
      let g = if ltb h.size n then renew h n else h in
      let w = poke g 0 bytes in terminate (record w { len = n })

  -- ac_buffer_setn and ac_buffer_setvf
  unfoldable pub setn : Buffer → ℕ → ℕ → Buffer
  setn h ch n = appendn (record h { len = 0 }) ch n

  unfoldable pub setvf : Buffer → Bytes → Option Buffer
  setvf h text = appendvf (record h { len = 0 }) text
