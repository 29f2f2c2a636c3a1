-- ===== src/InBase/State.antt =====
-- What a reader has still to give, and the calls that put the block in order.
use another_c_library.Prelude.{
  ℕ, ◌-◌, ◌≤◌, ◌<◌, ◌≡◌, refl, sym, ap, ◌∙◌, arith, true, false, Option, none, some, [], ◌++◌,
  if◌then◌else◌, Bytes, length, take, drop, get_or, length-set,
}
use another_c_library.Buffer.Memory.{write, length-write}
use another_c_library.InBase.{
  Reader, undo, block, reset_block, restore, cleanup_last_read, put_zero,
}
use another_c_library.InBase.Lists.{set-set_back, length-slice, take-write_front}

-- A file whose bytes are read up to the number asked for, or up to the end, as a regular file is.
pub record IsFile {F : Type 0} (read : F → ℕ → Option Bytes × F) (contents : F → Bytes)
    : Type 0 where
  pub what : (f : F) (n : ℕ) → (read f n).0 ≡ some (take n (contents f))
  pub rest : (f : F) (n : ℕ) → contents (read f n).1 ≡ drop n (contents f)

-- Behind the bytes of the block there is room for one byte more, where the zero is put.
pub record IsSound {F : Type 0} (r : Reader F) : Type 0 where
  pub room : r.size < length r.buffer
  pub used_size : r.used ≤ r.size
  pub pos_used : r.pos ≤ r.used
  pub sized : r.eof ≡ false → 4 ≤ r.size
  pub open_file : r.file ≡ none → r.eof ≡ true

pub undo-length : (z : Option ℕ) (v : ℕ) (m : Bytes) → length (undo z v m) ≡ length m
undo-length none v m = refl
undo-length (some i) v m = length-set m i v

module _ {F : Type 0} where
  pub restore-IsSound : {r : Reader F} → IsSound r → IsSound (restore r)
  unfolding restore
  restore-IsSound {r} g = ground (arith, undo-length r.zerop r.zero_byte r.buffer)

  pub cleanup-IsSound : {r : Reader F} → IsSound r → IsSound (cleanup_last_read r)
  unfolding cleanup_last_read
  cleanup-IsSound {r} g = ground (arith, undo-length r.zerop r.zero_byte r.buffer)

  pub put_zero-IsSound : {r : Reader F} (i : ℕ) → IsSound r → IsSound (put_zero r i)
  unfolding put_zero
  put_zero-IsSound {r} i g = ground (arith, length-set r.buffer i 0)

  pub reset_block-IsSound : {r : Reader F} → IsSound r → IsSound (reset_block r)
  unfolding reset_block
  reset_block-IsSound {r} g = ground (arith, length-write r.buffer 0 (block r))

  pub length-block : {r : Reader F} → IsSound r → length (block r) ≡ r.used - r.pos
  length-block {r} g = length-slice r.pos r.used r.buffer (omega arith)

  -- The block keeps its bytes when they are moved to its front.
  pub block-reset_block : {r : Reader F} → IsSound r → block (reset_block r) ≡ block r
  unfolding reset_block
  block-reset_block {r} g =
      let n = length-block g in
      ap (λ k. take k (write r.buffer 0 (block r))) (sym n)
      ∙ take-write_front r.buffer (block r) (omega (arith, n))

  pub pos-reset_block : (r : Reader F) → (reset_block r).pos ≡ 0
  unfolding reset_block
  pos-reset_block r = refl

  pub zerop-reset_block : (r : Reader F) → (reset_block r).zerop ≡ r.zerop
  unfolding reset_block
  zerop-reset_block r = refl

  pub used-reset_block : (r : Reader F) → (reset_block r).used ≡ r.used - r.pos
  unfolding reset_block
  used-reset_block r = refl

  pub size-reset_block : (r : Reader F) → (reset_block r).size ≡ r.size
  unfolding reset_block
  size-reset_block r = refl

  -- The byte under the zero comes back.
  pub restore-put_zero :
      (r : Reader F) (i : ℕ)
      → (restore (put_zero r i)) ≡ record r { zerop = none; zero_byte = get_or r.buffer i 0 }
  unfolding restore put_zero
  restore-put_zero r i =
      ap (λ m. record r { buffer = m; zerop = none; zero_byte = get_or r.buffer i 0 })
        (set-set_back r.buffer i 0)

module _ {F : Type 0} (contents : F → Bytes) where
  abbrev pub ahead : Option F → Bytes
  ahead none = []
  ahead (some f) = contents f

  -- What is behind the block in the file.
  abbrev pub behind : Reader F → Bytes
  behind r = if r.eof then [] else ahead r.file

  -- What is to come, where no zero is put into the block.
  abbrev pub to_come : Reader F → Bytes
  to_come r = block r ++ behind r

  -- What is to come, behind any call.
  abbrev pub unread : Reader F → Bytes
  unfolding restore
  unread r = to_come (restore r)

  pub unread-cleanup : (r : Reader F) → to_come (cleanup_last_read r) ≡ unread r
  unfolding cleanup_last_read
  unread-cleanup r = refl

  pub unread-put_zero : (r : Reader F) (i : ℕ) → unread (put_zero r i) ≡ to_come r
  unfolding restore
  unread-put_zero r i = ap to_come (restore-put_zero r i)
