-- ===== src/Buffer/Valid.antt =====
-- The invariant of a buffer, with the bytes that it stands for, and room for more of them.
use another_c_library.Prelude.{
  ℕ, ◌+◌, ◌-◌, ◌/◌, ◌^◌, ◌≤◌, ◌<◌, min, ◌≡◌, refl, ◌∙◌, ap, [], ◌∷◌, ◌++◌, ltb, Bytes, length,
  length-append, length-take, take, get_or, arith, Bool-cases, inl, inr, ltb→lt,
}
use another_c_library.Buffer.{Buffer, Allocator, add_size, grown_size, grow, grow_reads, reserve}
use another_c_library.Buffer.Memory.{
  write, copy_to, copy_to_inside, length-write, take-write, take-write_before, get_or-write,
  take-append_le, take-take,
}

-- The buffer holds these bytes: they lie within the block, a terminator stands behind them, and
-- the block has a byte more than `size` says.
pub record Holds (h : Buffer) (bytes : Bytes) : Type 0 where
  pub fits : h.len ≤ h.size
  pub room : h.size < length h.store
  pub contents : take h.len h.store ≡ bytes
  pub ended : get_or h.store h.len 1 ≡ 0

-- Sizes far below the end of the address space, where no `size_t` sum wraps.
abbrev pub Small : ℕ → Type 0
Small n = n < 2 ^ 62

pub len-Holds : {h : Buffer} {bytes : Bytes} → Holds h bytes → h.len ≡ length bytes
len-Holds {h} {bytes} v =
    omega (arith, ap length v.contents, length-take {0} h.len h.store, v.fits, v.room)

-- Writing at the end of the contents, with a terminator behind.
pub take-put :
    (st : Bytes) (len : ℕ) (bs : Bytes) (d : ℕ)
    → len + length bs < length st
    → let st' = copy_to (copy_to st len bs) (len + length bs) (0 ∷ []) in
      (take (len + length bs) st' ≡ take len st ++ bs)
      × (get_or st' (len + length bs) d ≡ 0)
      × (length st' ≡ length st)
take-put st len bs d h =
    let same = length-write st len bs in
    let behind = length-write (write st len bs) (len + length bs) (0 ∷ []) in
    rw
      (
        copy_to_inside st len bs (omega (arith, h)),
        copy_to_inside (write st len bs) (len + length bs) (0 ∷ []) (omega (arith, h, same)),
      )
      (
        take-write_before (len + length bs) (write st len bs) (len + length bs) (0 ∷ [])
              (omega arith)
            ∙ take-write st len bs (omega arith),
        get_or-write (write st len bs) (len + length bs) 0 d (omega (arith, same)),
        omega (arith, same, behind),
      )

-- A terminator within the block.
pub terminate_at :
    (st : Bytes) (i : ℕ)
    → i < length st
    → (take i (copy_to st i (0 ∷ [])) ≡ take i st)
      × (get_or (copy_to st i (0 ∷ [])) i 1 ≡ 0)
      × (length (copy_to st i (0 ∷ [])) ≡ length st)
terminate_at st i h = rw (copy_to_inside st i (0 ∷ []) (omega (arith, h))) (
  take-write_before i st i (0 ∷ []) (omega arith),
  get_or-write st i 0 1 h,
  length-write st i (0 ∷ []),
)

-- What a buffer is known to be between a growth and the write of the new bytes.
pub record Ready (h : Buffer) (bytes : Bytes) (n : ℕ) : Type 0 where
  pub enough : n ≤ h.size
  pub inside : h.len ≤ h.size
  pub block : h.size < length h.store
  pub kept : take h.len h.store ≡ bytes

-- A growth asks for more than `n`, and keeps the contents.
pub grown_size-bounds :
    (h : Buffer) (n : ℕ)
    → h.size ≤ n
    → Small n
    → (grown_size h n ≡ n + 50 + h.size / 8) × (add_size (grown_size h n) 1 ≡ grown_size h n + 1)
unfolding add_size
grown_size-bounds h n more small = omega arith

-- A block of `total` bytes that begins with `k` or more bytes of the old one.
new_block :
    (a : Allocator) (st : Bytes) (k r total : ℕ)
    → k ≤ r
    → k ≤ length st
    → r ≤ total
    → let st' = take r st ++ a.fresh (total - length (take r st)) in
      (take k st' ≡ take k st) × (length st' ≡ total)
new_block a st k r total h i j =
    let cut : length (take r st) ≡ min r (length st) = length-take r st in
    (
      take-append_le k (take r st) (a.fresh (total - length (take r st))) (omega (arith, cut))
          ∙ take-take k r st h,
      omega (
        arith,
        cut,
        length-append {0} (take r st) (a.fresh (total - length (take r st))),
        a.length-fresh (total - length (take r st)),
      ),
    )

pub grow_reads-bounds :
    (h : Buffer) (n : ℕ)
    → h.len ≤ h.size
    → h.size ≤ n
    → Small n
    → (h.len ≤ grow_reads h n) × (grow_reads h n ≤ add_size (grown_size h n) 1)
unfolding grow_reads add_size
grow_reads-bounds h n fits more small = ground arith

pub grow-Ready :
    (a : Allocator) (h : Buffer) {bytes : Bytes} {m : ℕ} (n : ℕ)
    → Ready h bytes m
    → h.size ≤ n
    → Small n
    → Ready (grow a h n) bytes n × ((grow a h n).len ≡ h.len)
unfolding grow
grow-Ready a h n v more small =
    let (grown, one) = grown_size-bounds h n more small in
    let reads = grow_reads-bounds h n v.inside more small in
    let (same, long) =
      new_block a h.store h.len (grow_reads h n) (add_size (grown_size h n) 1) reads.0
        (omega (arith, v.inside, v.block)) reads.1 in
    (
      record {
        enough = omega arith;
        inside = omega (arith, v.inside);
        block = omega (arith, long, one);
        kept = same ∙ v.kept;
      },
      refl,
    )

pub reserve-Ready :
    (a : Allocator) (h : Buffer) {bytes : Bytes} {m : ℕ} (n : ℕ)
    → Ready h bytes m
    → Small n
    → Ready (reserve a h n) bytes n × ((reserve a h n).len ≡ h.len)
unfolding reserve
reserve-Ready a h n v small = elim (Bool-cases (ltb h.size n)) [
  | inl more ↦ rw more (grow-Ready a h n v (omega (arith, ltb→lt _ _ more)) small)
  | inr keep ↦
      rw keep
        (record { enough = ground arith; inside = v.inside; block = v.block; kept = v.kept }, refl)
]

pub Holds-Ready : {h : Buffer} {bytes : Bytes} → Holds h bytes → Ready h bytes 0
Holds-Ready v = record { enough = omega arith; inside = v.fits; block = v.room; kept = v.contents }

-- With its length set to 0 a buffer is ready for new contents.
pub emptied-Ready : (h : Buffer) {bytes : Bytes} → Holds h bytes → Ready (record h { len = 0 }) [] 0
emptied-Ready h v = record {
  enough = omega arith;
  inside = omega arith;
  block = v.room;
  kept = refl;
}

pub add_size-Small : (a b : ℕ) → Small (a + b) → add_size a b ≡ a + b
unfolding add_size
add_size-Small a b h = omega arith

-- The bytes are put behind the contents, and a terminator behind them.
abbrev pub put : Buffer → Bytes → Buffer
put g bs = record g {
  store = copy_to (copy_to g.store g.len bs) (g.len + length bs) (0 ∷ []);
  len = g.len + length bs;
}

pub put-Holds :
    (g : Buffer) {bytes : Bytes} {n : ℕ} (bs : Bytes)
    → Ready g bytes n
    → n ≡ g.len + length bs
    → Holds (put g bs) (bytes ++ bs)
put-Holds g bs r e =
    let (same, zero_behind, long) =
      take-put g.store g.len bs 1 (omega (arith, r.enough, r.block)) in
    record {
      fits = omega (arith, r.enough);
      room = omega (arith, r.block, long);
      contents = rw (← r.kept) same;
      ended = zero_behind;
    }
