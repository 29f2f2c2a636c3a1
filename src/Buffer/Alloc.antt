-- ===== src/Buffer/Alloc.antt =====
-- Creation, destruction, new contents, and the operations that hand out memory to be filled in.
use another_c_library.Prelude.{
  ℕ, zero, suc, ◌+◌, ◌-◌, ◌%◌, ◌≤◌, ◌<◌, ◌≡◌, ◌⊎◌, refl, sym, ◌∙◌, ap, true, false, [], ◌∷◌, ◌++◌,
  ltb, ◌==◌, if◌then◌else◌, Bytes, length, take, drop, arith, Bool-cases, inl, inr, ltb→lt,
  append-nil, append_assoc,
}
use mathlib.Core.Path.{subst}
use native.Mathlib.Decide.{dec_le}
use another_c_library.Prelude.{take_all}
use another_c_library.Buffer.{
  Buffer, Allocator, size_field, handle, add_size, destroy, init, pool_init, grow_reads, reserve,
  assign, grown_size, renew, resize, append_alloc, append_ualloc,
}
use another_c_library.Buffer.Memory.{copy_to, take-take}
use another_c_library.Buffer.Valid.{
  Holds, Ready, Small, reserve-Ready, Holds-Ready, add_size-Small, put-Holds, len-Holds,
  grown_size-bounds, terminate_at,
}

-- A buffer from malloc is empty, whatever its initial size.
pub init-Holds : (a : Allocator) (n : ℕ) → Small (n + 1) → Holds (init a n) []
unfolding init
init-Holds a n small = elim (Bool-cases (n == 0)) [
  | inl e ↦ rw e (record { fits = omega arith; room = omega arith; contents = refl; ended = refl })
  | inr e ↦
      let block : length (a.fresh (add_size n 1)) ≡ n + 1 =
        omega (arith, a.length-fresh (add_size n 1), add_size-Small n 1 small) in
      let (_, ended, long) = terminate_at (a.fresh (add_size n 1)) 0 (omega (arith, block)) in
      rw e (record {
        fits = omega arith;
        room = omega (arith, block, long);
        contents = refl;
        ended = ended;
      })
]

-- So is one from a pool.
pub pool_init-Holds : (a : Allocator) (n : ℕ) → Small (n + 1) → Holds (pool_init a n) []
unfolding pool_init
pool_init-Holds a n small =
    let block : length (a.fresh (add_size n 1)) ≡ n + 1 =
      omega (arith, a.length-fresh (add_size n 1), add_size-Small n 1 small) in
    let (_, ended, long) = terminate_at (a.fresh (add_size n 1)) 0 (omega (arith, block)) in
    record { fits = omega arith; room = omega (arith, block, long); contents = refl; ended = ended }

-- A buffer that is created with the initial size 0 and destroyed has the address of its own field
-- `size` handed to free, which malloc never returned.
pub destroy-init : (a : Allocator) → destroy (init a 0) ≡ size_field ∷ handle ∷ []
unfolding destroy init
destroy-init a = refl

-- The growth of a buffer from malloc reads within its block, the contents and the terminator; that
-- of a buffer from a pool reads more bytes than its block has.
pub grow_reads-store :
    (h : Buffer) {bytes : Bytes} (n : ℕ)
    → Holds h bytes
    → Small n
    → h.size < n
    → length h.store ≡ h.size + 1
    → ((h.pooled ≡ false) × (grow_reads h n ≤ length h.store))
      ⊎ ((h.pooled ≡ true) × (length h.store < grow_reads h n))
unfolding grow_reads
grow_reads-store h n v small more block = elim (Bool-cases h.pooled) [
  | inl p ↦
      let (grown, one) = grown_size-bounds h n (omega arith) small in
      inr (p, rw p (omega (arith, grown, one)))
  | inr p ↦ inl (p, rw p (omega (arith, add_size-Small h.len 1 (omega (arith, v.fits)), v.fits)))
]

-- A new block where the old one is too small.
renewed-Ready :
    (a : Allocator) (h : Buffer) {bytes : Bytes} (n : ℕ)
    → Holds h bytes
    → Small n
    → Ready (record (if ltb h.size n then renew a h n else h) { len = 0 }) [] n
unfolding renew
renewed-Ready a h n v small = elim (Bool-cases (ltb h.size n)) [
  | inl e ↦
      let (grown, one) = grown_size-bounds h n (omega (arith, ltb→lt _ _ e)) small in
      rw e (record {
        enough = omega arith;
        inside = omega arith;
        block = omega (arith, one, a.length-fresh (add_size (grown_size h n) 1));
        kept = refl;
      })
  | inr e ↦
      rw e (record { enough = ground arith; inside = omega arith; block = v.room; kept = refl })
]

-- `ac_buffer_set` replaces the contents by the bytes.
pub assign-Holds :
    (a : Allocator) {h : Buffer} {bytes : Bytes} (bs : Bytes)
    → Holds h bytes
    → Small (length bs)
    → Holds (assign a h bs) bs
unfolding assign
assign-Holds a {h} bs v small =
    let g = record (if ltb h.size (length bs) then renew a h (length bs) else h) { len = 0 } in
    let e : 0 + length bs ≡ length bs = omega arith in
    subst
      (λ (k : ℕ).
        Holds (record g { store = copy_to (copy_to g.store 0 bs) k (0 ∷ []); len = k }) bs)
      e (put-Holds g bs (renewed-Ready a h (length bs) v small) (sym e))

take_split : (k n : ℕ) (st : Bytes) → k ≤ n → take n st ≡ take k st ++ drop k (take n st)
take_split zero n st h = refl
take_split (suc k) zero st h = absurd (omega arith)
take_split (suc k) (suc n) [] h = refl
take_split (suc k) (suc n) (x ∷ st) h = ap (◌∷◌ x) (take_split k n st (omega arith))

-- A length that is moved up to `n`, with a terminator there.
extended-Holds :
    (g : Buffer) {bytes : Bytes} {m : ℕ} (n : ℕ)
    → Ready g bytes m
    → n ≤ g.size
    → g.len ≤ n
    → Holds
        (record g { store = copy_to g.store n (0 ∷ []); len = n })
        (bytes ++ drop g.len (take n g.store))
extended-Holds g {bytes} n r inside up =
    let (same, ended, long) = terminate_at g.store n (omega (arith, r.block, inside)) in
    record {
      fits = inside;
      room = omega (arith, r.block, long);
      contents =
          same ∙ take_split g.len n g.store up ∙ ap (λ t. t ++ drop g.len (take n g.store)) r.kept;
      ended = ended;
    }

-- A length that is moved down to `n`.
cut-Holds :
    (g : Buffer) {bytes : Bytes} {m : ℕ} (n : ℕ)
    → Ready g bytes m
    → n ≤ g.len
    → Holds (record g { store = copy_to g.store n (0 ∷ []); len = n }) (take n bytes)
cut-Holds g n r down =
    let (same, ended, long) = terminate_at g.store n (omega (arith, r.block, r.inside, down)) in
    record {
      fits = omega (arith, r.inside);
      room = omega (arith, r.block, long);
      contents = same ∙ sym (take-take n g.len g.store down) ∙ ap (take n) r.kept;
      ended = ended;
    }

-- `ac_buffer_append_ualloc` keeps the contents and puts `n` bytes behind them, to be filled in.
pub append_ualloc-Holds :
    (a : Allocator) (h : Buffer) {bytes : Bytes} (n : ℕ)
    → Holds h bytes
    → Small (n + h.len)
    → (more : Bytes) × Holds (append_ualloc a h n) (bytes ++ more)
      × ((append_ualloc a h n).len ≡ h.len + n)
unfolding append_ualloc
append_ualloc-Holds a h n v small =
    let (r, same) = reserve-Ready a h (n + h.len) (Holds-Ready v) small in
    let g = reserve a h (n + h.len) in
    rw (add_size-Small n h.len small) (
      rw (add_size-Small g.len n (omega arith)) (
        drop g.len (take (g.len + n) g.store),
        extended-Holds g (g.len + n) r (omega (arith, r.enough)) (omega arith),
        omega arith,
      ))

-- `ac_buffer_append_alloc` keeps the contents and puts `n` bytes behind them, from the next index
-- that is a multiple of 8.
pub append_alloc-Holds :
    (a : Allocator) (h : Buffer) {bytes : Bytes} (n : ℕ)
    → Holds h bytes
    → Small (n + h.len + 8)
    → (at : ℕ) × (more : Bytes) × Holds (append_alloc a h n) (bytes ++ more)
      × ((append_alloc a h n).len ≡ at + n)
      × (at % 8 ≡ 0)
      × (h.len ≤ at)
      × (at < h.len + 8)
unfolding append_alloc
append_alloc-Holds a h n v small = elim (Bool-cases (ltb 0 (h.len % 8))) [
  | inl e ↦
      let (pad, w, padded) = append_ualloc-Holds a h (8 - h.len % 8) v (omega arith) in
      let g = append_ualloc a h (8 - h.len % 8) in
      let (more, u, long) = append_ualloc-Holds a g n w (omega arith) in
      let apart : 0 < h.len % 8 = ltb→lt _ _ e in
      rw e (g.len, pad ++ more, rw (← append_assoc) u, long, omega arith, omega arith, omega arith)
  | inr e ↦
      let (more, u, long) = append_ualloc-Holds a h n v (omega arith) in
      rw e (h.len, more, u, long, ground arith, omega arith, omega arith)
]

-- `ac_buffer_resize` sets the length, and keeps as much of the contents as it takes.
pub resize-Holds :
    (a : Allocator) (h : Buffer) {bytes : Bytes} (n : ℕ)
    → Holds h bytes
    → Small n
    → (more : Bytes) × Holds (resize a h n) (take n bytes ++ more) × ((resize a h n).len ≡ n)
unfolding resize
resize-Holds a h {bytes} n v small =
    let (r, same) = reserve-Ready a h n (Holds-Ready v) small in
    elim (dec_le h.len n) [
      | yes up ↦
          let g = reserve a h n in
          let whole : take n bytes ≡ bytes = take_all n bytes (omega (arith, len-Holds v)) in
          (
            drop g.len (take n g.store),
            rw whole (extended-Holds g n r r.enough (omega arith)),
            refl,
          )
      | no down ↦ ([], rw append-nil (cut-Holds (reserve a h n) n r (omega arith)), refl)
    ]
