-- ===== src/Buffer/Contents.antt =====
-- What each operation does to the bytes that a buffer holds.
use another_c_library.Prelude.{
  ℕ, zero, suc, ◌+◌, ◌-◌, ◌^◌, ◌≤◌, ◌<◌, ◌≡◌, ◌≢◌, refl, sym, ◌∙◌, ap, true, false, [], ◌∷◌, ◌++◌,
  ltb, ◌==◌, if◌then◌else◌, Bytes, length, length-append, length-take, length-replicate, some, none,
  take, get_or, replicate, arith, Bool-cases, inl, inr, ltb→lt, append-nil, ==→eq,
}
use another_c_library.Prelude.{take_all}
use another_c_library.Buffer.{
  Buffer, Allocator, sub_size, clear, shrink_by, reserve, append, appendc, appendn, append_printed,
  appendvf, setn, setvf, grow, print_at,
}
use another_c_library.Buffer.Memory.{
  length-write, copy_to, copy_to_inside, copy_to-append, take-write_before, take-take,
}
use another_c_library.Buffer.Valid.{
  Holds, Ready, Small, reserve-Ready, grow-Ready, Holds-Ready, emptied-Ready, add_size-Small,
  put-Holds, len-Holds, terminate_at,
}

-- `ac_buffer_append` puts the bytes behind the contents.
pub append-Holds :
    (a : Allocator) {h : Buffer} {bytes : Bytes} (bs : Bytes)
    → Holds h bytes
    → Small (h.len + length bs)
    → Holds (append a h bs) (bytes ++ bs)
unfolding append
append-Holds a {h} bs v small =
    let (r, same) = reserve-Ready a h (h.len + length bs) (Holds-Ready v) small in
    let g = reserve a h (h.len + length bs) in
    rw (add_size-Small h.len (length bs) small)
      (rw (add_size-Small g.len (length bs) (omega arith)) (put-Holds g bs r (omega (arith, same))))

-- `ac_buffer_appendc` puts the character behind the contents.
pub appendc-Holds :
    (a : Allocator) {h : Buffer} {bytes : Bytes} (ch : ℕ)
    → Holds h bytes
    → Small (h.len + 1)
    → Holds (appendc a h ch) (bytes ++ ch ∷ [])
unfolding appendc
appendc-Holds a {h} ch v small =
    let (r, same) = reserve-Ready a h (h.len + 1) (Holds-Ready v) small in
    let g = reserve a h (h.len + 1) in
    rw (add_size-Small h.len 1 small) (
      rw (add_size-Small g.len 1 (omega arith)) (
        rw
          (copy_to-append g.store g.len (ch ∷ []) (0 ∷ []) (omega (arith, r.enough, r.block, same)))
          (put-Holds g (ch ∷ []) r (omega (arith, same)))))

appendn-Ready :
    (a : Allocator) (h : Buffer) {bytes : Bytes} {m : ℕ} (ch n : ℕ)
    → Ready h bytes m
    → Small (h.len + n)
    → (n == 0) ≡ false
    → Holds (appendn a h ch n) (bytes ++ replicate n ch)
unfolding appendn
appendn-Ready a h ch n v small some_bytes =
    let (r, same) = reserve-Ready a h (h.len + n) v small in
    let g = reserve a h (h.len + n) in
    let long : length (replicate n ch) ≡ n = length-replicate n ch in
    rw some_bytes (
      rw (add_size-Small h.len n small) (
        rw (add_size-Small g.len n (omega arith))
          (rw long at (put-Holds g (replicate n ch) r (omega (arith, same, long))))))

-- `ac_buffer_appendn` puts `n` times the character behind the contents.
pub appendn-Holds :
    (a : Allocator) {h : Buffer} {bytes : Bytes} (ch n : ℕ)
    → Holds h bytes
    → Small (h.len + n)
    → Holds (appendn a h ch n) (bytes ++ replicate n ch)
appendn-Holds a {h} {bytes} ch n v small = elim (Bool-cases (n == 0)) [
  | inl e ↦ rw (==→eq n 0 e) (rw append-nil (unfold appendn in v))
  | inr e ↦ appendn-Ready a h ch n (Holds-Ready v) small e
]

-- `ac_buffer_clear` leaves no contents.
pub clear-Holds : {h : Buffer} {bytes : Bytes} → Holds h bytes → Holds (clear h) []
unfolding clear
clear-Holds {h} v =
    let (_, ended, long) = terminate_at h.store 0 (omega (arith, v.room)) in
    record {
      fits = omega arith;
      room = omega (arith, v.room, long);
      contents = refl;
      ended = ended;
    }

-- `ac_buffer_shrink_by` drops the last `n` bytes, or all if there are fewer.
pub shrink_by-Holds :
    {h : Buffer} {bytes : Bytes} (n : ℕ)
    → Holds h bytes
    → Holds (shrink_by h n) (take (length bytes - n) bytes)
unfolding shrink_by
shrink_by-Holds {h} {bytes} n v =
    let e : (if ltb n h.len then h.len - n else 0) ≡ length bytes - n =
      ground (arith, len-Holds v) in
    let k = length bytes - n in
    let (same, ended, long) = terminate_at h.store k (omega (arith, v.room, v.fits, len-Holds v)) in
    rw e (record {
      fits = omega (arith, v.fits, len-Holds v);
      room = omega (arith, v.room, long);
      contents =
          same
          ∙ sym (take-take k h.len h.store (omega (arith, len-Holds v)))
          ∙ ap (take k) v.contents;
      ended = ended;
    })

pub print-Holds :
    (g : Buffer) {bytes : Bytes} {n : ℕ} (text : Bytes)
    → Ready g bytes n
    → n ≡ g.len + length text
    → Holds
        (record g { store = copy_to g.store g.len (text ++ (0 ∷ [])); len = g.len + length text })
        (bytes ++ text)
print-Holds g text r e =
    rw (copy_to-append g.store g.len text (0 ∷ []) (omega (arith, r.enough, r.block, e)))
      (put-Holds g text r e)

-- A call of vsnprintf with a limit within the block leaves the contents.
print_at-Ready :
    (h : Buffer) {bytes : Bytes} {m : ℕ} (limit : ℕ) (text : Bytes)
    → Ready h bytes m
    → h.len + limit ≤ h.size
    → let first = print_at h h.len limit text in
      Ready first bytes 0 × (first.len ≡ h.len) × (first.size ≡ h.size)
unfolding print_at
print_at-Ready h limit text v within = elim (Bool-cases (limit == 0)) [
  | inl e ↦ rw e (
    record { enough = omega arith; inside = v.inside; block = v.block; kept = v.kept },
    refl,
    refl,
  )
  | inr e ↦
      let written = take (limit - 1) text ++ (0 ∷ []) in
      let short : length written ≤ limit = omega (
        arith,
        length-append {0} (take (limit - 1) text) (0 ∷ []),
        length-take {0} (limit - 1) text,
        positive limit e,
      ) in
      rw (e, copy_to_inside h.store h.len written (omega (arith, short, within, v.block)))
        (
          record {
            enough = omega arith;
            inside = v.inside;
            block = omega (arith, v.block, length-write h.store h.len written);
            kept = take-write_before h.len h.store h.len written (omega arith) ∙ v.kept;
          },
          refl,
          refl,
        )
]
  where
    positive : (k : ℕ) → (k == 0) ≡ false → 0 < k
    positive k e = ground (arith, e)

-- Below its limit vsnprintf writes the whole text and a terminator.
print_at_whole :
    (h : Buffer) (limit : ℕ) (text : Bytes)
    → length text < limit
    → print_at h h.len limit text ≡ record h { store = copy_to h.store h.len (text ++ (0 ∷ [])) }
unfolding print_at
print_at_whole h limit text short =
    let some_room : (limit == 0) ≡ false = ground arith in
    rw (some_room, take_all (limit - 1) text (omega arith))

sub_size-le : (a b : ℕ) → b ≤ a → Small a → sub_size a b ≡ a - b
unfolding sub_size
sub_size-le a b h k = omega arith

appendvf-fits :
    (a : Allocator) (h : Buffer) {bytes : Bytes} {m : ℕ} (text : Bytes)
    → Ready h bytes m
    → Small (h.len + length text)
    → ltb (length text) (sub_size h.size h.len) ≡ true
    → length text < h.size - h.len
    → Holds (append_printed a h text) (bytes ++ text)
unfolding append_printed
appendvf-fits a h text v small short lt =
    rw
      (
        short,
        print_at_whole h (sub_size h.size h.len) text (ltb→lt _ _ short),
        add_size-Small h.len (length text) small,
      )
      (print-Holds h text
        (record { enough = omega arith; inside = v.inside; block = v.block; kept = v.kept }) refl)

appendvf-grows :
    (a : Allocator) (h : Buffer) {bytes : Bytes} {m : ℕ} (text : Bytes)
    → Ready h bytes m
    → Small (h.len + length text)
    → length text < 2 ^ 31 - 1
    → Small h.size
    → ltb (length text) (sub_size h.size h.len) ≡ false
    → h.size - h.len ≤ length text
    → Holds (append_printed a h text) (bytes ++ text)
unfolding append_printed
appendvf-grows a h {bytes} text v small counted below long le =
    let first = print_at h h.len (sub_size h.size h.len) text in
    let (ready, first_len, first_size) =
      print_at-Ready h (sub_size h.size h.len) text v
        (omega (arith, sub_size-le h.size h.len v.inside below, v.inside)) in
    let (r, grown_len) =
      grow-Ready a first (h.len + length text) ready (omega (arith, v.inside)) small in
    let g = grow a first (h.len + length text) in
    let limit : (if ltb (length text + 1) (2 ^ 31)
          then length text + 1
          else length text + 1 + 2 ^ 64 - 2 ^ 32)
        ≡ length text + 1 =
      ground (arith, counted) in
    rw (long, add_size-Small h.len (length text) small, limit)
      (rw (print_at_whole g (length text + 1) text (omega arith)) (
        rw (add_size-Small g.len (length text) (omega arith)) (print-Holds g text r (omega arith))))

appendvf-Ready :
    (a : Allocator) (h : Buffer) {bytes : Bytes} {m : ℕ} (text : Bytes)
    → Ready h bytes m
    → Small (h.len + length text)
    → length text < 2 ^ 31 - 1
    → Small h.size
    → (g : Buffer) × (appendvf a h text ≡ some g) × Holds g (bytes ++ text)
unfolding appendvf
appendvf-Ready a h text v small counted below =
    let left = sub_size-le h.size h.len v.inside below in
    (
      append_printed a h text,
      ap (λ b. if b then some (append_printed a h text) else none) (countable counted),
      elim (Bool-cases (ltb (length text) (sub_size h.size h.len))) [
        | inl e ↦ appendvf-fits a h text v small e (omega (arith, ltb→lt _ _ e, left))
        | inr e ↦ appendvf-grows a h text v small counted below e (rw left at (not_lt e))
      ],
    )
  where
    countable : {k : ℕ} → k < 2 ^ 31 - 1 → ltb k (2 ^ 31) ≡ true
    countable h = ground (arith, h)

    not_lt : {x y : ℕ} → ltb x y ≡ false → y ≤ x
    not_lt h = ground arith

-- `ac_buffer_appendf` puts the formatted text behind the contents, whether it fits or the buffer
-- has to grow.
pub appendvf-Holds :
    (a : Allocator) {h : Buffer} {bytes : Bytes} (text : Bytes)
    → Holds h bytes
    → Small (h.len + length text)
    → length text < 2 ^ 31 - 1
    → Small h.size
    → (g : Buffer) × (appendvf a h text ≡ some g) × Holds g (bytes ++ text)
appendvf-Holds a {h} text v = appendvf-Ready a h text (Holds-Ready v)

-- `ac_buffer_setf` replaces the contents by the formatted text.
pub setvf-Holds :
    (a : Allocator) {h : Buffer} {bytes : Bytes} (text : Bytes)
    → Holds h bytes
    → Small (length text)
    → length text < 2 ^ 31 - 1
    → Small h.size
    → (g : Buffer) × (setvf a h text ≡ some g) × Holds g text
unfolding setvf
setvf-Holds a {h} text v small =
    appendvf-Ready a (record h { len = 0 }) text (emptied-Ready h v) (omega arith)

-- `ac_buffer_setn` replaces the contents by `n` times the character, for a count that is not 0.
pub setn-Holds :
    (a : Allocator) {h : Buffer} {bytes : Bytes} (ch n : ℕ)
    → Holds h bytes
    → Small n
    → 0 < n
    → Holds (setn a h ch n) (replicate n ch)
unfolding setn
setn-Holds a {h} ch n v small pos =
    appendn-Ready a (record h { len = 0 }) ch n (emptied-Ready h v) (omega arith) (ground arith)

first_byte :
    (n : ℕ) (st : Bytes) {c : ℕ} {bytes : Bytes} → take n st ≡ c ∷ bytes → get_or st 0 1 ≡ c
first_byte zero st e = cc
first_byte (suc n) [] e = cc
first_byte (suc n) (x ∷ st) e = cc

-- `ac_buffer_setn` with a count of 0 takes the length to 0 and writes no terminator: the data are
-- what they were, so that the first byte of the old contents still stands where a string would end.
pub setn_zero :
    (a : Allocator) (h : Buffer) (ch c : ℕ) (bytes : Bytes)
    → Holds h (c ∷ bytes)
    → c ≢ 0
    → ((setn a h ch 0).len ≡ 0)
      × (get_or (setn a h ch 0).store 0 1 ≡ c)
      × ¬ (Holds (setn a h ch 0) [])
unfolding setn appendn
setn_zero a h ch c bytes v ne =
    let first : get_or h.store 0 1 ≡ c = first_byte h.len h.store v.contents in
    (refl, first, λ w. ne (sym first ∙ w.ended))
