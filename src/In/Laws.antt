-- ===== src/In/Laws.antt =====
-- Records that have been written to a file come back from it.
use another_c_library.Prelude.{
  ℕ, zero, suc, ◌^◌, ◌<◌, ◌≡◌, ◌≢◌, refl, sym, ap, ◌∙◌, arith, false, Option, none, some, [], ◌∷◌,
  ◌++◌, ◌==◌, if◌then◌else◌, eq→==, Bool-cases, inl, inr, Bytes, length, take, drop, take_append,
  drop_append, All,
}
use mathlib.Core.Path.{subst, subst⁻¹}
use another_c_library.Buffer.{Allocator}
use another_c_library.InBase.{Result, returned, ◌>>=◌, Reader, read_bytes, readz}
use another_c_library.InBase.State.{IsFile, IsSound, unread}
use another_c_library.InBase.Move.{Answers}
use another_c_library.InBase.Fixed.{readz-Answers}
use another_c_library.InBase.Exact.{exactly, exactly-some, read_bytes-Answers}
use another_c_library.InBase.Run.{cut, or_all, record_to, give, call-Answers}
use another_c_library.Out.{Format, delimited, fixed, prefix, uint32_bytes}
use another_c_library.In.{
  In, of_uint32, set_current, whole, after_length, advance_prefix, advance_delimited,
}

of_uint32-bytes : (n : ℕ) → n < 2 ^ 32 → of_uint32 (uint32_bytes n) ≡ n
of_uint32-bytes n h = omega arith

-- A record that comes back from a file.
abbrev pub IsReadable : Format → Bytes → Type 0
IsReadable prefix d = length d < 2 ^ 31
IsReadable (fixed n) d = (0 < n) × (length d ≡ n)
IsReadable (delimited delim) d = (delim < 128) × (delim ≢ b'"') × All (λ c. c ≢ delim) d

-- The record is the next one of a reader that is not reset, and `rest` is behind it.
pub record Advances {F : Type 0} (contents : F → Bytes) (i : In F)
    (result : Result (Option Bytes × In F)) (x : Option Bytes) (rest : Bytes) : Type 0 where
  pub after : In F
  pub is_result : result ≡ returned (x, after)
  pub sound : IsSound after.base
  pub leaves : unread contents after.base ≡ rest
  pub same_format : after.format ≡ i.format
  pub same_required : after.required ≡ i.required
  pub not_again : after.again ≡ i.again
  pub is_current : after.current ≡ x

module _ {F : Type 0} {contents : F → Bytes} where
  set_current-Advances :
      (i : In F) (base : Reader F) (x : Option Bytes) (rest : Bytes)
      → IsSound base
      → unread contents base ≡ rest
      → Advances contents i (returned (set_current i base x)) x rest
  set_current-Advances i base none rest g h = record {
    after = record i { base = base; current = none; num_current = 0 };
    is_result = refl;
    sound = g;
    leaves = h;
    same_format = refl;
    same_required = refl;
    not_again = refl;
    is_current = refl;
  }
  set_current-Advances i base (some r) rest g h = record {
    after = record i { base = base; current = some r; num_current = 1 };
    is_result = refl;
    sound = g;
    leaves = h;
    same_format = refl;
    same_required = refl;
    not_again = refl;
    is_current = refl;
  }

pub cut-record :
    (delim : ℕ) (d rest : Bytes)
    → All (λ c. c ≢ delim) d
    → cut delim (d ++ (delim ∷ rest)) ≡ some (d, rest)
unfolding cut
cut-record delim [] rest h =
    ap
      (λ b.
        if b
        then some ([], rest)
        else elim (cut delim rest) [ none ↦ none | some p ↦ some (delim ∷ p.0, p.1) ])
      (eq→== delim delim refl)
cut-record delim (c ∷ d) rest h =
    ap
      (λ b.
        if b
        then some ([], d ++ (delim ∷ rest))
        else elim (cut delim (d ++ (delim ∷ rest))) [ none ↦ none | some p ↦ some (c ∷ p.0, p.1) ])
      (ne→== c delim h.0)
    ∙ ap (λ x. elim x [ none ↦ none | some p ↦ some (c ∷ p.0, p.1) ]) (cut-record delim d rest h.1)
  where
    ne→== : (x y : ℕ) → x ≢ y → (x == y) ≡ false
    ne→== x y k = ground (arith, k)

pub whole_all : (d : Bytes) → whole (length d) (some d) ≡ some d
whole_all d = ap (λ b. if b then some d else none) (eq→== (length d) (length d) refl)

pub whole_short : (n : ℕ) → 0 < n → whole n (some []) ≡ none
whole_short n h = ground (arith, h)

pub take-nil : (n : ℕ) → take {A = ℕ} n [] ≡ []
take-nil zero = refl
take-nil (suc n) = refl

pub drop-nil : (n : ℕ) → drop {A = ℕ} n [] ≡ []
drop-nil zero = refl
drop-nil (suc n) = refl

nil_of_length : (d : Bytes) → length d ≡ 0 → [] ≡ d
nil_of_length [] h = refl
nil_of_length (x ∷ d) h = absurd (omega (arith, h))

module _ {F : Type 0} {read : F → ℕ → Option Bytes × F} {contents : F → Bytes}
    (file : IsFile read contents) (a : Allocator) (fuel : ℕ) where
  -- As many bytes as a record has are read, and kept if there are so many.
  pub readz-Advances :
      (i : In F) (base : Reader F) (n : ℕ) (x : Option Bytes) (u rest : Bytes)
      → IsSound base
      → unread contents base ≡ u
      → whole n (some (take n u)) ≡ x
      → drop n u ≡ rest
      → Advances contents i
          (readz read a base n >>= λ r. returned (set_current i r.1 (whole n r.0)))
          x
          rest
  readz-Advances i base n x u rest g h k l =
      let r = readz-Answers file a base n g in
      subst
        (λ c. Advances contents i (c >>= λ r. returned (set_current i r.1 (whole n r.0))) x rest)
        (sym r.is_result)
        (subst (λ y. Advances contents i (returned (set_current i r.after y)) x rest)
          (sym (ap (λ v. whole n (some (take n v))) h ∙ k))
          (set_current-Advances i r.after x rest r.sound (r.leaves ∙ ap (drop n) h ∙ l)))

  after_length-Advances :
      (i : In F) (base : Reader F) (p d rest : Bytes)
      → IsSound base
      → unread contents base ≡ d ++ rest
      → of_uint32 p ≡ length d
      → Advances contents i (after_length read a fuel i p base) (some d) rest
  unfolding after_length
  after_length-Advances i base p d rest g h e =
      subst⁻¹ (λ n. Advances contents i (choose n) (some d) rest) e
        (elim (Bool-cases (length d == 0)) [
          | inl z ↦
              let nil = nil_of_length d (ground (arith, z)) in
              subst⁻¹ (λ b. Advances contents i (if b then empty else full) (some d) rest) z
                (subst (λ v. Advances contents i empty (some v) rest) nil
                  (set_current-Advances i base (some []) rest g
                    (h ∙ ap (λ v. v ++ rest) (sym nil))))
          | inr z ↦
              subst⁻¹ (λ b. Advances contents i (if b then empty else full) (some d) rest) z
                (readz-Advances i base (length d) (some d) (d ++ rest) rest g h
                  (ap (λ v. whole (length d) (some v)) (take_append d rest) ∙ whole_all d)
                  (drop_append d rest))
        ])
    where
      empty : Result (Option Bytes × In F)
      empty = returned (set_current i base (some []))

      full : Result (Option Bytes × In F)
      full =
          readz read a base (length d) >>= λ r. returned (set_current i r.1 (whole (length d) r.0))

      choose : ℕ → Result (Option Bytes × In F)
      choose n =
          if n == 0
          then returned (set_current i base (some []))
          else readz read a base n >>= λ r. returned (set_current i r.1 (whole n r.0))

  read_length-Advances :
      (i : In F) (x : Option Bytes) (rest : Bytes)
      → (y : Option Bytes)
        (r : Answers contents (read_bytes read i.base 4) y (drop 4 (unread contents i.base)))
      → Advances contents i
          (elim y [
            | none ↦ returned (set_current i r.after none)
            | some p ↦ after_length read a fuel i p r.after
          ])
          x
          rest
      → Advances contents i (advance_prefix read a fuel i) x rest
  unfolding advance_prefix
  read_length-Advances i x rest y r t =
      subst
        (λ c.
          Advances contents i
            (c >>= λ r. elim r.0 [
              | none ↦ returned (set_current i r.1 none)
              | some p ↦ after_length read a fuel i p r.1
            ])
            x rest)
        (sym r.is_result) t

  pub prefix-Advances :
      (i : In F) (d rest : Bytes)
      → IsSound i.base
      → length d < 2 ^ 31
      → unread contents i.base ≡ (uint32_bytes (length d) ++ d) ++ rest
      → Advances contents i (advance_prefix read a fuel i) (some d) rest
  prefix-Advances i d rest g h u =
      let r = read_bytes-Answers contents file i.base 4 g g.sized in
      let n : exactly 4 (unread contents i.base) ≡ some (uint32_bytes (length d)) =
        ap (exactly 4) u
        ∙ sym (exactly-some 4 ((uint32_bytes (length d) ++ d) ++ rest) (omega arith)) in
      read_length-Advances i (some d) rest (exactly 4 (unread contents i.base)) r (
        subst⁻¹
          (λ y.
            Advances contents i
              (elim y [
                | none ↦ returned (set_current i r.after none)
                | some p ↦ after_length read a fuel i p r.after
              ])
              (some d) rest)
          n
          (after_length-Advances i r.after (uint32_bytes (length d)) d rest r.sound
            (r.leaves ∙ ap (drop 4) u) (of_uint32-bytes (length d) (omega (arith, h)))))

  pub prefix_end :
      (i : In F)
      → IsSound i.base
      → unread contents i.base ≡ []
      → Advances contents i (advance_prefix read a fuel i) none []
  prefix_end i g u =
      let r = read_bytes-Answers contents file i.base 4 g g.sized in
      let n : exactly 4 (unread contents i.base) ≡ none = ap (exactly 4) u in
      read_length-Advances i none [] (exactly 4 (unread contents i.base)) r (
        subst⁻¹
          (λ y.
            Advances contents i
              (elim y [
                | none ↦ returned (set_current i r.after none)
                | some p ↦ after_length read a fuel i p r.after
              ])
              none [])
          n (set_current-Advances i r.after none [] r.sound (r.leaves ∙ ap (drop 4) u)))

  pub delimited-Advances :
      (i : In F) (delim : ℕ) (x : Option Bytes) (rest : Bytes)
      → IsSound i.base
      → delim < 128
      → delim ≢ b'"'
      → length (unread contents i.base) < fuel
      → or_all i.required (unread contents i.base) (cut delim (unread contents i.base)) ≡ (x, rest)
      → Advances contents i (advance_delimited read a fuel i delim) x rest
  unfolding advance_delimited give
  delimited-Advances i delim x rest g h q l e =
      let r = call-Answers file a fuel (record_to delim i.required) i.base g (h, q) l in
      subst (λ c. Advances contents i (c >>= λ r. returned (set_current i r.1 r.0)) x rest)
        (sym r.is_result)
        (subst (λ y. Advances contents i (returned (set_current i r.after y)) x rest)
          (sym (ap (λ p. p.0) e))
          (set_current-Advances i r.after x rest r.sound (r.leaves ∙ ap (λ p. p.1) e)))
