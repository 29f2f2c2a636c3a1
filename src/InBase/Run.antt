-- ===== src/InBase/Run.antt =====
-- A sequence of calls on a file: ac_in_base_readz and ac_in_base_read_delimited.
use another_c_library.Prelude.{
  ℕ, suc, ◌+◌, ◌≤◌, ◌<◌, ◌≡◌, ◌≢◌, refl, sym, ap, ap₂, ◌∙◌, arith, Bool, Option, none, some, List,
  [], ◌∷◌, if◌then◌else◌, ltb, ◌==◌, Bool-cases, inl, inr, Bytes, length, take, drop, length-drop,
  All,
}
use mathlib.Core.Path.{subst⁻¹}
use another_c_library.Buffer.{Allocator}
use another_c_library.InBase.{
  Reader, Result, returned, ◌>>=◌, readz, read_delimited, init, start, fill_blocks,
}
use another_c_library.InBase.State.{IsFile, IsSound, unread}
use another_c_library.InBase.Fill.{fill_blocks-Filled}
use another_c_library.InBase.Move.{Answers, unread-none}
use another_c_library.InBase.Fixed.{readz-Answers, Answers-same}
use another_c_library.InBase.Scan.{
  plain, plain-nil, plain-stop, plain-go, plain-shift, shift, stops,
}
use another_c_library.InBase.Delimited.{record_at, rest_at}
use another_c_library.InBase.Records.{read_delimited-Reads}

pub data Op : Type 0 where
  bytes : ℕ → Op
  record_to : ℕ → Bool → Op

-- The text in front of the first delimiter, and the text behind it.
unfoldable pub cut : ℕ → Bytes → Option (Bytes × Bytes)
cut delim [] = none
cut delim (c ∷ cs) =
    if c == delim
    then some ([], cs)
    else elim (cut delim cs) [ none ↦ none | some p ↦ some (c ∷ p.0, p.1) ]

abbrev pub or_all : Bool → Bytes → Option (Bytes × Bytes) → Option Bytes × Bytes
or_all required u (some p) = (some p.0, p.1)
or_all required u none = (if required then none else some u, [])

-- What a call gives of the text that is to come, and the text behind it.
unfoldable pub give : Op → Bytes → Option Bytes × Bytes
unfolding cut
give (bytes len) u = (some (take len u), drop len u)
give (record_to delim required) u = or_all required u (cut delim u)

pub give_all : List Op → Bytes → List (Option Bytes)
unfolding give
give_all [] u = []
give_all (op ∷ ops) u = (give op u).0 ∷ give_all ops (give op u).1

-- A quote and a byte from 128 on are not found as delimiters.
abbrev pub IsDelimiter : Op → Type 0
IsDelimiter (bytes len) = Unit
IsDelimiter (record_to delim required) = (delim < 128) × (delim ≢ b'"')

module _ {F : Type 0} (read : F → ℕ → Option Bytes × F) (a : Allocator) (fuel : ℕ) where
  abbrev pub call : Op → Reader F → Result (Option Bytes × Reader F)
  call (bytes len) r = readz read a r len
  call (record_to delim required) r = read_delimited read fuel r delim required

  unfoldable pub run : List Op → Reader F → Result (List (Option Bytes))
  run [] r = returned []
  run (op ∷ ops) r = call op r >>= λ p. run ops p.1 >>= λ xs. returned (p.0 ∷ xs)

-- The index of the delimiter, and the text that it cuts off.
abbrev at : Bytes → Option ℕ → Option (Bytes × Bytes)
at u none = none
at u (some n) = some (take n u, drop (n + 1) u)

at-cons :
    (c : ℕ) (cs : Bytes) (s : Option ℕ)
    → at (c ∷ cs) (shift 1 s) ≡ elim (at cs s) [ none ↦ none | some p ↦ some (c ∷ p.0, p.1) ]
at-cons c cs none = refl
at-cons c cs (some n) =
    let e : 1 + n ≡ suc n = omega arith in
    let e' : 1 + n + 1 ≡ suc (n + 1) = omega arith in
    ap₂ (λ i j. some (take i (c ∷ cs), drop j (c ∷ cs))) e e'

stops-eq : (delim c : ℕ) → delim < 128 → delim ≢ b'"' → stops delim c ≡ (c == delim)
stops-eq delim c h q = ground (arith, q)

cut-at : (delim : ℕ) (u : Bytes) → delim < 128 → delim ≢ b'"' → cut delim u ≡ at u (plain delim u 0)
unfolding cut
cut-at delim [] h q = ap (at []) (sym (plain-nil delim 0))
cut-at delim (c ∷ cs) h q = elim (Bool-cases (c == delim)) [
  | inl e ↦ rw e (ap (at (c ∷ cs)) (sym (plain-stop delim c cs 0 (stops-eq delim c h q ∙ e))))
  | inr e ↦
      rw (e, cut-at delim cs h q)
        (sym (at-cons c cs (plain delim cs 0))
          ∙ ap (at (c ∷ cs)) (sym (plain-shift delim cs 1 0))
          ∙ ap (at (c ∷ cs)) (sym (plain-go delim c cs 0 (stops-eq delim c h q ∙ e))))
]

record-at :
    (required : Bool) (u : Bytes) (s : Option ℕ)
    → ((record_at required s u, rest_at s u)) ≡ or_all required u (at u s)
record-at required u none = refl
record-at required u (some n) = refl

length-at :
    (u : Bytes) (required : Bool) (s : Option ℕ) → length (or_all required u (at u s)).1 ≤ length u
length-at u required none = omega arith
length-at u required (some n) = omega (arith, length-drop (n + 1) u)

module _ {F : Type 0} {read : F → ℕ → Option Bytes × F} {contents : F → Bytes}
    (file : IsFile read contents) where
  module _ (a : Allocator) (fuel : ℕ) where
    pub call-Answers :
        (op : Op) (r : Reader F)
        → IsSound r
        → IsDelimiter op
        → length (unread contents r) < fuel
        → Answers contents
            (call read a fuel op r)
            (give op (unread contents r)).0
            (give op (unread contents r)).1
    unfolding give
    call-Answers (bytes len) r g d l = readz-Answers file a r len g
    call-Answers (record_to delim required) r g d l =
        let u = unread contents r in
        let e =
          record-at required u (plain delim u 0)
          ∙ ap (or_all required u) (sym (cut-at delim u d.0 d.1)) in
        Answers-same (ap (λ p. p.0) e) (ap (λ p. p.1) e)
          (read_delimited-Reads file fuel r delim required g (omega (arith, d.0)) l)

    give-shorter : (op : Op) (u : Bytes) → IsDelimiter op → length (give op u).1 ≤ length u
    unfolding give
    give-shorter (bytes len) u d = omega (arith, length-drop len u)
    give-shorter (record_to delim required) u d =
        subst⁻¹ (λ s. length (or_all required u s).1 ≤ length u) (cut-at delim u d.0 d.1)
          (length-at u required (plain delim u 0))

    -- Any sequence of calls gives what it gives of the text that is to come.
    pub run-give_all :
        (ops : List Op) (r : Reader F)
        → IsSound r
        → All IsDelimiter ops
        → length (unread contents r) < fuel
        → run read a fuel ops r ≡ returned (give_all ops (unread contents r))
    unfolding run give_all
    run-give_all [] r g d l = refl
    run-give_all (op ∷ ops) r g d l =
        let c = call-Answers op r g d.0 l in
        let u = unread contents r in
        let rest : run read a fuel ops c.after ≡ returned (give_all ops (give op u).1) =
          run-give_all ops c.after c.sound d.1
            (omega (arith, ap length c.leaves, give-shorter op u d.0, l))
          ∙ ap (λ v. returned (give_all ops v)) c.leaves in
        ap (λ x. x >>= λ p. run read a fuel ops p.1 >>= λ xs. returned (p.0 ∷ xs)) c.is_result
        ∙ ap (λ x. x >>= λ xs. returned ((give op u).0 ∷ xs)) rest

  start-IsSound :
      (f : F) (m : Bytes) (n : ℕ) → length m ≡ n + 1 → 4 ≤ n → IsSound (start read (some f) m n)
  start-IsSound f m n e h = ground arith

  -- A file that is opened is to be read from its begin on.
  pub init-to_come :
      (a : Allocator) (least : ℕ) (f : F) (buffer_size : ℕ)
      → 4 ≤ least
      → (r : Reader F) × (init read a least (some f) buffer_size ≡ some r)
        × IsSound r
        × (unread contents r ≡ contents f)
  unfolding init
  init-to_come a least f buffer_size h =
      let g = start-IsSound f (a.fresh (n + 1)) n (a.length-fresh (n + 1)) pos_n in
      let x = fill_blocks-Filled file (start read (some f) (a.fresh (n + 1)) n) g refl in
      (
        fill_blocks read (start read (some f) (a.fresh (n + 1)) n),
        refl,
        x.sound,
        unread-none contents (fill_blocks read (start read (some f) (a.fresh (n + 1)) n))
              x.same_zerop
            ∙ x.comes,
      )
    where
      n : ℕ
      n = if ltb buffer_size least then least else buffer_size

      pos_n : 4 ≤ n
      pos_n = ground arith

  -- For a file that is opened with a block of any size, each sequence of calls, for so many bytes or for
  -- a record up to a delimiter, gives what the same sequence gives of the contents of the file. The
  -- delimiters are below 128 and no quotes, and the fuel is more than the length of the contents.
  pub init-run :
      (a : Allocator) (least : ℕ) (f : F) (buffer_size fuel : ℕ) (ops : List Op)
      → 4 ≤ least
      → All IsDelimiter ops
      → length (contents f) < fuel
      → (r : Reader F) × (init read a least (some f) buffer_size ≡ some r)
        × (run read a fuel ops r ≡ returned (give_all ops (contents f)))
  init-run a least f buffer_size fuel ops h d l =
      let (r, opened, g, u) = init-to_come a least f buffer_size h in
      (
        r,
        opened,
        run-give_all a fuel ops r g d (omega (arith, ap length u, l))
            ∙ ap (λ v. returned (give_all ops v)) u,
      )
