-- ===== src/Text/Split/Laws.antt =====
-- The pieces of a split string.
use another_c_library.Prelude.{
  ℕ, zero, suc, ◌+◌, true, ◌&&◌, List, [], ◌∷◌, ◌++◌, some, ◌==◌, ◌≡◌, ◌≢◌, refl, sym, ◌∙◌, ap, ap₂,
  inl, inr, arith, Bool-cases, ==→eq, eq→==, drop, Bytes, length, All, append-nil, append_assoc,
}
use another_c_library.Text.Split.{
  count_splits, store_splits, split, compact, split2, starts, count_str, store_str, split_str,
}

-- The bytes of the pieces with the delimiter between each two of them.
pub join : Bytes → List Bytes → Bytes
join delim [] = []
join delim (p ∷ []) = p
join delim (p ∷ q ∷ ps) = p ++ (delim ++ join delim (q ∷ ps))

-- No byte of the string is the delimiter.
abbrev pub Free : ℕ → Bytes → Type 0
Free delim s = All (λ c. c ≢ delim) s

Free-concat : (delim c : ℕ) (s : Bytes) → Free delim s → c ≢ delim → Free delim (s ++ c ∷ [])
Free-concat delim c [] h k = (k, tt)
Free-concat delim c (x ∷ s) h k = (h.0, Free-concat delim c s h.1 k)

join-cons :
    (delim p : Bytes) (ps : List Bytes)
    → 0 ≢ length ps
    → join delim (p ∷ ps) ≡ p ++ (delim ++ join delim ps)
unfolding join
join-cons delim p [] h = absurd (h refl)
join-cons delim p (q ∷ ps) h = refl

length-store_splits : (delim : ℕ) (piece s : Bytes) → 0 ≢ length (store_splits delim piece s)
unfolding store_splits
length-store_splits delim piece [] = omega arith
length-store_splits delim piece (c ∷ s) = elim (Bool-cases (c == delim)) [
  | inl e ↦ rw e (omega arith)
  | inr e ↦ rw e (length-store_splits delim (piece ++ c ∷ []) s)
]

join-store_splits :
    (delim : ℕ) (piece s : Bytes) → join (delim ∷ []) (store_splits delim piece s) ≡ piece ++ s
unfolding store_splits
join-store_splits delim piece [] = unfold join in sym (append-nil piece)
join-store_splits delim piece (c ∷ s) = elim (Bool-cases (c == delim)) [
  | inl e ↦ rw e (
      join-cons (delim ∷ []) piece (store_splits delim [] s) (length-store_splits delim [] s)
      ∙ ap (λ t. piece ++ (delim ∷ t)) (join-store_splits delim [] s)
      ∙ ap (λ (t : ℕ). piece ++ (t ∷ s)) (sym (==→eq c delim e)))
  | inr e ↦ rw e (join-store_splits delim (piece ++ c ∷ []) s ∙ append_assoc piece (c ∷ []) s)
]

store_splits-Free :
    (delim : ℕ) (piece s : Bytes) → Free delim piece → All (Free delim) (store_splits delim piece s)
unfolding store_splits
store_splits-Free delim piece [] h = (h, tt)
store_splits-Free delim piece (c ∷ s) h = elim (Bool-cases (c == delim)) [
  | inl e ↦ rw e (h, store_splits-Free delim [] s tt)
  | inr e ↦
      rw e
        (store_splits-Free delim (piece ++ c ∷ []) s (Free-concat delim c piece h (ground arith)))
]

count-store :
    (delim : ℕ) (piece s : Bytes) (num : ℕ)
    → count_splits delim s (num + 1) ≡ num + length (store_splits delim piece s)
unfolding store_splits count_splits
count-store delim piece [] num = omega arith
count-store delim piece (c ∷ s) num = elim (Bool-cases (c == delim)) [
  | inl e ↦ rw e (omega (arith, count-store delim [] s (num + 1)))
  | inr e ↦ rw e (count-store delim (piece ++ c ∷ []) s num)
]

-- `ac_pool_split`: the pieces joined by the delimiter are the string, no piece holds the delimiter,
-- and their number is the one that the first pass counted and the array was allocated for.
pub split_lem :
    (delim : ℕ) (s : Bytes)
    → let r = split delim (some s) in
      (join (delim ∷ []) r.pieces ≡ s)
      × All (Free delim) r.pieces
      × (r.num_splits ≡ length r.pieces)
unfolding split
split_lem delim s = (
  join-store_splits delim [] s,
  store_splits-Free delim [] s tt,
  omega (arith, count-store delim [] s 0),
)

store_splits-append :
    (delim : ℕ) (piece p rest : Bytes)
    → Free delim p
    → store_splits delim piece (p ++ (delim ∷ rest)) ≡ (piece ++ p) ∷ store_splits delim [] rest
unfolding store_splits
store_splits-append delim piece [] rest h = rw (eq→== delim delim refl, append-nil)
store_splits-append delim piece (c ∷ p) rest h = elim (Bool-cases (c == delim)) [
  | inl e ↦ absurd (h.0 (==→eq c delim e))
  | inr e ↦ rw e (store_splits-append delim (piece ++ c ∷ []) p rest h.1 ∙ rw append_assoc)
]

store_splits_last :
    (delim : ℕ) (piece p : Bytes) → Free delim p → store_splits delim piece p ≡ (piece ++ p) ∷ []
unfolding store_splits
store_splits_last delim piece [] h = rw append-nil
store_splits_last delim piece (c ∷ p) h = elim (Bool-cases (c == delim)) [
  | inl e ↦ absurd (h.0 (==→eq c delim e))
  | inr e ↦ rw e (store_splits_last delim (piece ++ c ∷ []) p h.1 ∙ rw append_assoc)
]

-- Pieces without the delimiter that are joined by it are what `ac_pool_split` finds again.
pub split-join :
    (delim : ℕ) (p : Bytes) (ps : List Bytes)
    → All (Free delim) (p ∷ ps)
    → (split delim (some (join (delim ∷ []) (p ∷ ps)))).pieces ≡ p ∷ ps
unfolding split join
split-join delim p [] h = store_splits_last delim [] p h.0
split-join delim p (q ∷ qs) h =
    store_splits-append delim [] p (join (delim ∷ []) (q ∷ qs)) h.0
    ∙ ap (◌∷◌ p) (split-join delim q qs h.1)

-- Behind a delimiter that has been found comes the rest of the delimiter.
starts-append : (ds s : Bytes) → starts ds s ≡ true → s ≡ ds ++ drop (length ds) s
unfolding starts
starts-append [] s h = refl
starts-append (d ∷ ds) [] h = cc h
starts-append (d ∷ ds) (c ∷ s) h = elim (Bool-cases (d == c)) [
  | inl e ↦ ap₂ ◌∷◌ (sym (==→eq d c e)) (starts-append ds s (rw e at h))
  | inr e ↦ cc (rw e at h)
]

module _ (d : ℕ) (ds : Bytes) where
  length-store_str : (skip : ℕ) (piece s : Bytes) → 0 ≢ length (store_str d ds skip piece s)
  unfolding store_str
  length-store_str skip piece [] = omega arith
  length-store_str (suc skip) piece (c ∷ s) = length-store_str skip piece s
  length-store_str zero piece (c ∷ s) = elim (Bool-cases (c == d && starts ds s)) [
    | inl e ↦ rw e (omega arith)
    | inr e ↦ rw e (length-store_str 0 (piece ++ c ∷ []) s)
  ]

  join-store_str :
      (skip : ℕ) (piece s : Bytes)
      → join (d ∷ ds) (store_str d ds skip piece s) ≡ piece ++ drop skip s
  unfolding store_str
  join-store_str zero piece [] = unfold join in sym (append-nil piece)
  join-store_str (suc skip) piece [] = unfold join in sym (append-nil piece)
  join-store_str (suc skip) piece (c ∷ s) = join-store_str skip piece s
  join-store_str zero piece (c ∷ s) = elim (Bool-cases (c == d)) [
    | inl e ↦ elim (Bool-cases (starts ds s)) [
      | inl f ↦
          rw (e, f)
            (join-cons (d ∷ ds) piece (store_str d ds (length ds) [] s)
                (length-store_str (length ds) [] s)
              ∙ ap (λ t. piece ++ (d ∷ (ds ++ t))) (join-store_str (length ds) [] s)
              ∙ ap₂ (λ (x : ℕ) t. piece ++ (x ∷ t)) (sym (==→eq c d e))
                  (sym (starts-append ds s f)))
      | inr f ↦ rw (e, f) (join-store_str 0 (piece ++ c ∷ []) s ∙ append_assoc piece (c ∷ []) s)
    ]
    | inr e ↦ rw e (join-store_str 0 (piece ++ c ∷ []) s ∙ append_assoc piece (c ∷ []) s)
  ]

  count-store_str :
      (skip : ℕ) (piece s : Bytes) (num : ℕ)
      → count_str d ds skip s (num + 1) ≡ num + length (store_str d ds skip piece s)
  unfolding store_str count_str
  count-store_str skip piece [] num = omega arith
  count-store_str (suc skip) piece (c ∷ s) num = count-store_str skip piece s num
  count-store_str zero piece (c ∷ s) num = elim (Bool-cases (c == d && starts ds s)) [
    | inl e ↦ rw e (omega (arith, count-store_str (length ds) [] s (num + 1)))
    | inr e ↦ rw e (count-store_str 0 (piece ++ c ∷ []) s num)
  ]

-- `ac_pool_split_str` with a delimiter that is not empty: the pieces joined by the delimiter are
-- the string, and their number is the one that the first pass counted.
pub split_str_lem :
    (d : ℕ) (ds s : Bytes)
    → let r = split_str (d ∷ ds) (some s) in
      (join (d ∷ ds) r.pieces ≡ s) × (r.num_splits ≡ length r.pieces)
unfolding split_str
split_str_lem d [] s = let (joined, free, counted) = split_lem d s in (joined, counted)
split_str_lem d (e ∷ ds) s =
    (join-store_str d (e ∷ ds) 0 [] s, omega (arith, count-store_str d (e ∷ ds) 0 [] s 0))

-- The strings of a list that are not empty.
abbrev pub filled : List Bytes → List Bytes
filled [] = []
filled ([] ∷ ps) = filled ps
filled ((c ∷ p) ∷ ps) = (c ∷ p) ∷ filled ps

compact-filled : (ps : List Bytes) → compact (length ps) ps ≡ filled ps
unfolding compact
compact-filled [] = refl
compact-filled ([] ∷ ps) = compact-filled ps
compact-filled ((c ∷ p) ∷ ps) = ap (◌∷◌ (c ∷ p)) (compact-filled ps)

-- `ac_pool_split2` gives the pieces of `ac_pool_split` that are not empty, and their number.
pub split2_lem :
    (delim : ℕ) (s : Bytes)
    → let r = split2 delim (some s) in
      (r.pieces ≡ filled (split delim (some s)).pieces) × (r.num_splits ≡ length r.pieces)
unfolding split2
split2_lem delim s =
    let counted : count_splits delim s 1 ≡ length (store_splits delim [] s) =
      omega (arith, count-store delim [] s 0) in
    (rw counted (compact-filled (store_splits delim [] s)), refl)
