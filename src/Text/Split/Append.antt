-- ===== src/Text/Split/Append.antt =====
-- ac_pool_split2 on two strings with the delimiter between them.
use another_c_library.Prelude.{
  ℕ, List, [], ◌∷◌, ◌++◌, some, ◌==◌, eq→==, Bytes, Bool-cases, inl, inr, ◌≡◌, refl, sym, ap, ap₂,
  ◌∙◌,
}
use another_c_library.Text.Split.{store_splits, split, split2}
use another_c_library.Text.Split.Laws.{filled, split2_lem}

store_splits_both :
    (delim : ℕ) (piece s t : Bytes)
    → store_splits delim piece (s ++ (delim ∷ t))
      ≡ store_splits delim piece s ++ store_splits delim [] t
unfolding store_splits
store_splits_both delim piece [] t = rw (eq→== delim delim refl) refl
store_splits_both delim piece (c ∷ s) t = elim (Bool-cases (c == delim)) [
  | inl e ↦ rw e (ap (◌∷◌ piece) (store_splits_both delim [] s t))
  | inr e ↦ rw e (store_splits_both delim (piece ++ c ∷ []) s t)
]

filled-append : (ps qs : List Bytes) → filled (ps ++ qs) ≡ filled ps ++ filled qs
filled-append [] qs = refl
filled-append ([] ∷ ps) qs = filled-append ps qs
filled-append ((c ∷ p) ∷ ps) qs = ap (◌∷◌ (c ∷ p)) (filled-append ps qs)

-- The pieces are those of the one string, and those of the other.
pub split2-append :
    (delim : ℕ) (s t : Bytes)
    → (split2 delim (some (s ++ (delim ∷ t)))).pieces
      ≡ (split2 delim (some s)).pieces ++ (split2 delim (some t)).pieces
unfolding split
split2-append delim s t =
    (split2_lem delim (s ++ (delim ∷ t))).0
    ∙ ap filled (store_splits_both delim [] s t)
    ∙ filled-append (store_splits delim [] s) (store_splits delim [] t)
    ∙ ap₂ (λ p q. p ++ q) (sym (split2_lem delim s).0) (sym (split2_lem delim t).0)
