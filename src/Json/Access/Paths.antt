-- ===== src/Json/Access/Paths.antt =====
-- Paths of ac_jsono_path one behind the other.
use another_c_library.Prelude.{
  ℕ, List, [], ◌∷◌, ◌++◌, Option, none, some, Bytes, ◌≡◌, refl, ap, ◌∙◌,
}
use another_c_library.Text.Split.{split2}
use another_c_library.Text.Split.Append.{split2-append}
use another_c_library.Json.Value.{Value}
use another_c_library.Json.Access.{path_step, path_loop, path}

-- To go on from a value, if there is one.
abbrev pub on_from : Option Value → (Value → Option Value) → Option Value
on_from none f = none
on_from (some j) f = f j

module _ (sscanf : Bytes → Option ℕ) where
  path_loop-append :
      (ps qs : List Bytes) (j : Value)
      → path_loop sscanf (ps ++ qs) j ≡ on_from (path_loop sscanf ps j) (path_loop sscanf qs)
  unfolding path_loop
  path_loop-append [] qs j = refl
  path_loop-append (p ∷ ps) qs j = go (path_step sscanf j p) (λ next. path_loop-append ps qs next)
    where
      go :
          (o : Option Value)
          → ((next : Value)
              → path_loop sscanf (ps ++ qs) next
                ≡ on_from (path_loop sscanf ps next) (path_loop sscanf qs))
          → (elim o [ none ↦ none | some next ↦ path_loop sscanf (ps ++ qs) next ])
            ≡ on_from
                (elim o [ none ↦ none | some next ↦ path_loop sscanf ps next ])
                (path_loop sscanf qs)
      go none ih = refl
      go (some next) ih = ih next

  -- A path of two parts with a point between them leads where the second part leads from where the
  -- first part leads, or nowhere.
  pub path-append :
      (j : Value) (s t : Bytes)
      → path sscanf j (s ++ (b'.' ∷ t)) ≡ on_from (path sscanf j s) (λ k. path sscanf k t)
  unfolding path
  path-append j s t =
      ap (λ ps. path_loop sscanf ps j) (split2-append b'.' s t)
      ∙ path_loop-append (split2 b'.' (some s)).pieces (split2 b'.' (some t)).pieces j
