-- ===== src/Json/Access/Laws.antt =====
-- What is found in arrays and objects.
use another_c_library.Prelude.{
  ℕ, zero, suc, ◌-◌, ◌*◌, ◌<◌, Bool, true, false, List, [], ◌∷◌, ◌++◌, append-nil, Option, none,
  some, leb, ltb, if◌then◌else◌, Bytes, length, length-append, get_or, get_or_left, get_or_append,
  Bool-cases, inl, inr, ◌≡◌, refl, ap, ◌∙◌, arith,
}
use another_c_library.Json.Value.{c_string, Value, object, Fields, Items}
use another_c_library.Json.Access.{
  nodes, pairs, backwards, array_scan, array_nth, same, scan_pairs, object_scan, object_scanr,
}

length-backwards : {A : Type 0} (xs : List A) → length (backwards xs) ≡ length xs
length-backwards [] = refl
length-backwards (x ∷ xs) =
    omega (arith, length-append {0} (backwards xs) (x ∷ []), length-backwards xs)

get_or-backwards :
    {A : Type 0} (xs : List A) (i : ℕ) (d : A)
    → i < length xs
    → get_or (backwards xs) (length xs - i - 1) d ≡ get_or xs i d
get_or-backwards [] i d h = absurd (omega arith)
get_or-backwards (x ∷ xs) zero d h =
    ap (λ k. get_or (backwards xs ++ (x ∷ [])) k d) (omega (arith, length-backwards xs))
    ∙ get_or_append {0} (backwards xs) (x ∷ []) d
get_or-backwards (x ∷ xs) (suc i) d h =
    let k : suc (length xs) - suc i - 1 ≡ length xs - i - 1 = omega arith in
    ap (λ k. get_or (backwards xs ++ (x ∷ [])) k d) k
    ∙ get_or_left {0} (backwards xs) (x ∷ []) (length xs - i - 1) d
        (omega (arith, length-backwards xs))
    ∙ get_or-backwards xs i d (omega arith)

-- From whichever end `ac_jsona_scan` goes, it gives what `ac_jsona_nth` finds in its array.
pub array_scan-array_nth : (xs : Items) (nth : ℕ) → array_scan xs nth ≡ array_nth xs nth
unfolding array_scan array_nth
array_scan-array_nth xs nth = elim (Bool-cases (leb (length (nodes xs)) nth)) [
  | inl e ↦ rw e refl
  | inr e ↦
      let inside : nth < length (nodes xs) = ground (arith, e) in
      rw e
        (either (ltb (length (nodes xs)) (nth * 2)) (get_or-backwards (nodes xs) nth none inside))
]
  where
    either : {A : Type 0} (b : Bool) {x y : A} → x ≡ y → (if b then x else y) ≡ y
    either true e = e
    either false e = refl

-- The values that stand at a key, in order.
abbrev pub at_key : Bytes → List (Bytes × Option Value) → List (Option Value)
at_key key [] = []
at_key key (r ∷ rs) =
    let on = at_key key rs in if same (c_string r.0) (c_string key) then r.1 ∷ on else on

abbrev pub first_of : List (Option Value) → Option Value
first_of [] = none
first_of (v ∷ vs) = v

abbrev pub last_of : List (Option Value) → Option Value
last_of vs = first_of (backwards vs)

scan_pairs-at_key :
    (key : Bytes) (rs : List (Bytes × Option Value)) → scan_pairs key rs ≡ first_of (at_key key rs)
scan_pairs-at_key key [] = refl
scan_pairs-at_key key (r ∷ rs) = elim (Bool-cases (same (c_string r.0) (c_string key))) [
  | inl e ↦ rw e refl
  | inr e ↦ rw e (scan_pairs-at_key key rs)
]

at_key-append :
    (key : Bytes) (rs ss : List (Bytes × Option Value))
    → at_key key (rs ++ ss) ≡ at_key key rs ++ at_key key ss
at_key-append key [] ss = refl
at_key-append key (r ∷ rs) ss = elim (Bool-cases (same (c_string r.0) (c_string key))) [
  | inl e ↦ rw e (ap (◌∷◌ r.1) (at_key-append key rs ss))
  | inr e ↦ rw e (at_key-append key rs ss)
]

at_key-backwards :
    (key : Bytes) (rs : List (Bytes × Option Value))
    → at_key key (backwards rs) ≡ backwards (at_key key rs)
at_key-backwards key [] = refl
at_key-backwards key (r ∷ rs) =
    at_key-append key (backwards rs) (r ∷ [])
    ∙ (elim (Bool-cases (same (c_string r.0) (c_string key))) [
      | inl e ↦ rw e (ap (λ s. s ++ (r.1 ∷ [])) (at_key-backwards key rs))
      | inr e ↦ rw e (append-nil (at_key key (backwards rs)) ∙ at_key-backwards key rs)
    ])

-- Of the values at a key, `ac_jsono_scan` gives the first and `ac_jsono_scanr` the last.
pub object_scan-at_key :
    (fs : Fields) (key : Bytes)
    → (object_scan (some (object fs)) key ≡ first_of (at_key key (pairs fs)))
      × (object_scanr (some (object fs)) key ≡ last_of (at_key key (pairs fs)))
unfolding object_scan object_scanr
object_scan-at_key fs key = (
  scan_pairs-at_key key (pairs fs),
  scan_pairs-at_key key (backwards (pairs fs)) ∙ ap first_of (at_key-backwards key (pairs fs)),
)
