-- ===== src/Json/Access/Follow.antt =====
-- ac_jsono_path against the steps that a path is made of.
use another_c_library.Prelude.{
  ℕ, zero, suc, ◌%◌, ◌^◌, ◌<◌, ◌≤◌, Bool, true, false, List, [], ◌∷◌, ◌++◌, map, All, Option, none,
  some, leb, ◌==◌, if◌then◌else◌, Bytes, length, get_or, Bool-cases, inl, inr, ◌≡◌, ◌≢◌, refl, sym,
  ap, ◌∙◌, arith,
}
use another_c_library.Text.Split.Laws.{join, Free, split-join, filled, split2_lem}
use another_c_library.Json.Value.{Items, Value, scalar, object, array}
use another_c_library.Json.Access.{
  nodes, pairs, array_scan, array_nth, value_of, is_value, at_equals, find_item, object_scan,
  path_step, path_loop, path,
}
use another_c_library.Json.Access.Laws.{at_key, first_of, array_scan-array_nth, object_scan-at_key}
use another_c_library.Json.Access.Paths.{on_from}

-- A part of a path: a key, a number with its digits, or a key with the value that is looked for.
pub data Step : Type 0 where
  key : Bytes → Step
  index : Bytes → ℕ → Step
  where_is : Bytes → Bytes → Step

abbrev pub text : Step → Bytes
text (key k) = k
text (index digits n) = digits
text (where_is k v) = k ++ (b'=' ∷ v)

-- The values at a key of a value that is an object.
abbrev pub found : Bytes → Option Value → List (Option Value)
found k (some (object fs)) = at_key k (pairs fs)
found k _ = []

-- The values of which the first one at the key is the text.
abbrev pub having : Bytes → Bytes → List (Option Value) → List (Option Value)
having k v [] = []
having k v (x ∷ xs) =
    let rest = having k v xs in
    if is_value (value_of (first_of (found k x))) v then x ∷ rest else rest

-- What a step leads to. In an object each part is a key.
abbrev pub take_step : Value → Step → Option Value
take_step (object fs) s = first_of (at_key (text s) (pairs fs))
take_step (array xs) (key k) = none
take_step (array xs) (index digits n) = get_or (nodes xs) n none
take_step (array xs) (where_is k v) = first_of (having k v (nodes xs))
take_step (scalar kind b) s = none

abbrev pub follow : Value → List Step → Option Value
follow j [] = some j
follow j (s ∷ ss) = on_from (take_step j s) (λ next. follow next ss)

object_scan-found : (k : Bytes) (x : Option Value) → object_scan x k ≡ first_of (found k x)
unfolding object_scan
object_scan-found k none = refl
object_scan-found k (some (scalar kind b)) = refl
object_scan-found k (some (array xs)) = refl
object_scan-found k (some (object fs)) = (object_scan-at_key fs k).0

get_or_beyond :
    {A : Type 0} (xs : List A) (n : ℕ) (d : A)
    → (if leb (length xs) n then d else get_or xs n d) ≡ get_or xs n d
get_or_beyond {A} xs n d = elim (Bool-cases (leb (length xs) n)) [
  | inl e ↦ ap (λ b. if b then d else get_or xs n d) e ∙ sym (none_there xs n (ground (arith, e)))
  | inr e ↦ ap (λ b. if b then d else get_or xs n d) e
]
  where
    none_there : (xs : List A) (n : ℕ) → length xs ≤ n → get_or xs n d ≡ d
    none_there [] n h = refl
    none_there (x ∷ xs) zero h = absurd (omega (arith, h))
    none_there (x ∷ xs) (suc n) h = none_there xs n (omega (arith, h))

without_equals : (s : Bytes) → Free b'=' s → at_equals s ≡ none
without_equals [] h = refl
without_equals (c ∷ s) h =
    let other : (c == b'=') ≡ false = ground (arith, h.0) in rw (without_equals s h.1, other) refl

at_equals-key : (k v : Bytes) → Free b'=' k → at_equals (k ++ (b'=' ∷ v)) ≡ some (k, v)
at_equals-key [] v h = refl
at_equals-key (c ∷ k) v h =
    let other : (c == b'=') ≡ false = ground (arith, h.0) in rw (at_equals-key k v h.1, other) refl

find_item-having :
    (k v : Bytes) (xs : List (Option Value)) → find_item k v xs ≡ first_of (having k v xs)
find_item-having k v [] = refl
find_item-having k v (x ∷ xs) =
    let same : object_scan x k ≡ first_of (found k x) = object_scan-found k x in
    ap (λ o. if is_value (value_of o) v then x else find_item k v xs) same
    ∙ either (is_value (value_of (first_of (found k x))) v) (having k v xs)
        (find_item-having k v xs)
  where
    either :
        (b : Bool) {r : Option Value} (rest : List (Option Value))
        → r ≡ first_of rest
        → (if b then x else r) ≡ first_of (if b then x ∷ rest else rest)
    either true rest e = refl
    either false rest e = e

array_nth-get_or : (xs : Items) (n : ℕ) → array_nth xs n ≡ get_or (nodes xs) n none
unfolding array_nth
array_nth-get_or xs n = get_or_beyond (nodes xs) n none

-- What is written in a path: parts with a point between each two of them.
abbrev pub written : List Step → Bytes
written ss = join (b'.' ∷ []) (map text ss)

abbrev pub IsPart : Bytes → Type 0
IsPart p = (p ≢ []) × Free b'.' p

parts_filled : (ps : List Bytes) → All IsPart ps → filled ps ≡ ps
parts_filled [] h = refl
parts_filled ([] ∷ ps) h = absurd (h.0.0 refl)
parts_filled ((c ∷ p) ∷ ps) h = ap (◌∷◌ (c ∷ p)) (parts_filled ps h.1)

All-Free : (ps : List Bytes) → All IsPart ps → All (Free b'.') ps
All-Free [] h = tt
All-Free (p ∷ ps) h = (h.0.1, All-Free ps h.1)

module _ (sscanf : Bytes → Option ℕ) where
  -- The part is read as what it is: only a number begins with one, and the first `=` stands behind a
  -- key. There is no point in it, and it is not empty.
  abbrev pub IsStep : Step → Type 0
  IsStep (key k) = (sscanf k ≡ none) × Free b'=' k
  IsStep (index digits n) = (sscanf digits ≡ some n) × Free b'=' digits × (n < 2 ^ 31)
  IsStep (where_is k v) = Free b'=' k

  abbrev by_number : Items → Option ℕ → Option Value
  by_number xs o = elim o [ none ↦ none | some num ↦ array_scan xs (num % 2 ^ 32) ]

  abbrev by_equals : Items → Bytes → Option (Bytes × Bytes) → Option Value
  by_equals xs part o = elim o [
    | some r ↦ find_item r.0 r.1 (nodes xs)
    | none ↦ by_number xs (sscanf part)
  ]

  path_step-take_step :
      (j : Value) (s : Step) → IsStep s → path_step sscanf j (text s) ≡ take_step j s
  unfolding path_step object_scan
  path_step-take_step (scalar kind b) s h = refl
  path_step-take_step (object fs) s h = (object_scan-at_key fs (text s)).0
  path_step-take_step (array xs) (key k) h =
      ap (by_equals xs k) (without_equals k h.1) ∙ ap (by_number xs) h.0
  path_step-take_step (array xs) (index digits n) h =
      let small : n % 2 ^ 32 ≡ n = omega (arith, h.2) in
      ap (by_equals xs digits) (without_equals digits h.1)
      ∙ ap (by_number xs) h.0
      ∙ ap (array_scan xs) small
      ∙ array_scan-array_nth xs n
      ∙ array_nth-get_or xs n
  path_step-take_step (array xs) (where_is k v) h =
      ap (by_equals xs (k ++ (b'=' ∷ v))) (at_equals-key k v h) ∙ find_item-having k v (nodes xs)

  path_loop-follow :
      (ss : List Step) (j : Value) → All IsStep ss → path_loop sscanf (map text ss) j ≡ follow j ss
  unfolding path_loop
  path_loop-follow [] j h = refl
  path_loop-follow (s ∷ ss) j h =
      ap (λ o. elim o [ none ↦ none | some next ↦ path_loop sscanf (map text ss) next ])
        (path_step-take_step j s h.0)
      ∙ go (take_step j s) (λ next. path_loop-follow ss next h.1)
    where
      go :
          (o : Option Value)
          → ((next : Value) → path_loop sscanf (map text ss) next ≡ follow next ss)
          → (elim o [ none ↦ none | some next ↦ path_loop sscanf (map text ss) next ])
            ≡ on_from o (λ next. follow next ss)
      go none ih = refl
      go (some next) ih = ih next

  -- ac_jsono_path leads where the parts of the path lead one after another: in an object each part
  -- to the first value at this key; in an array a number to the node of this index, and a key with a
  -- value to the first object that has this value at the key; from a scalar, or by a mere key in an
  -- array, nowhere. A part is not empty and has no point in it, a key has no `=` in it and does not
  -- begin with a number, and numbers are below 2^31, as sscanf reads them.
  pub path-follow :
      (s : Step) (ss : List Step) (j : Value)
      → All IsStep (s ∷ ss)
      → All IsPart (map text (s ∷ ss))
      → path sscanf j (written (s ∷ ss)) ≡ follow j (s ∷ ss)
  unfolding path
  path-follow s ss j h parts =
      ap (λ ps. path_loop sscanf ps j)
        ((split2_lem b'.' (written (s ∷ ss))).0
          ∙ ap filled (split-join b'.' (text s) (map text ss) (All-Free (map text (s ∷ ss)) parts))
          ∙ parts_filled (map text (s ∷ ss)) parts)
      ∙ path_loop-follow (s ∷ ss) j h
