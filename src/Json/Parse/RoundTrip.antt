-- ===== src/Json/Parse/RoundTrip.antt =====
-- What has the text of a value is parsed as that value.
use another_c_library.Prelude.{
  ℕ, suc, ◌+◌, true, false, [], ◌∷◌, ◌++◌, append_assoc, none, some, ◌==◌, Bytes, length,
  length-append, ◌≡◌, refl, ap, ap₂, ◌∙◌, arith,
}
use another_c_library.Json.Value.{
  Kind, Value, scalar, object, array, Fields, no_fields, field, empty_field, Items, no_items, item,
  empty_item,
}
use another_c_library.Json.Text.{
  text_scalar, text, text_fields, text_items, IsScalar, IsPlain, PlainFields, PlainItems,
}
use another_c_library.Json.Parse.Scan.{is_digit}
use another_c_library.Json.Parse.Words.{scalar-Reads}
use another_c_library.Json.Parse.Ends.{parse-ends}
use another_c_library.Json.Parse.Runs.{Runs, last, before, run-Runs, step-start_value, step-alone}
use another_c_library.Json.Parse.{start_value, State, End, parsed, go, stop, at, run, start, parse}
use another_c_library.Json.Parse.Containers.{
  ValueRuns, FieldsRun, ItemsRun, scalar-ValueRuns, ObjectRuns, ArrayRuns, field-ObjectRuns,
  item-ArrayRuns, field-FieldsRun, item-ItemsRun, object-ValueRuns, array-ValueRuns, none-FieldsRun,
  none-ItemsRun,
}

mutual
  value_runs : (v : Value) → IsPlain v → ValueRuns v
  value_runs (scalar kind s) h = scalar-ValueRuns kind s h
  value_runs (object fs) h = object-ValueRuns fs (fields_run fs h).1
  value_runs (array xs) h = array-ValueRuns xs (items_run xs h).1

  fields_run : (fs : Fields) → PlainFields fs → FieldsRun fs × ObjectRuns fs
  fields_run no_fields h = none-FieldsRun
  fields_run (empty_field k fs) h = absurd h
  fields_run (field k v fs) h =
      let value = value_runs v h.1 in
      let others = (fields_run fs h.2).0 in
      (field-FieldsRun k v fs h value others, field-ObjectRuns k v fs h value others)

  items_run : (xs : Items) → PlainItems xs → ItemsRun xs × ArrayRuns xs
  items_run no_items h = none-ItemsRun
  items_run (empty_item xs) h = absurd h
  items_run (item v xs) h =
      let value = value_runs v h.0 in
      let others = (items_run xs h.1).0 in
      (item-ItemsRun v xs h value others, item-ArrayRuns v xs h value others)

parse-Runs :
    {e : End} {s : State} (len : ℕ) (mem : Bytes)
    → start len mem ≡ go s
    → Runs (stop e) s
    → parse len mem ≡ some e
unfolding parse
parse-Runs {e} {s} len mem h r =
    let begins : parse len mem ≡ run (suc (length mem)) s =
      ap (λ n. elim n [ stop e ↦ some e | go t ↦ run (suc (length mem)) t ]) h in
    begins ∙ run-Runs (suc (length mem)) s r (λ z. parse-ends len mem (begins ∙ z))

parse-object :
    (fs : Fields)
    → PlainFields fs
    → (m : ℕ) (rest : Bytes)
    → parse (length (text (object fs)) + m) (text (object fs) ++ rest) ≡ some (parsed (object fs))
unfolding text
parse-object fs h m rest =
    let inner = text_fields true fs in
    ap₂ parse (omega (arith, length-append {0} inner (b'}' ∷ [])))
      (ap (◌∷◌ b'{') (append_assoc inner (b'}' ∷ []) rest))
    ∙ parse-Runs (suc (length inner + suc m)) (b'{' ∷ (inner ++ (b'}' ∷ rest))) refl
        ((fields_run fs h).1 [] m rest)

parse-array :
    (xs : Items)
    → PlainItems xs
    → (m : ℕ) (rest : Bytes)
    → parse (length (text (array xs)) + m) (text (array xs) ++ rest) ≡ some (parsed (array xs))
unfolding text
parse-array xs h m rest =
    let inner = text_items true xs in
    let left = length inner + suc m in
    let mem = inner ++ (b']' ∷ rest) in
    ap₂ parse (omega (arith, length-append {0} inner (b']' ∷ [])))
      (ap (◌∷◌ b'[') (append_assoc inner (b']' ∷ []) rest))
    ∙ parse-Runs (suc left) (b'[' ∷ mem) refl
        (before (step-start_value [] left mem) ((items_run xs h).1 [] m rest))

parse-scalar :
    (kind : Kind) (s : Bytes)
    → IsScalar kind s
    → (n d : ℕ) (rest : Bytes) → is_digit d ≡ false
    → (d == b'.') ≡ false
    → parse (length (text_scalar kind s) + suc n) (text_scalar kind s ++ (d ∷ rest))
      ≡ some (parsed (scalar kind s))
parse-scalar kind s h n d rest e f =
    let r = scalar-Reads false kind s h in
    let left = length r.others + suc n in
    let mem = r.others ++ (d ∷ rest) in
    let begins : start (suc left) (r.first ∷ mem)
        ≡ go (at (start_value none) [] (suc left) (r.first ∷ mem)) =
      rw r.not_brace refl in
    let size : length (text_scalar kind s) + suc n ≡ suc left = rw r.shape (omega arith) in
    ap₂ (λ l t. parse l (t ++ (d ∷ rest))) size r.shape
    ∙ parse-Runs (suc left) (r.first ∷ mem) begins
        (last (step-alone [] kind s (text_scalar kind s) r n d rest e f))

-- The text of any value that has no empty node is parsed as that value, whatever stands behind it
-- in the text, if it is not a digit or a point.
pub parse-text :
    (v : Value)
    → IsPlain v
    → (n d : ℕ) (rest : Bytes) → is_digit d ≡ false
    → (d == b'.') ≡ false
    → parse (length (text v) + suc n) (text v ++ (d ∷ rest)) ≡ some (parsed v)
unfolding text
parse-text (scalar kind s) h n d rest e f = parse-scalar kind s h n d rest e f
parse-text (object fs) h n d rest e f = parse-object fs h (suc n) (d ∷ rest)
parse-text (array xs) h n d rest e f = parse-array xs h (suc n) (d ∷ rest)

abbrev pub IsContainer : Value → Type 0
IsContainer (scalar kind s) = ⊥
IsContainer (object fs) = Unit
IsContainer (array xs) = Unit

-- The text of an object or an array with no empty node is parsed as that value, whatever stands
-- behind it, within the text or beyond it.
pub parse-container :
    (v : Value)
    → IsPlain v
    → IsContainer v
    → (m : ℕ) (rest : Bytes) → parse (length (text v) + m) (text v ++ rest) ≡ some (parsed v)
unfolding text
parse-container (scalar kind s) h c m rest = absurd c
parse-container (object fs) h c m rest = parse-object fs h m rest
parse-container (array xs) h c m rest = parse-array xs h m rest
