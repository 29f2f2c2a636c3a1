-- ===== src/Json/Parse/Containers.antt =====
-- Values, fields and items are read in the rounds of ac_json_parse, in front of what ends them.
use another_c_library.Prelude.{
  ℕ, suc, ◌+◌, true, false, List, [], ◌∷◌, ◌++◌, append_assoc, some, ◌==◌, Bytes, length,
  length-append, ◌≡◌, refl, sym, ap, ◌∙◌, arith,
}
use mathlib.Core.Path.{subst}
use another_c_library.Json.Value.{
  Kind, Value, scalar, object, array, Fields, no_fields, field, empty_field, append_field, Items,
  no_items, item, empty_item, append_item,
}
use another_c_library.Json.Text.{
  text_scalar, text, text_fields, text_items, Closed, IsPlain, PlainFields, PlainItems,
}
use another_c_library.Json.Parse.Scan.{is_digit}
use another_c_library.Json.Parse.Words.{scalar-Reads}
use another_c_library.Json.Parse.Runs.{
  Runs, last, before, then-Runs, from-Runs, to-Runs, Place, behind_key, in_array, open_mode,
  done_mode, frame, keyed, close-frame, step-brace, step-bracket, step-next_key, step-next_item,
  step-close_object, step-close_array, step-no_fields, step-no_items, step-key, step-scalar,
}
use another_c_library.Json.Parse.{
  Frame, start_key, look_for_key, start_value, look_for_next_object, go, at, close, step,
}

-- A byte that no number goes on with stands first.
pub record Stops (s : Bytes) : Type 0 where
  pub first : ℕ
  pub others : Bytes
  pub shape : s ≡ first ∷ others
  no_digit : is_digit first ≡ false
  no_point : (first == b'.') ≡ false

stops : (d : ℕ) (rest : Bytes) → is_digit d ≡ false → (d == b'.') ≡ false → Stops (d ∷ rest)
stops d rest h i = record { first = d; others = rest; shape = refl; no_digit = h; no_point = i }

-- All the fields of one object behind those of another.
abbrev pub add_fields : Fields → Fields → Fields
add_fields acc no_fields = acc
add_fields acc (field k v fs) = add_fields (append_field acc k v) fs
add_fields acc (empty_field k fs) = add_fields acc fs

abbrev pub add_items : Items → Items → Items
add_items acc no_items = acc
add_items acc (item v xs) = add_items (append_item acc v) xs
add_items acc (empty_item xs) = add_items acc xs

-- A value that is read where a value can stand.
abbrev pub ValueRuns : Value → Type 0
ValueRuns v =
    (p : Place) (parents : List Frame) (n : ℕ) (s : Bytes)
    → Stops s
    → Runs (go (at (done_mode p v) parents (suc n) s))
        (at (open_mode p) parents (length (text v) + suc n) (text v ++ s))

-- The rest of an object, up to its brace, and the rest of an array.
abbrev pub FieldsRun : Fields → Type 0
FieldsRun fs =
    (acc : Fields) (parents : List Frame) (m : ℕ) (rest : Bytes)
    → Runs (close (object (add_fields acc fs)) parents m rest) (
        at (look_for_key acc) parents (length (text_fields false fs) + suc m)
          (text_fields false fs ++ (b'}' ∷ rest)))

abbrev pub ItemsRun : Items → Type 0
ItemsRun xs =
    (acc : Items) (parents : List Frame) (m : ℕ) (rest : Bytes)
    → Runs (close (array (add_items acc xs)) parents m rest) (
        at (look_for_next_object acc) parents (length (text_items false xs) + suc m)
          (text_items false xs ++ (b']' ∷ rest)))

pub scalar-ValueRuns :
    (kind : Kind) (s : Bytes) → IsPlain (scalar kind s) → ValueRuns (scalar kind s)
unfolding text
scalar-ValueRuns kind s h p parents n t z =
    let reads =
      step-scalar parents p kind s (text_scalar kind s) (scalar-Reads (keyed p) kind s h) n z.first
        z.others z.no_digit z.no_point in
    last (
      subst
        (λ u.
          step (
            at (open_mode p) parents (length (text_scalar kind s) + suc n)
              (text_scalar kind s ++ u))
          ≡ go (at (done_mode p (scalar kind s)) parents (suc n) u))
        (sym z.shape) reads)

Stops-fields :
    (fs : Fields) (rest : Bytes) → PlainFields fs → Stops (text_fields false fs ++ (b'}' ∷ rest))
unfolding text
Stops-fields no_fields rest h = stops b'}' rest refl refl
Stops-fields (field k v fs) rest h = stops b',' _ refl refl
Stops-fields (empty_field k fs) rest h = absurd h

Stops-items :
    (xs : Items) (rest : Bytes) → PlainItems xs → Stops (text_items false xs ++ (b']' ∷ rest))
unfolding text
Stops-items no_items rest h = stops b']' rest refl refl
Stops-items (item v xs) rest h = stops b',' _ refl refl
Stops-items (empty_item xs) rest h = absurd h

module _ (parents : List Frame) (m : ℕ) (rest : Bytes) where
  -- A field from its key on, and the rest of the object.
  field-Runs :
      (k : Bytes) (v : Value) (fs : Fields)
      → Closed k
      → PlainFields fs
      → ValueRuns v
      → FieldsRun fs
      → (acc : Fields)
      → Runs (close (object (add_fields (append_field acc k v) fs)) parents m rest) (
          at
            (start_key acc)
            parents
            (length (text_fields true (field k v fs)) + suc m)
            (text_fields true (field k v fs) ++ (b'}' ∷ rest)))
  unfolding text
  field-Runs k v fs hk hf value others acc =
      let more = text_fields false fs in
      let n = length (text v) + suc (length more + m) in
      from-Runs
        (omega (
          arith,
          length-append {0} k (b'"' ∷ b':' ∷ (text v ++ more)),
          length-append {0} (text v) more,
        ))
        (ap (◌∷◌ b'"') (
          append_assoc k (b'"' ∷ b':' ∷ (text v ++ more)) (b'}' ∷ rest)
          ∙ ap (λ s. k ++ (b'"' ∷ b':' ∷ s)) (append_assoc (text v) more (b'}' ∷ rest))))
        (before (step-key parents acc k n (text v ++ (more ++ (b'}' ∷ rest))) hk) (
          then-Runs
            (value (behind_key acc k) parents (length more + m) (more ++ (b'}' ∷ rest))
              (Stops-fields fs rest hf))
            (from-Runs (omega arith) refl (others (append_field acc k v) parents m rest))))

  item-Runs :
      (v : Value) (xs : Items)
      → PlainItems xs
      → ValueRuns v
      → ItemsRun xs
      → (acc : Items)
      → Runs (close (array (add_items (append_item acc v) xs)) parents m rest) (
          at
            (start_value (some acc))
            parents
            (length (text_items true (item v xs)) + suc m)
            (text_items true (item v xs) ++ (b']' ∷ rest)))
  unfolding text
  item-Runs v xs hx value others acc =
      let more = text_items false xs in
      from-Runs (omega (arith, length-append {0} (text v) more))
        (append_assoc (text v) more (b']' ∷ rest))
        (then-Runs
          (value (in_array acc) parents (length more + m) (more ++ (b']' ∷ rest))
            (Stops-items xs rest hx))
          (from-Runs (omega arith) refl (others (append_item acc v) parents m rest)))

add_fields-field :
    (j : Bytes) (w : Value) (acc fs : Fields)
    → add_fields (field j w acc) fs ≡ field j w (add_fields acc fs)
add_fields-field j w acc no_fields = refl
add_fields-field j w acc (field k v fs) = add_fields-field j w (append_field acc k v) fs
add_fields-field j w acc (empty_field k fs) = add_fields-field j w acc fs

add_fields-PlainFields : (fs : Fields) → PlainFields fs → add_fields no_fields fs ≡ fs
add_fields-PlainFields no_fields h = refl
add_fields-PlainFields (field k v fs) h =
    add_fields-field k v no_fields fs ∙ ap (field k v) (add_fields-PlainFields fs h.2)
add_fields-PlainFields (empty_field k fs) h = absurd h

add_items-item :
    (w : Value) (acc xs : Items) → add_items (item w acc) xs ≡ item w (add_items acc xs)
add_items-item w acc no_items = refl
add_items-item w acc (item v xs) = add_items-item w (append_item acc v) xs
add_items-item w acc (empty_item xs) = add_items-item w acc xs

add_items-PlainItems : (xs : Items) → PlainItems xs → add_items no_items xs ≡ xs
add_items-PlainItems no_items h = refl
add_items-PlainItems (item v xs) h =
    add_items-item v no_items xs ∙ ap (item v) (add_items-PlainItems xs h.1)
add_items-PlainItems (empty_item xs) h = absurd h

-- An object behind its brace, and an array behind its bracket.
abbrev pub ObjectRuns : Fields → Type 0
ObjectRuns fs =
    (parents : List Frame) (m : ℕ) (rest : Bytes)
    → Runs (close (object fs) parents m rest) (
        at (start_key no_fields) parents (length (text_fields true fs) + suc m)
          (text_fields true fs ++ (b'}' ∷ rest)))

abbrev pub ArrayRuns : Items → Type 0
ArrayRuns xs =
    (parents : List Frame) (m : ℕ) (rest : Bytes)
    → Runs (close (array xs) parents m rest) (
        at (start_value (some no_items)) parents (length (text_items true xs) + suc m)
          (text_items true xs ++ (b']' ∷ rest)))

pub field-ObjectRuns :
    (k : Bytes) (v : Value) (fs : Fields)
    → PlainFields (field k v fs)
    → ValueRuns v
    → FieldsRun fs
    → ObjectRuns (field k v fs)
field-ObjectRuns k v fs h value others parents m rest =
    to-Runs (ap (λ o. close (object o) parents m rest) (add_fields-PlainFields (field k v fs) h))
      (field-Runs parents m rest k v fs h.0.0 h.2 value others no_fields)

pub item-ArrayRuns :
    (v : Value) (xs : Items)
    → PlainItems (item v xs)
    → ValueRuns v
    → ItemsRun xs
    → ArrayRuns (item v xs)
item-ArrayRuns v xs h value others parents m rest =
    to-Runs (ap (λ o. close (array o) parents m rest) (add_items-PlainItems (item v xs) h))
      (item-Runs parents m rest v xs h.1 value others no_items)

-- Behind a comma.
pub field-FieldsRun :
    (k : Bytes) (v : Value) (fs : Fields)
    → PlainFields (field k v fs)
    → ValueRuns v
    → FieldsRun fs
    → FieldsRun (field k v fs)
unfolding text
field-FieldsRun k v fs h value others acc parents m rest = from-Runs (omega arith) refl (
    before (step-next_key parents acc _ _)
      (field-Runs parents m rest k v fs h.0.0 h.2 value others acc))

pub item-ItemsRun :
    (v : Value) (xs : Items)
    → PlainItems (item v xs)
    → ValueRuns v
    → ItemsRun xs
    → ItemsRun (item v xs)
unfolding text
item-ItemsRun v xs h value others acc parents m rest =
    from-Runs (omega arith) refl
      (before (step-next_item parents acc _ _) (item-Runs parents m rest v xs h.1 value others acc))

pub object-ValueRuns : (fs : Fields) → ObjectRuns fs → ValueRuns (object fs)
unfolding text
object-ValueRuns fs inner p parents n s z =
    from-Runs (omega (arith, length-append {0} (text_fields true fs) (b'}' ∷ [])))
      (ap (◌∷◌ b'{') (append_assoc (text_fields true fs) (b'}' ∷ []) s))
      (before
        (step-brace parents p (length (text_fields true fs) + suc (suc n))
          (text_fields true fs ++ (b'}' ∷ s)))
        (to-Runs (close-frame parents p (object fs) (suc n) s)
          (inner (frame p ∷ parents) (suc n) s)))

pub array-ValueRuns : (xs : Items) → ArrayRuns xs → ValueRuns (array xs)
unfolding text
array-ValueRuns xs inner p parents n s z =
    from-Runs (omega (arith, length-append {0} (text_items true xs) (b']' ∷ [])))
      (ap (◌∷◌ b'[') (append_assoc (text_items true xs) (b']' ∷ []) s))
      (before
        (step-bracket parents p (length (text_items true xs) + suc (suc n))
          (text_items true xs ++ (b']' ∷ s)))
        (to-Runs (close-frame parents p (array xs) (suc n) s)
          (inner (frame p ∷ parents) (suc n) s)))

pub none-FieldsRun : FieldsRun no_fields × ObjectRuns no_fields
unfolding text
none-FieldsRun = (
  (λ acc parents m rest.
      from-Runs (omega arith) refl (last (step-close_object parents acc m rest))),
  (λ parents m rest. from-Runs (omega arith) refl (last (step-no_fields parents m rest))),
)

pub none-ItemsRun : ItemsRun no_items × ArrayRuns no_items
unfolding text
none-ItemsRun = (
  (λ acc parents m rest. from-Runs (omega arith) refl (last (step-close_array parents acc m rest))),
  (λ parents m rest. from-Runs (omega arith) refl (last (step-no_items parents m rest))),
)
