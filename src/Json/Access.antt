-- ===== src/Json/Access.antt =====
-- The functions of include/another-c-library/ac-json/ac_json.h that look for a value: ac_jsona_scan,
-- ac_jsona_nth, ac_jsono_scan, ac_jsono_scanr, ac_jsonv and ac_jsono_path.
pub mod Laws
pub mod Paths
pub mod Follow
use another_c_library.Prelude.{
  ℕ, zero, suc, ◌+◌, ◌-◌, ◌*◌, ◌%◌, ◌^◌, Bool, true, false, ◌&&◌, List, [], ◌∷◌, ◌++◌, Option, none,
  some, leb, ltb, ◌==◌, if◌then◌else◌, Bytes, length, get_or,
}
use another_c_library.Text.Split.{split2}
use another_c_library.Json.Value.{
  Kind, json_binary, json_null, c_string, Value, scalar, object, array, Fields, no_fields, field,
  empty_field, Items, no_items, item, empty_item,
}

-- The values at the nodes of an array, from `head` on by `next`; `none` is a NULL.
abbrev pub nodes : Items → List (Option Value)
nodes no_items = []
nodes (item v xs) = some v ∷ nodes xs
nodes (empty_item xs) = none ∷ nodes xs

-- The keys of an object with their values.
abbrev pub pairs : Fields → List (Bytes × Option Value)
pairs no_fields = []
pairs (field k v fs) = (k, some v) ∷ pairs fs
pairs (empty_field k fs) = (k, none) ∷ pairs fs

-- The nodes from `tail` on by `previous`.
abbrev pub backwards : {A : Type 0} → List A → List A
backwards [] = []
backwards (x ∷ xs) = backwards xs ++ (x ∷ [])

-- ac_jsona_scan: from the end that is nearer.
unfoldable pub array_scan : Items → ℕ → Option Value
array_scan xs nth =
    let num_entries = length (nodes xs) in
    if leb num_entries nth
    then none
    else if ltb num_entries (nth * 2)
    then get_or (backwards (nodes xs)) (num_entries - nth - 1) none
    else get_or (nodes xs) nth none

-- ac_jsona_nth, by the array that _ac_jsona_fill makes.
unfoldable pub array_nth : Items → ℕ → Option Value
array_nth xs nth = if leb (length (nodes xs)) nth then none else get_or (nodes xs) nth none

-- `!strcmp(s, t)`, where no zero is left in either.
abbrev pub same : Bytes → Bytes → Bool
same [] [] = true
same [] (d ∷ t) = false
same (c ∷ s) [] = false
same (c ∷ s) (d ∷ t) = let on = same s t in if c == d then on else false

-- The loops of ac_jsono_scan and ac_jsono_scanr.
abbrev pub scan_pairs : Bytes → List (Bytes × Option Value) → Option Value
scan_pairs key [] = none
scan_pairs key (r ∷ rs) =
    let on = scan_pairs key rs in if same (c_string r.0) (c_string key) then r.1 else on

unfoldable pub object_scan : Option Value → Bytes → Option Value
object_scan (some (object fs)) key = scan_pairs key (pairs fs)
object_scan _ key = none

unfoldable pub object_scanr : Option Value → Bytes → Option Value
object_scanr (some (object fs)) key = scan_pairs key (backwards (pairs fs))
object_scanr _ key = none

-- ac_jsonv: the C string of a scalar whose type is AC_JSON_STRING or greater.
abbrev pub value_of : Option Value → Option Bytes
value_of (some (scalar json_binary s)) = none
value_of (some (scalar json_null s)) = none
value_of (some (scalar kind s)) = some (c_string s)
value_of _ = none

-- `strchr(path, '=')`: what is in front of it, and what is behind it.
abbrev pub at_equals : Bytes → Option (Bytes × Bytes)
at_equals [] = none
at_equals (c ∷ s) =
    let on : Option (Bytes × Bytes) = elim (at_equals s) [
      | none ↦ none
      | some r ↦ some (c ∷ r.0, r.1)
    ] in
    if c == b'=' then some ([], s) else on

abbrev pub is_value : Option Bytes → Bytes → Bool
is_value none value = false
is_value (some v) value = same v value

-- The first item of an array that has `value` at `key`.
abbrev pub find_item : Bytes → Bytes → List (Option Value) → Option Value
find_item key value [] = none
find_item key value (v ∷ vs) =
    let on = find_item key value vs in
    if is_value (value_of (object_scan v key)) value then v else on

-- ac_jsono_path, where `sscanf` reads a number from the beginning of a string by `%lu`. The number
-- is cut to an `int`.
module _ (sscanf : Bytes → Option ℕ) where
  unfoldable pub path_step : Value → Bytes → Option Value
  path_step (array xs) part = elim (at_equals part) [
    | some (key, value) ↦ find_item key value (nodes xs)
    | none ↦ elim (sscanf part) [ none ↦ none | some num ↦ array_scan xs (num % 2 ^ 32) ]
  ]
  path_step v part = object_scan (some v) part

  unfoldable pub path_loop : List Bytes → Value → Option Value
  path_loop [] j = some j
  path_loop (part ∷ parts) j = elim (path_step j part) [
    | none ↦ none
    | some next ↦ path_loop parts next
  ]

  unfoldable pub path : Value → Bytes → Option Value
  unfolding path_loop path_step
  path j s = path_loop (split2 b'.' (some s)).pieces j
