-- ===== src/Json/Parse.antt =====
-- ac_json_parse: its labels as the modes of a machine. The text is what stands in memory from `p`
-- on, and `left` is `ep - p`, or 0 from where `p` has passed `ep`. The zeros that are written behind
-- keys, strings and numbers are not read again; `ch` is always the byte at `p`.
pub mod Scan
pub mod Within
pub mod Ends
pub mod Scalars
pub mod Words
pub mod Runs
pub mod Containers
pub mod RoundTrip
use another_c_library.Prelude.{
  ℕ, zero, suc, ◌+◌, ◌-◌, Bool, true, false, ◌&&◌, ◌||◌, List, [], ◌∷◌, ◌++◌, Option, none, some,
  leb, ltb, ◌==◌, if◌then◌else◌, Bytes, length, drop,
}
use another_c_library.Json.Value.{
  Kind, json_string, Value, scalar, object, array, Fields, no_fields, append_field, Items, no_items,
  append_item,
}
use another_c_library.Json.Parse.Scan.{
  Found, found, ended, beyond, string_end, to_colon, Scanned, token, bad_at, past, is_space,
  start_scalar,
}

-- A container that has not been closed, with what it holds: an object, with the key of the value
-- that is being read, or an array.
pub data Frame : Type 0 where
  object_at : Fields → Bytes → Frame
  array_of : Items → Frame

-- The labels start_key, start_key_object, look_for_key, start_value and look_for_next_object, with
-- the container that is being read; that of start_value is NULL at first.
pub data Mode : Type 0 where
  start_key : Fields → Mode
  start_key_object : Fields → Bytes → Mode
  look_for_key : Fields → Mode
  start_value : Option Items → Mode
  look_for_next_object : Items → Mode

pub record State : Type 0 where
  pub mode : Mode
  pub parents : List Frame
  pub left : ℕ
  pub mem : Bytes

-- What a run returns: a value, or the error with the memory from `error_at` on. Besides, reads
-- behind the memory, and through NULL.
pub data End : Type 0 where
  parsed : Value → End
  bad_character : Bytes → End
  overread : End
  null_read : End

pub data Next : Type 0 where
  go : State → Next
  stop : End → Next

abbrev pub at : Mode → List Frame → ℕ → Bytes → State
at mode parents left mem = record { mode = mode; parents = parents; left = left; mem = mem }

-- The container is complete: its parent is gone on with, or the result returned.
abbrev pub close : Value → List Frame → ℕ → Bytes → Next
close v [] left mem = stop (parsed v)
close v (object_at fs key ∷ parents) left mem =
    go (at (look_for_key (append_field fs key v)) parents left mem)
close v (array_of xs ∷ parents) left mem =
    go (at (look_for_next_object (append_item xs v)) parents left mem)

-- keyed_add_string
abbrev pub keyed_add_string : Fields → Bytes → List Frame → Scanned → Next
keyed_add_string fs key parents (token kind s left mem) =
    go (at (look_for_key (append_field fs key (scalar kind s))) parents left mem)
keyed_add_string fs key parents (bad_at mem) = stop (bad_character mem)
keyed_add_string fs key parents past = stop overread

-- add_string
abbrev pub add_string : Option Items → List Frame → Scanned → Next
add_string none parents (token kind s left mem) = stop (parsed (scalar kind s))
add_string (some xs) parents (token kind s left mem) =
    go (at (look_for_next_object (append_item xs (scalar kind s))) parents left mem)
add_string arr parents (bad_at mem) = stop (bad_character mem)
add_string arr parents past = stop overread

-- get_end_of_key: behind the quote all up to a colon is passed over.
abbrev pub get_end_of_key : Fields → List Frame → Found → Next
get_end_of_key fs parents (found key left mem) = elim (to_colon left mem) [
  | some rest ↦ go (at (start_key_object fs key) parents rest.0 rest.1)
  | none ↦ stop overread
]
get_end_of_key fs parents (ended mem) = stop (bad_character (drop 2 mem))
get_end_of_key fs parents beyond = stop overread

abbrev pub at_key : Fields → List Frame → ℕ → ℕ → Bytes → Next
at_key fs parents ch left mem =
    if ch == b'"'
    then get_end_of_key fs parents (string_end [] left mem)
    else if is_space ch
    then go (at (start_key fs) parents left mem)
    else if ch == b'}'
    then close (object fs) parents left mem
    else stop (bad_character mem)

abbrev pub at_key_object : Fields → Bytes → List Frame → ℕ → ℕ → Bytes → Next
at_key_object fs key parents ch left mem =
    if is_space ch
    then go (at (start_key_object fs key) parents left mem)
    else if ch == b'{'
    then go (at (start_key no_fields) (object_at fs key ∷ parents) left mem)
    else if ch == b'['
    then go (at (start_value (some no_items)) (object_at fs key ∷ parents) left mem)
    else keyed_add_string fs key parents (start_scalar true ch left mem)

-- `ch` has been read at `p`, which has not gone on.
abbrev pub at_look_for_key : Fields → List Frame → ℕ → ℕ → Bytes → Next
at_look_for_key fs parents ch left mem =
    if ch == b','
    then if left == 0
      then stop (bad_character (ch ∷ mem))
      else go (at (start_key fs) parents (left - 1) mem)
    else if ch == b'}'
    then close (object fs) parents (left - 1) mem
    else if is_space ch
    then go (at (look_for_key fs) parents (left - 1) mem)
    else stop (bad_character (ch ∷ mem))

-- The container in which a value of an array begins.
abbrev pub inside : Option Items → List Frame → List Frame
inside none parents = parents
inside (some xs) parents = array_of xs ∷ parents

abbrev pub close_array : Option Items → List Frame → ℕ → Bytes → Next
close_array none parents left mem = stop null_read
close_array (some xs) parents left mem = close (array xs) parents left mem

abbrev pub at_value : Option Items → List Frame → ℕ → ℕ → Bytes → Next
at_value arr parents ch left mem =
    if is_space ch
    then go (at (start_value arr) parents left mem)
    else if ch == b'{'
    then go (at (start_key no_fields) (inside arr parents) left mem)
    else if ch == b'['
    then go (at (start_value (some no_items)) (inside arr parents) left mem)
    else if ch == b']'
    then close_array arr parents left mem
    else add_string arr parents (start_scalar false ch left mem)

abbrev pub at_look_for_next_object : Items → List Frame → ℕ → ℕ → Bytes → Next
at_look_for_next_object xs parents ch left mem =
    if ch == b','
    then if left == 0
      then stop (bad_character (ch ∷ mem))
      else go (at (start_value (some xs)) parents (left - 1) mem)
    else if ch == b']'
    then close (array xs) parents (left - 1) mem
    else if is_space ch
    then go (at (look_for_next_object xs) parents (left - 1) mem)
    else stop (bad_character (ch ∷ mem))

-- The three labels that read a byte from within the text, and the two that have read it already.
abbrev pub dispatch : Mode → List Frame → ℕ → Bytes → Next
dispatch (look_for_key fs) parents left [] = stop overread
dispatch (look_for_key fs) parents left (ch ∷ mem) = at_look_for_key fs parents ch left mem
dispatch (look_for_next_object xs) parents left [] = stop overread
dispatch (look_for_next_object xs) parents left (ch ∷ mem) =
    at_look_for_next_object xs parents ch left mem
dispatch (start_key fs) parents zero mem = stop (bad_character mem)
dispatch (start_key fs) parents (suc left) [] = stop overread
dispatch (start_key fs) parents (suc left) (ch ∷ mem) = at_key fs parents ch left mem
dispatch (start_key_object fs key) parents zero mem = stop (bad_character mem)
dispatch (start_key_object fs key) parents (suc left) [] = stop overread
dispatch (start_key_object fs key) parents (suc left) (ch ∷ mem) =
    at_key_object fs key parents ch left mem
dispatch (start_value arr) parents zero mem = stop (bad_character mem)
dispatch (start_value arr) parents (suc left) [] = stop overread
dispatch (start_value arr) parents (suc left) (ch ∷ mem) = at_value arr parents ch left mem

unfoldable pub step : State → Next
step s = dispatch s.mode s.parents s.left s.mem

-- `none` is the end of the fuel.
unfoldable pub run : ℕ → State → Option End
unfolding step
run zero s = none
run (suc fuel) s = elim (step s) [ stop e ↦ some e | go t ↦ run fuel t ]

-- Where ac_json_parse begins.
abbrev pub start : ℕ → Bytes → Next
start zero mem = stop (bad_character (drop 1 mem))
start (suc left) [] = stop overread
start (suc left) (ch ∷ mem) =
    if ch == b'{'
    then go (at (start_key no_fields) [] left mem)
    else go (at (start_value none) [] (suc left) (ch ∷ mem))

-- `ac_json_parse(pool, p, p + len)`, with the memory from `p` on.
unfoldable pub parse : ℕ → Bytes → Option End
unfolding run
parse len mem = elim (start len mem) [ stop e ↦ some e | go s ↦ run (suc (length mem)) s ]
