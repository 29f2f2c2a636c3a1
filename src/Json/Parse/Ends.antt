-- ===== src/Json/Parse/Ends.antt =====
-- The rounds of ac_json_parse: each label passes over a byte at least.
use another_c_library.Prelude.{
  ℕ, zero, suc, ◌-◌, ◌≤◌, ◌<◌, true, false, List, [], ◌∷◌, Option, none, some, ◌==◌, Bytes, length,
  length-drop, ◌≢◌, arith,
}
use another_c_library.Json.Value.{Value, Fields, Items, array, object}
use another_c_library.Json.Parse.Scan.{
  is_space, Found, found, ended, beyond, string_end, to_colon, Scanned, token, bad_at, past,
  start_scalar,
}
use another_c_library.Json.Parse.{
  close_array, overread, Frame, object_at, array_of, Mode, start_key, start_key_object,
  look_for_key, start_value, look_for_next_object, State, Next, go, stop, at, close,
  keyed_add_string, add_string, get_end_of_key, at_key, at_key_object, at_look_for_key, at_value,
  at_look_for_next_object, dispatch, step, run, start, parse,
}
use another_c_library.Json.Parse.Within.{
  Within, FoundWithin, if_both, string_end-FoundWithin, start_scalar-Within,
}

-- A round leaves less than `n` bytes, or is the last one.
abbrev Falls : ℕ → Next → Type 0
Falls n (go s) = length s.mem < n
Falls n (stop e) = Unit

close-Falls :
    (n : ℕ) (v : Value) (parents : List Frame) (left : ℕ) (mem : Bytes)
    → length mem < n
    → Falls n (close v parents left mem)
close-Falls n v [] left mem h = tt
close-Falls n v (object_at fs key ∷ parents) left mem h = h
close-Falls n v (array_of xs ∷ parents) left mem h = h

keyed_add_string-Falls :
    (n : ℕ) (fs : Fields) (key : Bytes) (parents : List Frame) (s : Scanned)
    → Within n s
    → Falls (suc n) (keyed_add_string fs key parents s)
keyed_add_string-Falls n fs key parents (token kind s left mem) h = omega arith
keyed_add_string-Falls n fs key parents (bad_at mem) h = tt
keyed_add_string-Falls n fs key parents past h = tt

add_string-Falls :
    (n : ℕ) (arr : Option Items) (parents : List Frame) (s : Scanned)
    → Within n s
    → Falls (suc n) (add_string arr parents s)
add_string-Falls n none parents (token kind s left mem) h = tt
add_string-Falls n (some xs) parents (token kind s left mem) h = omega arith
add_string-Falls n none parents (bad_at mem) h = tt
add_string-Falls n (some xs) parents (bad_at mem) h = tt
add_string-Falls n none parents past h = tt
add_string-Falls n (some xs) parents past h = tt

abbrev PairWithin : ℕ → Option (ℕ × Bytes) → Type 0
PairWithin n none = Unit
PairWithin n (some r) = length r.1 ≤ n

to_colon-PairWithin : (left : ℕ) (mem : Bytes) → PairWithin (length mem) (to_colon left mem)
to_colon-PairWithin zero mem = omega (arith, length-drop {0} 1 mem)
to_colon-PairWithin (suc left) [] = tt
to_colon-PairWithin (suc left) (c ∷ mem) =
    if_both (PairWithin (suc (length mem))) (c == b':') (omega arith)
      (go (to_colon left mem) (to_colon-PairWithin left mem))
  where
    go : (o : Option (ℕ × Bytes)) → PairWithin (length mem) o → PairWithin (suc (length mem)) o
    go none h = tt
    go (some r) h = omega arith

get_end_of_key-Falls :
    (n : ℕ) (fs : Fields) (parents : List Frame) (f : Found)
    → FoundWithin n f
    → Falls (suc n) (get_end_of_key fs parents f)
get_end_of_key-Falls n fs parents (found key left mem) h =
    go (to_colon left mem) (to_colon-PairWithin left mem)
  where
    go :
        (o : Option (ℕ × Bytes))
        → PairWithin (length mem) o
        → Falls (suc n) (elim o [
          | some rest ↦ Next.go (at (start_key_object fs key) parents rest.0 rest.1)
          | none ↦ stop overread
        ])
    go none k = tt
    go (some r) k = omega arith
get_end_of_key-Falls n fs parents (ended mem) h = tt
get_end_of_key-Falls n fs parents beyond h = tt

close_array-Falls :
    (n : ℕ) (arr : Option Items) (parents : List Frame) (left : ℕ) (mem : Bytes)
    → length mem < n
    → Falls n (close_array arr parents left mem)
close_array-Falls n none parents left mem h = tt
close_array-Falls n (some xs) parents left mem h = close-Falls n (array xs) parents left mem h

module _ (parents : List Frame) (ch left : ℕ) (mem : Bytes) where
  abbrev Less : Next → Type 0
  Less = Falls (suc (length mem))

  at_key-Falls : (fs : Fields) → Less (at_key fs parents ch left mem)
  at_key-Falls fs =
      if_both Less (ch == b'"')
        (get_end_of_key-Falls (length mem) fs parents (string_end [] left mem)
          (string_end-FoundWithin [] left mem))
        (if_both Less (is_space ch) (omega arith) (
          if_both Less (ch == b'}')
            (close-Falls (suc (length mem)) (object fs) parents left mem (omega arith)) tt))

  at_key_object-Falls :
      (fs : Fields) (key : Bytes) → Less (at_key_object fs key parents ch left mem)
  at_key_object-Falls fs key = if_both Less (is_space ch) (omega arith) (
      if_both Less (ch == b'{') (omega arith) (
        if_both Less (ch == b'[') (omega arith) (
          keyed_add_string-Falls (length mem) fs key parents (start_scalar true ch left mem)
            (start_scalar-Within true ch left mem))))

  at_look_for_key-Falls : (fs : Fields) → Less (at_look_for_key fs parents ch left mem)
  at_look_for_key-Falls fs = if_both Less (ch == b',') (if_both Less (left == 0) tt (omega arith)) (
      if_both Less (ch == b'}')
        (close-Falls (suc (length mem)) (object fs) parents (left - 1) mem (omega arith))
        (if_both Less (is_space ch) (omega arith) tt))

  at_value-Falls : (arr : Option Items) → Less (at_value arr parents ch left mem)
  at_value-Falls arr = if_both Less (is_space ch) (omega arith) (
      if_both Less (ch == b'{') (omega arith) (
        if_both Less (ch == b'[') (omega arith) (
          if_both Less (ch == b']')
            (close_array-Falls (suc (length mem)) arr parents left mem (omega arith))
            (add_string-Falls (length mem) arr parents (start_scalar false ch left mem)
              (start_scalar-Within false ch left mem)))))

  at_look_for_next_object-Falls :
      (xs : Items) → Less (at_look_for_next_object xs parents ch left mem)
  at_look_for_next_object-Falls xs =
      if_both Less (ch == b',') (if_both Less (left == 0) tt (omega arith)) (
        if_both Less (ch == b']')
          (close-Falls (suc (length mem)) (array xs) parents (left - 1) mem (omega arith))
          (if_both Less (is_space ch) (omega arith) tt))

dispatch-Falls :
    (mode : Mode) (parents : List Frame) (left : ℕ) (mem : Bytes)
    → Falls (length mem) (dispatch mode parents left mem)
dispatch-Falls (look_for_key fs) parents left [] = tt
dispatch-Falls (look_for_key fs) parents left (ch ∷ mem) =
    at_look_for_key-Falls parents ch left mem fs
dispatch-Falls (look_for_next_object xs) parents left [] = tt
dispatch-Falls (look_for_next_object xs) parents left (ch ∷ mem) =
    at_look_for_next_object-Falls parents ch left mem xs
dispatch-Falls (start_key fs) parents zero mem = tt
dispatch-Falls (start_key fs) parents (suc left) [] = tt
dispatch-Falls (start_key fs) parents (suc left) (ch ∷ mem) = at_key-Falls parents ch left mem fs
dispatch-Falls (start_key_object fs key) parents zero mem = tt
dispatch-Falls (start_key_object fs key) parents (suc left) [] = tt
dispatch-Falls (start_key_object fs key) parents (suc left) (ch ∷ mem) =
    at_key_object-Falls parents ch left mem fs key
dispatch-Falls (start_value arr) parents zero mem = tt
dispatch-Falls (start_value arr) parents (suc left) [] = tt
dispatch-Falls (start_value arr) parents (suc left) (ch ∷ mem) =
    at_value-Falls parents ch left mem arr

run-ends : (fuel : ℕ) (s : State) → length s.mem < fuel → run fuel s ≢ none
unfolding run step
run-ends zero s h = elim h [ ]
run-ends (suc fuel) s h =
    ends (step s) (dispatch-Falls s.mode s.parents s.left s.mem) (λ t k. run-ends fuel t k)
  where
    ends :
        (n : Next)
        → Falls (length s.mem) n
        → ((t : State) → length t.mem < fuel → run fuel t ≢ none)
        → (elim n [ stop e ↦ some e | go t ↦ run fuel t ]) ≢ none
    ends (stop e) k ih = λ q. cc q
    ends (go t) k ih = ih t (omega arith)

abbrev StartWithin : ℕ → Next → Type 0
StartWithin n (go s) = length s.mem ≤ n
StartWithin n (stop e) = Unit

start-Within : (len : ℕ) (mem : Bytes) → StartWithin (length mem) (start len mem)
start-Within zero mem = tt
start-Within (suc left) [] = tt
start-Within (suc left) (ch ∷ mem) =
    if_both (StartWithin (suc (length mem))) (ch == b'{') (omega arith) (omega arith)

-- ac_json_parse ends on every input, in as many rounds as there are bytes in the memory, and one.
pub parse-ends : (len : ℕ) (mem : Bytes) → parse len mem ≢ none
unfolding parse
parse-ends len mem = ends (start len mem) (start-Within len mem)
  where
    ends :
        (n : Next)
        → StartWithin (length mem) n
        → (elim n [ stop e ↦ some e | go s ↦ run (suc (length mem)) s ]) ≢ none
    ends (stop e) k = λ q. cc q
    ends (go s) k = run-ends (suc (length mem)) s (omega arith)
