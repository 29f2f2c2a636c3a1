-- ===== src/Examples/Json.antt =====
-- JSON values of src/ac-json/ac_json.c and include/another-c-library/ac-json/ac_json.h at concrete
-- inputs.
use another_c_library.Prelude.{
  ℕ, ◌+◌, ◌^◌, ◌≤◌, ◌<◌, ◌∷◌, [], ◌++◌, ◌≡◌, ◌≢◌, ◌⊎◌, inl, refl, arith, Bytes, List, length,
  Option, none, some, ◌==◌, if◌then◌else◌,
}
use another_c_library.Buffer.{init, append, appendc, reserve, grow, add_size}
use another_c_library.Buffer.Memory.{write}
use another_c_library.Buffer.Valid.{Holds}
use another_c_library.Buffer.Run.{Op, run}
use another_c_library.Buffer.Alloc.{init-Holds}
use another_c_library.Examples.Core.{sevens, small_buffer}
use another_c_library.Json.Escape.{encode}
use another_c_library.Json.Value.{
  Value, scalar, json_number, object, array, Fields, field, no_fields, item, no_items,
}
use another_c_library.Json.Text.{text, Closed, IsPlain}
use another_c_library.Json.Print.{dump}
use another_c_library.Json.Print.Laws.{IsPrintable, dump-Holds}
use another_c_library.Json.Parse.Ends.{parse-ends}
use another_c_library.Json.Parse.RoundTrip.{parse-text}
use another_c_library.Json.Parse.{parsed, parse}
use another_c_library.Json.Whole.{encode-Closed, parse-dump}
use another_c_library.Json.Numbers.{pos, negate, parse_signed}
use another_c_library.Json.Numbers.Laws.{value_of, parse_signed-Digits}
use another_c_library.Json.Access.{path}
use another_c_library.Json.Access.Follow.{index, written, follow, path-follow}
use another_c_library.Json.Access.Follow.{key as where_to}

abbrev one : Value
one = scalar json_number (b'1' ∷ [])

abbrev key : Bytes
key = b'a' ∷ []

-- [{"a":1},1]
abbrev sample : Value
sample = array (item (object (field key one no_fields)) (item one no_items))

sample-IsPlain : IsPlain sample
sample-IsPlain = (
  ((((λ e. absurd (omega (arith, e))), refl), (refl, tt)), inl (refl, tt), tt),
  (inl (refl, tt), tt),
)

sample-IsPrintable : IsPrintable sample
sample-IsPrintable = (((refl, tt), tt, tt), (tt, tt))

parse-ends_example : parse 3 (b'[' ∷ b'1' ∷ b',' ∷ 0 ∷ []) ≢ none
parse-ends_example = parse-ends 3 (b'[' ∷ b'1' ∷ b',' ∷ 0 ∷ [])

parse-text_example :
    parse (length (text sample) + 1) (text sample ++ (10 ∷ [])) ≡ some (parsed sample)
parse-text_example = parse-text sample sample-IsPlain 0 10 [] refl refl

-- [1]
abbrev list_of_one : Value
list_of_one = array (item one no_items)

dump-Holds_example :
    (ops : List Op) × (dump list_of_one ≡ some ops)
    × Holds (run sevens ops small_buffer) ([] ++ text list_of_one)
unfolding init append appendc reserve grow add_size write dump
dump-Holds_example =
    dump-Holds sevens list_of_one ((tt, tt)) (init-Holds sevens 4 (omega arith))
      (omega arith, (omega arith, (omega arith, tt)))

parse-dump_example :
    (ops : List Op) × (dump list_of_one ≡ some ops)
    × (parse (run sevens ops small_buffer).len (run sevens ops small_buffer).store
        ≡ some (parsed list_of_one))
unfolding init append appendc reserve grow add_size write dump
parse-dump_example =
    parse-dump sevens list_of_one (inl (refl, tt), tt) (tt, tt) tt
      (init-Holds sevens 4 (omega arith)) (omega arith, (omega arith, (omega arith, tt)))

encode-Closed_example : Closed (encode (97 ∷ b'"' ∷ []))
encode-Closed_example = encode-Closed (97 ∷ b'"' ∷ [])

abbrev twice : Fields
twice = field key one (field key sample no_fields)

-- The path 0.a, where only a text that begins with 0 is a number.
abbrev read_zero : Bytes → Option ℕ
read_zero [] = none
read_zero (c ∷ s) = if c == b'0' then some 0 else none

path-follow_example :
    path read_zero sample (written (index (b'0' ∷ []) 0 ∷ where_to key ∷ []))
    ≡ follow sample (index (b'0' ∷ []) 0 ∷ where_to key ∷ [])
path-follow_example =
    path-follow read_zero (index (b'0' ∷ []) 0) (where_to key ∷ []) sample
      (
        (refl, ((λ e. omega (arith, e)), tt), omega arith),
        ((refl, ((λ e. omega (arith, e)), tt)), tt),
      )
      (
        ((λ e. cc e), ((λ e. omega (arith, e)), tt)),
        (((λ e. cc e), ((λ e. omega (arith, e)), tt)), tt),
      )

parse_signed-Digits_example :
    ((value_of (b'4' ∷ b'2' ∷ []) < 2 ^ 31)
      × (parse_signed (2 ^ 31) (some (b'4' ∷ b'2' ∷ [])) (pos 7)
          ≡ some (pos (value_of (b'4' ∷ b'2' ∷ []))))
      × (parse_signed (2 ^ 31) (some (b'-' ∷ b'4' ∷ b'2' ∷ [])) (pos 7)
          ≡ some (negate (value_of (b'4' ∷ b'2' ∷ [])))))
    ⊎ ((2 ^ 31 ≤ value_of (b'4' ∷ b'2' ∷ []))
        × (parse_signed (2 ^ 31) (some (b'4' ∷ b'2' ∷ [])) (pos 7) ≡ none)
        × (parse_signed (2 ^ 31) (some (b'-' ∷ b'4' ∷ b'2' ∷ [])) (pos 7) ≡ none))
parse_signed-Digits_example =
    parse_signed-Digits (2 ^ 31) (b'4' ∷ b'2' ∷ []) (pos 7) (refl, (refl, tt)) (omega arith)
