-- ===== src/Examples/Text.antt =====
-- The strings of src/ac-core/ac_pool.c and src/ac-json/ac_json.c at concrete inputs.
use another_c_library.Prelude.{
  ◌+◌, ◌∷◌, [], ◌++◌, ◌≡◌, refl, ◌≢◌, arith, Bytes, length, some, none, inr, All,
}
use another_c_library.Prelude.Outcome.{done, out_of_fuel}
use another_c_library.Text.Split.{split}
use another_c_library.Text.Split.Laws.{join, Free, split_lem}
use another_c_library.Text.Csv.{split_csv}
use another_c_library.Text.Csv.Laws.{csv_line, split_csv-csv_line}
use another_c_library.Json.Utf8.{hex_value, utf8, unicode_to_utf8}
use another_c_library.Json.Utf8.Code.{escape_of, value_of, unicode_to_utf8-escape_of, value_of-utf8}
use another_c_library.Json.Escape.{encode, decode}
use another_c_library.Json.Escape.Laws.{decode-encode, decode-truncated}
use another_c_library.Json.Escape.Ends.{decode-ends}

abbrev quoted_field : Bytes
quoted_field = 97 ∷ b'"' ∷ 44 ∷ []

split_csv-csv_line_example :
    split_csv 44 (some (csv_line 44 (quoted_field ∷ [] ∷ [])))
    ≡ done (record { num_splits = 2; pieces = quoted_field ∷ [] ∷ [] })
split_csv-csv_line_example = split_csv-csv_line 44 quoted_field ([] ∷ []) (omega arith)

abbrev two_commas : Bytes
two_commas = 97 ∷ 44 ∷ 44 ∷ 98 ∷ []

split_lem_example :
    (join (44 ∷ []) (split 44 (some two_commas)).pieces ≡ two_commas)
    × All (Free 44) (split 44 (some two_commas)).pieces
    × ((split 44 (some two_commas)).num_splits ≡ length (split 44 (some two_commas)).pieces)
split_lem_example = split_lem 44 two_commas

unicode_to_utf8-escape_of_example :
    unicode_to_utf8 (escape_of 0x1F600 ++ (97 ∷ [])) ≡ done (some (utf8 0x1F600, 97 ∷ []))
unicode_to_utf8-escape_of_example =
    unicode_to_utf8-escape_of 0x1F600 (97 ∷ []) (omega arith) (inr (omega arith))

value_of-utf8_example : value_of (utf8 0x20AC) ≡ some 0x20AC
value_of-utf8_example = value_of-utf8 0x20AC (omega arith)

-- The escape \udc00 alone is written as three bytes that are no UTF-8.
low_surrogate_test : value_of (utf8 0xDC00) ≡ none
low_surrogate_test = value_of-utf8 0xDC00 (omega arith)

decode-encode_example :
    decode (length (encode (97 ∷ 10 ∷ []))) (encode (97 ∷ 10 ∷ []) ++ (b'"' ∷ []))
    ≡ done (97 ∷ 10 ∷ [])
decode-encode_example = decode-encode (97 ∷ 10 ∷ []) (b'"' ∷ [])

decode-ends_example : decode 3 (97 ∷ b'\\' ∷ b'u' ∷ []) ≢ out_of_fuel
decode-ends_example = decode-ends 3 (97 ∷ b'\\' ∷ b'u' ∷ [])

decode-truncated_example :
    (out : Bytes) × (decode 3 ((97 ∷ []) ++ (b'\\' ∷ b'u' ∷ b'"' ∷ 44 ∷ 32 ∷ 32 ∷ 32 ∷ []))
      ≡ done out)
    × (length out + 1 ≡ 8)
unfolding hex_value
decode-truncated_example = decode-truncated (97 ∷ []) b'"' 44 32 32 (32 ∷ []) (omega arith, tt) refl
