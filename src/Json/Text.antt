-- ===== src/Json/Text.antt =====
-- The text of a value, as a reference for what is printed, and the values that are read back.
use another_c_library.Prelude.{
  ◌<◌, ◌^◌, ◌≡◌, ◌≢◌, ◌⊎◌, Bool, true, false, [], ◌∷◌, ◌++◌, ◌==◌, leb, ◌&&◌, if◌then◌else◌, Bytes,
  length, All,
}
use another_c_library.Json.Value.{
  Kind, json_binary, json_null, json_string, json_false, json_zero, json_number, json_decimal,
  json_true, Value, scalar, object, array, Fields, no_fields, field, empty_field, Items, no_items,
  item, empty_item,
}
use another_c_library.Json.Print.{uint32_bytes}
use another_c_library.Json.Parse.Scan.{is_escaped, is_digit, true_text, false_text, null_text}

abbrev pub text_scalar : Kind → Bytes → Bytes
text_scalar json_string s = b'"' ∷ (s ++ (b'"' ∷ []))
text_scalar json_binary s = b'n' ∷ b'b' ∷ (uint32_bytes (length s) ++ s)
text_scalar json_null s = s
text_scalar json_false s = s
text_scalar json_zero s = s
text_scalar json_number s = s
text_scalar json_decimal s = s
text_scalar json_true s = s

abbrev pub separator : Bool → Bytes
separator first = if first then [] else b',' ∷ []

unfoldable mutual
  pub text : Value → Bytes
  text (scalar kind s) = text_scalar kind s
  text (object fs) = b'{' ∷ (text_fields true fs ++ (b'}' ∷ []))
  text (array xs) = b'[' ∷ (text_items true xs ++ (b']' ∷ []))

  pub text_fields : Bool → Fields → Bytes
  text_fields first no_fields = []
  text_fields first (empty_field k fs) = text_fields first fs
  text_fields first (field k v fs) =
      separator first ++ (b'"' ∷ (k ++ (b'"' ∷ b':' ∷ (text v ++ text_fields false fs))))

  pub text_items : Bool → Items → Bytes
  text_items first no_items = []
  text_items first (empty_item xs) = text_items first xs
  text_items first (item v xs) = separator first ++ (text v ++ text_items false xs)

-- A string that ends where its text ends, and not before: each quote in it has an odd number of
-- backslashes in front, and its end has not. `seen` is what precedes, the last byte first.
abbrev pub ClosedFrom : Bytes → Bytes → Type 0
ClosedFrom seen [] = is_escaped seen ≡ false
ClosedFrom seen (c ∷ s) = (c ≡ b'"' → is_escaped seen ≡ true) × ClosedFrom (c ∷ seen) s

abbrev pub Closed : Bytes → Type 0
Closed s = ClosedFrom [] s

-- No zero stands in a key.
abbrev pub NoZero : Bytes → Type 0
NoZero = All (λ c. (c == 0) ≡ false)

abbrev pub IsKey : Bytes → Type 0
IsKey k = Closed k × NoZero k

abbrev pub Digits : Bytes → Type 0
Digits = All (λ c. is_digit c ≡ true)

abbrev pub IsNatural : Bytes → Type 0
IsNatural [] = ⊥
IsNatural (d ∷ ds) = ((leb b'1' d && leb d b'9') ≡ true) × Digits ds

-- A numeral with or without a minus sign, not 0.
abbrev pub IsNumber : Bytes → Type 0
IsNumber [] = ⊥
IsNumber (c ∷ s) = IsNatural (c ∷ s) ⊎ ((c ≡ b'-') × IsNatural s)

-- A whole part, a point, and digits.
pub record IsDecimal (s : Bytes) : Type 0 where
  pub whole : Bytes
  pub fraction : Bytes
  pub parts : s ≡ whole ++ (b'.' ∷ fraction)
  pub zero_or_number : (whole ≡ b'0' ∷ []) ⊎ ((whole ≡ b'-' ∷ b'0' ∷ []) ⊎ IsNumber whole)
  pub some_digits : Digits fraction × (fraction ≢ [])

abbrev pub IsScalar : Kind → Bytes → Type 0
IsScalar json_string s = Closed s
IsScalar json_binary s = length s < 2 ^ 32
IsScalar json_null s = s ≡ null_text
IsScalar json_false s = s ≡ false_text
IsScalar json_zero s = s ≡ b'0' ∷ []
IsScalar json_number s = IsNumber s
IsScalar json_decimal s = IsDecimal s
IsScalar json_true s = s ≡ true_text

-- Values that the parser can give, with no empty node.
abbrev mutual
  pub IsPlain : Value → Type 0
  IsPlain (scalar kind s) = IsScalar kind s
  IsPlain (object fs) = PlainFields fs
  IsPlain (array xs) = PlainItems xs

  pub PlainFields : Fields → Type 0
  PlainFields no_fields = Unit
  PlainFields (empty_field k fs) = ⊥
  PlainFields (field k v fs) = IsKey k × IsPlain v × PlainFields fs

  pub PlainItems : Items → Type 0
  PlainItems no_items = Unit
  PlainItems (empty_item xs) = ⊥
  PlainItems (item v xs) = IsPlain v × PlainItems xs
