-- ===== src/Json/Value.antt =====
-- The values of include/another-c-library/ac-json/ac_json.h, as trees.
use another_c_library.Prelude.{◌==◌, if◌then◌else◌, [], ◌∷◌, Bytes}

-- A key is a C string: it ends at its first zero.
abbrev pub c_string : Bytes → Bytes
c_string [] = []
c_string (c ∷ s) = let on = c_string s in if c == 0 then [] else c ∷ on

-- AC_JSON_BINARY and the types behind it.
pub data Kind : Type 0 where
  json_binary json_null json_string json_false json_zero json_number json_decimal json_true : Kind

-- ac_json_t, _ac_jsono_t and _ac_jsona_t: a scalar with the `length` bytes at `value`, and objects
-- and arrays by their nodes from `head` to `tail`. A node whose value is NULL is an empty one.
mutual
  pub data Value : Type 0 where
    scalar : Kind → Bytes → Value
    object : Fields → Value
    array : Items → Value

  pub data Fields : Type 0 where
    no_fields : Fields
    field : Bytes → Value → Fields → Fields
    empty_field : Bytes → Fields → Fields

  pub data Items : Type 0 where
    no_items : Items
    item : Value → Items → Items
    empty_item : Items → Items

-- ac_jsono_append: a node behind the last one.
abbrev pub append_field : Fields → Bytes → Value → Fields
append_field no_fields k v = field k v no_fields
append_field (field j w fs) k v = field j w (append_field fs k v)
append_field (empty_field j fs) k v = empty_field j (append_field fs k v)

-- ac_jsona_append
abbrev pub append_item : Items → Value → Items
append_item no_items v = item v no_items
append_item (item w xs) v = item w (append_item xs v)
append_item (empty_item xs) v = empty_item (append_item xs v)
