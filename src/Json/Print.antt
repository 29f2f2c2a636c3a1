-- ===== src/Json/Print.antt =====
-- ac_json_dump_to_buffer, as the calls that it makes of the buffer.
pub mod Laws
use another_c_library.Prelude.{
  ℕ, ◌/◌, ◌%◌, ◌^◌, Bool, true, false, List, [], ◌∷◌, ◌++◌, Option, none, some, if◌then◌else◌,
  Bytes, length,
}
use another_c_library.Buffer.Run.{Op, op_append, op_appendc}
use another_c_library.Json.Value.{
  c_string, Kind, json_binary, json_null, json_string, Value, scalar, object, array, Fields,
  no_fields, field, empty_field, Items, no_items, item, empty_item,
}

infixl 5 ◌>>=◌
abbrev pub ◌>>=◌ : {A B : Type 0} → Option A → (A → Option B) → Option B
none >>= f = none
some a >>= f = f a

-- The bytes of a `uint32_t`, on a machine that stores its low byte first.
abbrev pub uint32_bytes : ℕ → Bytes
uint32_bytes n =
    (n % 0x100) ∷ (n / 0x100 % 0x100) ∷ (n / 0x10000 % 0x100) ∷ (n / 0x1000000 % 0x100) ∷ []

abbrev pub dump_scalar : Kind → Bytes → List Op
dump_scalar json_string s = op_appendc b'"' ∷ op_append s ∷ op_appendc b'"' ∷ []
dump_scalar json_binary s =
    op_append (b'n' ∷ b'b' ∷ []) ∷ op_append (uint32_bytes (length s)) ∷ op_append s ∷ []
dump_scalar json_null s = []
dump_scalar kind s = op_append s ∷ []

-- A comma is written in front of each node but the first. Nodes without a value are passed over;
-- `none` is the read of such a value, where the first node has none.
abbrev pub comma : Bool → List Op
comma first = if first then [] else op_appendc b',' ∷ []

unfoldable mutual
  pub dump : Value → Option (List Op)
  dump (scalar kind s) = some (dump_scalar kind s)
  dump (object fs) =
      dump_fields true fs >>= λ ops. some (op_appendc b'{' ∷ (ops ++ (op_appendc b'}' ∷ [])))
  dump (array xs) =
      dump_items true xs >>= λ ops. some (op_appendc b'[' ∷ (ops ++ (op_appendc b']' ∷ [])))

  pub dump_fields : Bool → Fields → Option (List Op)
  dump_fields first no_fields = some []
  dump_fields true (empty_field k fs) = none
  dump_fields false (empty_field k fs) = dump_fields false fs
  dump_fields first (field k v fs) = dump v >>= λ ops. dump_fields false fs >>= λ more. some (
      comma first
      ++ (op_appendc b'"' ∷ op_append (c_string k) ∷ op_append (b'"' ∷ b':' ∷ []) ∷ (ops ++ more)))

  pub dump_items : Bool → Items → Option (List Op)
  dump_items first no_items = some []
  dump_items true (empty_item xs) = none
  dump_items false (empty_item xs) = dump_items false xs
  dump_items first (item v xs) =
      dump v >>= λ ops. dump_items false xs >>= λ more. some (comma first ++ (ops ++ more))
