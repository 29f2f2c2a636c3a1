-- ===== src/Json/Print/Laws.antt =====
-- What ac_json_dump_to_buffer writes is the text of the value.
use another_c_library.Prelude.{
  ℕ, Bool, true, false, List, [], ◌∷◌, ◌++◌, append_assoc, append-nil, Option, none, some, Bytes,
  length, ◌≡◌, refl, sym, ap, ap₂, ◌∙◌,
}
use mathlib.Core.Path.{subst}
use another_c_library.Buffer.{Buffer, Allocator}
use another_c_library.Buffer.Valid.{Holds}
use another_c_library.Buffer.Run.{Op, op_append, op_appendc, meaning_of, run, AllSmall, run-Holds}
use another_c_library.Json.Value.{
  c_string, Kind, json_binary, json_null, json_string, json_false, json_zero, json_number,
  json_decimal, json_true, Value, scalar, object, array, Fields, no_fields, field, empty_field,
  Items, no_items, item, empty_item,
}
use another_c_library.Json.Text.{text_scalar, separator, text, text_fields, text_items, NoZero}
use another_c_library.Json.Print.{
  ◌>>=◌, uint32_bytes, dump_scalar, comma, dump, dump_fields, dump_items,
}

-- A null is not written at all.
abbrev NotNull : Kind → Type 0
NotNull json_null = ⊥
NotNull kind = Unit

-- There is no null in it, no key has a zero in it, and no container begins with an empty node.
abbrev mutual
  pub IsPrintable : Value → Type 0
  IsPrintable (scalar kind s) = NotNull kind
  IsPrintable (object fs) = PrintableFields true fs
  IsPrintable (array xs) = PrintableItems true xs

  pub PrintableFields : Bool → Fields → Type 0
  PrintableFields first no_fields = Unit
  PrintableFields true (empty_field k fs) = ⊥
  PrintableFields false (empty_field k fs) = PrintableFields false fs
  PrintableFields first (field k v fs) = NoZero k × IsPrintable v × PrintableFields false fs

  pub PrintableItems : Bool → Items → Type 0
  PrintableItems first no_items = Unit
  PrintableItems true (empty_item xs) = ⊥
  PrintableItems false (empty_item xs) = PrintableItems false xs
  PrintableItems first (item v xs) = IsPrintable v × PrintableItems false xs

-- Calls that append `t` in all.
record Appends (ops : List Op) (t : Bytes) : Type 0 where
  appended : (bytes : Bytes) → meaning_of ops bytes ≡ bytes ++ t

record Prints (o : Option (List Op)) (t : Bytes) : Type 0 where
  ops : List Op
  given : o ≡ some ops
  appends : Appends ops t

meaning_of-append :
    (ops more : List Op) (bytes : Bytes)
    → meaning_of (ops ++ more) bytes ≡ meaning_of more (meaning_of ops bytes)
meaning_of-append [] more bytes = refl
meaning_of-append (op ∷ ops) more bytes = meaning_of-append ops more _

both-Appends :
    {ops more : List Op} {t u : Bytes}
    → Appends ops t
    → Appends more u
    → Appends (ops ++ more) (t ++ u)
both-Appends {ops} {more} {t} {u} h k = record {
  appended = λ bytes.
      meaning_of-append ops more bytes
      ∙ ap (meaning_of more) (h.appended bytes)
      ∙ k.appended (bytes ++ t)
      ∙ append_assoc bytes t u;
}

-- Single calls.
c_string-NoZero : (k : Bytes) → NoZero k → c_string k ≡ k
c_string-NoZero [] h = refl
c_string-NoZero (c ∷ k) h = rw (h.0, c_string-NoZero k h.1) refl

no-Appends : Appends [] []
no-Appends = record { appended = λ bytes. sym (append-nil bytes) }

byte-Appends : (c : ℕ) → Appends (op_appendc c ∷ []) (c ∷ [])
byte-Appends c = record { appended = λ bytes. refl }

bytes-Appends : (s : Bytes) → Appends (op_append s ∷ []) s
bytes-Appends s = record { appended = λ bytes. refl }

scalar-Appends :
    (kind : Kind) (s : Bytes) → NotNull kind → Appends (dump_scalar kind s) (text_scalar kind s)
scalar-Appends json_string s h =
    both-Appends (byte-Appends b'"') (both-Appends (bytes-Appends s) (byte-Appends b'"'))
scalar-Appends json_binary s h =
    both-Appends (bytes-Appends (b'n' ∷ b'b' ∷ []))
      (both-Appends (bytes-Appends (uint32_bytes (length s))) (bytes-Appends s))
scalar-Appends json_null s h = absurd h
scalar-Appends json_false s h = bytes-Appends s
scalar-Appends json_zero s h = bytes-Appends s
scalar-Appends json_number s h = bytes-Appends s
scalar-Appends json_decimal s h = bytes-Appends s
scalar-Appends json_true s h = bytes-Appends s

comma-Appends : (first : Bool) → Appends (comma first) (separator first)
comma-Appends true = no-Appends
comma-Appends false = byte-Appends b','

-- What stands between two brackets of either kind.
between-Prints :
    (o : Option (List Op)) (l r : ℕ) {t : Bytes}
    → Prints o t
    → Prints (o >>= λ ops. some (op_appendc l ∷ (ops ++ (op_appendc r ∷ [])))) (l ∷ (t ++ (r ∷ [])))
between-Prints o l r {t} p = record {
  ops = op_appendc l ∷ (p.ops ++ (op_appendc r ∷ []));
  given = ap (λ q. q >>= λ ops. some (op_appendc l ∷ (ops ++ (op_appendc r ∷ [])))) p.given;
  appends = both-Appends (byte-Appends l) (both-Appends p.appends (byte-Appends r));
}

-- A value with what stands in front, and what follows it.
then-Prints :
    (o q : Option (List Op)) (front : List Op) {f t u : Bytes}
    → Appends front f
    → Prints o t
    → Prints q u
    → Prints (o >>= λ ops. q >>= λ more. some (front ++ (ops ++ more))) (f ++ (t ++ u))
then-Prints o q front h p r = record {
  ops = front ++ (p.ops ++ r.ops);
  given = ap₂ (λ x y. x >>= λ ops. y >>= λ more. some (front ++ (ops ++ more))) p.given r.given;
  appends = both-Appends h (both-Appends p.appends r.appends);
}

key-Appends :
    (first : Bool) (k : Bytes)
    → NoZero k
    → Appends
        (comma first
          ++ (op_appendc b'"' ∷ op_append (c_string k) ∷ op_append (b'"' ∷ b':' ∷ []) ∷ []))
        (separator first ++ (b'"' ∷ (k ++ (b'"' ∷ b':' ∷ []))))
key-Appends first k z = both-Appends (comma-Appends first) (
    both-Appends (byte-Appends b'"') (
      both-Appends (subst (Appends _) (c_string-NoZero k z) (bytes-Appends (c_string k)))
        (bytes-Appends (b'"' ∷ b':' ∷ []))))

field-Prints :
    (first : Bool) (k : Bytes) (v : Value) (fs : Fields)
    → NoZero k
    → Prints (dump v) (text v)
    → Prints (dump_fields false fs) (text_fields false fs)
    → Prints (dump_fields first (field k v fs)) (text_fields first (field k v fs))
unfolding dump text
field-Prints true k v fs z p q =
    subst (Prints _)
      (ap (◌∷◌ b'"') (append_assoc k (b'"' ∷ b':' ∷ []) (text v ++ text_fields false fs)))
      (then-Prints (dump v) (dump_fields false fs) _ (key-Appends true k z) p q)
field-Prints false k v fs z p q =
    subst (Prints _)
      (ap (λ t. b',' ∷ b'"' ∷ t)
        (append_assoc k (b'"' ∷ b':' ∷ []) (text v ++ text_fields false fs)))
      (then-Prints (dump v) (dump_fields false fs) _ (key-Appends false k z) p q)

mutual
  unfolding dump text

  value-Prints : (v : Value) → IsPrintable v → Prints (dump v) (text v)
  value-Prints (scalar kind s) h = record {
    ops = dump_scalar kind s;
    given = refl;
    appends = scalar-Appends kind s h;
  }
  value-Prints (object fs) h =
      between-Prints (dump_fields true fs) b'{' b'}' (fields-Prints true fs h)
  value-Prints (array xs) h = between-Prints (dump_items true xs) b'[' b']' (items-Prints true xs h)

  fields-Prints :
      (first : Bool) (fs : Fields)
      → PrintableFields first fs
      → Prints (dump_fields first fs) (text_fields first fs)
  fields-Prints first no_fields h = record { ops = []; given = refl; appends = no-Appends }
  fields-Prints true (empty_field k fs) h = absurd h
  fields-Prints false (empty_field k fs) h = fields-Prints false fs h
  fields-Prints first (field k v fs) h =
      field-Prints first k v fs h.0 (value-Prints v h.1) (fields-Prints false fs h.2)

  items-Prints :
      (first : Bool) (xs : Items)
      → PrintableItems first xs
      → Prints (dump_items first xs) (text_items first xs)
  items-Prints first no_items h = record { ops = []; given = refl; appends = no-Appends }
  items-Prints true (empty_item xs) h = absurd h
  items-Prints false (empty_item xs) h = items-Prints false xs h
  items-Prints true (item v xs) h =
      then-Prints (dump v) (dump_items false xs) [] no-Appends (value-Prints v h.0)
        (items-Prints false xs h.1)
  items-Prints false (item v xs) h =
      then-Prints (dump v) (dump_items false xs) (op_appendc b',' ∷ []) (byte-Appends b',')
        (value-Prints v h.0) (items-Prints false xs h.1)

-- The calls of a dump do not come near the end of the address space.
abbrev pub SmallDump : Allocator → Option (List Op) → Buffer → Type 0
SmallDump a none h = Unit
SmallDump a (some ops) h = AllSmall a ops h

-- A value with no null in it, no zero in a key, and no container that begins with an empty node is
-- written as its text: the calls are made, they append the text to what the buffer holds, and they
-- keep the buffer in bounds and ended by a terminator, if no size comes near the end of the address
-- space.
pub dump-Holds :
    (a : Allocator) (v : Value) {h : Buffer} {bytes : Bytes}
    → IsPrintable v
    → Holds h bytes
    → SmallDump a (dump v) h
    → (ops : List Op) × (dump v ≡ some ops) × Holds (run a ops h) (bytes ++ text v)
dump-Holds a v {h} {bytes} printable holds small =
    let p = value-Prints v printable in
    let fits = subst (λ o. SmallDump a o h) p.given small in
    (
      p.ops,
      p.given,
      subst (Holds (run a p.ops h)) (p.appends.appended bytes) (run-Holds a p.ops holds fits),
    )
