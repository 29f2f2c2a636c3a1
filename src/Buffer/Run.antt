-- ===== src/Buffer/Run.antt =====
-- A buffer under any sequence of calls, against a plain byte string.
use another_c_library.Prelude.{
  ℕ, ◌+◌, ◌-◌, ◌^◌, ◌<◌, Option, none, some, List, [], ◌∷◌, ◌++◌, Bytes, length, take, replicate,
  arith,
}
use another_c_library.Buffer.{
  Buffer, Allocator, clear, shrink_by, append, appendc, appendn, appendvf, assign, setvf,
}
use another_c_library.Buffer.Valid.{Holds, Small}
use another_c_library.Buffer.Contents.{
  append-Holds, appendc-Holds, appendn-Holds, clear-Holds, shrink_by-Holds,
}
use another_c_library.Buffer.Alloc.{assign-Holds}

-- The calls of a client that determine the contents and print nothing.
pub data Op : Type 0 where
  op_clear : Op
  op_append : Bytes → Op
  op_appendc : ℕ → Op
  op_appendn : ℕ → ℕ → Op
  op_shrink_by : ℕ → Op
  op_set : Bytes → Op

abbrev pub step : Allocator → Op → Buffer → Buffer
step a op_clear h = clear h
step a (op_append bs) h = append a h bs
step a (op_appendc ch) h = appendc a h ch
step a (op_appendn ch n) h = appendn a h ch n
step a (op_shrink_by n) h = shrink_by h n
step a (op_set bs) h = assign a h bs

abbrev pub run : Allocator → List Op → Buffer → Buffer
run a [] h = h
run a (op ∷ ops) h = run a ops (step a op h)

-- What a call means for the byte string that the buffer stands for.
abbrev pub meaning : Op → Bytes → Bytes
meaning op_clear bytes = []
meaning (op_append bs) bytes = bytes ++ bs
meaning (op_appendc ch) bytes = bytes ++ ch ∷ []
meaning (op_appendn ch n) bytes = bytes ++ replicate n ch
meaning (op_shrink_by n) bytes = take (length bytes - n) bytes
meaning (op_set bs) bytes = bs

abbrev pub meaning_of : List Op → Bytes → Bytes
meaning_of [] bytes = bytes
meaning_of (op ∷ ops) bytes = meaning_of ops (meaning op bytes)

-- How many bytes a call brings.
abbrev pub demand : Op → ℕ
demand op_clear = 0
demand (op_append bs) = length bs
demand (op_appendc ch) = 1
demand (op_appendn ch n) = n
demand (op_shrink_by n) = 0
demand (op_set bs) = length bs

-- No call comes near the end of the address space.
abbrev pub AllSmall : Allocator → List Op → Buffer → Type 0
AllSmall a [] h = Unit
AllSmall a (op ∷ ops) h = Small (h.size + h.len + demand op) × AllSmall a ops (step a op h)

step-Holds :
    (a : Allocator) (op : Op) {h : Buffer} {bytes : Bytes}
    → Holds h bytes
    → Small (h.size + h.len + demand op)
    → Holds (step a op h) (meaning op bytes)
step-Holds a op_clear v s = clear-Holds v
step-Holds a (op_append bs) v s = append-Holds a bs v (omega arith)
step-Holds a (op_appendc ch) v s = appendc-Holds a ch v (omega arith)
step-Holds a (op_appendn ch n) v s = appendn-Holds a ch n v (omega arith)
step-Holds a (op_shrink_by n) v s = shrink_by-Holds n v
step-Holds a (op_set bs) v s = assign-Holds a bs v (omega arith)

-- Whatever of these calls are made, the buffer holds what they mean for a plain byte string.
pub run-Holds :
    (a : Allocator) (ops : List Op) {h : Buffer} {bytes : Bytes}
    → Holds h bytes
    → AllSmall a ops h
    → Holds (run a ops h) (meaning_of ops bytes)
run-Holds a [] v s = v
run-Holds a (op ∷ ops) v s = run-Holds a ops (step-Holds a op v s.0) s.1

-- A call of a client, with those that print a text by vsnprintf, and may abort.
pub data Call : Type 0 where
  plain : Op → Call
  appendf : Bytes → Call
  setf : Bytes → Call

abbrev pub step_call : Allocator → Call → Buffer → Option Buffer
step_call a (plain op) h = some (step a op h)
step_call a (appendf text) h = appendvf a h text
step_call a (setf text) h = setvf a h text

abbrev pub run_calls : Allocator → List Call → Buffer → Option Buffer
run_calls a [] h = some h
run_calls a (c ∷ cs) h = elim (step_call a c h) [ none ↦ none | some g ↦ run_calls a cs g ]

abbrev pub call_meaning : Call → Bytes → Bytes
call_meaning (plain op) bytes = meaning op bytes
call_meaning (appendf text) bytes = bytes ++ text
call_meaning (setf text) bytes = text

abbrev pub calls_meaning : List Call → Bytes → Bytes
calls_meaning [] bytes = bytes
calls_meaning (c ∷ cs) bytes = calls_meaning cs (call_meaning c bytes)

-- No size comes near the end of the address space, and an `int` counts the bytes of a printed text
-- with its terminator.
abbrev pub CallFits : Call → Buffer → Type 0
CallFits (plain op) h = Small (h.size + h.len + demand op)
CallFits (appendf text) h = Small (h.size + h.len + length text) × (length text < 2 ^ 31 - 1)
CallFits (setf text) h = Small (h.size + h.len + length text) × (length text < 2 ^ 31 - 1)

abbrev pub Whenever : Option Buffer → (Buffer → Type 0) → Type 0
Whenever none P = Unit
Whenever (some g) P = P g

abbrev pub AllFit : Allocator → List Call → Buffer → Type 0
AllFit a [] h = Unit
AllFit a (c ∷ cs) h = CallFits c h × Whenever (step_call a c h) (AllFit a cs)
