-- ===== src/Examples/Core.antt =====
-- src/ac-core/ac_buffer.c and src/ac-core/ac_pool.c at concrete inputs.
use another_c_library.Prelude.{
  ◌∷◌, [], ◌≡◌, refl, arith, length, length-replicate, replicate, true, false, List, ◌≤◌, ◌<◌, ◌⊎◌,
}
use another_c_library.Buffer.{Allocator, Buffer, init, append, add_size, grow_reads}
use another_c_library.Buffer.Memory.{write, copy_to}
use another_c_library.Buffer.Run.{Call, plain, appendf, op_append, op_shrink_by}
use another_c_library.Buffer.Alloc.{init-Holds, grow_reads-store}

abbrev pub sevens : Allocator
sevens = record { fresh = λ n. replicate n 7; length-fresh = λ n. length-replicate {0} n 7 }

abbrev pub small_buffer : Buffer
small_buffer = init sevens 4

-- A text is printed that does not fit, and the buffer grows.
abbrev calls : List Call
calls = plain (op_append (1 ∷ 2 ∷ 3 ∷ [])) ∷ appendf (4 ∷ 5 ∷ 6 ∷ []) ∷ plain (op_shrink_by 1) ∷ []

grow_reads-store_example :
    ((small_buffer.pooled ≡ false) × (grow_reads small_buffer 9 ≤ length small_buffer.store))
    ⊎ ((small_buffer.pooled ≡ true) × (length small_buffer.store < grow_reads small_buffer 9))
unfolding init write add_size copy_to
grow_reads-store_example =
    grow_reads-store small_buffer 9 (init-Holds sevens 4 (omega arith)) (omega arith) (omega arith)
      refl

abbrev one_byte : Buffer
one_byte = append sevens small_buffer (5 ∷ [])
