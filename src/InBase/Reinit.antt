-- ===== src/InBase/Reinit.antt =====
-- ac_in_base_reinit: a block of another size.
use another_c_library.Prelude.{
  ℕ, ◌+◌, ◌≤◌, ◌≡◌, refl, sym, ap, ◌∙◌, arith, false, Option, none, some, ◌++◌, if◌then◌else◌, ltb,
  Bytes, length, take, drop, length-take,
}
use another_c_library.Buffer.{Allocator}
use another_c_library.Buffer.Memory.{write, length-write}
use another_c_library.InBase.{Reader, reinit}
use another_c_library.InBase.Lists.{take-write_front}
use another_c_library.InBase.State.{IsSound, behind, unread}
use another_c_library.InBase.Move.{unread-none}

module _ {F : Type 0} (contents : F → Bytes) (a : Allocator) (r : Reader F) (n : ℕ) where
  -- A file in a block of at least four bytes that has room for the bytes of the block is read on as before.
  pub reinit-unread :
      (f : F)
      → IsSound r
      → r.file ≡ some f
      → r.zerop ≡ none
      → r.used ≤ n
      → 4 ≤ n
      → (r' : Reader F) × (reinit a r n ≡ some r')
        × IsSound r'
        × (r'.size ≡ n)
        × (unread contents r' ≡ unread contents r)
  unfolding reinit
  reinit-unread f g o z h k = (
    r',
    ap (λ x. elim x [ none ↦ some r | some f ↦ idle r.zerop ]) o
        ∙ ap idle z
        ∙ ap (λ b. if b then none else some r') fits,
    record {
      room =
          omega (
            arith,
            length-write (a.fresh (n + 1)) 0 (take r.used r.buffer),
            a.length-fresh (n + 1),
          );
      used_size = h;
      pos_used = g.pos_used;
      sized = λ e. k;
      open_file = g.open_file;
    },
    refl,
    unread-none contents r' z
        ∙ ap (λ m. drop r.pos m ++ behind contents r) same
        ∙ sym (unread-none contents r z),
  )
    where
      r' : Reader F
      r' = record r { buffer = write (a.fresh (n + 1)) 0 (take r.used r.buffer); size = n }

      idle : Option ℕ → Option (Reader F)
      idle x = elim x [ some i ↦ none | none ↦ if ltb n r.used then none else some r' ]

      fits : ltb n r.used ≡ false
      fits = ground (arith, h)

      count : length (take r.used r.buffer) ≡ r.used
      count = omega (arith, length-take r.used r.buffer, g.room, g.used_size)

      same : take r.used (write (a.fresh (n + 1)) 0 (take r.used r.buffer)) ≡ take r.used r.buffer
      same =
          ap (λ k. take k (write (a.fresh (n + 1)) 0 (take r.used r.buffer))) (sym count)
          ∙ take-write_front (a.fresh (n + 1)) (take r.used r.buffer)
              (omega (arith, count, a.length-fresh (n + 1)))
