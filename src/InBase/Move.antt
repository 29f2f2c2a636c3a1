-- ===== src/InBase/Move.antt =====
-- What a call that moves `pos` returns and leaves.
use another_c_library.Prelude.{
  ℕ, ◌+◌, ◌≤◌, ◌≡◌, refl, sym, ap, ◌∙◌, arith, Bool, true, false, Option, none, some, [], ◌++◌,
  append-nil, if◌then◌else◌, Bytes, take, drop, length-take,
}
use another_c_library.Buffer.Memory.{take-append_le}
use another_c_library.InBase.{
  Reader, Result, returned, block, slice, undo, put_zero, end_of_block, restore,
}
use another_c_library.InBase.Lists.{drop_all, drop-append_le, drop-drop, slice-eq_take}
use another_c_library.InBase.State.{
  IsSound, ahead, behind, to_come, unread, unread-put_zero, length-block, put_zero-IsSound,
}

-- A call returns `x`, and what is to come behind it is `rest`.
pub record Answers {F : Type 0} (contents : F → Bytes) (result : Result (Option Bytes × Reader F))
    (x : Option Bytes) (rest : Bytes) : Type 0 where
  pub after : Reader F
  pub is_result : result ≡ returned (x, after)
  pub sound : IsSound after
  pub leaves : unread contents after ≡ rest

module _ {F : Type 0} (contents : F → Bytes) where
  pub unread-none : (r : Reader F) → r.zerop ≡ none → unread contents r ≡ to_come contents r
  unfolding restore
  unread-none r e =
      ap (λ z. to_come contents (record r { buffer = undo z r.zero_byte r.buffer; zerop = none })) e

  pub behind_eof : (r : Reader F) → r.eof ≡ true → to_come contents r ≡ block r
  behind_eof r e =
      ap (λ b. block r ++ (if b then [] else ahead contents r.file)) e ∙ append-nil (block r)

  pub move-IsSound :
      {r : Reader F} (p : ℕ) → IsSound r → p ≤ r.used → IsSound (record r { pos = p })
  move-IsSound p g h = ground arith

  module _ (r : Reader F) (g : IsSound r) where
    pub to_come-move :
        (n : ℕ)
        → r.pos + n ≤ r.used
        → to_come contents (record r { pos = r.pos + n }) ≡ drop n (to_come contents r)
    to_come-move n h =
        ap (λ x. x ++ behind contents r) (sym (drop-drop r.pos n (take r.used r.buffer)))
        ∙ sym (drop-append_le n (block r) (behind contents r) (omega (arith, length-block g)))

    pub slice-move :
        (n : ℕ)
        → r.pos + n ≤ r.used
        → slice r.pos (r.pos + n) r.buffer ≡ take n (to_come contents r)
    slice-move n h =
        slice-eq_take r.pos n r.used r.buffer h
        ∙ sym (take-append_le n (block r) (behind contents r) (omega (arith, length-block g)))

    pub to_come-end : r.eof ≡ true → to_come contents (record r { pos = r.used }) ≡ []
    to_come-end e =
        behind_eof (record r { pos = r.used }) e
        ∙ drop_all r.used (take r.used r.buffer) (omega (arith, length-take r.used r.buffer))

    pub end_of_block-Answers :
        (required : Bool)
        → r.eof ≡ true
        → r.zerop ≡ none
        → Answers contents
            (end_of_block r required)
            (if required then none else some (to_come contents r))
            []
    unfolding end_of_block
    end_of_block-Answers true e z = record {
      after = record r { pos = r.used };
      is_result = refl;
      sound = move-IsSound r.used g (omega arith);
      leaves = unread-none (record r { pos = r.used }) z ∙ to_come-end e;
    }
    end_of_block-Answers false e z = record {
      after = put_zero (record r { pos = r.used }) r.used;
      is_result =
          ap (λ x. returned (some x, put_zero (record r { pos = r.used }) r.used))
            (sym (behind_eof r e));
      sound = put_zero-IsSound r.used (move-IsSound r.used g (omega arith));
      leaves = unread-put_zero contents (record r { pos = r.used }) r.used ∙ to_come-end e;
    }

    -- The bytes up to `n` are returned, and `k` of them and those behind are passed over.
    pub move-Answers :
        (n k : ℕ)
        → n ≤ k
        → r.pos + k ≤ r.used
        → Answers contents
            (returned (
              some (slice r.pos (r.pos + n) r.buffer),
              put_zero (record r { pos = r.pos + k }) (r.pos + n),
            ))
            (some (take n (to_come contents r)))
            (drop k (to_come contents r))
    move-Answers n k h l = record {
      after = put_zero (record r { pos = r.pos + k }) (r.pos + n);
      is_result =
          ap (λ x. returned (some x, put_zero (record r { pos = r.pos + k }) (r.pos + n)))
            (slice-move n (omega arith));
      sound = put_zero-IsSound (r.pos + n) (move-IsSound (r.pos + k) g l);
      leaves =
          unread-put_zero contents (record r { pos = r.pos + k }) (r.pos + n) ∙ to_come-move k l;
    }
