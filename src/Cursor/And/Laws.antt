-- ===== src/Cursor/And/Laws.antt =====
-- A conjunction of cursors is a cursor for the numbers that all of them stand for.
use another_c_library.Prelude.{
  ℕ, zero, suc, ◌+◌, ◌-◌, ◌^◌, ◌≤◌, ◌<◌, leb→le, Bool, true, false, List, [], ◌∷◌, Option, some,
  leb, if◌then◌else◌, length, All, Bool-cases, ◌≡◌, ◌≢◌, inl, inr, refl, sym, ap, ◌∙◌, arith,
}
use mathlib.Core.Path.{subst, subst⁻¹}
use native.Mathlib.Nat.{mul-le-mul_right}
use another_c_library.Cursor.Seek.{Operations, Least, SameFrom, Seeks}
use another_c_library.Cursor.And.{
  And, and_loop, finish, rounds, advance_and, advance_and_to, and_operations,
}
use another_c_library.Cursor.And.Loop.{AllHave, Found, Result, Rounds, and_loop-Correct}

module _ {S : Type 0} (o : Operations S) (laws : Seeks o) where
  abbrev pub HasAnd : And S → ℕ → Type 0
  HasAnd c x = (c.emptied ≡ false) × AllHave o laws (c.first ∷ c.others) x

  pub record GoodAnd (c : And S) : Type 0 where
    pub good : All laws.Good (c.first ∷ c.others)
    pub have : c.current ≢ 0 → AllHave o laws (c.first ∷ c.others) c.current
    pub in_step : c.current ≢ 0 → o.current c.first ≡ c.current
    pub over : c.emptied ≡ true → c.current ≡ 0

  -- A call that leads from `c` to `d` with what it promises.
  pub record Leads (settled_if : Type 0) (c d : And S) (start : ℕ) : Type 0 where
    pub good : GoodAnd d
    pub least : Least (HasAnd c) start d.current
    pub keeps : SameFrom start (HasAnd c) (HasAnd d)
    pub settled : d.current ≢ 0 → settled_if → laws.Settled d.first

  over_true : {b : Bool} → b ≡ true → b ≡ false → ⊥
  over_true {b} h k = cc (h, k)

  emptied-Leads :
      (settled_if : Type 0) (c : And S) (start : ℕ)
      → GoodAnd c
      → c.emptied ≡ true
      → Leads settled_if c c start
  emptied-Leads settled_if c start g e = record {
    good = g;
    least = record {
      in_it = λ ne. absurd (ne (g.over e));
      least = λ x le h. absurd (over_true e h.0);
    };
    keeps = λ x le. ((λ h. h), (λ h. h));
    settled = λ ne. absurd (ne (g.over e));
  }

  -- The loop has been run on cursors that have the same numbers from `id` on.
  finish-Leads :
      (settled_if : Type 0) (c : And S) (f : S) (fs : List S) (start id : ℕ)
      (out : Option (ℕ × List S))
      → c.emptied ≡ false
      → start ≤ id
      → ((x : ℕ) → start ≤ x → AllHave o laws (c.first ∷ c.others) x → id ≤ x)
      → SameFrom start (AllHave o laws (c.first ∷ c.others)) (AllHave o laws (f ∷ fs))
      → (settled_if → laws.Settled f)
      → Result o laws out (f ∷ fs) id
      → Leads settled_if c (finish o c out) start
  finish-Leads settled_if c f fs start id out e p above same settle (r, left, q, found) =
      subst⁻¹ (λ out. Leads settled_if c (finish o c out) start) q (go r left found)
    where
      go :
          (r : ℕ) (left : List S)
          → Found o laws (f ∷ fs) id r left
          → Leads settled_if c (finish o c (some (r, left))) start
      go zero [] found = absurd (omega (arith, found.size))
      go (suc r) [] found = absurd (omega (arith, found.size))
      go zero (d ∷ ds) found = record {
        good = record {
          good = found.good;
          have = λ ne. absurd (ne refl);
          in_step = λ ne. absurd (ne refl);
          over = λ h. refl;
        };
        least = record {
          in_it = λ ne. absurd (ne refl);
          least = λ x le h. found.least.least x (above x le h.1) ((same x le).0 h.1);
        };
        keeps = λ x le. (
          (λ h. absurd ((found.least.least x (above x le h.1) ((same x le).0 h.1)).0 refl)),
          (λ h. absurd (over_true refl h.0)),
        );
        settled = λ ne. absurd (ne refl);
      }
      go (suc r) (d ∷ ds) found = record {
        good = record {
          good = found.good;
          have = λ ne.
              (found.keeps (λ z. absurd (omega (arith, z))) (suc r) (omega arith)).0
                (found.least.in_it (λ z. absurd (omega (arith, z)))).1;
          in_step = λ ne. (found.at_it ne).0.0;
          over = λ h. absurd (over_true h refl);
        };
        least = record {
          in_it = λ ne.
              let (le, have) = found.least.in_it ne in
              let from : start ≤ suc r = omega arith in (from, (e, (same (suc r) from).1 have));
          least = λ x le h. found.least.least x (above x le h.1) ((same x le).0 h.1);
        };
        keeps = λ x le. (
          (λ h. (
            refl,
            (found.keeps (λ z. absurd (omega (arith, z))) x
                  (found.least.least x (above x le h.1) ((same x le).0 h.1)).1).0
                ((same x le).0 h.1),
          )),
          (λ h.
              let behind : suc r ≤ x = omega (
                arith,
                laws.floor d x found.good.0 h.1.0,
                (found.at_it (λ z. absurd (omega (arith, z)))).0.0,
              ) in
              (e, (same x le).1 ((found.keeps (λ z. absurd (omega (arith, z))) x behind).1 h.1))),
        );
        settled = λ ne h. found.settled ne (settle h);
      }

  enough-Rounds :
      (c : And S) (id l : ℕ)
      → l ≤ length c.others + 1
      → Rounds o laws (length c.others + 2) id l (rounds o c)
  enough-Rounds c id l h =
      let less : 2 ^ 32 - id ≤ 2 ^ 32 = omega arith in
      omega (arith, h, mul-le-mul_right (length c.others + 2) less)

  if_true : {A : Type 0} (b : Bool) (x y : A) → b ≡ true → (if b then x else y) ≡ x
  if_true true x y e = refl
  if_true false x y e = cc e

  if_false : {A : Type 0} (b : Bool) (x y : A) → b ≡ false → (if b then x else y) ≡ y
  if_false true x y e = cc e
  if_false false x y e = refl

  module _ (c : And S) (g : GoodAnd c) where
    abbrev first : S
    first = o.advance c.first

    next_loop : ℕ → Option (ℕ × List S)
    next_loop id = and_loop o (rounds o c) id (first ∷ []) c.others

    next_Result :
        (id : ℕ)
        → o.current first ≡ suc id
        → Result o laws (next_loop (suc id)) (first ∷ c.others) (suc id)
    unfolding next_loop
    next_Result id q =
        let next = laws.next c.first g.good.0 in
        let (above, have) = next.in_it (λ z. absurd (omega (arith, q, z))) in
        let kept = (laws.next_keeps c.first g.good.0 (o.current first) above).0 have in
        and_loop-Correct o laws (rounds o c) id (first ∷ []) c.others (length c.others + 2)
          (omega arith) (enough-Rounds c (suc id) (length c.others) (omega arith))
          (laws.next_good c.first g.good.0, g.good.1) ((q, subst (laws.Has first) q kept), tt)

    next_Leads :
        (id : ℕ)
        → o.current first ≡ id
        → c.emptied ≡ false
        → Leads Unit c (finish o c (next_loop id)) (laws.lower c.first)
    unfolding next_loop and_loop
    next_Leads zero q e = record {
      good = record {
        good = (laws.next_good c.first g.good.0, g.good.1);
        have = λ ne. absurd (ne refl);
        in_step = λ ne. absurd (ne refl);
        over = λ h. refl;
      };
      least = record {
        in_it = λ ne. absurd (ne refl);
        least = λ x le h. absurd ((next.least x le h.1.0).0 q);
      };
      keeps =
          λ x le. ((λ h. absurd ((next.least x le h.1.0).0 q)), (λ h. absurd (over_true refl h.0)));
      settled = λ ne. absurd (ne refl);
    }
      where
        next : Least (laws.Has c.first) (laws.lower c.first) (o.current first)
        next = laws.next c.first g.good.0
    next_Leads (suc id) q e =
        let next = laws.next c.first g.good.0 in
        let (above, have) = next.in_it (λ z. absurd (omega (arith, q, z))) in
        finish-Leads Unit c first c.others (laws.lower c.first) (suc id) (next_loop (suc id)) e
          (omega arith) (λ x le h. omega (arith, q, (next.least x le h.0).1))
          (λ x le. (
            (λ h. ((laws.next_keeps c.first g.good.0 x le).0 h.0, h.1)),
            (λ h. ((laws.next_keeps c.first g.good.0 x le).1 h.0, h.1)),
          ))
          (λ h. laws.next_settled c.first g.good.0 (λ z. absurd (omega (arith, q, z))))
          (next_Result id q)

    -- ac_cursor's advance_and: the loop ends, and the number returned is the least one that all the
    -- cursors still have, from where the first one goes on, or 0 if there is none; all that they have
    -- from there on they keep.
    pub advance_and-Leads : Leads Unit c (advance_and o c) (laws.lower c.first)
    unfolding advance_and next_loop
    advance_and-Leads = elim (Bool-cases c.emptied) [
      | inl e ↦
          subst⁻¹ (λ d. Leads Unit c d (laws.lower c.first)) (if_true c.emptied c _ e)
            (emptied-Leads Unit c (laws.lower c.first) g e)
      | inr e ↦
          subst⁻¹ (λ d. Leads Unit c d (laws.lower c.first)) (if_false c.emptied c _ e)
            (next_Leads (o.current first) refl e)
    ]

    stay-Leads :
        (id : ℕ) → 0 < id → id ≤ c.current → c.emptied ≡ false → Leads (laws.Settled c.first) c c id
    stay-Leads id p l e = record {
      good = g;
      least = record {
        in_it = λ ne. (l, (e, g.have ne));
        least = λ x le h.
            let above = laws.floor c.first x g.good.0 h.1.0 in
            let ne : c.current ≢ 0 = (λ z. absurd (omega (arith, z))) in
            (ne, omega (arith, g.in_step ne, above));
      };
      keeps = λ x le. ((λ h. h), (λ h. h));
      settled = λ ne h. h;
    }

    to_loop : ℕ → Option (ℕ × List S)
    to_loop id = and_loop o (rounds o c) id [] (c.first ∷ c.others)

    to_Leads :
        (id : ℕ)
        → 0 < id
        → c.emptied ≡ false
        → Leads (laws.Settled c.first) c (finish o c (to_loop id)) id
    unfolding to_loop
    to_Leads zero p e = absurd (omega arith)
    to_Leads (suc id) p e =
        finish-Leads (laws.Settled c.first) c c.first c.others (suc id) (suc id) (to_loop (suc id))
          e (omega arith) (λ x le h. le) (λ x le. ((λ h. h), (λ h. h))) (λ h. h)
          (and_loop-Correct o laws (rounds o c) id [] (c.first ∷ c.others) (length c.others + 2)
            (omega arith) (enough-Rounds c (suc id) (length (c.first ∷ c.others)) (omega arith))
            g.good tt)

    -- advance_and_to: the same from the number that is asked for, if that is not 0.
    pub advance_and_to-Leads :
        (id : ℕ) → 0 < id → Leads (laws.Settled c.first) c (advance_and_to o c id) id
    unfolding advance_and_to to_loop
    advance_and_to-Leads id p = elim (Bool-cases c.emptied) [
      | inl e ↦
          subst⁻¹ (λ d. Leads (laws.Settled c.first) c d id) (if_true c.emptied c _ e)
            (emptied-Leads (laws.Settled c.first) c id g e)
      | inr e ↦ elim (Bool-cases (leb id c.current)) [
        | inl l ↦
            subst⁻¹ (λ d. Leads (laws.Settled c.first) c d id)
              (if_false c.emptied c _ e ∙ if_true (leb id c.current) c _ l)
              (stay-Leads id p (leb→le id c.current l) e)
        | inr l ↦
            subst⁻¹ (λ d. Leads (laws.Settled c.first) c d id)
              (if_false c.emptied c _ e ∙ if_false (leb id c.current) c _ l) (to_Leads id p e)
      ]
    ]

  -- So a conjunction can stand wherever a cursor can, in another conjunction too.
  unfoldable pub and_laws : Seeks (and_operations o)
  and_laws = record {
    Good = GoodAnd;
    Has = HasAnd;
    lower = λ c. laws.lower c.first;
    Settled = λ c. laws.Settled c.first;
    bound = λ c x g h. laws.bound c.first x g.good.0 h.1.0;
    floor = λ c x g h. at_least c g (laws.floor c.first x g.good.0 h.1.0);
    positive = λ c g. laws.positive c.first g.good.0;
    next_good = λ c g. (advance_and-Leads c g).good;
    next = λ c g. (advance_and-Leads c g).least;
    next_keeps = λ c g. (advance_and-Leads c g).keeps;
    next_settled = λ c g ne. (advance_and-Leads c g).settled ne tt;
    to_good = λ c id g p. (advance_and_to-Leads c g id p).good;
    to = λ c id g p. (advance_and_to-Leads c g id p).least;
    to_keeps = λ c id g p. (advance_and_to-Leads c g id p).keeps;
    to_settled = λ c id g p t ne. (advance_and_to-Leads c g id p).settled ne t;
    settled_lower = λ c g t ne.
        laws.settled_lower c.first g.good.0 t (λ z. ne (sym (g.in_step ne) ∙ z))
        ∙ ap suc (g.in_step ne);
  }
    where
      at_least : (c : And S) {x : ℕ} → GoodAnd c → o.current c.first ≤ x → c.current ≤ x
      at_least c {x} g l = go c.current refl
        where
          go : (n : ℕ) → c.current ≡ n → c.current ≤ x
          go zero e = omega (arith, e)
          go (suc n) e = omega (arith, l, g.in_step (λ z. absurd (omega (arith, z, e))))
