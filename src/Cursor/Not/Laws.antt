-- ===== src/Cursor/Not/Laws.antt =====
-- A difference of cursors is a cursor for the numbers that the one stands for and the other does not.
use another_c_library.Prelude.{
  ℕ, zero, suc, ◌-◌, ◌^◌, ◌≤◌, ◌<◌, Bool, true, false, Option, some, ◌==◌, ==→eq, eq→==, ◌≡◌, ◌≢◌,
  refl, sym, ◌∙◌, arith,
}
use mathlib.Core.Path.{subst, subst⁻¹}
use another_c_library.Cursor.Seek.{Operations, Least, SameFrom, Seeks}
use another_c_library.Cursor.Not.{Not, ended, at_id, not_loop}

module _ {S T : Type 0} (o : Operations S) (laws : Seeks o) (n : Operations T)
    (others : Seeks n) where
  abbrev pub HasNot : Not S T → ℕ → Type 0
  HasNot c x = (c.emptied ≡ false) × laws.Has c.pos x × (others.Has c.neg x → ⊥)

  pub record GoodNot (c : Not S T) : Type 0 where
    pub good_pos : laws.Good c.pos
    pub good_neg : others.Good c.neg
    pub over : c.emptied ≡ true → c.current ≡ 0
    pub have : c.current ≢ 0 → HasNot c c.current
    pub in_step : c.current ≢ 0 → o.current c.pos ≡ c.current
    pub neg_over :
        c.emptied ≡ false → c.pos_only ≡ true → (x : ℕ) → c.current ≤ x → others.Has c.neg x → ⊥

  -- A call that leads from `c` to `d` with what it promises.
  pub record LeadsNot (c d : Not S T) (start : ℕ) : Type 0 where
    pub good : GoodNot d
    pub least : Least (HasNot c) start d.current
    pub keeps : SameFrom start (HasNot c) (HasNot d)
    pub finished : d.current ≡ 0 → d.emptied ≡ true
    pub settled : d.current ≢ 0 → laws.Settled d.pos

  -- The call for `pos` that has been made: it led to `pos`, with the least number from `start` on.
  pub record Moved (c : Not S T) (pos : S) (start : ℕ) : Type 0 where
    pub good : laws.Good pos
    pub least : Least (laws.Has c.pos) start (o.current pos)
    pub keeps : SameFrom start (laws.Has c.pos) (laws.Has pos)
    pub settled : o.current pos ≢ 0 → laws.Settled pos

  pub not_both : {b : Bool} → b ≡ true → b ≡ false → ⊥
  not_both {b} h k = cc (h, k)

  module _ (c : Not S T) (pos : S) (start : ℕ) (good_neg : others.Good c.neg)
      (e : c.emptied ≡ false) (m : Moved c pos start) where
    pub ended-LeadsNot : o.current pos ≡ 0 → LeadsNot c (ended o n c pos) start
    ended-LeadsNot z = record {
      good = record {
        good_pos = m.good;
        good_neg = good_neg;
        over = λ h. refl;
        have = λ ne. absurd (ne refl);
        in_step = λ ne. absurd (ne refl);
        neg_over = λ h. absurd (not_both refl h);
      };
      least = record {
        in_it = λ ne. absurd (ne refl);
        least = λ x le h. absurd ((m.least.least x le h.1).0 z);
      };
      keeps =
          λ x le. ((λ h. absurd ((m.least.least x le h.1).0 z)), (λ h. absurd (not_both refl h.0)));
      finished = λ h. refl;
      settled = λ ne. absurd (ne refl);
    }

    module _ (ne : o.current pos ≢ 0) (p : 0 < o.current pos) where
      abbrev pub neg : T
      neg = n.advance_to c.neg (o.current pos)

      other : Least (others.Has c.neg) (o.current pos) (n.current neg)
      other = others.to c.neg (o.current pos) good_neg p

      other_keeps : SameFrom (o.current pos) (others.Has c.neg) (others.Has neg)
      other_keeps = others.to_keeps c.neg (o.current pos) good_neg p

      not_other : (o.current pos == n.current neg) ≡ false → others.Has c.neg (o.current pos) → ⊥
      not_other d h =
          let (there, le) = other.least (o.current pos) (omega arith) h in
          let (ge, have) = other.in_it there in
          not_both (eq→== (o.current pos) (n.current neg) (omega arith)) d

      same_at : {x : ℕ} → start ≤ x → HasNot c x → (o.current pos ≤ x)
      same_at {x} le h = (m.least.least x le h.1).1

      pub at_id-LeadsNot :
          (o.current pos == n.current neg) ≡ false → LeadsNot c (at_id o n c pos neg) start
      at_id-LeadsNot d = record {
        good = record {
          good_pos = m.good;
          good_neg = others.to_good c.neg (o.current pos) good_neg p;
          over = λ h. absurd (not_both h e);
          have = λ ne. (
            e,
            (m.keeps (o.current pos) (m.least.in_it ne).0).0 (m.least.in_it ne).1,
            (λ h. not_other d ((other_keeps (o.current pos) (omega arith)).1 h)),
          );
          in_step = λ ne. refl;
          neg_over = λ f h x le k.
              (other.least x le ((other_keeps x le).1 k)).0 (==→eq (n.current neg) 0 h);
        };
        least = record {
          in_it = λ ne. ((m.least.in_it ne).0, (e, (m.least.in_it ne).1, not_other d));
          least = λ x le h. (ne, same_at le h);
        };
        keeps = λ x le. (
          (λ h. (e, (m.keeps x le).0 h.1, (λ k. h.2 ((other_keeps x (same_at le h)).1 k)))),
          (λ h. (
            e,
            (m.keeps x le).1 h.1,
            (λ k. h.2 ((other_keeps x (laws.floor pos x m.good h.1)).0 k)),
          )),
        );
        finished = λ z. absurd (ne z);
        settled = m.settled;
      }

      -- The number is in `neg`: the search goes on behind it.
      pub go_on-LeadsNot :
          (d : Not S T)
          → (o.current pos == n.current neg) ≡ true
          → LeadsNot (record c { pos = pos; neg = neg }) d (suc (o.current pos))
          → LeadsNot c d start
      go_on-LeadsNot d q l = record {
        good = l.good;
        least = record {
          in_it = λ nz.
              let (ge, have) = l.least.in_it nz in
              let from : start ≤ d.current = omega (arith, (m.least.in_it ne).0) in
              let at_least : o.current pos ≤ d.current = omega arith in
              (
                from,
                (
                  e,
                  (m.keeps d.current from).1 have.1,
                  (λ k. have.2 ((other_keeps d.current at_least).0 k)),
                ),
              );
          least = λ x le h. l.least.least x (behind le h) (to_rest le h);
        };
        keeps = λ x le. (
          (λ h. (l.keeps x (behind le h)).0 (to_rest le h)),
          (λ h.
              let nz : d.current ≢ 0 = (λ z. not_both (l.finished z) h.0) in
              let floor = laws.floor d.pos x l.good.good_pos h.1 in
              let ge : suc (o.current pos) ≤ x =
                omega (arith, floor, l.good.in_step nz, (l.least.in_it nz).0) in
              let rest = (l.keeps x ge).1 h in
              let at_least : o.current pos ≤ x = omega arith in
              (e, (m.keeps x le).1 rest.1, (λ k. rest.2 ((other_keeps x at_least).0 k)))),
        );
        finished = l.finished;
        settled = l.settled;
      }
        where
          in_other : others.Has c.neg (o.current pos)
          in_other =
              let at_it : n.current neg ≡ o.current pos =
                sym (==→eq (o.current pos) (n.current neg) q) in
              subst (others.Has c.neg) at_it (other.in_it (λ z. ne (sym at_it ∙ z))).1

          to_rest : {x : ℕ} → start ≤ x → HasNot c x → HasNot (record c { pos = pos; neg = neg }) x
          to_rest {x} le h =
              (e, (m.keeps x le).0 h.1, (λ k. h.2 ((other_keeps x (same_at le h)).1 k)))

          behind : {x : ℕ} → start ≤ x → HasNot c x → suc (o.current pos) ≤ x
          behind {x} le h =
              let not_it : x ≢ o.current pos = (λ z. h.2 (subst⁻¹ (others.Has c.neg) z in_other)) in
              omega (arith, not_it, same_at le h)

  pub next_Moved : (c : Not S T) → laws.Good c.pos → Moved c (o.advance c.pos) (laws.lower c.pos)
  next_Moved c g = record {
    good = laws.next_good c.pos g;
    least = laws.next c.pos g;
    keeps = laws.next_keeps c.pos g;
    settled = laws.next_settled c.pos g;
  }

  pub to_Moved :
      (c : Not S T) (id : ℕ)
      → laws.Good c.pos
      → laws.Settled c.pos
      → 0 < id
      → Moved c (o.advance_to c.pos id) id
  to_Moved c id g s p = record {
    good = laws.to_good c.pos id g p;
    least = laws.to c.pos id g p;
    keeps = laws.to_keeps c.pos id g p;
    settled = laws.to_settled c.pos id g p s;
  }

  -- A result of the loop.
  abbrev pub Ends : Option (Not S T) → Not S T → ℕ → Type 0
  Ends out c start = (d : Not S T) × (out ≡ some d) × LeadsNot c d start

  Ends-map :
      {out : Option (Not S T)} {c c2 : Not S T} {k l : ℕ}
      → ((d : Not S T) → LeadsNot c d k → LeadsNot c2 d l)
      → Ends out c k
      → Ends out c2 l
  Ends-map f (d, e, h) = (d, e, f d h)

  abbrev pub branches : {A : Type 0} → Bool → Bool → A → A → A → A
  branches z same x y w = elim z [ true ↦ x | false ↦ elim same [ true ↦ y | false ↦ w ] ]

  module _ (fuel : ℕ) (c : Not S T) where
    abbrev pos : S
    pos = o.advance c.pos

    abbrev neg2 : T
    neg2 = n.advance_to c.neg (o.current pos)

    not_loop-suc :
        not_loop o n (suc fuel) c
        ≡ branches
            (o.current pos == 0)
            (o.current pos == n.current neg2)
            (some (ended o n c pos))
            (not_loop o n fuel (record c { pos = pos; neg = neg2 }))
            (some (at_id o n c pos neg2))
    unfolding not_loop
    not_loop-suc = refl

  branch_cases :
      {A : Type 0} (P : A → Type 0) (z same : Bool) (x y w : A)
      → (z ≡ true → P x)
      → (z ≡ false → same ≡ true → P y)
      → (z ≡ false → same ≡ false → P w)
      → P (branches z same x y w)
  branch_cases P true same x y w h k l = h refl
  branch_cases P false true x y w h k l = k refl refl
  branch_cases P false false x y w h k l = l refl refl

  pub not_zero : (k : ℕ) → (k == 0) ≡ false → k ≢ 0
  not_zero k z = λ e. ground (arith, z, e)

  -- Enough rounds are left behind a number that has been found.
  less_rounds :
      (low id next fuel : ℕ)
      → low ≤ id
      → id < 2 ^ 32
      → next ≡ suc id
      → 2 ^ 32 - low < suc fuel
      → 2 ^ 32 - next < fuel
  less_rounds low id next fuel h k e l = omega arith

  pub not_loop-Ends :
      (fuel : ℕ) (c : Not S T)
      → laws.Good c.pos
      → others.Good c.neg
      → c.emptied ≡ false
      → 2 ^ 32 - laws.lower c.pos < fuel
      → Ends (not_loop o n fuel c) c (laws.lower c.pos)
  not_loop-Ends zero c gp gn e h = absurd (omega arith)
  not_loop-Ends (suc fuel) c gp gn e h =
      let p = pos fuel c in
      let q = neg2 fuel c in
      let start = laws.lower c.pos in
      let moved = next_Moved c gp in
      subst⁻¹ (λ out. Ends out c start) (not_loop-suc fuel c)
        (branch_cases (λ out. Ends out c start) (o.current p == 0) (o.current p == n.current q) _ _
          _
          (λ z.
            (ended o n c p, refl, ended-LeadsNot c p start gn e moved (==→eq (o.current p) 0 z)))
          (λ z same.
            let some_id = not_zero (o.current p) z in
            let positive : 0 < o.current p = omega (arith, some_id) in
            let (le, have) = moved.least.in_it some_id in
            let next : laws.lower p ≡ suc (o.current p) =
              laws.settled_lower p moved.good (moved.settled some_id) some_id in
            let small =
              less_rounds start (o.current p) (laws.lower p) fuel le
                (laws.bound c.pos (o.current p) gp have) next h in
            let r =
              not_loop-Ends fuel (record c { pos = p; neg = q }) moved.good
                (others.to_good c.neg (o.current p) gn positive) e small in
            Ends-map
              (λ d l.
                go_on-LeadsNot c p start gn e moved some_id positive d same
                  (subst (LeadsNot (record c { pos = p; neg = q }) d) next l))
              r)
          (λ z different.
            let some_id = not_zero (o.current p) z in
            (
              at_id o n c p q,
              refl,
              at_id-LeadsNot c p start gn e moved some_id (omega (arith, some_id)) different,
            )))
