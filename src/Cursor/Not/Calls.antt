-- ===== src/Cursor/Not/Calls.antt =====
-- What the calls of a difference of cursors promise.
use another_c_library.Prelude.{
  ℕ, zero, suc, ◌^◌, ◌≤◌, ◌<◌, Bool, true, false, none, some, leb, leb→le, ◌==◌, ==→eq,
  if◌then◌else◌, ◌≡◌, ◌≢◌, refl, arith,
}
use mathlib.Core.Path.{subst, subst⁻¹}
use another_c_library.Cursor.Seek.{Operations, Seeks}
use another_c_library.Cursor.Not.{
  Not, ended, at_id, advance_not, behind_pos, advance_not_to, pos_at, advance, advance_to,
}
use another_c_library.Cursor.Not.Laws.{
  GoodNot, LeadsNot, Moved, not_both, not_zero, next_Moved, to_Moved, ended-LeadsNot,
  at_id-LeadsNot, go_on-LeadsNot, not_loop-Ends,
}

-- A property of what a test chooses.
if_cases :
    {A : Type 0} (P : A → Type 0) (b : Bool) (x y : A)
    → (b ≡ true → P x)
    → (b ≡ false → P y)
    → P (if b then x else y)
if_cases P true x y h k = h refl
if_cases P false x y h k = k refl

module _ {S T : Type 0} (o : Operations S) (laws : Seeks o) (n : Operations T)
    (others : Seeks n) where
  abbrev pub LeadsTo : Not S T → ℕ → Not S T → Type 0
  LeadsTo c start d = LeadsNot o laws n others c d start

  advance_not-LeadsNot :
      (c : Not S T)
      → laws.Good c.pos
      → others.Good c.neg
      → c.emptied ≡ false
      → LeadsTo c (laws.lower c.pos) (advance_not o n c)
  unfolding advance_not
  advance_not-LeadsNot c gp gn e =
      let positive = laws.positive c.pos gp in
      let (d, q, l) = not_loop-Ends o laws n others (2 ^ 32) c gp gn e (omega arith) in
      subst⁻¹ (λ out. LeadsTo c (laws.lower c.pos) (elim out [ none ↦ c | some d ↦ d ])) q l

  emptied-LeadsNot :
      (c : Not S T) (start : ℕ) → GoodNot o laws n others c → c.emptied ≡ true → LeadsTo c start c
  emptied-LeadsNot c start g e = record {
    good = g;
    least = record {
      in_it = λ ne. absurd (ne (g.over e));
      least = λ x le h. absurd (not_both o laws n others e h.0);
    };
    keeps = λ x le. ((λ h. h), (λ h. h));
    finished = λ z. e;
    settled = λ ne. absurd (ne (g.over e));
  }

  -- `current` is no more than what `pos` has.
  floor-GoodNot :
      (c : Not S T) (x : ℕ) → GoodNot o laws n others c → laws.Has c.pos x → c.current ≤ x
  floor-GoodNot c x g h = go c.current refl
    where
      go : (k : ℕ) → c.current ≡ k → c.current ≤ x
      go zero e = omega (arith, e)
      go (suc k) e =
          omega
            (arith, laws.floor c.pos x g.good_pos h, g.in_step (λ z. absurd (omega (arith, z, e))))

  module _ (c : Not S T) (g : GoodNot o laws n others c) where
    stay-LeadsNot :
        (id : ℕ) → laws.Settled c.pos → 0 < id → id ≤ c.current → c.emptied ≡ false → LeadsTo c id c
    stay-LeadsNot id s p l e = record {
      good = g;
      least = record {
        in_it = λ ne. (l, g.have ne);
        least = λ x le h. ((λ z. absurd (omega (arith, z))), floor-GoodNot c x g h.1);
      };
      keeps = λ x le. ((λ h. h), (λ h. h));
      finished = λ z. absurd (omega (arith, z));
      settled = λ ne. s;
    }

    module _ (pos : S) (start : ℕ) (e : c.emptied ≡ false)
        (m : Moved o laws n others c pos start) where
      pos_at-LeadsNot : c.pos_only ≡ true → LeadsTo c start (pos_at o n c pos)
      pos_at-LeadsNot only =
          if_cases (LeadsTo c start) (o.current pos == 0) (ended o n c pos)
            (record c { pos = pos; current = o.current pos })
            (λ z.
              ended-LeadsNot o laws n others c pos start g.good_neg e m (==→eq (o.current pos) 0 z))
            (λ z. record {
              good = record {
                good_pos = m.good;
                good_neg = g.good_neg;
                over = λ h. absurd (not_both o laws n others h e);
                have = λ ne. (
                  e,
                  (m.keeps (o.current pos) (m.least.in_it ne).0).0 (m.least.in_it ne).1,
                  over (o.current pos) (m.least.in_it ne).1,
                );
                in_step = λ ne. refl;
                neg_over = λ f h x le k. beyond x (not_zero o laws n others (o.current pos) z) le k;
              };
              least = record {
                in_it = λ ne. (
                  (m.least.in_it ne).0,
                  (e, (m.least.in_it ne).1, over (o.current pos) (m.least.in_it ne).1),
                );
                least = λ x le h. m.least.least x le h.1;
              };
              keeps = λ x le.
                  ((λ h. (e, (m.keeps x le).0 h.1, h.2)), (λ h. (e, (m.keeps x le).1 h.1, h.2)));
              finished = λ k. absurd (not_zero o laws n others (o.current pos) z k);
              settled = m.settled;
            })
        where
          over : (x : ℕ) → laws.Has c.pos x → others.Has c.neg x → ⊥
          over x h k = g.neg_over e only x (floor-GoodNot c x g h) k

          beyond : (x : ℕ) → o.current pos ≢ 0 → o.current pos ≤ x → others.Has c.neg x → ⊥
          beyond x ne le k =
              let floor = floor-GoodNot c (o.current pos) g (m.least.in_it ne).1 in
              g.neg_over e only x (omega arith) k

      behind_pos-LeadsNot : LeadsTo c start (behind_pos o n c pos)
      behind_pos-LeadsNot =
          let neg = n.advance_to c.neg (o.current pos) in
          if_cases (LeadsTo c start) (o.current pos == 0) (ended o n c pos) _
            (λ z.
              ended-LeadsNot o laws n others c pos start g.good_neg e m (==→eq (o.current pos) 0 z))
            (λ z.
              let ne = not_zero o laws n others (o.current pos) z in
              let p : 0 < o.current pos = omega (arith, ne) in
              if_cases (LeadsTo c start) (o.current pos == n.current neg) _ (at_id o n c pos neg)
                (λ q.
                  let next = laws.settled_lower pos m.good (m.settled ne) ne in
                  let on =
                    advance_not-LeadsNot (record c { pos = pos; neg = neg }) m.good
                      (others.to_good c.neg (o.current pos) g.good_neg p) e in
                  go_on-LeadsNot o laws n others c pos start g.good_neg e m ne p _ q (
                    subst
                      (λ k.
                        LeadsTo (record c { pos = pos; neg = neg }) k
                          (advance_not o n (record c { pos = pos; neg = neg })))
                      next on))
                (λ q. at_id-LeadsNot o laws n others c pos start g.good_neg e m ne p q))

    -- `advance` of a difference: its loop ends, and the number returned is the least one that `pos`
    -- still has and `neg` has not, from where `pos` goes on, or 0 if there is none; all such numbers
    -- from there on it keeps.
    pub advance-LeadsNot : LeadsTo c (laws.lower c.pos) (advance o n c)
    unfolding advance
    advance-LeadsNot =
        if_cases (LeadsTo c (laws.lower c.pos)) c.emptied c _
          (emptied-LeadsNot c (laws.lower c.pos) g)
          (λ e.
            if_cases (LeadsTo c (laws.lower c.pos)) c.pos_only _ _
              (λ only.
                pos_at-LeadsNot (o.advance c.pos) (laws.lower c.pos) e
                  (next_Moved o laws n others c g.good_pos) only)
              (λ h. advance_not-LeadsNot c g.good_pos g.good_neg e))

    -- `advance_to` of a difference: the same from the number that is asked for, if that is not 0 and
    -- `pos` is settled.
    pub advance_to-LeadsNot :
        (id : ℕ) → laws.Settled c.pos → 0 < id → LeadsTo c id (advance_to o n c id)
    unfolding advance_to advance_not_to
    advance_to-LeadsNot id s p =
        if_cases (LeadsTo c id) c.emptied c _ (emptied-LeadsNot c id g) (λ e.
          let moved = to_Moved o laws n others c id g.good_pos s p in
          let stay : leb id c.current ≡ true → LeadsTo c id c =
            λ l. stay-LeadsNot id s p (leb→le id c.current l) e in
          if_cases (LeadsTo c id) c.pos_only _ _
            (λ only.
              if_cases (LeadsTo c id) (leb id c.current) c _ stay
                (λ l. pos_at-LeadsNot (o.advance_to c.pos id) id e moved only))
            (λ h.
              if_cases (LeadsTo c id) (leb id c.current) c _ stay
                (λ l. behind_pos-LeadsNot (o.advance_to c.pos id) id e moved)))
