-- ===== src/Cursor/And/Loop.antt =====
-- The loop of the conjunction finds the least number that all the cursors have.
use another_c_library.Prelude.{
  ℕ, zero, suc, ◌+◌, ◌-◌, ◌*◌, ◌^◌, ◌≤◌, ◌<◌, Bool, false, List, [], ◌∷◌, ◌++◌, append_assoc,
  append-nil, Option, some, ◌==◌, ==→eq, eq→==, if◌then◌else◌, length, length-append, All,
  Bool-cases, ◌≡◌, ◌≢◌, inl, inr, refl, sym, ap, ap₂, ◌∙◌, arith,
}
use native.Mathlib.Nat.{mul-le-mul_right, suc-mul}
use mathlib.Core.Path.{subst, subst⁻¹}
use another_c_library.Cursor.Seek.{Operations, Least, SameFrom, Seeks}
use another_c_library.Cursor.And.{and_loop}

module _ {A : Type 0} (P : A → Type 0) where
  All-append : (xs ys : List A) → All P xs → All P ys → All P (xs ++ ys)
  All-append [] ys h k = k
  All-append (x ∷ xs) ys h k = (h.0, All-append xs ys h.1 k)

  All-left : (xs ys : List A) → All P (xs ++ ys) → All P xs
  All-left [] ys h = tt
  All-left (x ∷ xs) ys h = (h.0, All-left xs ys h.1)

  All-right : (xs ys : List A) → All P (xs ++ ys) → All P ys
  All-right [] ys h = h
  All-right (x ∷ xs) ys h = All-right xs ys h.1

  All-replace : (xs ys : List A) (y z : A) → P z → All P (xs ++ (y ∷ ys)) → All P (xs ++ (z ∷ ys))
  All-replace xs ys y z h k =
      All-append xs (z ∷ ys) (All-left xs (y ∷ ys) k) (h, (All-right xs (y ∷ ys) k).1)

  at_place : (xs ys : List A) (y : A) → All P (xs ++ (y ∷ ys)) → P y
  at_place xs ys y h = (All-right xs (y ∷ ys) h).0

module _ {S : Type 0} (o : Operations S) (laws : Seeks o) where
  -- All the cursors have the number.
  abbrev pub AllHave : List S → ℕ → Type 0
  AllHave cs x = All (λ c. laws.Has c x) cs

  -- The cursors that have been found to stand at `id`.
  abbrev pub At : ℕ → S → Type 0
  At id c = (o.current c ≡ id) × laws.Has c id

  abbrev pub HeadSettled : List S → Type 0
  HeadSettled [] = Unit
  HeadSettled (c ∷ cs) = laws.Settled c

  HeadSettled-replace :
      (front rest : List S) (c d : S)
      → (laws.Settled c → laws.Settled d)
      → HeadSettled (front ++ (c ∷ rest))
      → HeadSettled (front ++ (d ∷ rest))
  HeadSettled-replace [] rest c d f h = f h
  HeadSettled-replace (e ∷ front) rest c d f h = h

  -- What the loop leaves.
  pub record Found (cs : List S) (id r : ℕ) (left : List S) : Type 0 where
    pub good : All laws.Good left
    pub least : Least (AllHave cs) id r
    pub keeps : r ≢ 0 → SameFrom r (AllHave cs) (AllHave left)
    pub at_it : r ≢ 0 → All (At r) left
    pub size : length left ≡ length cs
    pub settled : r ≢ 0 → HeadSettled cs → HeadSettled left

  AllHave-replace :
      (front rest : List S) (c d : S) (id : ℕ)
      → SameFrom id (laws.Has c) (laws.Has d)
      → SameFrom id (AllHave (front ++ (c ∷ rest))) (AllHave (front ++ (d ∷ rest)))
  AllHave-replace front rest c d id same x l = (
    (λ h.
        All-replace (λ e. laws.Has e x) front rest c d
          ((same x l).0 (at_place (λ e. laws.Has e x) front rest c h)) h),
    (λ h.
        All-replace (λ e. laws.Has e x) front rest d c
          ((same x l).1 (at_place (λ e. laws.Has e x) front rest d h)) h),
  )

  length-replace :
      (front rest : List S) (c d : S) → length (front ++ (c ∷ rest)) ≡ length (front ++ (d ∷ rest))
  length-replace front rest c d =
      omega (arith, length-append {0} front (c ∷ rest), length-append {0} front (d ∷ rest))

  At-AllHave : (id : ℕ) (front : List S) → All (At id) front → AllHave front id
  At-AllHave id [] h = tt
  At-AllHave id (c ∷ front) h = (h.0.1, At-AllHave id front h.1)

  -- The search goes on from a number below which there is nothing.
  go_on-Found :
      {cs ds left : List S} {id id2 r : ℕ}
      → id ≤ id2
      → SameFrom id (AllHave cs) (AllHave ds)
      → ((x : ℕ) → id ≤ x → AllHave cs x → id2 ≤ x)
      → length cs ≡ length ds
      → (HeadSettled cs → HeadSettled ds)
      → Found ds id2 r left
      → Found cs id r left
  go_on-Found {id = id} {id2 = id2} {r = r} l same above size heads f = record {
    good = f.good;
    least = record {
      in_it = λ ne.
          let (le, have) = f.least.in_it ne in
          let from : id ≤ r = omega arith in (from, (same r from).1 have);
      least = λ x le h. f.least.least x (above x le h) ((same x le).0 h);
    };
    keeps = λ ne x le.
        let (le2, have) = f.least.in_it ne in
        let from : id ≤ x = omega arith in
        (
          (λ h. (f.keeps ne x le).0 ((same x from).0 h)),
          (λ h. (same x from).1 ((f.keeps ne x le).1 h)),
        );
    at_it = f.at_it;
    size = f.size ∙ sym size;
    settled = λ ne h. f.settled ne (heads h);
  }

  none_left-Found :
      (cs left : List S) (id : ℕ)
      → All laws.Good left
      → length left ≡ length cs
      → ((x : ℕ) → id ≤ x → AllHave cs x → ⊥)
      → Found cs id 0 left
  none_left-Found cs left id good size nothing = record {
    good = good;
    least = record { in_it = λ ne. absurd (ne refl); least = λ x le h. absurd (nothing x le h) };
    keeps = λ ne. absurd (ne refl);
    at_it = λ ne. absurd (ne refl);
    size = size;
    settled = λ ne. absurd (ne refl);
  }

  all_at-Found :
      (front : List S) (id : ℕ)
      → 0 < id
      → All laws.Good front
      → All (At id) front
      → Found front id id front
  all_at-Found front id p good stand = record {
    good = good;
    least = record {
      in_it = λ ne. (omega arith, At-AllHave id front stand);
      least = λ x le h. (omega arith, le);
    };
    keeps = λ ne x le. ((λ h. h), (λ h. h));
    at_it = λ ne. stand;
    size = refl;
    settled = λ ne h. h;
  }

  -- How many rounds are left at most, with `m` for the number of cursors and one more.
  abbrev pub Rounds : ℕ → ℕ → ℕ → ℕ → Type 0
  Rounds m id l fuel = (2 ^ 32 - id) * m + l ≤ fuel

  Rounds-reset :
      (m id id2 l l2 fuel : ℕ)
      → suc id < id2
      → id2 < 2 ^ 32
      → l2 < m
      → Rounds m (suc id) (suc l) (suc fuel)
      → Rounds m id2 l2 fuel
  Rounds-reset m id id2 l l2 fuel h b k e =
      let less : suc (2 ^ 32 - id2) ≤ 2 ^ 32 - suc id = omega arith in
      let product : (2 ^ 32 - id2) * m + m ≤ (2 ^ 32 - suc id) * m =
        subst (λ p. p ≤ (2 ^ 32 - suc id) * m) (suc-mul (2 ^ 32 - id2) m)
          (mul-le-mul_right m less) in
      omega (arith, e, product)

  -- What the loop gives.
  abbrev pub Result : Option (ℕ × List S) → List S → ℕ → Type 0
  Result out cs id = (r : ℕ) × (left : List S) × (out ≡ some (r, left)) × Found cs id r left

  Result-map :
      {out : Option (ℕ × List S)} {cs ds : List S} {id id2 : ℕ}
      → ((r : ℕ) (left : List S) → Found cs id r left → Found ds id2 r left)
      → Result out cs id
      → Result out ds id2
  Result-map f (r, left, e, h) = (r, left, e, f r left h)

  module _ (fuel id : ℕ) (front rest : List S) (c : S) where
    abbrev on : ℕ → Bool → Option (ℕ × List S)
    on id2 same =
        let moved = o.advance_to c (suc id) in
        and_loop o fuel id2 (if same then front ++ (moved ∷ []) else [])
          (if same then rest else front ++ (moved ∷ rest))

    and_loop-on :
        and_loop o (suc fuel) (suc id) front (c ∷ rest)
        ≡ on (o.current (o.advance_to c (suc id))) (suc id == o.current (o.advance_to c (suc id)))
    unfolding and_loop
    and_loop-on = refl

    and_loop-hit :
        o.current (o.advance_to c (suc id)) ≡ suc id
        → and_loop o (suc fuel) (suc id) front (c ∷ rest)
          ≡ and_loop o fuel (suc id) (front ++ (o.advance_to c (suc id) ∷ [])) rest
    and_loop-hit h =
        and_loop-on ∙ ap₂ on h (eq→== (suc id) (o.current (o.advance_to c (suc id))) (sym h))

    and_loop-miss :
        (suc id == o.current (o.advance_to c (suc id))) ≡ false
        → and_loop o (suc fuel) (suc id) front (c ∷ rest)
          ≡ and_loop o fuel
              (o.current (o.advance_to c (suc id)))
              []
              (front ++ (o.advance_to c (suc id) ∷ rest))
    and_loop-miss h = and_loop-on ∙ ap (on (o.current (o.advance_to c (suc id)))) h

  -- The loop, from a number that is not 0 on, with enough rounds.
  abbrev pub Correct : ℕ → Type 0
  Correct fuel =
      (id : ℕ) (front rest : List S) (m : ℕ)
      → length (front ++ rest) < m
      → Rounds m (suc id) (length rest) fuel
      → All laws.Good (front ++ rest)
      → All (At (suc id)) front
      → Result (and_loop o fuel (suc id) front rest) (front ++ rest) (suc id)

  module _ (fuel id m : ℕ) (front rest : List S) (c : S) (fit : length (front ++ (c ∷ rest)) < m)
      (enough : Rounds m (suc id) (suc (length rest)) (suc fuel))
      (good : All laws.Good (front ++ (c ∷ rest))) (stand : All (At (suc id)) front)
      (ih : Correct fuel) where
    abbrev moved : S
    moved = o.advance_to c (suc id)

    is_good : laws.Good c
    is_good = at_place laws.Good front rest c good

    abbrev found : Least (laws.Has c) (suc id) (o.current moved)
    found = laws.to c (suc id) is_good (omega arith)

    keep : SameFrom (suc id) (laws.Has c) (laws.Has moved)
    keep = laws.to_keeps c (suc id) is_good (omega arith)

    moved_good : All laws.Good (front ++ (moved ∷ rest))
    moved_good =
        All-replace laws.Good front rest c moved (laws.to_good c (suc id) is_good (omega arith))
          good

    has_it : {x : ℕ} → AllHave (front ++ (c ∷ rest)) x → laws.Has c x
    has_it {x} h = at_place (λ e. laws.Has e x) front rest c h

    hit :
        o.current moved ≡ suc id
        → Result (and_loop o (suc fuel) (suc id) front (c ∷ rest)) (front ++ (c ∷ rest)) (suc id)
    hit e =
        let have : laws.Has moved (suc id) =
          (keep (suc id) (omega arith)).0
            (subst (laws.Has c) e (found.in_it (λ z. absurd (omega (arith, e, z)))).1) in
        let joined = append_assoc front (moved ∷ []) rest in
        let size = length-replace front rest c moved in
        let r =
          ih id (front ++ (moved ∷ [])) rest m (omega (arith, ap length joined, size)) (omega arith)
            (subst⁻¹ (All laws.Good) joined moved_good)
            (All-append (At (suc id)) front (moved ∷ []) stand ((e, have), tt)) in
        subst⁻¹ (λ out. Result out (front ++ (c ∷ rest)) (suc id))
          (and_loop-hit fuel id front rest c e)
          (Result-map
            (λ r left f.
              go_on-Found (omega arith) (AllHave-replace front rest c moved (suc id) keep)
                (λ x le h. le) size
                (HeadSettled-replace front rest c moved (λ t.
                  laws.to_settled c (suc id) is_good (omega arith) t
                    (λ z. absurd (omega (arith, e, z)))))
                (subst (λ ds. Found ds (suc id) r left) joined f))
            r)

    miss :
        (id2 : ℕ)
        → o.current moved ≡ id2
        → (suc id == o.current moved) ≡ false
        → Result (and_loop o (suc fuel) (suc id) front (c ∷ rest)) (front ++ (c ∷ rest)) (suc id)
    unfolding and_loop
    miss zero e ne = (
      0,
      front ++ (moved ∷ rest),
      and_loop-miss fuel id front rest c ne
          ∙ ap (λ k. and_loop o fuel k [] (front ++ (moved ∷ rest))) e,
      none_left-Found (front ++ (c ∷ rest)) (front ++ (moved ∷ rest)) (suc id) moved_good
          (sym (length-replace front rest c moved)) (λ x le h. (found.least x le (has_it h)).0 e),
    )
    miss (suc id2) e ne =
        let (above, have) = found.in_it (λ z. absurd (omega (arith, e, z))) in
        let more : suc id < suc id2 = ground (arith, above, e, ne) in
        let small : suc id2 < 2 ^ 32 =
          omega (arith, e, laws.bound c (o.current moved) is_good have) in
        let size = length-replace front rest c moved in
        let r =
          ih id2 [] (front ++ (moved ∷ rest)) m (omega (arith, size))
            (Rounds-reset m id (suc id2) (length rest) (length (front ++ (moved ∷ rest))) fuel more
              small (omega (arith, size)) enough)
            moved_good tt in
        subst⁻¹ (λ out. Result out (front ++ (c ∷ rest)) (suc id))
          (and_loop-miss fuel id front rest c ne
            ∙ ap (λ k. and_loop o fuel k [] (front ++ (moved ∷ rest))) e)
          (Result-map
            (λ r left f.
              go_on-Found (omega arith) (AllHave-replace front rest c moved (suc id) keep)
                (λ x le h. omega (arith, e, (found.least x le (has_it h)).1)) size
                (HeadSettled-replace front rest c moved (λ t.
                  laws.to_settled c (suc id) is_good (omega arith) t
                    (λ z. absurd (omega (arith, e, z)))))
                f)
            r)

  pub and_loop-Correct : (fuel : ℕ) → Correct fuel
  unfolding and_loop
  and_loop-Correct fuel id front [] m fit enough good stand = (
    suc id,
    front,
    refl,
    subst⁻¹ (λ cs. Found cs (suc id) (suc id) front) (append-nil front)
        (all_at-Found front (suc id) (omega arith) (subst (All laws.Good) (append-nil front) good)
          stand),
  )
  and_loop-Correct zero id front (c ∷ rest) m fit enough good stand = absurd (omega (arith, enough))
  and_loop-Correct (suc fuel) id front (c ∷ rest) m fit enough good stand =
      elim (Bool-cases (suc id == o.current (o.advance_to c (suc id)))) [
        | inl e ↦
            hit fuel id m front rest c fit enough good stand (and_loop-Correct fuel)
              (sym (==→eq (suc id) (o.current (o.advance_to c (suc id))) e))
        | inr e ↦
            miss fuel id m front rest c fit enough good stand (and_loop-Correct fuel)
              (o.current (o.advance_to c (suc id))) refl e
      ]
