-- ===== src/Cgi/Query.antt =====
-- What a query answers: the values of a key, in the order of the query.
use another_c_library.Prelude.{
  ℕ, zero, suc, ◌≤◌, ◌<◌, Bool, true, false, List, [], ◌∷◌, ◌++◌, append_assoc, append-nil, map,
  Option, none, some, ◌≡◌, ◌≢◌, refl, sym, ap, ◌∙◌, arith, ◌⊎◌, inl, inr, Bool-cases, ◌==◌,
  if◌then◌else◌, Bytes, length, length-append, length-set, get_or, get_or_append, get_or_left,
  get_or-set, get_or-set_ne, set,
}
use mathlib.Core.Bool.{false≢true}
use mathlib.Core.Path.{subst}
use another_c_library.Prelude.Outcome.{done}
use another_c_library.Cgi.{
  Tree, Value, Cgi, behind, cut, ampersand, equals, question, values_of, put, add_key_value,
  add_all, after_question, init, at_node, values, decoded_all, strs, get,
}

abbrev join_first : ℕ → List Bytes → List Bytes
join_first d [] = (d ∷ []) ∷ []
join_first d (p ∷ ps) = (d ∷ p) ∷ ps

-- All that stands between two `c`.
abbrev pub parts : ℕ → Bytes → List Bytes
parts c [] = [] ∷ []
parts c (d ∷ s) = let rest = parts c s in if d == c then [] ∷ rest else join_first d rest

Option-cases : {A : Type 0} (o : Option A) → (o ≡ none) ⊎ ((a : A) × (o ≡ some a))
Option-cases none = inl refl
Option-cases (some a) = inr (a, refl)

none-some : {A : Type 0} {a : A} → ¬ (none ≡ some a)
none-some e = subst is_none e tt
  where
    is_none : {A : Type 0} → Option A → Type 0
    is_none none = Unit
    is_none (some a) = ⊥

-- `cut` of `d ∷ s`, for the answer of its test.
abbrev cut_at : ℕ → ℕ → Bytes → Bool → Bytes × Option Bytes
cut_at c d s b = if b then ([], some s) else (d ∷ (cut c s).0, (cut c s).1)

behind-length : (c : ℕ) (s : Bytes) → length (behind (cut c s).1) ≤ length s
behind-length c [] = omega arith
behind-length c (d ∷ s) = go (d == c) (behind-length c s)
  where
    go :
        (b : Bool)
        → length (behind (cut c s).1) ≤ length s
        → length (behind (cut_at c d s b).1) ≤ suc (length s)
    go true h = omega arith
    go false h = omega arith

cut-length : (c d : ℕ) (s : Bytes) → length (behind (cut c (d ∷ s)).1) ≤ length s
cut-length c d s = go (d == c)
  where
    go : (b : Bool) → length (behind (cut_at c d s b).1) ≤ length s
    go true = omega arith
    go false = behind-length c s

-- The parts are the first one and those of what is behind it.
parts-cut :
    (c : ℕ) (s : Bytes)
    → parts c s ≡ (cut c s).0 ∷ (elim (cut c s).1 [ none ↦ [] | some rest ↦ parts c rest ])
parts-cut c [] = refl
parts-cut c (d ∷ s) = go (d == c) (parts-cut c s)
  where
    go :
        (b : Bool)
        → parts c s ≡ (cut c s).0 ∷ (elim (cut c s).1 [ none ↦ [] | some rest ↦ parts c rest ])
        → (if b then [] ∷ parts c s else join_first d (parts c s))
          ≡ (cut_at c d s b).0 ∷ (elim (cut_at c d s b).1 [ none ↦ [] | some rest ↦ parts c rest ])
    go true h = refl
    go false h = ap (join_first d) h

some_inj : {A : Type 0} {a b : A} → some a ≡ some b → a ≡ b
some_inj {A} {a} e = ap (λ o. elim o [ none ↦ a | some c ↦ c ]) e

module _ (tree : Tree) where
  -- What a part of the query gives to a key.
  abbrev pub given : Bytes → Bytes → List Value
  given k [] = []
  given k (c ∷ kv) =
      if c == equals
      then []
      else let p = cut equals (c ∷ kv) in if tree.same k p.0 then values_of tree p.1 else []

  abbrev pub chosen : Bytes → List Bytes → List Value
  chosen k [] = []
  chosen k (p ∷ ps) = given k p ++ chosen k ps

  -- The nodes hold these values; a number in the tree is that of a node, and of one key.
  pub record Indexes (h : Cgi tree) (vals : Bytes → List Value) : Type 0 where
    pub held : (k : Bytes) → values tree h k ≡ vals k
    pub bounded : (k : Bytes) (n : ℕ) → tree.find k h.root ≡ some n → n < length h.nodes
    pub apart :
        (j k : Bytes) (n : ℕ)
        → tree.find j h.root ≡ some n
        → tree.find k h.root ≡ some n
        → tree.same j k ≡ true

  Indexes-eq :
      (h : Cgi tree) (vals new : Bytes → List Value)
      → ((k : Bytes) → vals k ≡ new k)
      → Indexes h vals
      → Indexes h new
  Indexes-eq h vals new e i = record {
    held = λ k. i.held k ∙ e k;
    bounded = i.bounded;
    apart = i.apart;
  }

  unchanged :
      (h : Cgi tree) (vals : Bytes → List Value) → Indexes h vals → Indexes h (λ k. vals k ++ [])
  unchanged h vals i = Indexes-eq h vals (λ k. vals k ++ []) (λ k. sym (append-nil (vals k))) i

  start : Indexes (record { root = tree.empty; nodes = [] }) (λ k. [])
  start = record {
    held = λ k. ap (at_node tree []) (tree.find-empty k);
    bounded = λ k n f. absurd (none-some (sym (tree.find-empty k) ∙ f));
    apart = λ j k n f g. absurd (none-some (sym (tree.find-empty k) ∙ g));
  }

  chosen-cut :
      (k s : Bytes)
      → given k (cut ampersand s).0 ++ chosen k (parts ampersand (behind (cut ampersand s).1))
        ≡ chosen k (parts ampersand s)
  chosen-cut k s = go (cut ampersand s).1 ∙ ap (chosen k) (sym (parts-cut ampersand s))
    where
      first : List Value
      first = given k (cut ampersand s).0

      go :
          (o : Option Bytes)
          → first ++ chosen k (parts ampersand (behind o))
            ≡ first ++ chosen k (elim o [ none ↦ [] | some rest ↦ parts ampersand rest ])
      go none = refl
      go (some rest) = refl

  after_question-length : (q : Bytes) → length (after_question tree q) ≤ length q
  after_question-length q = go (cut question q).1 (behind-length question q)
    where
      go :
          (o : Option Bytes)
          → length (behind o) ≤ length q
          → length (elim o [ none ↦ q | some p ↦ p ]) ≤ length q
      go none h = omega arith
      go (some p) h = h

  module _ (h : Cgi tree) (vals : Bytes → List Value) (key : Bytes) (v : Option Bytes)
      (i : Indexes h vals) where
    abbrev given_value : Bool → List Value
    given_value b = if b then values_of tree v else []

    nothing : (k : Bytes) → tree.find k h.root ≡ none → vals k ≡ []
    nothing k e = sym (i.held k) ∙ ap (at_node tree h.nodes) e

    there : (k : Bytes) (n : ℕ) → tree.find k h.root ≡ some n → get_or h.nodes n [] ≡ vals k
    there k n e = sym (ap (at_node tree h.nodes) e) ∙ i.held k

    -- One key after the change: where it is found, and whether it is the one that was added.
    held_as :
        (ns : List (List Value)) (o : Option ℕ) (k : Bytes) (b : Bool)
        → tree.same k key ≡ b
        → at_node tree ns o ≡ vals k ++ given_value b
        → at_node tree ns o ≡ vals k ++ given_value (tree.same k key)
    held_as ns o k b s e = e ∙ ap (λ c. vals k ++ given_value c) (sym s)

    new-held :
        tree.find key h.root ≡ none
        → (k : Bytes)
        → values tree (put tree key v none h) k ≡ vals k ++ given_value (tree.same k key)
    new-held e k =
        let ns = h.nodes ++ values_of tree v ∷ [] in
        let f = tree.find-insert key k (length h.nodes) h.root e in
        elim (Bool-cases (tree.same k key)) [
          | inl s ↦
              ap (at_node tree ns)
                (f ∙ ap (λ b. if b then some (length h.nodes) else tree.find k h.root) s)
              ∙ get_or_append h.nodes (values_of tree v ∷ []) []
              ∙ ap (λ l. l ++ values_of tree v)
                  (sym (nothing k (tree.find-same k key h.root s ∙ e)))
              ∙ ap (λ b. vals k ++ given_value b) (sym s)
          | inr s ↦
              ap (at_node tree ns)
                (f ∙ ap (λ b. if b then some (length h.nodes) else tree.find k h.root) s)
              ∙ same_nodes (tree.find k h.root) refl
              ∙ sym (append-nil (vals k))
              ∙ ap (λ b. vals k ++ given_value b) (sym s)
        ]
      where
        same_nodes :
            (o : Option ℕ)
            → tree.find k h.root ≡ o
            → at_node tree (h.nodes ++ values_of tree v ∷ []) o ≡ vals k
        same_nodes none e2 = sym (nothing k e2)
        same_nodes (some n) e2 =
            get_or_left h.nodes (values_of tree v ∷ []) n [] (i.bounded k n e2) ∙ there k n e2

    apart_ne :
        (j k : Bytes) (m n : ℕ)
        → tree.find j h.root ≡ some m
        → tree.find k h.root ≡ some n
        → tree.same k j ≡ false
        → m ≢ n
    apart_ne j k m n e f s z = absurd (false≢true (sym s ∙ i.apart k j n f (e ∙ ap some z)))

    old-held :
        (m : ℕ)
        → tree.find key h.root ≡ some m
        → (k : Bytes)
        → values tree (put tree key v (some m) h) k ≡ vals k ++ given_value (tree.same k key)
    old-held m e k = elim (Bool-cases (tree.same k key)) [
      | inl s ↦
          let f = tree.find-same k key h.root s ∙ e in
          ap (at_node tree ns) f
          ∙ get_or-set h.nodes m (get_or h.nodes m [] ++ values_of tree v) [] (i.bounded key m e)
          ∙ ap (λ l. l ++ values_of tree v) (there k m f)
          ∙ ap (λ b. vals k ++ given_value b) (sym s)
      | inr s ↦
          same_nodes s (tree.find k h.root) refl
          ∙ sym (append-nil (vals k))
          ∙ ap (λ b. vals k ++ given_value b) (sym s)
    ]
      where
        ns : List (List Value)
        ns = set h.nodes m (get_or h.nodes m [] ++ values_of tree v)

        same_nodes :
            tree.same k key ≡ false
            → (o : Option ℕ) → tree.find k h.root ≡ o
            → at_node tree ns o ≡ vals k
        same_nodes s none f = sym (nothing k f)
        same_nodes s (some n) f =
            get_or-set_ne h.nodes m n (get_or h.nodes m [] ++ values_of tree v) []
              (apart_ne key k m n e f s)
            ∙ there k n f

    -- A number that is found in the tree with the new key is the new one, or an old one.
    new_found :
        tree.find key h.root ≡ none
        → (k : Bytes) (n : ℕ) → tree.find k (tree.insert key (length h.nodes) h.root) ≡ some n
        → (tree.same k key ≡ true × n ≡ length h.nodes) ⊎ (tree.find k h.root ≡ some n)
    new_found e k n f = elim (Bool-cases (tree.same k key)) [
      | inl s ↦ inl (
        s,
        some_inj (
            sym f
            ∙ tree.find-insert key k (length h.nodes) h.root e
            ∙ ap (λ b. if b then some (length h.nodes) else tree.find k h.root) s),
      )
      | inr s ↦ inr (
          sym (ap (λ b. if b then some (length h.nodes) else tree.find k h.root) s)
          ∙ sym (tree.find-insert key k (length h.nodes) h.root e)
          ∙ f)
    ]

    put_new-Indexes :
        tree.find key h.root ≡ none
        → Indexes (put tree key v none h) (λ k. vals k ++ given_value (tree.same k key))
    put_new-Indexes e = record {
      held = new-held e;
      bounded = λ k n f. elim (new_found e k n f) [
        | inl p ↦ omega (arith, p.1, length-append {0} h.nodes (values_of tree v ∷ []))
        | inr g ↦ omega (arith, i.bounded k n g, length-append {0} h.nodes (values_of tree v ∷ []))
      ];
      apart = λ j k n f g. elim (new_found e j n f) [
        | inl p ↦ elim (new_found e k n g) [
          | inl q ↦ tree.same-trans j key k p.0 (tree.same-sym k key q.0)
          | inr b ↦ absurd (omega (arith, p.1, i.bounded k n b))
        ]
        | inr a ↦ elim (new_found e k n g) [
          | inl q ↦ absurd (omega (arith, q.1, i.bounded j n a))
          | inr b ↦ i.apart j k n a b
        ]
      ];
    }

    put_old-Indexes :
        (m : ℕ)
        → tree.find key h.root ≡ some m
        → Indexes (put tree key v (some m) h) (λ k. vals k ++ given_value (tree.same k key))
    put_old-Indexes m e = record {
      held = old-held m e;
      bounded = λ k n f. omega (
        arith,
        i.bounded k n f,
        length-set {0} h.nodes m (get_or h.nodes m [] ++ values_of tree v),
      );
      apart = i.apart;
    }

    put-Indexes :
        (o : Option ℕ)
        → tree.find key h.root ≡ o
        → Indexes (put tree key v o h) (λ k. vals k ++ given_value (tree.same k key))
    put-Indexes none e = put_new-Indexes e
    put-Indexes (some m) e = put_old-Indexes m e

  -- The condition of `add_key_value`, whatever the key and the value are.
  branch-Indexes :
      (h : Cgi tree) (vals : Bytes → List Value) (kv : Bytes × Option Bytes) (b : Bool)
      → Indexes h vals
      → Indexes
          (if b then h else put tree kv.0 kv.1 (tree.find kv.0 h.root) h)
          (λ k. vals k ++ (if b then [] else if tree.same k kv.0 then values_of tree kv.1 else []))
  branch-Indexes h vals kv true i = unchanged h vals i
  branch-Indexes h vals kv false i = put-Indexes h vals kv.0 kv.1 i (tree.find kv.0 h.root) refl

  add_key_value-Indexes :
      (h : Cgi tree) (vals : Bytes → List Value) (part : Bytes)
      → Indexes h vals
      → Indexes (add_key_value tree h part) (λ k. vals k ++ given k part)
  unfolding add_key_value
  add_key_value-Indexes h vals [] i = unchanged h vals i
  add_key_value-Indexes h vals (c ∷ kv) i =
      branch-Indexes h vals (cut equals (c ∷ kv)) (c == equals) i

  -- The parts of what is left of the query.
  add_all-Indexes :
      (fuel : ℕ) (p : Bytes) (h : Cgi tree) (vals : Bytes → List Value)
      → length p ≤ fuel
      → Indexes h vals
      → (t : Cgi tree) × (add_all tree fuel p h ≡ done t)
        × Indexes t (λ k. vals k ++ chosen k (parts ampersand p))
  add_all-Indexes fuel [] h vals e i = (h, refl, unchanged h vals i)
  add_all-Indexes zero (c ∷ p) h vals e i = elim e [ ]
  add_all-Indexes (suc fuel) (c ∷ p) h vals e i =
      let part = (cut ampersand (c ∷ p)).0 in
      let rest = behind (cut ampersand (c ∷ p)).1 in
      let r =
        add_all-Indexes fuel rest (add_key_value tree h part) (λ k. vals k ++ given k part)
          (omega (arith, e, cut-length ampersand c p)) (add_key_value-Indexes h vals part i) in
      (
        r.0,
        r.1,
        Indexes-eq r.0 (λ k. (vals k ++ given k part) ++ chosen k (parts ampersand rest))
            (λ k. vals k ++ chosen k (parts ampersand (c ∷ p)))
            (λ k.
              append_assoc (vals k) (given k part) (chosen k (parts ampersand rest))
              ∙ ap (λ l. vals k ++ l) (chosen-cut k (c ∷ p)))
            r.2,
      )

  -- The index of a query answers a key with what the parts of the query that have it give, in
  -- order, wherever the tree puts them; the loop always has enough fuel.
  pub init-values :
      (q : Bytes)
      → (t : Cgi tree) × (init tree q ≡ done t)
        × ((k : Bytes) → values tree t k ≡ chosen k (parts ampersand (after_question tree q)))
  unfolding init
  init-values q =
      let r =
        add_all-Indexes (length q) (after_question tree q)
          (record { root = tree.empty; nodes = [] }) (λ k. []) (after_question-length q) start in
      (r.0, r.1, λ k. r.2.held k)

  -- The decoded values, NULL if there are none; and the first one, converted.
  abbrev pub answer : List Value → Option (List Bytes)
  answer [] = none
  answer (v ∷ vs) = some (v.decoded ∷ map (λ w. w.decoded) vs)

  abbrev pub answer_first : {A : Type 0} → (Bytes → A → A) → A → List Value → A
  answer_first conv d [] = d
  answer_first conv d (v ∷ vs) = conv v.decoded d

  strs-answer : (h : Cgi tree) (k : Bytes) → strs tree h k ≡ answer (values tree h k)
  unfolding strs
  strs-answer h k = go (values tree h k)
    where
      decoded-map : (vs : List Value) → decoded_all tree vs ≡ map (λ w. w.decoded) vs
      decoded-map [] = refl
      decoded-map (v ∷ vs) = ap (◌∷◌ v.decoded) (decoded-map vs)

      go :
          (vs : List Value)
          → (elim vs [ [] ↦ none | (v ∷ ws) ↦ some (decoded_all tree (v ∷ ws)) ]) ≡ answer vs
      go [] = refl
      go (v ∷ vs) = ap (λ l. some (v.decoded ∷ l)) (decoded-map vs)

  get-answer :
      {A : Type 0} (conv : Bytes → A → A) (h : Cgi tree) (k : Bytes) (d : A)
      → get tree conv h k d ≡ answer_first conv d (values tree h k)
  unfolding get
  get-answer conv h k d = go (values tree h k)
    where
      go :
          (vs : List Value)
          → (elim vs [ [] ↦ d | (v ∷ ws) ↦ conv v.decoded d ]) ≡ answer_first conv d vs
      go [] = refl
      go (v ∷ vs) = refl

  -- For every query the index is made, and for every key, conversion and default, it answers with
  -- all that the query gives to the key, decoded and in order, and with the first of it; with NULL
  -- and with the default, if that is nothing.
  pub init-answers :
      {A : Type 0} (conv : Bytes → A → A) (d : A) (q k : Bytes)
      → (t : Cgi tree) × (init tree q ≡ done t)
        × (strs tree t k ≡ answer (chosen k (parts ampersand (after_question tree q))))
        × (get tree conv t k d
            ≡ answer_first conv d (chosen k (parts ampersand (after_question tree q))))
  init-answers conv d q k =
      let r = init-values q in
      (
        r.0,
        r.1,
        strs-answer r.0 k ∙ ap answer (r.2 k),
        get-answer conv r.0 k d ∙ ap (answer_first conv d) (r.2 k),
      )
