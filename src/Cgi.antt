-- ===== src/Cgi.antt =====
-- src/ac-connect/ac_cgi.c: the query string of an address, decoded and indexed by key. The tree of
-- the-macro-library that holds the keys is a parameter, with what the code relies on as laws.
pub mod Decode
pub mod Query
use another_c_library.Prelude.{
  ℕ, zero, suc, ◌+◌, Bool, true, false, List, [], ◌∷◌, ◌++◌, Option, none, some, ◌≡◌, ◌==◌,
  if◌then◌else◌, Bytes, length, get_or, set,
}
use another_c_library.Prelude.Outcome.{Outcome, done, out_of_fuel}
use another_c_library.Cgi.Decode.{decode}

-- cgi_find and cgi_insert, of a tree of nodes that are known by number; `same` says that
-- strcasecmp answers 0.
pub record Tree : Type 1 where
  pub Root : Type 0
  pub empty : Root
  pub find : Bytes → Root → Option ℕ
  pub insert : Bytes → ℕ → Root → Root
  pub same : Bytes → Bytes → Bool
  pub same-refl : (k : Bytes) → same k k ≡ true
  pub same-sym : (j k : Bytes) → same j k ≡ true → same k j ≡ true
  pub same-trans : (i j k : Bytes) → same i j ≡ true → same j k ≡ true → same i k ≡ true
  pub find-empty : (k : Bytes) → find k empty ≡ none
  pub find-insert :
      (j k : Bytes) (n : ℕ) (t : Root)
      → find j t ≡ none
      → find k (insert j n t) ≡ (if same k j then some n else find k t)
  pub find-same : (j k : Bytes) (t : Root) → same j k ≡ true → find j t ≡ find k t

-- value_t and the values of a cgi_node_t, from `head` to `tail`.
pub record Value : Type 0 where
  pub value : Bytes
  pub decoded : Bytes

-- Where the first `c` is: what is before it, and what is behind it, if there is one.
abbrev pub cut : ℕ → Bytes → Bytes × Option Bytes
cut c [] = ([], none)
cut c (d ∷ s) = let rest = cut c s in if d == c then ([], some s) else (d ∷ rest.0, rest.1)

abbrev pub ampersand : ℕ
ampersand = 38

abbrev pub equals : ℕ
equals = 61

abbrev pub question : ℕ
question = 63

-- What a loop goes on with: nothing, if it has reached the end.
abbrev pub behind : Option Bytes → Bytes
behind none = []
behind (some rest) = rest

module _ (tree : Tree) where
  -- ac_cgi_t, with the nodes in the order in which they were made.
  pub record Cgi : Type 0 where
    pub root : tree.Root
    pub nodes : List (List Value)

  abbrev pub values_of : Option Bytes → List Value
  values_of none = []
  values_of (some v) = record { value = v; decoded = decode v } ∷ []

  -- The node of the key, a new one if there is none, is given the value, if there is one.
  abbrev pub put : Bytes → Option Bytes → Option ℕ → Cgi → Cgi
  put k v none h = record h {
    root = tree.insert k (length h.nodes) h.root;
    nodes = h.nodes ++ values_of v ∷ [];
  }
  put k v (some n) h = record h { nodes = set h.nodes n (get_or h.nodes n [] ++ values_of v) }

  unfoldable pub add_key_value : Cgi → Bytes → Cgi
  add_key_value h [] = h
  add_key_value h (c ∷ kv) =
      if c == equals
      then h
      else let parts = cut equals (c ∷ kv) in put parts.0 parts.1 (tree.find parts.0 h.root) h

  -- The loop over what is behind `?`, or over the whole query.
  abbrev pub add_all : ℕ → Bytes → Cgi → Outcome Cgi
  add_all fuel [] h = done h
  add_all zero (c ∷ p) h = out_of_fuel
  add_all (suc fuel) (c ∷ p) h =
      let part = cut ampersand (c ∷ p) in add_all fuel (behind part.1) (add_key_value h part.0)

  abbrev pub after_question : Bytes → Bytes
  after_question q = elim (cut question q).1 [ none ↦ q | some p ↦ p ]

  unfoldable pub init : Bytes → Outcome Cgi
  init q = add_all (length q) (after_question q) (record { root = tree.empty; nodes = [] })

  abbrev pub at_node : List (List Value) → Option ℕ → List Value
  at_node nodes none = []
  at_node nodes (some n) = get_or nodes n []

  -- The values of a key, from the node that cgi_find returns.
  abbrev pub values : Cgi → Bytes → List Value
  values h k = at_node h.nodes (tree.find k h.root)

  abbrev pub decoded_all : List Value → List Bytes
  decoded_all [] = []
  decoded_all (v ∷ vs) = v.decoded ∷ decoded_all vs

  -- `none` is NULL.
  unfoldable pub strs : Cgi → Bytes → Option (List Bytes)
  strs h k = elim (values h k) [ [] ↦ none | (v ∷ vs) ↦ some (decoded_all (v ∷ vs)) ]

  -- ac_cgi_str, and the same for numbers and Boolean values: `conv` is the conversion of ac_conv.
  unfoldable pub get : {A : Type 0} → (Bytes → A → A) → Cgi → Bytes → A → A
  get conv h k default_value = elim (values h k) [
    | [] ↦ default_value
    | (v ∷ vs) ↦ conv v.decoded default_value
  ]
