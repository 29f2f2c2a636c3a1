-- ===== src/InBase/Scan.antt =====
-- The search for a delimiter, in a text that is cut in two.
use another_c_library.Prelude.{
  ℕ, ◌+◌, ◌≤◌, ◌<◌, ◌≡◌, refl, sym, ap, ◌∙◌, arith, Bool, true, false, not, ◌&&◌, Option, none,
  some, [], ◌∷◌, ◌++◌, if◌then◌else◌, ltb, ◌==◌, Bool-cases, inl, inr, Bytes, length,
}
use another_c_library.InBase.{scan}

module _ (csv : Bool) (delim : ℕ) where
  -- The index is one of the text.
  pub scan_within :
      (quoted : Bool) (xs : Bytes) (i n : ℕ)
      → scan csv delim quoted xs i ≡ some n
      → (i ≤ n) × (n < i + length xs)
  unfolding scan
  scan_within quoted [] i n h = absurd (ground (arith, h))
  scan_within false (c ∷ cs) i n h = ground (arith, scan_within (c == b'"' && csv) cs (i + 1) n)
  scan_within true (c ∷ []) i n h = absurd (ground (arith, h))
  scan_within true (c ∷ d ∷ cs) i n h = ground (
    arith,
    scan_within true (d ∷ cs) (i + 1) n,
    scan_within true cs (i + 2) n,
    scan_within false (d ∷ cs) (i + 1) n,
  )

  -- What follows does not change what is found.
  pub scan-append :
      (quoted : Bool) (xs ys : Bytes) (i n : ℕ)
      → scan csv delim quoted xs i ≡ some n
      → scan csv delim quoted (xs ++ ys) i ≡ some n
  unfolding scan
  scan-append quoted [] ys i n h = absurd (ground (arith, h))
  scan-append false (c ∷ cs) ys i n h =
      ground (arith, scan-append (c == b'"' && csv) cs ys (i + 1) n)
  scan-append true (c ∷ []) ys i n h = absurd (ground (arith, h))
  scan-append true (c ∷ d ∷ cs) ys i n h = ground (
    arith,
    scan-append true (d ∷ cs) ys (i + 1) n,
    scan-append true cs ys (i + 2) n,
    scan-append false (d ∷ cs) ys (i + 1) n,
  )

  -- What is not found in the first part is found behind it.
  pub scan-append_behind :
      (quoted : Bool) (xs ys : Bytes) (i n : ℕ)
      → scan csv delim quoted xs i ≡ none
      → scan csv delim quoted (xs ++ ys) i ≡ some n
      → i + length xs ≤ n
  unfolding scan
  scan-append_behind quoted [] ys i n h k = omega (arith, scan_within quoted ys i n k)
  scan-append_behind false (c ∷ cs) ys i n h k =
      ground (arith, scan-append_behind (c == b'"' && csv) cs ys (i + 1) n)
  scan-append_behind true (c ∷ []) [] i n h k = absurd (ground (arith, k))
  scan-append_behind true (c ∷ []) (d ∷ ys) i n h k = ground (
    arith,
    scan_within true (d ∷ ys) (i + 1) n,
    scan_within true ys (i + 2) n,
    scan_within false (d ∷ ys) (i + 1) n,
  )
  scan-append_behind true (c ∷ d ∷ cs) ys i n h k = ground (
    arith,
    scan-append_behind true (d ∷ cs) ys (i + 1) n,
    scan-append_behind true cs ys (i + 2) n,
    scan-append_behind false (d ∷ cs) ys (i + 1) n,
  )

-- Where quotes are like any other byte.
abbrev pub plain : ℕ → Bytes → ℕ → Option ℕ
plain delim xs i = scan false delim false xs i

-- A byte that ends a record.
abbrev pub stops : ℕ → ℕ → Bool
stops delim c = not (c == b'"') && (ltb c 128 && c == delim)

pub plain-step :
    (delim c : ℕ) (cs : Bytes) (i : ℕ)
    → plain delim (c ∷ cs) i ≡ (if stops delim c then some i else plain delim cs (i + 1))
unfolding scan
plain-step delim c cs i = elim (Bool-cases (c == b'"')) [ inl e ↦ rw e refl | inr e ↦ rw e refl ]

pub plain-nil : (delim i : ℕ) → plain delim [] i ≡ none
unfolding scan
plain-nil delim i = refl

pub plain-stop :
    (delim c : ℕ) (cs : Bytes) (i : ℕ) → stops delim c ≡ true → plain delim (c ∷ cs) i ≡ some i
plain-stop delim c cs i e =
    plain-step delim c cs i ∙ ap (λ b. if b then some i else plain delim cs (i + 1)) e

pub plain-go :
    (delim c : ℕ) (cs : Bytes) (i : ℕ)
    → stops delim c ≡ false
    → plain delim (c ∷ cs) i ≡ plain delim cs (i + 1)
plain-go delim c cs i e =
    plain-step delim c cs i ∙ ap (λ b. if b then some i else plain delim cs (i + 1)) e

pub plain-append :
    (delim : ℕ) (xs ys : Bytes) (i : ℕ)
    → plain delim xs i ≡ none
    → plain delim (xs ++ ys) i ≡ plain delim ys (i + length xs)
plain-append delim [] ys i h = ap (plain delim ys) (omega arith)
plain-append delim (c ∷ cs) ys i h = elim (Bool-cases (stops delim c)) [
  | inl e ↦ absurd (ground (arith, sym (plain-stop delim c cs i e) ∙ h))
  | inr e ↦
      plain-go delim c (cs ++ ys) i e
      ∙ plain-append delim cs ys (i + 1) (sym (plain-go delim c cs i e) ∙ h)
      ∙ ap (plain delim ys) (omega arith)
]

abbrev pub shift : ℕ → Option ℕ → Option ℕ
shift i none = none
shift i (some n) = some (i + n)

pub plain-shift :
    (delim : ℕ) (xs : Bytes) (k i : ℕ) → plain delim xs (k + i) ≡ shift k (plain delim xs i)
unfolding scan
plain-shift delim [] k i = refl
plain-shift delim (c ∷ cs) k i = elim (Bool-cases (stops delim c)) [
  | inl e ↦ plain-stop delim c cs (k + i) e ∙ ap (shift k) (sym (plain-stop delim c cs i e))
  | inr e ↦
      plain-go delim c cs (k + i) e
      ∙ ap (plain delim cs) (omega arith)
      ∙ plain-shift delim cs k (i + 1)
      ∙ ap (shift k) (sym (plain-go delim c cs i e))
]
