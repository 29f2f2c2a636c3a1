-- ===== src/InBase/Csv.antt =====
-- Records of fields between quotes: ac_in_base_read_delimited with a delimiter from 256 on, on what
-- ac_pool_csv_encode writes, and ac_pool_split_csv on what is read.
use another_c_library.Prelude.{
  ℕ, suc, ◌+◌, ◌-◌, ◌<◌, ◌≡◌, ◌≢◌, refl, ap, ◌∙◌, arith, Bool, true, false, Option, none, some,
  List, [], ◌∷◌, ◌++◌, append_assoc, if◌then◌else◌, ltb, leb, ◌==◌, Bool-cases, inl, inr, ==→eq,
  Bytes, length, take, drop, length-append, take_append,
}
use mathlib.Core.Path.{subst, subst⁻¹}
use another_c_library.Prelude.Outcome.{done}
use another_c_library.Text.Csv.{needs_quotes, double_quotes, csv_encode, split_csv}
use another_c_library.Text.Csv.Laws.{csv_line, split_csv-csv_line}
use another_c_library.InBase.{
  Reader, returned, block, scan, gather, after_fill, read_block, read_delimited, cleanup_last_read,
  reset_block, fill_blocks,
}
use another_c_library.InBase.State.{
  IsFile, IsSound, behind, to_come, unread, cleanup-IsSound, length-block,
}
use another_c_library.InBase.Scan.{scan-append_behind}
use another_c_library.InBase.Delimited.{Reads}
use another_c_library.InBase.Records.{index, index_here, block_step-Reads}

-- The search for the end of the line, outside of quotes and between them.
abbrev line : Bool → Bytes → ℕ → Option ℕ
line quoted xs i = scan true b'\n' quoted xs i

abbrev NoQuoteFirst : Bytes → Type 0
NoQuoteFirst [] = Unit
NoQuoteFirst (c ∷ s) = (c == b'"') ≡ false

line-close :
    (rest : Bytes) (i : ℕ) → NoQuoteFirst rest → line true (b'"' ∷ rest) i ≡ line false rest (i + 1)
unfolding scan
line-close [] i h = refl
line-close (c ∷ rest) i h =
    ap (λ b. elim b [ true ↦ line true rest (i + 2) | false ↦ line false (c ∷ rest) (i + 1) ]) h

line-quoted :
    (c : ℕ) (rest : Bytes) (i : ℕ)
    → (c == b'"') ≡ false
    → line true (c ∷ rest) i ≡ line true rest (i + 1)
unfolding scan
line-quoted c [] i h = refl
line-quoted c (d ∷ rest) i h =
    ap
      (λ b. elim b [
        | false ↦ line true (d ∷ rest) (i + 1)
        | true ↦ elim (d == b'"') [
          | true ↦ line true rest (i + 2)
          | false ↦ line false (d ∷ rest) (i + 1)
        ]
      ])
      h

line-pair : (rest : Bytes) (i : ℕ) → line true (b'"' ∷ b'"' ∷ rest) i ≡ line true rest (i + 2)
unfolding scan
line-pair rest i = refl

line-open : (rest : Bytes) (i : ℕ) → line false (b'"' ∷ rest) i ≡ line true rest (i + 1)
unfolding scan
line-open rest i = refl

line-byte :
    (c : ℕ) (rest : Bytes) (i : ℕ)
    → (c == b'"') ≡ false
    → (c == b'\n') ≡ false
    → line false (c ∷ rest) i ≡ line false rest (i + 1)
unfolding scan
line-byte c rest i h k = ground (arith, h, k)

line_end : (rest : Bytes) (i : ℕ) → line false (b'\n' ∷ rest) i ≡ some i
unfolding scan
line_end rest i = refl

line-double_quotes :
    (s rest : Bytes) (i : ℕ)
    → NoQuoteFirst rest
    → line true (double_quotes s ++ (b'"' ∷ rest)) i
      ≡ line false rest (i + (length (double_quotes s) + 1))
unfolding double_quotes
line-double_quotes [] rest i h = line-close rest i h
line-double_quotes (c ∷ s) rest i h = elim (Bool-cases (c == b'"')) [
  | inl e ↦
      rw (e, ==→eq c b'"' e)
        (line-pair (double_quotes s ++ (b'"' ∷ rest)) i
          ∙ line-double_quotes s rest (i + 2) h
          ∙ ap (line false rest) (omega arith))
  | inr e ↦ rw e (
      line-quoted c (double_quotes s ++ (b'"' ∷ rest)) i e
      ∙ line-double_quotes s rest (i + 1) h
      ∙ ap (line false rest) (omega arith))
]

needs_quotes-cons :
    (delim c : ℕ) (s : Bytes)
    → needs_quotes delim (c ∷ s) ≡ false
    → ((c == b'"') ≡ false) × ((c == b'\n') ≡ false) × (needs_quotes delim s ≡ false)
unfolding needs_quotes
needs_quotes-cons delim c s h = ground arith

line-plain :
    (delim : ℕ) (s rest : Bytes) (i : ℕ)
    → needs_quotes delim s ≡ false
    → line false (s ++ rest) i ≡ line false rest (i + length s)
line-plain delim [] rest i h = ap (line false rest) (omega arith)
line-plain delim (c ∷ s) rest i h =
    let (quote, end, more) = needs_quotes-cons delim c s h in
    line-byte c (s ++ rest) i quote end
    ∙ line-plain delim s rest (i + 1) more
    ∙ ap (line false rest) (omega arith)

-- An encoded field holds no end of the line outside of quotes.
line-csv_encode :
    (delim : ℕ) (f rest : Bytes) (i : ℕ)
    → NoQuoteFirst rest
    → line false (csv_encode delim f ++ rest) i ≡ line false rest (i + length (csv_encode delim f))
unfolding csv_encode
line-csv_encode delim f rest i h = elim (Bool-cases (needs_quotes delim f)) [
  | inl e ↦
      rw (e, append_assoc)
        (line-open (double_quotes f ++ (b'"' ∷ rest)) i
          ∙ line-double_quotes f rest (i + 1) h
          ∙ ap (line false rest) (omega (arith, length-append {0} (double_quotes f) (b'"' ∷ []))))
  | inr e ↦ rw e (line-plain delim f rest i e)
]

-- The line ends behind the fields.
line-csv_line :
    (delim : ℕ) (f : Bytes) (fs : List Bytes) (rest : Bytes) (i : ℕ)
    → (delim == b'"') ≡ false
    → (delim == b'\n') ≡ false
    → line false (csv_line delim (f ∷ fs) ++ (b'\n' ∷ rest)) i
      ≡ some (i + length (csv_line delim (f ∷ fs)))
unfolding csv_line
line-csv_line delim f [] rest i h k =
    line-csv_encode delim f (b'\n' ∷ rest) i refl ∙ line_end rest (i + length (csv_encode delim f))
line-csv_line delim f (g ∷ fs) rest i h k = rw append_assoc (
    line-csv_encode delim f (delim ∷ (more ++ (b'\n' ∷ rest))) i h
    ∙ line-byte delim (more ++ (b'\n' ∷ rest)) (i + length (csv_encode delim f)) h k
    ∙ line-csv_line delim g fs rest (i + length (csv_encode delim f) + 1) h k
    ∙ ap (λ n. some n) (omega (arith, length-append (csv_encode delim f) (delim ∷ more))))
  where
    more : Bytes
    more = csv_line delim (g ∷ fs)

module _ {F : Type 0} {read : F → ℕ → Option Bytes × F} {contents : F → Bytes}
    (file : IsFile read contents) where
  -- A record that ends in the block is read up to its delimiter, as quotes have it.
  read_csv-Reads :
      (fuel : ℕ) (r : Reader F) (delim n : ℕ) (required : Bool)
      → IsSound r
      → scan true delim false (unread contents r) 0 ≡ some n
      → n < r.used - r.pos
      → Reads contents required
          (read_delimited read fuel r (256 + delim) required)
          (some n)
          (unread contents r)
  unfolding read_delimited cleanup_last_read read_block
  read_csv-Reads fuel r₀ delim n required g₀ found short =
      subst
        (λ s.
          Reads contents required (read_delimited read fuel r₀ (256 + delim) required) s
            (unread contents r₀))
        found
        (subst⁻¹
          (λ b.
            Reads contents required
              (read_block read b (if b then 256 + delim - 256 else 256 + delim) required fuel r)
              (index contents true delim required r) (to_come contents r))
          above
          (subst⁻¹
            (λ d.
              Reads contents required (read_block read true d required fuel r)
                (index contents true delim required r) (to_come contents r))
            same_delim
            (block_step-Reads contents true delim required r
              (elim (ltb 0 r.pos) [
                | true ↦
                    after_fill read true delim required fuel (r.used - r.pos)
                      (fill_blocks read (reset_block r))
                | false ↦ gather read true delim required fuel r []
              ])
              g refl (scan true delim false (block r) 0) (index_here contents true delim required r)
              (λ o e. absurd (inside o)) (λ o e. absurd (inside o)))))
    where
      r : Reader F
      r = cleanup_last_read r₀

      g : IsSound r
      g = cleanup-IsSound g₀

      above : leb 256 (256 + delim) ≡ true
      above = ground arith

      same_delim : 256 + delim - 256 ≡ delim
      same_delim = omega arith

      inside : scan true delim false (block r) 0 ≡ none → ⊥
      inside o = omega (
        arith,
        scan-append_behind true delim false (block r) (behind contents r) 0 n o found,
        length-block g,
        short,
      )

  -- Where the next line is one of fields that ac_pool_csv_encode has encoded, and its end is in the
  -- block, ac_in_base_read_delimited for CSV reads the line, however many ends of lines the fields have
  -- between quotes, the next call goes on behind it, and ac_pool_split_csv gives the fields back.
  pub read_csv-split_csv :
      (fuel : ℕ) (r : Reader F) (delim : ℕ) (required : Bool) (f : Bytes) (fs : List Bytes)
      (rest : Bytes)
      → IsSound r
      → delim ≢ b'"'
      → delim ≢ b'\n'
      → unread contents r ≡ csv_line delim (f ∷ fs) ++ (b'\n' ∷ rest)
      → length (csv_line delim (f ∷ fs)) < r.used - r.pos
      → (x : Bytes) × (r' : Reader F) × (read_delimited read fuel r (256 + b'\n') required
          ≡ returned (some x, r'))
        × IsSound r'
        × (unread contents r' ≡ rest)
        × (split_csv delim (some x)
            ≡ done (record { num_splits = length (f ∷ fs); pieces = f ∷ fs }))
  read_csv-split_csv fuel r delim required f fs rest g h k u short =
      let a =
        read_csv-Reads fuel r b'\n' (length text) required g
          (ap (λ v. line false v 0) u
            ∙ line-csv_line delim f fs rest 0 (ground (arith, h)) (ground (arith, k))
            ∙ ap (λ n. some n) (omega arith))
          short in
      (
        text,
        a.after,
        a.is_result ∙ ap (λ v. returned (some v, a.after)) first,
        a.sound,
        a.leaves ∙ ap (drop (length text + 1)) u ∙ drop-line text rest,
        split_csv-csv_line delim f fs h,
      )
    where
      text : Bytes
      text = csv_line delim (f ∷ fs)

      first : take (length text) (unread contents r) ≡ text
      first = ap (take (length text)) u ∙ take_append text (b'\n' ∷ rest)

      drop-line : (xs ys : Bytes) → drop (length xs + 1) (xs ++ (b'\n' ∷ ys)) ≡ ys
      drop-line [] ys = refl
      drop-line (x ∷ xs) ys =
          let e : suc (length xs) + 1 ≡ suc (length xs + 1) = omega arith in rw e (drop-line xs ys)
