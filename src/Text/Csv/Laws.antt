-- ===== src/Text/Csv/Laws.antt =====
-- ac_pool_csv_encode and ac_pool_split_csv together, and the two passes of the split.
use another_c_library.Prelude.{
  ℕ, ◌+◌, true, false, List, [], ◌∷◌, ◌++◌, some, ◌==◌, ◌≡◌, ◌≢◌, refl, sym, ◌∙◌, ap, inl, inr,
  arith, Bool-cases, ==→eq, eq→==, Bytes, length, length-append, append-nil, append_assoc, ◌⊎◌,
}
use another_c_library.Prelude.Outcome.{Outcome, done, overread, out_of_fuel, map_outcome}
use another_c_library.Text.Csv.{
  needs_quotes, count_quotes, double_quotes, csv_encode, csv_room, count_csv, count_quoted,
  store_csv, store_quoted, split_csv,
}

-- The fields, encoded, with the delimiter between each two of them.
unfoldable pub csv_line : ℕ → List Bytes → Bytes
csv_line delim [] = []
csv_line delim (f ∷ []) = csv_encode delim f
csv_line delim (f ∷ g ∷ fs) = csv_encode delim f ++ (delim ∷ csv_line delim (g ∷ fs))

length-double_quotes : (s : Bytes) → length (double_quotes s) ≡ length s + count_quotes s
unfolding double_quotes count_quotes
length-double_quotes [] = omega arith
length-double_quotes (c ∷ s) = elim (Bool-cases (c == b'"')) [
  | inl e ↦ rw e (omega (arith, length-double_quotes s))
  | inr e ↦ rw e (omega (arith, length-double_quotes s))
]

-- `ac_pool_csv_encode` writes the string that it allocated for, with its terminator, to the byte;
-- a string that it does not quote is given back as it is.
pub csv_encode-length :
    (delim : ℕ) (s : Bytes)
    → ((needs_quotes delim s ≡ true) × (length (csv_encode delim s) + 1 ≡ csv_room s))
      ⊎ ((needs_quotes delim s ≡ false) × (csv_encode delim s ≡ s))
unfolding csv_encode csv_room
csv_encode-length delim s = elim (Bool-cases (needs_quotes delim s)) [
  | inl e ↦ inl (
    e,
    rw e (omega (arith, length-double_quotes s, length-append {0} (double_quotes s) (b'"' ∷ []))),
  )
  | inr e ↦ inr (e, rw e)
]

-- `rest` does not begin with a quote.
abbrev NoQuoteFirst : Bytes → Type 0
NoQuoteFirst [] = Unit
NoQuoteFirst (c ∷ s) = (c == b'"') ≡ false

store_quoted-close :
    (delim : ℕ) (piece rest : Bytes)
    → NoQuoteFirst rest
    → store_quoted delim (b'"' ∷ rest) piece ≡ store_csv delim rest piece
unfolding store_csv
store_quoted-close delim piece [] h = refl
store_quoted-close delim piece (c ∷ rest) h = rw h

store_quoted-byte :
    (delim c : ℕ) (piece rest : Bytes)
    → (c == b'"') ≡ false
    → store_quoted delim (c ∷ rest) piece ≡ store_quoted delim rest (piece ++ c ∷ [])
unfolding store_csv
store_quoted-byte delim c piece [] h = rw h
store_quoted-byte delim c piece (d ∷ rest) h = rw h

store_quoted-pair :
    (delim : ℕ) (piece rest : Bytes)
    → store_quoted delim (b'"' ∷ b'"' ∷ rest) piece ≡ store_quoted delim rest (piece ++ b'"' ∷ [])
unfolding store_csv
store_quoted-pair delim piece rest = refl

-- Inside quotes the bytes of the field are read back, up to the closing quote.
store_quoted-double :
    (delim : ℕ) (s piece rest : Bytes)
    → NoQuoteFirst rest
    → store_quoted delim (double_quotes s ++ (b'"' ∷ rest)) piece
      ≡ store_csv delim rest (piece ++ s)
unfolding double_quotes
store_quoted-double delim [] piece rest h = rw append-nil (store_quoted-close delim piece rest h)
store_quoted-double delim (c ∷ s) piece rest h = elim (Bool-cases (c == b'"')) [
  | inl e ↦
      rw (e, ==→eq c b'"' e)
        (store_quoted-pair delim piece (double_quotes s ++ (b'"' ∷ rest))
          ∙ store_quoted-double delim s (piece ++ b'"' ∷ []) rest h
          ∙ rw append_assoc)
  | inr e ↦ rw e (
      store_quoted-byte delim c piece (double_quotes s ++ (b'"' ∷ rest)) e
      ∙ store_quoted-double delim s (piece ++ c ∷ []) rest h
      ∙ rw append_assoc)
]

store_csv-byte :
    (delim c : ℕ) (piece rest : Bytes)
    → (c == b'"') ≡ false
    → (c == delim) ≡ false
    → store_csv delim (c ∷ rest) piece ≡ store_csv delim rest (piece ++ c ∷ [])
unfolding store_csv
store_csv-byte delim c piece rest h k = rw (h, k)

store_csv-delim :
    (delim : ℕ) (piece rest : Bytes)
    → (delim == b'"') ≡ false
    → store_csv delim (delim ∷ rest) piece ≡ map_outcome (◌∷◌ piece) (store_csv delim rest [])
unfolding store_csv
store_csv-delim delim piece rest h = rw (h, eq→== delim delim refl)

needs_quotes-cons :
    (delim c : ℕ) (s : Bytes)
    → needs_quotes delim (c ∷ s) ≡ false
    → ((c == b'"') ≡ false) × ((c == delim) ≡ false) × (needs_quotes delim s ≡ false)
unfolding needs_quotes
needs_quotes-cons delim c s h = ground arith

store_csv-plain :
    (delim : ℕ) (s piece rest : Bytes)
    → needs_quotes delim s ≡ false
    → store_csv delim (s ++ rest) piece ≡ store_csv delim rest (piece ++ s)
store_csv-plain delim [] piece rest h = rw append-nil
store_csv-plain delim (c ∷ s) piece rest h =
    let (quote, cut, more) = needs_quotes-cons delim c s h in
    store_csv-byte delim c piece (s ++ rest) quote cut
    ∙ store_csv-plain delim s (piece ++ c ∷ []) rest more
    ∙ rw append_assoc

store_csv-quote :
    (delim : ℕ) (piece rest : Bytes)
    → store_csv delim (b'"' ∷ rest) piece ≡ store_quoted delim rest piece
unfolding store_csv
store_csv-quote delim piece rest = refl

store_csv-csv_encode :
    (delim : ℕ) (f rest : Bytes)
    → NoQuoteFirst rest
    → store_csv delim (csv_encode delim f ++ rest) [] ≡ store_csv delim rest f
unfolding csv_encode
store_csv-csv_encode delim f rest h = elim (Bool-cases (needs_quotes delim f)) [
  | inl e ↦
      rw (e, append_assoc)
        (store_csv-quote delim [] (double_quotes f ++ (b'"' ∷ rest))
          ∙ store_quoted-double delim f [] rest h)
  | inr e ↦ rw e (store_csv-plain delim f [] rest e)
]

store_csv_end : (delim : ℕ) (piece : Bytes) → store_csv delim [] piece ≡ done (piece ∷ [])
unfolding store_csv
store_csv_end delim piece = refl

store_csv-csv_line :
    (delim : ℕ) (f : Bytes) (fs : List Bytes)
    → (delim == b'"') ≡ false
    → store_csv delim (csv_line delim (f ∷ fs)) [] ≡ done (f ∷ fs)
unfolding csv_line
store_csv-csv_line delim f [] h =
    rw (← append-nil (csv_encode delim f))
      (store_csv-csv_encode delim f [] tt ∙ store_csv_end delim f)
store_csv-csv_line delim f (g ∷ fs) h =
    store_csv-csv_encode delim f (delim ∷ csv_line delim (g ∷ fs)) h
    ∙ store_csv-delim delim f (csv_line delim (g ∷ fs)) h
    ∙ ap (map_outcome (◌∷◌ f)) (store_csv-csv_line delim g fs h)

-- A count beside the fields that it counts.
abbrev tally : ℕ → Outcome (List Bytes) → Outcome ℕ
tally num = map_outcome (λ ps. num + length ps)

tally-cons :
    (num : ℕ) (piece : Bytes) (o : Outcome (List Bytes))
    → tally (num + 1) o ≡ tally num (map_outcome (◌∷◌ piece) o)
tally-cons num piece (done ps) = ap done (omega arith)
tally-cons num piece overread = refl
tally-cons num piece out_of_fuel = refl

count_quoted-close :
    (delim num : ℕ) (rest : Bytes)
    → NoQuoteFirst rest
    → count_quoted delim (b'"' ∷ rest) num ≡ count_csv delim rest num
unfolding count_csv
count_quoted-close delim num [] h = refl
count_quoted-close delim num (c ∷ rest) h = rw h

mutual
  unfolding count_csv store_csv

  tally-store_csv :
      (delim : ℕ) (s piece : Bytes) (num : ℕ)
      → count_csv delim s (num + 1) ≡ tally num (store_csv delim s piece)
  tally-store_csv delim [] piece num = refl
  tally-store_csv delim (c ∷ s) piece num = elim (Bool-cases (c == b'"')) [
    | inl e ↦ rw e (tally-store_quoted delim s piece num)
    | inr e ↦ elim (Bool-cases (c == delim)) [
      | inl f ↦
          rw (e, f)
            (tally-store_csv delim s [] (num + 1) ∙ tally-cons num piece (store_csv delim s []))
      | inr f ↦ rw (e, f) (tally-store_csv delim s (piece ++ c ∷ []) num)
    ]
  ]

  tally-store_quoted :
      (delim : ℕ) (s piece : Bytes) (num : ℕ)
      → count_quoted delim s (num + 1) ≡ tally num (store_quoted delim s piece)
  tally-store_quoted delim [] piece num = refl
  tally-store_quoted delim (c ∷ []) piece num = elim (Bool-cases (c == b'"')) [
    | inl e ↦ rw e
    | inr e ↦ rw e
  ]
  tally-store_quoted delim (c ∷ d ∷ s) piece num = elim (Bool-cases (c == b'"')) [
    | inl e ↦ elim (Bool-cases (d == b'"')) [
      | inl f ↦ rw (e, f) (tally-store_quoted delim s (piece ++ c ∷ []) num)
      | inr f ↦ rw (==→eq c b'"' e) (
          count_quoted-close delim (num + 1) (d ∷ s) f
          ∙ tally-store_csv delim (d ∷ s) piece num
          ∙ ap (tally num) (sym (store_quoted-close delim piece (d ∷ s) f)))
    ]
    | inr e ↦ rw e (tally-store_quoted delim (d ∷ s) (piece ++ c ∷ []) num)
  ]

-- The number of fields that the first pass counts, and for which the array is allocated, is the
-- number that the second pass stores, and the one pass runs past the terminator where the other
-- does.
pub count_csv-store_csv :
    (delim : ℕ) (s : Bytes) → count_csv delim s 1 ≡ map_outcome length (store_csv delim s [])
count_csv-store_csv delim s = tally-store_csv delim s [] 0 ∙ zero_tally (store_csv delim s [])
  where
    zero_tally : (o : Outcome (List Bytes)) → tally 0 o ≡ map_outcome length o
    zero_tally (done ps) = ap done (omega arith)
    zero_tally overread = refl
    zero_tally out_of_fuel = refl

-- Fields that are encoded one by one and joined by a delimiter other than the quote are what
-- `ac_pool_split_csv` gives back, with their number, and it reads nothing past the terminator.
pub split_csv-csv_line :
    (delim : ℕ) (f : Bytes) (fs : List Bytes)
    → delim ≢ b'"'
    → split_csv delim (some (csv_line delim (f ∷ fs)))
      ≡ done (record { num_splits = length (f ∷ fs); pieces = f ∷ fs })
unfolding split_csv
split_csv-csv_line delim f fs h =
    let stored = store_csv-csv_line delim f fs (ground arith) in
    rw (count_csv-store_csv delim (csv_line delim (f ∷ fs)), stored)
