-- ===== src/Text/Csv.antt =====
-- ac_pool_csv_encode, ac_pool_split_csv and ac_pool_split_csv2. Both passes of the split run over
-- a string with its terminator; an opening quote with no closing one takes them past it, which is
-- the outcome `overread`.
pub mod Laws
use another_c_library.Prelude.{
  ℕ, ◌+◌, ◌-◌, Bool, true, false, ◌||◌, List, [], ◌∷◌, ◌++◌, Option, none, some, ◌==◌,
  if◌then◌else◌, Bytes, length,
}
use another_c_library.Prelude.Outcome.{Outcome, done, overread, out_of_fuel, map_outcome}
use another_c_library.Text.Split.{Splits, kept}

-- The test of the first loop of ac_pool_csv_encode.
unfoldable pub needs_quotes : ℕ → Bytes → Bool
needs_quotes delim [] = false
needs_quotes delim (c ∷ s) = c == delim || c == b'\n' || c == b'"' || needs_quotes delim s

pub count_quotes : Bytes → ℕ
count_quotes [] = 0
count_quotes (c ∷ s) = (if c == b'"' then 1 else 0) + count_quotes s

-- The bytes that the last loop writes.
unfoldable pub double_quotes : Bytes → Bytes
double_quotes [] = []
double_quotes (c ∷ s) = (if c == b'"' then b'"' ∷ c ∷ [] else c ∷ []) ++ double_quotes s

unfoldable pub csv_encode : ℕ → Bytes → Bytes
unfolding needs_quotes double_quotes
csv_encode delim s = if needs_quotes delim s then b'"' ∷ (double_quotes s ++ b'"' ∷ []) else s

-- The size that ac_pool_csv_encode asks the pool for when it quotes.
pub csv_room : Bytes → ℕ
csv_room s = length s + 3 + count_quotes s

-- The first pass: `num` counts the delimiters outside quotes. `count_quoted` is the loop at
-- `encoded_quote`, with the quote behind it read.
unfoldable mutual
  pub count_csv : ℕ → Bytes → ℕ → Outcome ℕ
  count_csv delim [] num = done num
  count_csv delim (c ∷ s) num =
      let quoted = count_quoted delim s num in
      let next = count_csv delim s (num + 1) in
      let go_on = count_csv delim s num in
      if c == b'"' then quoted else if c == delim then next else go_on

  pub count_quoted : ℕ → Bytes → ℕ → Outcome ℕ
  count_quoted delim [] num = overread
  count_quoted delim (c ∷ []) num = if c == b'"' then done num else overread
  count_quoted delim (c ∷ d ∷ s) num =
      let pair = count_quoted delim s num in
      let closed = count_csv delim (d ∷ s) num in
      let go_on = count_quoted delim (d ∷ s) num in
      if c == b'"' then if d == b'"' then pair else closed else go_on

-- The second pass: `piece` holds what has been written since the last delimiter.
unfoldable mutual
  pub store_csv : ℕ → Bytes → Bytes → Outcome (List Bytes)
  store_csv delim [] piece = done (piece ∷ [])
  store_csv delim (c ∷ s) piece =
      let quoted = store_quoted delim s piece in
      let next = map_outcome (◌∷◌ piece) (store_csv delim s []) in
      let go_on = store_csv delim s (piece ++ c ∷ []) in
      if c == b'"' then quoted else if c == delim then next else go_on

  pub store_quoted : ℕ → Bytes → Bytes → Outcome (List Bytes)
  store_quoted delim [] piece = overread
  store_quoted delim (c ∷ []) piece = if c == b'"' then done (piece ∷ []) else overread
  store_quoted delim (c ∷ d ∷ s) piece =
      let pair = store_quoted delim s (piece ++ c ∷ []) in
      let closed = store_csv delim (d ∷ s) piece in
      let go_on = store_quoted delim (d ∷ s) (piece ++ c ∷ []) in
      if c == b'"' then if d == b'"' then pair else closed else go_on

abbrev both : Outcome ℕ → Outcome (List Bytes) → Outcome Splits
both (done num) (done stored) = done (record { num_splits = num; pieces = stored })
both (done num) overread = overread
both (done num) out_of_fuel = out_of_fuel
both overread stored = overread
both out_of_fuel stored = out_of_fuel

unfoldable pub split_csv : ℕ → Option Bytes → Outcome Splits
unfolding count_csv count_quoted store_csv store_quoted
split_csv delim none = done (record { num_splits = 0; pieces = [] })
split_csv delim (some s) = both (count_csv delim s 1) (store_csv delim s [])

-- The loop that leaves the empty fields out is that of ac_pool_split2.
unfoldable pub split_csv2 : ℕ → Option Bytes → Outcome Splits
unfolding split_csv kept
split_csv2 delim s = map_outcome kept (split_csv delim s)
