-- ===== src/Text/Split.antt =====
-- ac_pool_split, ac_pool_split2, ac_pool_split_str and ac_pool_split_str2: a first pass counts the
-- pieces and a second one stores them in an array of that many pointers.
pub mod Laws
pub mod Append
use another_c_library.Prelude.{
  ℕ, zero, suc, ◌+◌, ◌-◌, Bool, true, false, ◌&&◌, List, [], ◌∷◌, ◌++◌, Option, none, some, ◌==◌,
  if◌then◌else◌, Bytes, length,
}

-- What a call hands back: `*num_splits`, and the pieces in front of the closing NULL.
pub record Splits : Type 0 where
  pub num_splits : ℕ
  pub pieces : List Bytes

-- A NULL string gives no piece.
abbrev nil : Splits
nil = record { num_splits = 0; pieces = [] }

pub count_splits : ℕ → Bytes → ℕ → ℕ
count_splits delim [] num = num
count_splits delim (c ∷ s) num = count_splits delim s (if c == delim then num + 1 else num)

-- The second pass: `piece` holds the bytes since the last delimiter.
pub store_splits : ℕ → Bytes → Bytes → List Bytes
store_splits delim piece [] = piece ∷ []
store_splits delim piece (c ∷ s) =
    let cut = piece ∷ store_splits delim [] s in
    let go_on = store_splits delim (piece ++ c ∷ []) s in if c == delim then cut else go_on

unfoldable pub split : ℕ → Option Bytes → Splits
unfolding count_splits store_splits
split delim none = nil
split delim (some s) = record {
  num_splits = count_splits delim s 1;
  pieces = store_splits delim [] s;
}

-- The loop of the `2` variants over the first `num_res` pieces: the empty ones are left out.
unfoldable pub compact : ℕ → List Bytes → List Bytes
compact zero res = []
compact (suc num_res) [] = []
compact (suc num_res) ([] ∷ res) = compact num_res res
compact (suc num_res) ((c ∷ p) ∷ res) = (c ∷ p) ∷ compact num_res res

unfoldable pub kept : Splits → Splits
unfolding compact
kept r =
    let left = compact r.num_splits r.pieces in record { num_splits = length left; pieces = left }

unfoldable pub split2 : ℕ → Option Bytes → Splits
unfolding split kept compact
split2 delim s = kept (split delim s)

-- `!strncmp(delim + 1, p + 1, delim_len)`
pub starts : Bytes → Bytes → Bool
starts [] s = true
starts (d ∷ ds) [] = false
starts (d ∷ ds) (c ∷ s) = d == c && starts ds s

-- The passes for a delimiter `d ∷ ds` of two bytes or more. A jump over the rest of a delimiter
-- leaves `skip` bytes to pass over; they are there, since they have just been compared.
pub count_str : ℕ → Bytes → ℕ → Bytes → ℕ → ℕ
count_str d ds skip [] num = num
count_str d ds (suc skip) (c ∷ s) num = count_str d ds skip s num
count_str d ds zero (c ∷ s) num =
    let found = count_str d ds (length ds) s (num + 1) in
    let go_on = count_str d ds 0 s num in if c == d && starts ds s then found else go_on

pub store_str : ℕ → Bytes → ℕ → Bytes → Bytes → List Bytes
store_str d ds skip piece [] = piece ∷ []
store_str d ds (suc skip) piece (c ∷ s) = store_str d ds skip piece s
store_str d ds zero piece (c ∷ s) =
    let cut = piece ∷ store_str d ds (length ds) [] s in
    let go_on = store_str d ds 0 (piece ++ c ∷ []) s in if c == d && starts ds s then cut else go_on

-- With an empty delimiter the string is the one piece; `none` there is the pointer NULL stored as
-- that piece, so that the array looks empty.
unfoldable pub split_str : Bytes → Option Bytes → Splits
unfolding split count_str store_str starts
split_str [] none = record { num_splits = 1; pieces = [] }
split_str [] (some s) = record { num_splits = 1; pieces = s ∷ [] }
split_str (d ∷ []) s = split d s
split_str (d ∷ e ∷ ds) none = nil
split_str (d ∷ e ∷ ds) (some s) = record {
  num_splits = count_str d (e ∷ ds) 0 s 1;
  pieces = store_str d (e ∷ ds) 0 [] s;
}

-- `none`: the NULL that stands for the one piece is read through.
unfoldable pub split_str2 : Bytes → Option Bytes → Option Splits
unfolding split_str kept compact
split_str2 [] none = none
split_str2 [] (some s) = some (kept (split_str [] (some s)))
split_str2 (d ∷ ds) s = some (kept (split_str (d ∷ ds) s))
