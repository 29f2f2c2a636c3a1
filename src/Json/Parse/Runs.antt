-- ===== src/Json/Parse/Runs.antt =====
-- The rounds of ac_json_parse as a relation, and single rounds at what a text consists of.
use another_c_library.Prelude.{
  ℕ, zero, suc, ◌+◌, ◌-◌, Bool, true, false, List, [], ◌∷◌, ◌++◌, Option, none, some, ◌==◌, Bytes,
  length, ◌≡◌, ◌≢◌, refl, ap, ap₂, ◌∙◌, arith,
}
use mathlib.Core.Path.{subst, subst⁻¹}
use another_c_library.Json.Value.{
  Kind, Value, scalar, object, array, Fields, no_fields, append_field, Items, no_items, append_item,
}
use another_c_library.Json.Text.{Closed}
use another_c_library.Json.Parse.Scan.{is_space, is_digit, start_scalar}
use another_c_library.Json.Parse.Scalars.{Reads, string_end-ClosedFrom}
use another_c_library.Json.Parse.{
  Frame, object_at, array_of, Mode, start_key, start_key_object, look_for_key, start_value,
  look_for_next_object, State, End, parsed, Next, go, stop, at, close, get_end_of_key,
  at_key_object, at_value, keyed_add_string, add_string, step, run,
}

-- After one round or more, a state has `r` as the outcome of a round.
pub data Runs (r : Next) : State → Type 0 where
  last : {s : State} → step s ≡ r → Runs r s
  before : {s t : State} → step s ≡ go t → Runs r t → Runs r s

pub then-Runs : {t : State} {r : Next} {s : State} → Runs (go t) s → Runs r t → Runs r s
then-Runs (last e) q = before e q
then-Runs (before e p) q = before e (then-Runs p q)

pub from-Runs :
    {mode : Mode} {parents : List Frame} {k l : ℕ} {m n : Bytes} {r : Next}
    → k ≡ l
    → m ≡ n
    → Runs r (at mode parents l n)
    → Runs r (at mode parents k m)
from-Runs {mode} {parents} {k} {l} {m} {n} {r} e f h =
    subst⁻¹ (λ i. Runs r (at mode parents i m)) e (subst⁻¹ (λ i. Runs r (at mode parents l i)) f h)

pub to-Runs : {q r : Next} {s : State} → q ≡ r → Runs q s → Runs r s
to-Runs {s = s} e h = subst (λ n. Runs n s) e h

run-stop : {e : End} (fuel : ℕ) (s : State) → step s ≡ stop e → run (suc fuel) s ≡ some e
unfolding run
run-stop {e} fuel s h = ap (λ n. elim n [ stop e ↦ some e | go t ↦ run fuel t ]) h

run-go : {t : State} (fuel : ℕ) (s : State) → step s ≡ go t → run (suc fuel) s ≡ run fuel t
unfolding run
run-go {t} fuel s h = ap (λ n. elim n [ stop e ↦ some e | go t ↦ run fuel t ]) h

-- The rounds determine what a run gives that does not run out of fuel.
pub run-Runs :
    {e : End} (fuel : ℕ) (s : State) → Runs (stop e) s → run fuel s ≢ none → run fuel s ≡ some e
unfolding run
run-Runs zero s h ne = absurd (ne refl)
run-Runs (suc fuel) s (last q) ne = run-stop fuel s q
run-Runs (suc fuel) s (before {t} q h) ne =
    run-go fuel s q ∙ run-Runs fuel t h (λ z. ne (run-go fuel s q ∙ z))

-- Where a value stands: behind a key of an object, or in an array.
pub data Place : Type 0 where
  behind_key : Fields → Bytes → Place
  in_array : Items → Place

abbrev pub open_mode : Place → Mode
open_mode (behind_key fs k) = start_key_object fs k
open_mode (in_array xs) = start_value (some xs)

abbrev pub done_mode : Place → Value → Mode
done_mode (behind_key fs k) v = look_for_key (append_field fs k v)
done_mode (in_array xs) v = look_for_next_object (append_item xs v)

abbrev pub frame : Place → Frame
frame (behind_key fs k) = object_at fs k
frame (in_array xs) = array_of xs

abbrev pub keyed : Place → Bool
keyed (behind_key fs k) = true
keyed (in_array xs) = false

module _ (parents : List Frame) where
  pub close-frame :
      (p : Place) (v : Value) (left : ℕ) (mem : Bytes)
      → close v (frame p ∷ parents) left mem ≡ go (at (done_mode p v) parents left mem)
  close-frame (behind_key fs k) v left mem = refl
  close-frame (in_array xs) v left mem = refl

  pub step-brace :
      (p : Place) (left : ℕ) (mem : Bytes)
      → step (at (open_mode p) parents (suc left) (b'{' ∷ mem))
        ≡ go (at (start_key no_fields) (frame p ∷ parents) left mem)
  unfolding step
  step-brace (behind_key fs k) left mem = refl
  step-brace (in_array xs) left mem = refl

  pub step-bracket :
      (p : Place) (left : ℕ) (mem : Bytes)
      → step (at (open_mode p) parents (suc left) (b'[' ∷ mem))
        ≡ go (at (start_value (some no_items)) (frame p ∷ parents) left mem)
  unfolding step
  step-bracket (behind_key fs k) left mem = refl
  step-bracket (in_array xs) left mem = refl

  pub step-start_value :
      (left : ℕ) (mem : Bytes)
      → step (at (start_value none) parents (suc left) (b'[' ∷ mem))
        ≡ go (at (start_value (some no_items)) parents left mem)
  unfolding step
  step-start_value left mem = refl

  pub step-next_key :
      (fs : Fields) (left : ℕ) (mem : Bytes)
      → step (at (look_for_key fs) parents (suc left) (b',' ∷ mem))
        ≡ go (at (start_key fs) parents left mem)
  unfolding step
  step-next_key fs left mem =
      let some_left : (suc left == 0) ≡ false = ground arith in
      let l : suc left - 1 ≡ left = omega arith in rw (some_left, l) refl

  pub step-next_item :
      (xs : Items) (left : ℕ) (mem : Bytes)
      → step (at (look_for_next_object xs) parents (suc left) (b',' ∷ mem))
        ≡ go (at (start_value (some xs)) parents left mem)
  unfolding step
  step-next_item xs left mem =
      let some_left : (suc left == 0) ≡ false = ground arith in
      let l : suc left - 1 ≡ left = omega arith in rw (some_left, l) refl

  pub step-close_object :
      (fs : Fields) (left : ℕ) (mem : Bytes)
      → step (at (look_for_key fs) parents (suc left) (b'}' ∷ mem))
        ≡ close (object fs) parents left mem
  unfolding step
  step-close_object fs left mem = ap (λ l. close (object fs) parents l mem) (omega arith)

  pub step-close_array :
      (xs : Items) (left : ℕ) (mem : Bytes)
      → step (at (look_for_next_object xs) parents (suc left) (b']' ∷ mem))
        ≡ close (array xs) parents left mem
  unfolding step
  step-close_array xs left mem = ap (λ l. close (array xs) parents l mem) (omega arith)

  pub step-no_fields :
      (left : ℕ) (mem : Bytes)
      → step (at (start_key no_fields) parents (suc left) (b'}' ∷ mem))
        ≡ close (object no_fields) parents left mem
  unfolding step
  step-no_fields left mem = refl

  pub step-no_items :
      (left : ℕ) (mem : Bytes)
      → step (at (start_value (some no_items)) parents (suc left) (b']' ∷ mem))
        ≡ close (array no_items) parents left mem
  unfolding step
  step-no_items left mem = refl

  -- A key with its quotes and its colon.
  pub step-key :
      (fs : Fields) (k : Bytes) (left : ℕ) (mem : Bytes)
      → Closed k
      → step (
          at
            (start_key fs)
            parents
            (suc (length k + suc (suc left)))
            (b'"' ∷ (k ++ (b'"' ∷ b':' ∷ mem))))
        ≡ go (at (start_key_object fs k) parents left mem)
  unfolding step
  step-key fs k left mem h =
      ap (get_end_of_key fs parents)
        (string_end-ClosedFrom [] k (length k + suc (suc left)) (suc left) (b':' ∷ mem) refl h)

  object-scalar :
      (fs : Fields) (k : Bytes) (c left : ℕ) (mem : Bytes)
      → is_space c ≡ false
      → (c == b'{') ≡ false
      → (c == b'[') ≡ false
      → at_key_object fs k parents c left mem
        ≡ keyed_add_string fs k parents (start_scalar true c left mem)
  object-scalar fs k c left mem h i j = rw (h, i, j) refl

  array-scalar :
      (arr : Option Items) (c left : ℕ) (mem : Bytes)
      → is_space c ≡ false
      → (c == b'{') ≡ false
      → (c == b'[') ≡ false
      → (c == b']') ≡ false
      → at_value arr parents c left mem ≡ add_string arr parents (start_scalar false c left mem)
  array-scalar arr c left mem h i j k = rw (h, i, j, k) refl

  first_byte :
      (mode : Mode) (c n d : ℕ) (s rest t : Bytes)
      → t ≡ c ∷ s
      → step (at mode parents (length t + suc n) (t ++ (d ∷ rest)))
        ≡ step (at mode parents (suc (length s + suc n)) (c ∷ (s ++ (d ∷ rest))))
  first_byte mode c n d s rest t h =
      let left : length t + suc n ≡ suc (length s + suc n) = rw h (omega arith) in
      ap₂ (λ l m. step (at mode parents l (m ++ (d ∷ rest)))) left h

  -- A scalar that is no part of anything.
  pub step-alone :
      (kind : Kind) (s t : Bytes) (h : Reads false kind s t) (n d : ℕ) (rest : Bytes)
      → is_digit d ≡ false
      → (d == b'.') ≡ false
      → step (
          at
            (start_value none)
            parents
            (suc (length h.others + suc n))
            (h.first ∷ (h.others ++ (d ∷ rest))))
        ≡ stop (parsed (scalar kind s))
  unfolding step
  step-alone kind s t h n d rest e f =
      array-scalar none h.first (length h.others + suc n) (h.others ++ (d ∷ rest)) h.not_space
        h.not_brace h.not_bracket h.not_close
      ∙ ap (add_string none parents) (h.scanned n d rest e f)

  -- A scalar whose text is readable, in front of a byte that no number goes on with.
  pub step-scalar :
      (p : Place) (kind : Kind) (s t : Bytes)
      → Reads (keyed p) kind s t
      → (n d : ℕ) (rest : Bytes) → is_digit d ≡ false
      → (d == b'.') ≡ false
      → step (at (open_mode p) parents (length t + suc n) (t ++ (d ∷ rest)))
        ≡ go (at (done_mode p (scalar kind s)) parents (suc n) (d ∷ rest))
  unfolding step
  step-scalar (behind_key fs k) kind s t h n d rest e f =
      first_byte (start_key_object fs k) h.first n d h.others rest t h.shape
      ∙ object-scalar fs k h.first (length h.others + suc n) (h.others ++ (d ∷ rest)) h.not_space
          h.not_brace h.not_bracket
      ∙ ap (keyed_add_string fs k parents) (h.scanned n d rest e f)
  step-scalar (in_array xs) kind s t h n d rest e f =
      first_byte (start_value (some xs)) h.first n d h.others rest t h.shape
      ∙ array-scalar (some xs) h.first (length h.others + suc n) (h.others ++ (d ∷ rest))
          h.not_space h.not_brace h.not_bracket h.not_close
      ∙ ap (add_string (some xs) parents) (h.scanned n d rest e f)
