-- ===== src/Prelude/Outcome.antt =====
-- What a run of a C routine ends in: a value, a read outside the memory that it was given, or the
-- end of the fuel that the model gives its loop.

pub data Outcome {ℓ} (A : Type ℓ) : Type ℓ where
  done : A → Outcome A
  overread : Outcome A
  out_of_fuel : Outcome A

infixl 5 ◌>>=◌
abbrev pub ◌>>=◌ {ℓ κ} : {A : Type ℓ} {B : Type κ} → Outcome A → (A → Outcome B) → Outcome B
done a >>= f = f a
overread >>= f = overread
out_of_fuel >>= f = out_of_fuel

abbrev pub map_outcome {ℓ κ} : {A : Type ℓ} {B : Type κ} → (A → B) → Outcome A → Outcome B
map_outcome f (done a) = done (f a)
map_outcome f overread = overread
map_outcome f out_of_fuel = out_of_fuel
