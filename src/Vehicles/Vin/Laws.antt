-- ===== src/Vehicles/Vin/Laws.antt =====
-- `NormalizeVIN`: what it accepts, and that its result is a fixed point.
use motivra.Prelude.{ℕ, ◌≡◌, refl, true, List, [], ◌∷◌, ◌++◌, some, arith, length}
use motivra.Vehicles.Vin.{
  vin_length, strip, to_upper, upper, is_vin_char, all_vin_chars, normalize_vin,
}

to_upper_vin_char : (c : ℕ) → is_vin_char c ≡ true → to_upper c ≡ c
unfolding to_upper is_vin_char
to_upper_vin_char c h = ground arith

strip_vin_chars : (cs : List ℕ) → all_vin_chars cs ≡ true → strip cs ≡ cs
unfolding strip all_vin_chars is_vin_char
strip_vin_chars [] h = refl
strip_vin_chars (c ∷ cs) h = ground (arith, strip_vin_chars cs)

upper_vin_chars : (cs : List ℕ) → all_vin_chars cs ≡ true → upper cs ≡ cs
unfolding upper all_vin_chars
upper_vin_chars [] h = refl
upper_vin_chars (c ∷ cs) h = ground (arith, upper_vin_chars cs, to_upper_vin_char c)

-- What `normalize_vin` returns has 17 characters, each a digit or an allowed letter.
pub normalize_vin_sound :
    (raw vin : List ℕ)
    → normalize_vin raw ≡ some vin
    → (length vin ≡ vin_length) × (all_vin_chars vin ≡ true)
unfolding normalize_vin
normalize_vin_sound raw vin h = ground arith

-- A text in canonical form is returned as it is.
pub normalize_vin_fixed :
    (vin : List ℕ)
    → length vin ≡ vin_length
    → all_vin_chars vin ≡ true
    → normalize_vin vin ≡ some vin
unfolding normalize_vin
normalize_vin_fixed vin l h = rw (strip_vin_chars vin h, upper_vin_chars vin h) (ground arith)

strip_hyphen : (xs ys : List ℕ) → strip (xs ++ b'-' ∷ ys) ≡ strip (xs ++ ys)
unfolding strip
strip_hyphen [] ys = refl
strip_hyphen (x ∷ xs) ys = rw (strip_hyphen xs ys, strip)

-- A hyphen makes no difference, wherever it stands.
pub normalize_vin_hyphen :
    (xs ys : List ℕ) → normalize_vin (xs ++ b'-' ∷ ys) ≡ normalize_vin (xs ++ ys)
unfolding normalize_vin
normalize_vin_hyphen xs ys = rw (strip_hyphen xs ys, normalize_vin)
