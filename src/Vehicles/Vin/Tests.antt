-- ===== src/Vehicles/Vin/Tests.antt =====
-- Runs of the VIN functions.
use motivra.Prelude.{ℕ, ◌≡◌, refl, List, none, some, arith, get_elem?, set}
use motivra.Prelude.Text.{bytes}
use motivra.Vehicles.Vin.{
  strip, to_upper, upper, is_vin_char, all_vin_chars, normalize_vin, char_value, weighted_sum,
  vin_check_digit, validate_vin,
}
use motivra.Vehicles.Vin.Substitution.{validate_vin_substitution}

abbrev raw_honda : List ℕ
raw_honda = bytes "1hgcm-82633 a004352"

abbrev honda : List ℕ
honda = bytes "1HGCM82633A004352"

accepts_honda : validate_vin raw_honda ≡ some honda
unfolding validate_vin normalize_vin vin_check_digit weighted_sum char_value strip to_upper upper
    is_vin_char all_vin_chars bytes
accepts_honda = refl

second_honda : get_elem? honda 1 ≡ some 72
unfolding bytes
second_honda = refl

value_h : char_value 72 ≡ some 8
unfolding char_value
value_h = refl

value_a : char_value 65 ≡ some 1
unfolding char_value
value_a = refl

-- H at the second place read as A.
validate_vin_substitution_example : validate_vin (set honda 1 65) ≡ none
validate_vin_substitution_example =
    validate_vin_substitution raw_honda honda 1 65 72 8 1 accepts_honda (omega arith)
      (λ e. omega (arith, e)) second_honda value_h value_a (λ e. omega (arith, e))

ninth_honda : get_elem? honda 8 ≡ some 51
unfolding bytes
ninth_honda = refl
