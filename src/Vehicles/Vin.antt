-- ===== src/Vehicles/Vin.antt =====
-- backend/vehicles/vin.go: the canonical form of a VIN and its ISO 3779 check digit.
-- A Go string is the list of its runes here, since `strings.Map` and `strings.ToUpper` walk runes;
-- an error is `none` (its message is dropped). A rune outside ASCII that has no upper case in ASCII
-- is kept as it is: wherever `unicode.ToUpper` sends it, it is refused.
pub mod Laws
mod Digit
pub mod Substitution
mod Tests
use motivra.Prelude.{
  ℕ, zero, suc, ◌+◌, ◌-◌, ◌*◌, ◌%◌, Bool, true, false, ◌&&◌, ◌||◌, not, List, [], ◌∷◌, Option, none,
  some, leb, ◌==◌, if◌then◌else◌, length, get_elem?,
}

abbrev pub vin_length : ℕ
vin_length = 17

abbrev pub vin_forbidden : List ℕ
vin_forbidden = b'I' ∷ b'O' ∷ b'Q' ∷ []

abbrev pub vin_check_digit_chars : List ℕ
vin_check_digit_chars =
    b'0' ∷ b'1' ∷ b'2' ∷ b'3' ∷ b'4' ∷ b'5' ∷ b'6' ∷ b'7' ∷ b'8' ∷ b'9' ∷ b'X' ∷ []

-- The map literal, as the list of its entries.
abbrev pub vin_char_values : List (ℕ × ℕ)
vin_char_values =
    (b'0', 0)
    ∷ (b'1', 1)
    ∷ (b'2', 2)
    ∷ (b'3', 3)
    ∷ (b'4', 4)
    ∷ (b'5', 5)
    ∷ (b'6', 6)
    ∷ (b'7', 7)
    ∷ (b'8', 8)
    ∷ (b'9', 9)
    ∷ (b'A', 1)
    ∷ (b'B', 2)
    ∷ (b'C', 3)
    ∷ (b'D', 4)
    ∷ (b'E', 5)
    ∷ (b'F', 6)
    ∷ (b'G', 7)
    ∷ (b'H', 8)
    ∷ (b'J', 1)
    ∷ (b'K', 2)
    ∷ (b'L', 3)
    ∷ (b'M', 4)
    ∷ (b'N', 5)
    ∷ (b'P', 7)
    ∷ (b'R', 9)
    ∷ (b'S', 2)
    ∷ (b'T', 3)
    ∷ (b'U', 4)
    ∷ (b'V', 5)
    ∷ (b'W', 6)
    ∷ (b'X', 7)
    ∷ (b'Y', 8)
    ∷ (b'Z', 9)
    ∷ []

abbrev pub vin_position_weights : List ℕ
vin_position_weights = 8 ∷ 7 ∷ 6 ∷ 5 ∷ 4 ∷ 3 ∷ 2 ∷ 10 ∷ 0 ∷ 9 ∷ 8 ∷ 7 ∷ 6 ∷ 5 ∷ 4 ∷ 3 ∷ 2 ∷ []

-- `strings.Map` with the function that drops spaces and hyphens.
strip : List ℕ → List ℕ
strip [] = []
strip (r ∷ rs) = let rest = strip rs in if r == b' ' || r == b'-' then rest else r ∷ rest

-- `unicode.ToUpper`: the ASCII letters, and the two runes outside ASCII with an upper case in ASCII
-- (dotless i to I, long s to S).
to_upper : ℕ → ℕ
to_upper r =
    if leb b'a' r && leb r b'z'
    then r - 32
    else if r == 0x131
    then b'I'
    else if r == 0x17f
    then b'S'
    else r

-- `strings.ToUpper`
upper : List ℕ → List ℕ
upper [] = []
upper (r ∷ rs) = to_upper r ∷ upper rs

-- `strings.IndexByte(s, c) >= 0`
abbrev pub contains_byte : List ℕ → ℕ → Bool
contains_byte [] c = false
contains_byte (x ∷ xs) c = x == c || contains_byte xs c

-- The two tests of the loop of `NormalizeVIN` on one byte.
pub is_vin_char : ℕ → Bool
is_vin_char c =
    ((leb b'A' c && leb c b'Z') || (leb b'0' c && leb c b'9'))
    && not (contains_byte vin_forbidden c)

pub all_vin_chars : List ℕ → Bool
all_vin_chars [] = true
all_vin_chars (c ∷ cs) = is_vin_char c && all_vin_chars cs

pub normalize_vin : List ℕ → Option (List ℕ)
normalize_vin raw =
    let vin = upper (strip raw) in
    if length vin == vin_length then (if all_vin_chars vin then some vin else none) else none

-- A lookup in `vinCharValues`.
pub lookup_value : List (ℕ × ℕ) → ℕ → Option ℕ
lookup_value [] c = none
lookup_value ((k, v) ∷ m) c = if k == c then some v else lookup_value m c

pub char_value : ℕ → Option ℕ
unfolding lookup_value
char_value = lookup_value vin_char_values

-- The loop of `vinCheckDigit`; `none` is its error on a byte that has no value.
pub weighted_sum : List ℕ → List ℕ → Option ℕ
weighted_sum [] ws = some 0
weighted_sum (c ∷ cs) [] = some 0
weighted_sum (c ∷ cs) (w ∷ ws) = elim (char_value c) [
  | none ↦ none
  | some v ↦ elim (weighted_sum cs ws) [ none ↦ none | some s ↦ some (v * w + s) ]
]

pub vin_check_digit : List ℕ → Option ℕ
vin_check_digit vin =
    if length vin == vin_length
    then elim (weighted_sum vin vin_position_weights) [
      | none ↦ none
      | some sum ↦ get_elem? vin_check_digit_chars (sum % 11)
    ]
    else none

-- `vin[8] != want`
abbrev pub same_byte : Option ℕ → Option ℕ → Bool
same_byte (some a) (some b) = a == b
same_byte _ _ = false

pub validate_vin : List ℕ → Option (List ℕ)
validate_vin raw = elim (normalize_vin raw) [
  | none ↦ none
  | some vin ↦ elim (vin_check_digit vin) [
    | none ↦ none
    | some want ↦ if same_byte (get_elem? vin 8) (some want) then some vin else none
  ]
]
