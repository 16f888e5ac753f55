-- ===== src/Prelude/Base64/Laws.antt =====
-- What is encoded is decoded again, and a separator does not occur in it.
use motivra.Prelude.Tests.{==_iff}
use Prim.Native.Nat.{ℕ, ◌+◌, ◌*◌, ◌/◌, ◌%◌, ◌<◌}
use mathlib.Core.Path.{◌≡◌, refl}
use mathlib.Core.Logic.{◌≢◌}
use mathlib.Core.Option.{some}
use mathlib.Core.List.{[], ◌∷◌}
use native.Mathlib.Omega.{arith}
use motivra.Prelude.Lists.{All}
use motivra.Prelude.Text.{Text}
use motivra.Prelude.Base64.{
  std_alphabet, digit, digit_value, encode, decode_groups, skip_breaks, decode, IsByte,
}

digit_value-digit : (v : ℕ) → v < 64 → digit_value std_alphabet (digit std_alphabet v) ≡ some v
unfolding digit digit_value
digit_value-digit v h = ground arith

-- A digit is no line break and no '$'.
abbrev pub Plain : ℕ → Type 0
Plain c = (10 ≢ c) × (13 ≢ c) × (36 ≢ c)

digit-Plain : (v : ℕ) → Plain (digit std_alphabet v)
unfolding digit
digit-Plain v = ground arith

pub encode-Plain : (s : Text) → All Plain (encode std_alphabet s)
unfolding encode
encode-Plain [] = tt
encode-Plain (a ∷ []) = (digit-Plain (a / 4), (digit-Plain (a % 4 * 16), tt))
encode-Plain (a ∷ b ∷ []) =
    (digit-Plain (a / 4), (digit-Plain (a % 4 * 16 + b / 16), (digit-Plain (b % 16 * 4), tt)))
encode-Plain (a ∷ b ∷ c ∷ s) = (
  digit-Plain (a / 4),
  (
    digit-Plain (a % 4 * 16 + b / 16),
    (digit-Plain (b % 16 * 4 + c / 64), (digit-Plain (c % 64), encode-Plain s)),
  ),
)

skip_breaks-Plain : (s : Text) → All Plain s → skip_breaks s ≡ s
unfolding skip_breaks
skip_breaks-Plain [] h = refl
skip_breaks-Plain (c ∷ s) h = ground (arith, h, skip_breaks-Plain s h.1, ==_iff c 10, ==_iff c 13)

decode_groups-encode :
    (s : Text) → All IsByte s → decode_groups std_alphabet (encode std_alphabet s) ≡ some s
unfolding decode_groups encode
decode_groups-encode [] h = refl
decode_groups-encode (a ∷ []) h =
    rw (digit_value-digit (a / 4) (omega arith), digit_value-digit (a % 4 * 16) (omega arith))
      (ground arith)
decode_groups-encode (a ∷ b ∷ []) h =
    rw
      (
        digit_value-digit (a / 4) (omega arith),
        digit_value-digit (a % 4 * 16 + b / 16) (omega arith),
        digit_value-digit (b % 16 * 4) (omega arith),
      )
      (ground arith)
decode_groups-encode (a ∷ b ∷ c ∷ s) h =
    rw
      (
        digit_value-digit (a / 4) (omega arith),
        digit_value-digit (a % 4 * 16 + b / 16) (omega arith),
        digit_value-digit (b % 16 * 4 + c / 64) (omega arith),
        digit_value-digit (c % 64) (omega arith),
        decode_groups-encode s h.1.1.1,
      )
      (ground arith)

pub decode-encode : (s : Text) → All IsByte s → decode std_alphabet (encode std_alphabet s) ≡ some s
unfolding decode
decode-encode s h =
    rw (skip_breaks-Plain (encode std_alphabet s) (encode-Plain s)) (decode_groups-encode s h)
