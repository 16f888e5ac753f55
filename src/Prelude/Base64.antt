-- ===== src/Prelude/Base64.antt =====
-- encoding/base64 without padding (RawStdEncoding and RawURLEncoding): a byte is a number under 256.
pub mod Laws
use Prim.Native.Nat.{ℕ, zero, suc, ◌+◌, ◌-◌, ◌*◌, ◌/◌, ◌%◌, ◌≤◌, ◌<◌}
use mathlib.Core.Path.{◌≡◌, refl, ap}
use mathlib.Core.Bool.{Bool, true, false, ◌&&◌, ◌||◌}
use mathlib.Core.Option.{Option, none, some}
use mathlib.Core.List.{List, [], ◌∷◌}
use native.Mathlib.Omega.{arith}
use motivra.Prelude.Tests.{leb, ltb, ◌==◌, if◌then◌else◌}
use motivra.Prelude.Lists.{All}
use motivra.Prelude.Text.{Text}

-- The two last characters of an alphabet: '+' and '/', or '-' and '_'.
pub record Alphabet : Type 0 where
  pub plus : ℕ
  pub slash : ℕ

abbrev pub std_alphabet : Alphabet
std_alphabet = record { plus = b'+'; slash = b'/' }

abbrev pub url_alphabet : Alphabet
url_alphabet = record { plus = b'-'; slash = b'_' }

unfoldable pub digit : Alphabet → ℕ → ℕ
digit a v =
    if ltb v 26
    then v + 65
    else if ltb v 52
    then v + 71
    else if ltb v 62
    then v - 4
    else if v == 62
    then a.plus
    else a.slash

unfoldable pub digit_value : Alphabet → ℕ → Option ℕ
digit_value a c =
    if leb b'A' c && leb c b'Z'
    then some (c - 65)
    else if leb b'a' c && leb c b'z'
    then some (c - 71)
    else if leb b'0' c && leb c b'9'
    then some (c + 4)
    else if c == a.plus
    then some 62
    else if c == a.slash
    then some 63
    else none

unfoldable pub encode : Alphabet → Text → Text
unfolding digit
encode t [] = []
encode t (a ∷ []) = digit t (a / 4) ∷ digit t (a % 4 * 16) ∷ []
encode t (a ∷ b ∷ []) = digit t (a / 4) ∷ digit t (a % 4 * 16 + b / 16) ∷ digit t (b % 16 * 4) ∷ []
encode t (a ∷ b ∷ c ∷ s) =
    digit t (a / 4)
    ∷ digit t (a % 4 * 16 + b / 16)
    ∷ digit t (b % 16 * 4 + c / 64)
    ∷ digit t (c % 64)
    ∷ encode t s

abbrev two : Option ℕ → Option ℕ → Option Text
two (some v) (some w) = some ((v * 4 + w / 16) ∷ [])
two _ _ = none

abbrev three : Option ℕ → Option ℕ → Option ℕ → Option Text
three (some u) (some v) (some w) = some ((u * 4 + v / 16) ∷ (v % 16 * 16 + w / 4) ∷ [])
three _ _ _ = none

abbrev four : Option ℕ → Option ℕ → Option ℕ → Option ℕ → Option Text → Option Text
four (some u) (some v) (some w) (some x) (some s) =
    some ((u * 4 + v / 16) ∷ (v % 16 * 16 + w / 4) ∷ (w % 4 * 64 + x) ∷ s)
four _ _ _ _ _ = none

-- The bits that a last group has too many are not looked at.
unfoldable pub decode_groups : Alphabet → Text → Option Text
unfolding digit_value
decode_groups t [] = some []
decode_groups t (a ∷ []) = none
decode_groups t (a ∷ b ∷ []) = two (digit_value t a) (digit_value t b)
decode_groups t (a ∷ b ∷ c ∷ []) = three (digit_value t a) (digit_value t b) (digit_value t c)
decode_groups t (a ∷ b ∷ c ∷ d ∷ s) =
    four (digit_value t a) (digit_value t b) (digit_value t c) (digit_value t d) (decode_groups t s)

-- Line breaks are skipped.
unfoldable pub skip_breaks : Text → Text
skip_breaks [] = []
skip_breaks (c ∷ s) = let rest = skip_breaks s in if c == 10 || c == 13 then rest else c ∷ rest

unfoldable pub decode : Alphabet → Text → Option Text
unfolding decode_groups skip_breaks
decode t s = decode_groups t (skip_breaks s)

abbrev pub IsByte : ℕ → Type 0
IsByte b = b < 256
