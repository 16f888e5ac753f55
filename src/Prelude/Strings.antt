-- ===== src/Prelude/Strings.antt =====
-- strings.HasPrefix, TrimPrefix and Split by one byte, and strconv.Atoi.
use Prim.Native.Nat.{ℕ, zero, suc, ◌+◌, ◌-◌, ◌*◌, ◌^◌}
use mathlib.Core.Path.{◌≡◌, refl}
use mathlib.Core.Logic.{◌≢◌}
use mathlib.Core.Bool.{Bool, ◌&&◌}
use mathlib.Core.Option.{Option, none, some}
use mathlib.Core.List.{List, [], ◌∷◌, ◌++◌}
use native.Mathlib.Omega.{arith}
use motivra.Prelude.Tests.{leb, ltb, ◌==◌, ==_iff, if◌then◌else◌}
use motivra.Prelude.Lists.{All}
use motivra.Prelude.Int.{ℤ, pos, negsuc}
use motivra.Prelude.Text.{Text}

-- What follows the prefix, where the text has it.
unfoldable pub after_prefix : Text → Text → Option Text
after_prefix [] s = some s
after_prefix (p ∷ ps) [] = none
after_prefix (p ∷ ps) (c ∷ s) = let rest = after_prefix ps s in if p == c then rest else none

abbrev pub push : ℕ → List Text → List Text
push c [] = (c ∷ []) ∷ []
push c (x ∷ xs) = (c ∷ x) ∷ xs

unfoldable pub split : ℕ → Text → List Text
split sep [] = [] ∷ []
split sep (c ∷ s) = let rest = split sep s in if c == sep then [] ∷ rest else push c rest

-- A piece without the separator.
pub split-append :
    (sep : ℕ) (s t : Text) → All (λ c. sep ≢ c) s → split sep (s ++ sep ∷ t) ≡ s ∷ split sep t
unfolding split
split-append sep [] t h = ground (arith, ==_iff sep sep)
split-append sep (c ∷ s) t h = ground (arith, h, split-append sep s t h.1, ==_iff c sep)

pub split-none : (sep : ℕ) (s : Text) → All (λ c. sep ≢ c) s → split sep s ≡ s ∷ []
unfolding split
split-none sep [] h = refl
split-none sep (c ∷ s) h = ground (arith, h, split-none sep s h.1, ==_iff c sep)

abbrev is_digit : ℕ → Bool
is_digit c = leb b'0' c && leb c b'9'

-- The digits of a number after `n`.
unfoldable pub digits_from : ℕ → Text → Option ℕ
digits_from n [] = some n
digits_from n (c ∷ s) =
    let rest = digits_from (n * 10 + (c - b'0')) s in if is_digit c then rest else none

abbrev pub digits : Text → Option ℕ
digits [] = none
digits (c ∷ s) = digits_from 0 (c ∷ s)

abbrev in_range : Option ℕ → Option ℤ
in_range none = none
in_range (some n) = if ltb n (2 ^ 63) then some (pos n) else none

abbrev negated : Option ℕ → Option ℤ
negated none = none
negated (some zero) = some (pos 0)
negated (some (suc n)) = if ltb n (2 ^ 63) then some (negsuc n) else none

-- strconv.Atoi where `int` has 64 bits.
unfoldable pub atoi : Text → Option ℤ
unfolding digits_from
atoi [] = none
atoi (c ∷ s) =
    if c == b'-'
    then negated (digits s)
    else if c == b'+'
    then in_range (digits s)
    else in_range (digits (c ∷ s))
