-- ===== src/Payments/Money.antt =====
-- backend/payments/money.go: amounts in minor units of KES, with the overflow and sign checks.
-- An `int64` is an integer in its range, `+` and `-` wrap around, and an error is `none` (its
-- message is dropped; every caller only forwards it).
pub mod Laws
mod Tests
use motivra.Prelude.{Bool, true, false, ◌&&◌, Option, none, some, if◌then◌else◌}
use motivra.Prelude.Int.{ℤ, pos, ◌+ℤ◌, ◌-ℤ◌, ltb_ℤ, eqb_ℤ, max_int64, wrap64}
use motivra.Prelude.Text.{Text, bytes, text_eq}

abbrev pub currency_kes : Text
currency_kes = bytes "KES"

pub record Money : Type 0 where
  pub amount_minor : ℤ
  pub currency : Text

-- `Validate() == nil`
unfoldable pub is_valid : Money → Bool
is_valid m = if text_eq m.currency currency_kes then ltb_ℤ (pos 0) m.amount_minor else false

unfoldable pub new_money : ℤ → Text → Option Money
unfolding is_valid
new_money amount_minor currency =
    let m : Money = record { amount_minor = amount_minor; currency = currency } in
    if is_valid m then some m else none

unfoldable pub add : Money → Money → Option Money
unfolding is_valid
add a b =
    if is_valid a
    then if is_valid b
      then if text_eq a.currency b.currency
        then if ltb_ℤ (wrap64 (pos max_int64 -ℤ b.amount_minor)) a.amount_minor
          then none
          else some (record {
            amount_minor = wrap64 (a.amount_minor +ℤ b.amount_minor);
            currency = a.currency;
          })
        else none
      else none
    else none

unfoldable pub subtract : Money → Money → Option Money
unfolding is_valid
subtract a b =
    if is_valid a
    then if is_valid b
      then if text_eq a.currency b.currency
        then if ltb_ℤ a.amount_minor b.amount_minor
          then none
          else if eqb_ℤ b.amount_minor a.amount_minor
          then none
          else some (record {
            amount_minor = wrap64 (a.amount_minor -ℤ b.amount_minor);
            currency = a.currency;
          })
        else none
      else none
    else none

unfoldable pub equal_same_currency : Money → Money → Bool
equal_same_currency a b = eqb_ℤ a.amount_minor b.amount_minor && text_eq a.currency b.currency
