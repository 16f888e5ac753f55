-- ===== src/Payments/Money/Laws.antt =====
-- The arithmetic of amounts is exact: it never wraps, and never leaves the positive amounts.
use motivra.Prelude.{ℕ, ◌+◌, ◌-◌, ◌≤◌, ◌<◌, ◌≡◌, true, none, some, arith, leb, ltb, if◌then◌else◌}
use motivra.Prelude.Int.{pos, ◌+ℤ◌, ◌-ℤ◌, pos_part, max_int64, IsInt64, wrap64, wrap64_of_IsInt64}
use motivra.Prelude.Text.{text_eq_iff, text_eq_refl}
use motivra.Payments.Money.{Money, currency_kes, is_valid, add, subtract}

-- A legal amount: a positive `int64` of KES.
pub record IsLegal (m : Money) : Type 0 where
  pub kes : m.currency ≡ currency_kes
  pub positive : 0 < pos_part m.amount_minor
  pub in_range : pos_part m.amount_minor ≤ max_int64

is_valid-IsLegal : (m : Money) → is_valid m ≡ true → IsInt64 m.amount_minor → IsLegal m
unfolding is_valid
is_valid-IsLegal m h r = ground (arith, text_eq_iff m.currency currency_kes)

-- `n` minor units of KES.
abbrev pub kes : ℕ → Money
kes n = record { amount_minor = pos n; currency = currency_kes }

abbrev pub InRange : ℕ → Type 0
InRange n = (0 < n) × (n ≤ max_int64)

IsLegal-kes : (m : Money) → IsLegal m → m ≡ kes (pos_part m.amount_minor)
IsLegal-kes m h = ground arith

is_valid-kes : (n : ℕ) → 0 < n → is_valid (kes n) ≡ true
unfolding is_valid
is_valid-kes n h = ground (arith, text_eq_refl currency_kes)

wrap64_sum : (n m : ℕ) → n + m ≤ max_int64 → wrap64 (pos n +ℤ pos m) ≡ pos (n + m)
unfolding ◌+ℤ◌
wrap64_sum n m h = ground (arith, wrap64_of_IsInt64 (pos n +ℤ pos m))

wrap64_difference : (n m : ℕ) → n ≤ max_int64 → m ≤ n → wrap64 (pos n -ℤ pos m) ≡ pos (n - m)
unfolding ◌-ℤ◌
wrap64_difference n m h k = ground (arith, wrap64_of_IsInt64 (pos n -ℤ pos m))

-- The sum of two legal amounts is exact, and refused exactly when it does not fit an `int64`.
pub add-kes :
    (n m : ℕ)
    → InRange n
    → InRange m
    → add (kes n) (kes m) ≡ (if leb (n + m) max_int64 then some (kes (n + m)) else none)
unfolding add
add-kes n m hn hm = ground (
  arith,
  is_valid-kes n,
  is_valid-kes m,
  text_eq_refl currency_kes,
  wrap64_difference max_int64 m,
  wrap64_sum n m,
)

-- The difference of two legal amounts is exact, and refused exactly when it is not positive.
subtract-kes :
    (n m : ℕ)
    → InRange n
    → InRange m
    → subtract (kes n) (kes m) ≡ (if ltb m n then some (kes (n - m)) else none)
unfolding subtract
subtract-kes n m hn hm =
    ground (arith, is_valid-kes n, is_valid-kes m, text_eq_refl currency_kes, wrap64_difference n m)

-- For two legal amounts the sum is exact, and refused exactly when it does not fit an `int64`; the
-- difference is exact, and refused exactly when it is not positive.
pub add-subtract-kes :
    (n m : ℕ)
    → InRange n
    → InRange m
    → (add (kes n) (kes m) ≡ (if leb (n + m) max_int64 then some (kes (n + m)) else none))
      × (subtract (kes n) (kes m) ≡ (if ltb m n then some (kes (n - m)) else none))
add-subtract-kes n m hn hm = (add-kes n m hn hm, subtract-kes n m hn hm)

-- What `add` accepts are two legal amounts.
add_operands : (a b c : Money) → add a b ≡ some c → (is_valid a ≡ true) × (is_valid b ≡ true)
unfolding add
add_operands a b c h = ground arith

-- Of any two `int64` amounts, in any currencies: when `add` returns a sum, taking either operand
-- away from it gives the other back.
pub subtract-add :
    (a b c : Money)
    → IsInt64 a.amount_minor
    → IsInt64 b.amount_minor
    → add a b ≡ some c
    → (subtract c b ≡ some a) × (subtract c a ≡ some b)
subtract-add a b c ra rb h =
    let (va, vb) = add_operands a b c h in
    let la = is_valid-IsLegal a va ra in
    let lb = is_valid-IsLegal b vb rb in
    let n = pos_part a.amount_minor in
    let m = pos_part b.amount_minor in
    ground (
      arith,
      IsLegal-kes a la,
      IsLegal-kes b lb,
      add-kes n m (la.positive, la.in_range) (lb.positive, lb.in_range),
      subtract-kes (n + m) m,
      subtract-kes (n + m) n,
    )
