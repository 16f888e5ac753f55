-- ===== src/Payments/Money/Tests.antt =====
-- The arithmetic of amounts at concrete amounts.
use motivra.Prelude.{ℕ, ◌+◌, ◌-◌, ◌≤◌, ◌≡◌, none, some, arith, leb, ltb, if◌then◌else◌}
use motivra.Prelude.Int.{pos, max_int64, IsInt64}
use motivra.Payments.Money.{add, subtract}
use motivra.Payments.Money.Laws.{kes, InRange, add-kes, add-subtract-kes, subtract-add}

small : (n : ℕ) → 1 ≤ n → n ≤ 1000 → InRange n
small n h k = (omega (arith, h), omega (arith, k))

fits : (n : ℕ) → n ≤ 1000 → IsInt64 (pos n)
fits n h = ground (arith, h)

add-subtract-kes_example :
    (add (kes 150) (kes 250) ≡ (if leb (150 + 250) max_int64 then some (kes (150 + 250)) else none))
    × (subtract (kes 150) (kes 250) ≡ (if ltb 250 150 then some (kes (150 - 250)) else none))
add-subtract-kes_example =
    add-subtract-kes 150 250 (small 150 (omega arith) (omega arith))
      (small 250 (omega arith) (omega arith))

sum_150_250 : add (kes 150) (kes 250) ≡ some (kes 400)
sum_150_250 =
    add-kes 150 250 (small 150 (omega arith) (omega arith)) (small 250 (omega arith) (omega arith))

subtract-add_example :
    (subtract (kes 400) (kes 250) ≡ some (kes 150))
    × (subtract (kes 400) (kes 150) ≡ some (kes 250))
subtract-add_example =
    subtract-add (kes 150) (kes 250) (kes 400) (fits 150 (omega arith)) (fits 250 (omega arith))
      sum_150_250
