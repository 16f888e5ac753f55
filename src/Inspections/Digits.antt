-- ===== src/Inspections/Digits.antt =====
-- The fuel of the digits of a number in a report (backend/inspections/report.go, `%d`).
use motivra.Prelude.{ℕ, zero, suc, ◌/◌, ◌<◌, ◌≡◌, refl, arith, ltb, Bool-cases, inl, inr}
use motivra.Inspections.Report.{decimal_from}

suc_less : {m n f : ℕ} → n < suc f → m < n → m < f
suc_less h k = omega (arith, h, k)

-- Fuel above the number is enough for its digits.
pub decimal_from-enough : (f g n : ℕ) → n < f → n < g → decimal_from f n ≡ decimal_from g n
unfolding decimal_from
decimal_from-enough zero g n h k = absurd (omega (arith, h))
decimal_from-enough (suc f) zero n h k = absurd (omega (arith, k))
decimal_from-enough (suc f) (suc g) n h k = elim (Bool-cases (ltb n 10)) [
  | inl small ↦ rw small refl
  | inr large ↦
      let less : n / 10 < n = ground (arith, large) in
      rw (large, decimal_from-enough f g (n / 10) (suc_less h less) (suc_less k less)) refl
]
