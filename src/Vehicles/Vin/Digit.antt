-- ===== src/Vehicles/Vin/Digit.antt =====
-- The arithmetic of the check digit: the weighted sum under one new character, and its remainders.
use motivra.Prelude.{
  ℕ, zero, suc, ◌+◌, ◌*◌, ◌%◌, ◌<◌, ◌≡◌, refl, ap, ◌≢◌, Bool, true, false, ◌&&◌, ◌||◌, not, List,
  [], ◌∷◌, none, some, arith, ltb, ◌==◌, get_elem?, set, Option-cases, holds_under, holds_under_lem,
  inl, inr,
}
use motivra.Vehicles.Vin.{
  vin_length, is_vin_char, all_vin_chars, vin_char_values, vin_position_weights,
  vin_check_digit_chars, same_byte, lookup_value, char_value, weighted_sum,
}

entries_pass : (ℕ → ℕ → Bool) → List (ℕ × ℕ) → Bool
entries_pass p [] = true
entries_pass p ((k, v) ∷ m) = p k v && entries_pass p m

-- A test that every entry of a map passes is passed by an entry that is found.
lookup_value_passes :
    (p : ℕ → ℕ → Bool) (m : List (ℕ × ℕ)) (c v : ℕ)
    → entries_pass p m ≡ true
    → lookup_value m c ≡ some v
    → p c v ≡ true
unfolding lookup_value entries_pass
lookup_value_passes p [] c v a h = cc
lookup_value_passes p ((k, w) ∷ m) c v a h = ground (arith, lookup_value_passes p m c v)

abbrev is_entry : ℕ → ℕ → Bool
is_entry c v = is_vin_char c && ltb v 10

char_value_entry : (c v : ℕ) → char_value c ≡ some v → is_entry c v ≡ true
unfolding char_value entries_pass is_vin_char
char_value_entry c v h = lookup_value_passes is_entry vin_char_values c v refl h

pub char_value_bound : (c v : ℕ) → char_value c ≡ some v → v < 10
char_value_bound c v h = ground (arith, char_value_entry c v h)

pub char_value_vin_char : (c v : ℕ) → char_value c ≡ some v → is_vin_char c ≡ true
char_value_vin_char c v h = ground (arith, char_value_entry c v h)

pub all_vin_chars-set :
    (cs : List ℕ) (i c : ℕ)
    → all_vin_chars cs ≡ true
    → is_vin_char c ≡ true
    → all_vin_chars (set cs i c) ≡ true
unfolding all_vin_chars
all_vin_chars-set [] i c h k = refl
all_vin_chars-set (x ∷ cs) zero c h k = ground arith
all_vin_chars-set (x ∷ cs) (suc i) c h k = ground (arith, all_vin_chars-set cs i c)

-- One new value changes the sum by the difference, times the weight of the place.
pub weighted_sum-set :
    (cs ws : List ℕ) (i c b w u v s : ℕ)
    → weighted_sum cs ws ≡ some s
    → get_elem? cs i ≡ some b
    → get_elem? ws i ≡ some w
    → char_value b ≡ some u
    → char_value c ≡ some v
    → (s' : ℕ) × (weighted_sum (set cs i c) ws ≡ some s') × (s' + u * w ≡ s + v * w)
unfolding weighted_sum
weighted_sum-set [] ws i c b w u v s e g k x y = cc
weighted_sum-set (a ∷ cs) [] i c b w u v s e g k x y = cc
weighted_sum-set (a ∷ cs) (z ∷ ws) zero c b w u v s e g k x y =
    elim (Option-cases (weighted_sum cs ws)) [
      | inl stop ↦ ground arith
      | inr (t, et) ↦ (v * z + t, ground arith, ground arith)
    ]
weighted_sum-set (a ∷ cs) (z ∷ ws) (suc i) c b w u v s e g k x y =
    elim (Option-cases (weighted_sum cs ws)) [
      | inl stop ↦ ground arith
      | inr (t, et) ↦ elim (Option-cases (char_value a)) [
        | inl stop ↦ ground arith
        | inr (q, eq) ↦
            let (t', et', sum) = weighted_sum-set cs ws i c b w u v t et g k x y in
            (q * z + t', ground arith, ground arith)
      ]
    ]

-- A weight below 11, other than 0, tells values below 10 apart modulo 11.
pub weight_detects :
    (w u v s s' : ℕ)
    → 0 < w
    → w < 11
    → u < 10
    → v < 10
    → s' + u * w ≡ s + v * w
    → s' % 11 ≡ s % 11
    → u ≡ v
weight_detects zero u v s s' p q a b e m = omega arith
weight_detects (suc zero) u v s s' p q a b e m = omega arith
weight_detects (suc (suc zero)) u v s s' p q a b e m = omega arith
weight_detects (suc (suc (suc zero))) u v s s' p q a b e m = omega arith
weight_detects (suc (suc (suc (suc zero)))) u v s s' p q a b e m = omega arith
weight_detects (suc (suc (suc (suc (suc zero))))) u v s s' p q a b e m = omega arith
weight_detects (suc (suc (suc (suc (suc (suc zero)))))) u v s s' p q a b e m = omega arith
weight_detects (suc (suc (suc (suc (suc (suc (suc zero))))))) u v s s' p q a b e m = omega arith
weight_detects (suc (suc (suc (suc (suc (suc (suc (suc zero)))))))) u v s s' p q a b e m =
    omega arith
weight_detects (suc (suc (suc (suc (suc (suc (suc (suc (suc zero))))))))) u v s s' p q a b e m =
    omega arith
weight_detects (suc (suc (suc (suc (suc (suc (suc (suc (suc (suc w)))))))))) u v s s' p q a b e m =
    let ten : w ≡ 0 = omega arith in
    omega (arith, ap (λ (t : ℕ). t * u) ten, ap (λ (t : ℕ). t * v) ten)

abbrev has_weight : ℕ → Bool
has_weight i = elim (get_elem? vin_position_weights i) [
  | none ↦ false
  | some w ↦ i == 8 || (ltb 0 w && ltb w 11)
]

has_weight_table : holds_under vin_length has_weight ≡ true
unfolding holds_under
has_weight_table = refl

-- Every place but the ninth has a weight from 1 to 10.
pub position_weight :
    (i : ℕ)
    → i < vin_length
    → i ≢ 8
    → (w : ℕ) × (get_elem? vin_position_weights i ≡ some w) × (0 < w) × (w < 11)
position_weight i h n = elim (Option-cases (get_elem? vin_position_weights i)) [
  | inl stop ↦ absurd (ground (arith, holds_under_lem vin_length has_weight i h has_weight_table))
  | inr (w, e) ↦
      let ok = holds_under_lem vin_length has_weight i h has_weight_table in
      (w, e, ground arith, ground arith)
]

abbrev differ : ℕ → Bool
differ r = holds_under 11 λ q.
    r == q
    || not (same_byte (get_elem? vin_check_digit_chars r) (get_elem? vin_check_digit_chars q))

differ_table : holds_under 11 differ ≡ true
unfolding holds_under
differ_table = refl

-- Different remainders have different check characters.
pub check_char_injective :
    (r q d : ℕ)
    → r < 11
    → q < 11
    → get_elem? vin_check_digit_chars r ≡ some d
    → get_elem? vin_check_digit_chars q ≡ some d
    → r ≡ q
check_char_injective r q d hr hq er eq =
    ground (arith, holds_under_lem 11 _ q hq (holds_under_lem 11 differ r hr differ_table))
