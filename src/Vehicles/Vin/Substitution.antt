-- ===== src/Vehicles/Vin/Substitution.antt =====
-- `ValidateVIN`: what it accepts, and that its check digit finds every substitution of one
-- character by one of another value.
use motivra.Prelude.{
  ℕ, zero, suc, ◌%◌, ◌<◌, ◌≡◌, refl, ◌∙◌, ◌≢◌, true, List, [], ◌∷◌, none, some, arith, length,
  length-set, get_elem?, get_elem?-set_self, get_elem?-set_ne, set, Option-cases, inl, inr,
}
use motivra.Vehicles.Vin.{
  vin_length, all_vin_chars, vin_position_weights, vin_check_digit_chars, char_value, weighted_sum,
  vin_check_digit, normalize_vin, validate_vin,
}
use motivra.Vehicles.Vin.Laws.{normalize_vin_sound, normalize_vin_fixed}
use motivra.Vehicles.Vin.Digit.{
  char_value_bound, char_value_vin_char, all_vin_chars-set, weighted_sum-set, weight_detects,
  position_weight, check_char_injective,
}

-- What a validated VIN satisfies: it is canonical, and its ninth character is the check digit.
pub validate_vin_inv :
    (raw vin : List ℕ)
    → validate_vin raw ≡ some vin
    → (s d : ℕ) × (normalize_vin raw ≡ some vin)
      × (weighted_sum vin vin_position_weights ≡ some s)
      × (get_elem? vin 8 ≡ some d)
      × (get_elem? vin_check_digit_chars (s % 11) ≡ some d)
unfolding validate_vin vin_check_digit
validate_vin_inv raw vin h = elim (Option-cases (normalize_vin raw)) [
  | inl stop ↦ absurd (ground arith)
  | inr (n, en) ↦ elim (Option-cases (weighted_sum n vin_position_weights)) [
    | inl stop ↦ absurd (ground arith)
    | inr (s, es) ↦ elim (Option-cases (get_elem? vin_check_digit_chars (s % 11))) [
      | inl stop ↦ absurd (ground arith)
      | inr (d, ed) ↦ (s, d, ground arith, ground arith, ground arith, ed)
    ]
  ]
]

-- A canonical text whose ninth character is not its check digit is refused.
validate_vin_refuses :
    (vin : List ℕ) (s d : ℕ)
    → length vin ≡ vin_length
    → all_vin_chars vin ≡ true
    → weighted_sum vin vin_position_weights ≡ some s
    → get_elem? vin 8 ≡ some d
    → get_elem? vin_check_digit_chars (s % 11) ≢ some d
    → validate_vin vin ≡ none
unfolding validate_vin vin_check_digit
validate_vin_refuses vin s d l a ws at ne =
    elim (Option-cases (get_elem? vin_check_digit_chars (s % 11))) [
      | inl stop ↦ ground (arith, normalize_vin_fixed vin l a)
      | inr (e, ee) ↦ ground (arith, normalize_vin_fixed vin l a)
    ]

-- When one character of a valid VIN, at any place but that of the check digit, is replaced by a
-- character of another ISO 3779 value, the result is refused.
pub validate_vin_substitution :
    (raw vin : List ℕ) (i c b u v : ℕ)
    → validate_vin raw ≡ some vin
    → i < vin_length
    → i ≢ 8
    → get_elem? vin i ≡ some b
    → char_value b ≡ some u
    → char_value c ≡ some v
    → u ≢ v
    → validate_vin (set vin i c) ≡ none
validate_vin_substitution raw vin i c b u v ok lt ne at vb vc differs =
    let (s, d, en, es, eight, want) = validate_vin_inv raw vin ok in
    let (l, chars) = normalize_vin_sound raw vin en in
    let (w, ew, lo, hi) = position_weight i lt ne in
    let (s', es', sum) = weighted_sum-set vin vin_position_weights i c b w u v s es at ew vb vc in
    validate_vin_refuses (set vin i c) s' d (length-set vin i c ∙ l)
      (all_vin_chars-set vin i c chars (char_value_vin_char c v vc)) es'
      (get_elem?-set_ne vin c ne ∙ eight)
      (λ same. differs (
        weight_detects w u v s s' lo hi (char_value_bound b u vb) (char_value_bound c v vc) sum
          (check_char_injective (s' % 11) (s % 11) d (omega arith) (omega arith) same want)))

-- Every character that the sum counts has a value.
weighted_sum_value :
    (cs ws : List ℕ) (i b w s : ℕ)
    → weighted_sum cs ws ≡ some s
    → get_elem? cs i ≡ some b
    → get_elem? ws i ≡ some w
    → (u : ℕ) × (char_value b ≡ some u)
unfolding weighted_sum
weighted_sum_value [] ws i b w s e g k = absurd (ground arith)
weighted_sum_value (a ∷ cs) [] i b w s e g k = absurd (ground arith)
weighted_sum_value (a ∷ cs) (z ∷ ws) zero b w s e g k = elim (Option-cases (char_value b)) [
  | inl stop ↦ absurd (ground arith)
  | inr found ↦ found
]
weighted_sum_value (a ∷ cs) (z ∷ ws) (suc i) b w s e g k =
    elim (Option-cases (weighted_sum cs ws)) [
      | inl stop ↦ absurd (ground arith)
      | inr (t, et) ↦ weighted_sum_value cs ws i b w t et g k
    ]

-- When the check digit of a valid VIN is replaced by another character that has an ISO 3779 value,
-- the result is refused.
pub validate_vin_check_digit :
    (raw vin : List ℕ) (c d v : ℕ)
    → validate_vin raw ≡ some vin
    → get_elem? vin 8 ≡ some d
    → char_value c ≡ some v
    → c ≢ d
    → validate_vin (set vin 8 c) ≡ none
validate_vin_check_digit raw vin c d v ok at vc ne =
    let (s, want_char, en, es, eight, want) = validate_vin_inv raw vin ok in
    let (l, chars) = normalize_vin_sound raw vin en in
    let (u, vd) = weighted_sum_value vin vin_position_weights 8 d 0 s es at refl in
    let (s', es', sum) = weighted_sum-set vin vin_position_weights 8 c d 0 u v s es at refl vd vc in
    let same : s' ≡ s = omega (arith, sum) in
    validate_vin_refuses (set vin 8 c) s' c (length-set vin 8 c ∙ l)
      (all_vin_chars-set vin 8 c chars (char_value_vin_char c v vc)) es'
      (get_elem?-set_self vin 8 c (omega (arith, l))) (rw same (λ claimed. ne (ground arith)))

-- Validation accepts what it returned, and returns it again.
pub validate_vin_idem :
    (raw vin : List ℕ) → validate_vin raw ≡ some vin → validate_vin vin ≡ some vin
unfolding validate_vin vin_check_digit
validate_vin_idem raw vin ok =
    let (s, d, en, es, eight, want) = validate_vin_inv raw vin ok in
    let (l, chars) = normalize_vin_sound raw vin en in
    ground (arith, normalize_vin_fixed vin l chars)
