-- ===== src/Identity/Roles/Laws.antt =====
-- What HighestRole picks.
use motivra.Prelude.{
  ℕ, suc, ◌≤◌, ◌<◌, ◌≡◌, ◌⊎◌, refl, ap, true, false, List, [], ◌∷◌, Option, none, some, arith, leb,
  if◌then◌else◌, inl, inr, All, Bool-cases,
}
use motivra.Identity.Roles.{Role, role_priority, better, priority_or, highest_from, highest_role}

-- The priority of a role plus one; 0 where it has none.
abbrev pub rank : Role → ℕ
rank r = priority_or (role_priority r) 0

abbrev pub rank_of : Option Role → ℕ
rank_of none = 0
rank_of (some r) = rank r

abbrev pub OneOf : Role → List Role → Type 0
OneOf r [] = ⊥
OneOf r (x ∷ xs) = (r ≡ x) ⊎ OneOf r xs

-- `result` stays, or a known role of the list takes its place.
abbrev Picked : Option Role → List Role → Option Role → Type 0
Picked result rs best = (best ≡ result) ⊎ ((r : Role) × (best ≡ some r) × OneOf r rs × (0 < rank r))

-- Known facts of the loop, from a result that is at hand.
record Loop (result : Option Role) (rs : List Role) (best : Option Role) : Type 0 where
  above : rank_of result ≤ rank_of best
  all : All (λ r. rank r ≤ rank_of best) rs
  picked : Picked result rs best

later :
    (result : Option Role) (r : Role) (rs : List Role) (best : Option Role)
    → Picked result rs best
    → Picked result (r ∷ rs) best
later result r rs best (inl e) = inl e
later result r rs best (inr (s, e, m, k)) = inr (s, e, inr m, k)

replaced :
    (result : Option Role) (r : Role) (rs : List Role) (best : Option Role)
    → 0 < rank r
    → Picked (some r) rs best
    → Picked result (r ∷ rs) best
replaced result r rs best known (inl e) = inr (r, e, inl refl, known)
replaced result r rs best known (inr (s, e, m, k)) = inr (s, e, inr m, k)

leb→le : (a b : ℕ) → leb a b ≡ true → a ≤ b
leb→le a b h = ground arith

leb-false : (a b : ℕ) → leb a b ≡ false → b < a
leb-false a b h = ground arith

highest_from-Loop :
    (result : Option Role) (rs : List Role)
    → Loop result rs (highest_from (rank_of result) result rs)
unfolding highest_from
highest_from-Loop result [] = record { above = omega arith; all = tt; picked = inl refl }
highest_from-Loop result (r ∷ rs) =
    go (role_priority r) refl (highest_from-Loop (some r) rs) (highest_from-Loop result rs)
  where
    go :
        (p : Option ℕ)
        → role_priority r ≡ p
        → Loop (some r) rs (highest_from (rank r) (some r) rs)
        → Loop result rs (highest_from (rank_of result) result rs)
        → Loop result (r ∷ rs) (
            highest_from
              (if better p (rank_of result) then priority_or p (rank_of result) else rank_of result)
              (if better p (rank_of result) then some r else result)
              rs)
    go none e new old = record {
      above = old.above;
      all = (omega (arith, ap (λ p. priority_or p 0) e), old.all);
      picked = later result r rs _ old.picked;
    }
    go (some p) e new old = elim (Bool-cases (leb (rank_of result) p)) [
      | inl hit ↦
          let known : rank r ≡ suc p = ap (λ p. priority_or p 0) e in
          let taken : Loop (some r) rs (highest_from (suc p) (some r) rs) = rw known at new in
          rw hit (record {
            above = omega (arith, taken.above, known, leb→le (rank_of result) p hit);
            all = (taken.above, taken.all);
            picked = replaced result r rs _ (omega (arith, known)) taken.picked;
          })
      | inr miss ↦
          let known : rank r ≡ suc p = ap (λ p. priority_or p 0) e in
          rw miss (record {
            above = old.above;
            all = (omega (arith, old.above, known, leb-false (rank_of result) p miss), old.all);
            picked = later result r rs _ old.picked;
          })
    ]

-- HighestRole returns a known role of the list, or none, and no role of the list has a priority above
-- that of the result: so it is none only where no role of the list is known.
pub highest_role-Highest :
    (rs : List Role)
    → All (λ r. rank r ≤ rank_of (highest_role rs)) rs
      × ((highest_role rs ≡ none)
          ⊎ ((r : Role) × (highest_role rs ≡ some r) × OneOf r rs × (0 < rank r)))
unfolding highest_role
highest_role-Highest rs = let l = highest_from-Loop none rs in (l.all, l.picked)
