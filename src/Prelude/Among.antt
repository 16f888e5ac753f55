-- ===== src/Prelude/Among.antt =====
-- The rows of a list, and what the tests, searches and orders over it say of them.
use mathlib.Core.Path.{◌≡◌, refl, sym, ap, ◌∙◌}
use mathlib.Core.Logic.{◌⊎◌, inl, inr, ◌↔◌}
use mathlib.Core.Option.{some}
use mathlib.Core.List.{List, [], ◌∷◌}
use mathlib.Core.Bool.{Bool, true, false}
use native.Mathlib.Omega.{arith}
use motivra.Prelude.Tests.{Eq, Bool-cases}
use motivra.Prelude.Lists.{All}
use motivra.Prelude.Order.{insert_by, order_by, where_rows, any_row}
use motivra.Prelude.Table.{find}

module _ {A : Type 0} where
  -- `a` is a row of the list.
  abbrev pub Among : A → List A → Type 0
  Among a [] = ⊥
  Among a (x ∷ xs) = (a ≡ x) ⊎ Among a xs

  pub All-Among : (P : A → Type 0) (xs : List A) → All P xs ↔ ((a : A) → Among a xs → P a)
  All-Among P [] = ((λ h a k. absurd k), λ h. tt)
  All-Among P (x ∷ xs) = (
    (λ h a k. elim k [ inl e ↦ rw e h.0 | inr m ↦ (All-Among P xs).0 h.1 a m ]),
    λ h. (h x (inl refl), (All-Among P xs).1 (λ a k. h a (inr k))),
  )

  pub any_row_iff :
      (test : A → Bool) (xs : List A)
      → (any_row test xs ≡ true) ↔ ((a : A) × Among a xs × (test a ≡ true))
  unfolding any_row
  any_row_iff test [] = ((λ h. ground (arith, h)), λ k. absurd k.1)
  any_row_iff test (x ∷ xs) = elim (Bool-cases (test x)) [
    | inl hit ↦ ((λ h. (x, inl refl, hit)), λ k. rw hit refl)
    | inr miss ↦ (
      (λ h. let (a, k, t) = (any_row_iff test xs).0 (ground (arith, h, miss)) in (a, inr k, t)),
      λ k. rw miss ((any_row_iff test xs).1 (k.0, later k.0 k.1 k.2 miss, k.2)),
    )
  ]
    where
      later : (a : A) → Among a (x ∷ xs) → test a ≡ true → test x ≡ false → Among a xs
      later a (inl e) t miss = ground (arith, ap test e, t, miss)
      later a (inr k) t miss = k

  pub where_rows_iff :
      (test : A → Bool) (a : A) (xs : List A)
      → Among a (where_rows test xs) ↔ (Among a xs × (test a ≡ true))
  unfolding where_rows
  where_rows_iff test a [] = ((λ h. absurd h), λ k. absurd k.0)
  where_rows_iff test a (x ∷ xs) = elim (Bool-cases (test x)) [
    | inl hit ↦ (
      (λ h.
          let row : (a ≡ x) ⊎ Among a (where_rows test xs) = rw hit at h in
          elim row [
            | inl e ↦ (inl e, ap test e ∙ hit)
            | inr k ↦ let (m, t) = (where_rows_iff test a xs).0 k in (inr m, t)
          ]),
      λ k.
          rw hit (elim k.0 [ inl e ↦ inl e | inr m ↦ inr ((where_rows_iff test a xs).1 (m, k.1)) ]),
    )
    | inr miss ↦ (
      (λ h.
          let row : Among a (where_rows test xs) = rw miss at h in
          let (m, t) = (where_rows_iff test a xs).0 row in (inr m, t)),
      λ k. rw miss (elim k.0 [
        | inl e ↦ ground (arith, ap test e, k.1, miss)
        | inr m ↦ (where_rows_iff test a xs).1 (m, k.1)
      ]),
    )
  ]

  pub order_by_iff :
      (before : A → A → Bool) (a : A) (xs : List A) → Among a (order_by before xs) ↔ Among a xs
  unfolding order_by insert_by
  order_by_iff before a [] = ((λ h. h), λ h. h)
  order_by_iff before a (x ∷ xs) = (
    (λ h. elim (inserted (order_by before xs) h) [
      | inl e ↦ inl e
      | inr k ↦ inr ((order_by_iff before a xs).0 k)
    ]),
    λ h.
        insert (order_by before xs)
          (elim h [ inl e ↦ inl e | inr k ↦ inr ((order_by_iff before a xs).1 k) ]),
  )
    where
      inserted : (ys : List A) → Among a (insert_by before x ys) → (a ≡ x) ⊎ Among a ys
      inserted [] h = h
      inserted (y ∷ ys) h = ground (arith, h, inserted ys)

      insert : (ys : List A) → (a ≡ x) ⊎ Among a ys → Among a (insert_by before x ys)
      insert [] h = h
      insert (y ∷ ys) h = ground (arith, h, insert ys)

module _ {A K : Type 0} ⦃e : Eq K⦄ (key : A → K) where
  pub find-Among : (k : K) (xs : List A) (a : A) → find key k xs ≡ some a → Among a xs × (key a ≡ k)
  unfolding find
  find-Among k [] a h = ground (arith, h)
  find-Among k (x ∷ xs) a h = elim (Bool-cases (e.beq (key x) k)) [
    | inl hit ↦
        let same : x ≡ a = ground (arith, h, hit) in
        (inl (sym same), ap key (sym same) ∙ (e.beq_iff (key x) k).0 hit)
    | inr miss ↦ let (m, q) = find-Among k xs a (ground (arith, h, miss)) in (inr m, q)
  ]

  pub Among-find :
      (k : K) (xs : List A) (a : A) → Among a xs → key a ≡ k → (b : A) × (find key k xs ≡ some b)
  unfolding find
  Among-find k [] a m q = absurd m
  Among-find k (x ∷ xs) a m q = elim (Bool-cases (e.beq (key x) k)) [
    | inl hit ↦ (x, rw hit refl)
    | inr miss ↦ let (b, f) = Among-find k xs a (later miss m) q in (b, rw miss f)
  ]
    where
      later : e.beq (key x) k ≡ false → (a ≡ x) ⊎ Among a xs → Among a xs
      later miss (inl s) = ground (arith, miss, (e.beq_iff (key x) k).1 (ap key (sym s) ∙ q))
      later miss (inr t) = t
