-- ===== src/Prelude/Table.antt =====
-- A database table as the list of its rows, under a key: the primary key, or a unique index.
use motivra.Prelude.Tests.{Eq, if◌then◌else◌, Bool-cases}
use mathlib.Core.Path.{◌≡◌, refl, ap, ◌∙◌}
use mathlib.Core.Logic.{inl, inr}
use mathlib.Core.Option.{Option, none, some}
use mathlib.Core.Option
use mathlib.Core.List.{List, [], ◌∷◌, map}
use mathlib.Core.Bool.{Bool}
use motivra.Prelude.Order.{update_where}
use native.Mathlib.Omega.{arith}

module _ {A K : Type 0} ⦃e : Eq K⦄ (key : A → K) where
  -- SELECT … WHERE key = $1
  unfoldable pub find : K → List A → Option A
  find k [] = none
  find k (x ∷ xs) = if e.beq (key x) k then some x else find k xs

  -- UPDATE … WHERE key = $1
  unfoldable pub update : K → (A → A) → List A → List A
  update k f [] = []
  update k f (x ∷ xs) = (if e.beq (key x) k then f x else x) ∷ update k f xs

  pub find-cons :
      (k : K) (x : A) (xs : List A)
      → find k (x ∷ xs) ≡ (if e.beq (key x) k then some x else find k xs)
  unfolding find
  find-cons k x xs = refl

  -- A row that is found has the key.
  pub find_key : (k : K) (xs : List A) (x : A) → find k xs ≡ some x → key x ≡ k
  unfolding find
  find_key k [] x h = ground arith
  find_key k (y ∷ xs) x h = ground (arith, e.beq_iff (key y) k, find_key k xs x)

module _ {A K : Type 0} ⦃e : Eq K⦄ (key : A → K) (f : A → A)
    (keeps : (a : A) → key (f a) ≡ key a) where
  -- An update changes the rows with its key and no others.
  pub find-update :
      (j k : K) (xs : List A)
      → find key j (update key k f xs)
        ≡ (if e.beq k j then Option.map f (find key j xs) else find key j xs)
  unfolding find update
  find-update j k [] = ground arith
  find-update j k (x ∷ xs) =
      ground (
        arith,
        keeps x,
        e.beq_iff (key x) j,
        e.beq_iff (key x) k,
        e.beq_iff k j,
        find-update j k xs,
      )

-- Every row of `xs` is still in `ys`, changed at most as `P` allows.
pub record Evolves {A K : Type 0} ⦃e : Eq K⦄ (key : A → K) (P : A → A → Type 0) (xs ys : List A)
    : Type 0 where
  pub row : (k : K) (a : A) → find key k xs ≡ some a → (b : A) × (find key k ys ≡ some b) × P a b

module _ {A K : Type 0} ⦃e : Eq K⦄ (key : A → K) (P : A → A → Type 0)
    (P_refl : (a : A) → P a a) where
  pub Evolves-refl : (xs : List A) → Evolves key P xs xs
  Evolves-refl xs = record { row = λ k a h. (a, h, P_refl a) }

  -- A row with a new key changes no other.
  pub Evolves-cons : (x : A) (xs : List A) → find key (key x) xs ≡ none → Evolves key P xs (x ∷ xs)
  Evolves-cons x xs new = record { row = λ k a h. (a, kept k a h, P_refl a) }
    where
      kept : (k : K) (a : A) → find key k xs ≡ some a → find key k (x ∷ xs) ≡ some a
      kept k a h = ground (arith, find-cons key k x xs, e.beq_iff (key x) k)

  pub Evolves-update :
      (f : A → A) (keeps : (a : A) → key (f a) ≡ key a) (k : K) (xs : List A) (x : A)
      → find key k xs ≡ some x
      → P x (f x)
      → Evolves key P xs (update key k f xs)
  Evolves-update f keeps k xs x h p = record { row = row }
    where
      row :
          (j : K) (a : A)
          → find key j xs ≡ some a
          → (b : A) × (find key j (update key k f xs) ≡ some b) × P a b
      row j a g = elim (Bool-cases (e.beq k j)) [
        | inl hit ↦
            let same : k ≡ j = (e.beq_iff k j).0 hit in
            let old : x ≡ a = ground arith in
            (f a, ground (arith, find-update key f keeps j k xs), rw old at p)
        | inr miss ↦ (a, ground (arith, find-update key f keeps j k xs), P_refl a)
      ]

  -- An update of a key that no row has.
  pub Evolves-update_missing :
      (f : A → A) (keeps : (a : A) → key (f a) ≡ key a) (k : K) (xs : List A)
      → find key k xs ≡ none
      → Evolves key P xs (update key k f xs)
  Evolves-update_missing f keeps k xs missing = record { row = λ j a h. (a, kept j a h, P_refl a) }
    where
      kept : (j : K) (a : A) → find key j xs ≡ some a → find key j (update key k f xs) ≡ some a
      kept j a h = ground (arith, find-update key f keeps j k xs, e.beq_iff k j)

module _ {A K : Type 0} ⦃e : Eq K⦄ (key : A → K) (P : A → A → Type 0)
    (P_trans : (a b c : A) → P a b → P b c → P a c) where
  pub Evolves-trans :
      (xs ys zs : List A) → Evolves key P xs ys → Evolves key P ys zs → Evolves key P xs zs
  Evolves-trans xs ys zs f g = record {
    row = λ k a h.
        let (b, hb, p) = f.row k a h in let (c, hc, q) = g.row k b hb in (c, hc, P_trans a b c p q);
  }

-- A change of every row that keeps the key.
module _ {A K : Type 0} ⦃e : Eq K⦄ (key : A → K) (g : A → A)
    (keeps : (a : A) → key (g a) ≡ key a) where
  pub find-map : (k : K) (xs : List A) → find key k (map g xs) ≡ Option.map g (find key k xs)
  unfolding find
  find-map k [] = refl
  find-map k (x ∷ xs) = ground (arith, keeps x, find-map k xs)

  pub Evolves-map :
      (P : A → A → Type 0) → ((a : A) → P a (g a)) → (xs : List A) → Evolves key P xs (map g xs)
  Evolves-map P p xs = record { row = λ k a h. (g a, find-map k xs ∙ ap (Option.map g) h, p a) }

pub map-eq-some :
    {A B : Type 0} (g : A → B) (o : Option A) (b : B)
    → Option.map g o ≡ some b
    → (a : A) × (o ≡ some a) × (g a ≡ b)
map-eq-some g none b h = ground (arith, h)
map-eq-some g (some a) b h = (a, refl, ground (arith, h))

-- An update as such a change.
module _ {A K : Type 0} ⦃e : Eq K⦄ (key : A → K) where
  abbrev pub if_key : K → (A → A) → A → A
  if_key k f a = if e.beq (key a) k then f a else a

  pub update-map : (k : K) (f : A → A) (xs : List A) → update key k f xs ≡ map (if_key k f) xs
  unfolding update
  update-map k f [] = refl
  update-map k f (x ∷ xs) = ap (λ r. if_key k f x ∷ r) (update-map k f xs)

module _ {A : Type 0} where
  abbrev pub if_row : (A → Bool) → (A → A) → A → A
  if_row test f a = if test a then f a else a

  pub update_where-map :
      (test : A → Bool) (f : A → A) (xs : List A) → update_where test f xs ≡ map (if_row test f) xs
  unfolding update_where
  update_where-map test f [] = refl
  update_where-map test f (x ∷ xs) = ap (λ r. if_row test f x ∷ r) (update_where-map test f xs)
