-- ===== src/Prelude/Exec/Runs.antt =====
-- What a run that returned tells of its parts.
use mathlib.Core.Path.{◌≡◌, refl, ap, ◌∙◌}
use mathlib.Core.Bool.{Bool, true, false}
use mathlib.Core.Option.{Option, none, some}
use native.Mathlib.Omega.{arith}
use motivra.Prelude.Exec.{
  Result, ok, err, Exec, pure, gets, or_raise, find_or_raise, modify, require, check, continue,
  ◌>>=◌, recode_result, recode, attempt,
}
use motivra.Prelude.Exec.Steps.{Preorder, Steps, Any}

-- A call that returned `b` in the state `t`.
abbrev pub Returns : {S E A : Type 0} → Exec S E A → S → A → S → Type 0
Returns m s a t = m s ≡ (ok a, t)

pub record BindRun {S E A B : Type 0} (m : Exec S E A) (f : A → Exec S E B) (s : S) (b : B) (u : S)
    : Type 0 where
  pub value : A
  pub between : S
  pub first : Returns m s value between
  pub second : Returns (f value) between b u

module _ {S E A B : Type 0} where
  pub bind-Returns :
      (m : Exec S E A) (f : A → Exec S E B) (s : S) (b : B) (u : S)
      → Returns (m >>= f) s b u
      → BindRun m f s b u
  unfolding ◌>>=◌
  bind-Returns m f s b u h = go (m s).0 (m s).1 refl h
    where
      go : (r : Result E A) (t : S) → m s ≡ (r, t) → continue r f t ≡ (ok b, u) → BindRun m f s b u
      go (ok a) t e h = record { value = a; between = t; first = e; second = h }
      go (err e) t p h = ground (arith, h)

  -- A part that returned is skipped over.
  pub bind-runs :
      (m : Exec S E A) (f : A → Exec S E B) (s : S) (a : A) (t : S)
      → Returns m s a t
      → (m >>= f) s ≡ f a t
  unfolding ◌>>=◌
  bind-runs m f s a t h = ap (λ x. continue x.0 f x.1) h

  -- An error ends the call.
  pub bind-fails :
      (m : Exec S E A) (f : A → Exec S E B) (s : S) (e : E) (t : S)
      → m s ≡ (err e, t)
      → (m >>= f) s ≡ (err e, t)
  unfolding ◌>>=◌
  bind-fails m f s e t h = ap (λ x. continue x.0 f x.1) h

module _ {S E A : Type 0} where
  pub pure-Returns :
      (a : A) (s : S) (b : A) (t : S) → Returns (pure {E = E} a) s b t → (b ≡ a) × (t ≡ s)
  unfolding pure
  pure-Returns a s b t h = ground (arith, h)

  pub or_raise-Returns :
      (x : Option A) (e : E) (s : S) (a : A) (t : S)
      → Returns (or_raise x e) s a t
      → (x ≡ some a) × (t ≡ s)
  unfolding or_raise
  or_raise-Returns none e s a t h = ground (arith, h)
  or_raise-Returns (some b) e s a t h = ground (arith, h)

  pub find_or_raise-Returns :
      (f : S → Option A) (e : E) (s : S) (a : A) (t : S)
      → Returns (find_or_raise f e) s a t
      → (f s ≡ some a) × (t ≡ s)
  unfolding find_or_raise
  find_or_raise-Returns f e s a t h = or_raise-Returns (f s) e s a t h

  pub gets-Returns :
      (f : S → A) (s : S) (a : A) (t : S) → Returns (gets {E = E} f) s a t → (a ≡ f s) × (t ≡ s)
  unfolding gets
  gets-Returns f s a t h = ground (arith, h)

  pub attempt-Returns :
      (f : S → Result E A) (s : S) (a : A) (t : S)
      → Returns (attempt f) s a t
      → (f s ≡ ok a) × (t ≡ s)
  unfolding attempt
  attempt-Returns f s a t h = ground (arith, h)

  pub recode-Returns :
      (f : E → E) (m : Exec S E A) (s : S) (a : A) (t : S)
      → Returns (recode f m) s a t
      → Returns m s a t
  unfolding recode
  recode-Returns f m s a t h = go (m s).0 (m s).1 refl h
    where
      go :
          (r : Result E A) (u : S)
          → m s ≡ (r, u)
          → ◌≡◌ {A = Result E A × S} (recode_result f r, u) (ok a, t)
          → m s ≡ (ok a, t)
      go (ok b) u e k = e ∙ k
      go (err x) u e k = ground (arith, k)

  pub recode-runs :
      (f : E → E) (m : Exec S E A) (s : S) (a : A) (t : S)
      → Returns m s a t
      → Returns (recode f m) s a t
  unfolding recode
  recode-runs f m s a t h = ap (λ x. (recode_result f x.0, x.1)) h

  pub recode-fails :
      (f : E → E) (m : Exec S E A) (s : S) (e : E) (t : S)
      → m s ≡ (err e, t)
      → recode f m s ≡ (err (f e), t)
  unfolding recode
  recode-fails f m s e t h = ap (λ x. (recode_result f x.0, x.1)) h

module _ {S E : Type 0} where
  pub require-Returns :
      (b : Bool) (e : E) (s : S) (u : Unit {0}) (t : S)
      → Returns (require b e) s u t
      → (b ≡ true) × (t ≡ s)
  unfolding require
  require-Returns true e s u t h = ground (arith, h)
  require-Returns false e s u t h = ground (arith, h)

  pub check-Returns :
      (c : S → Bool) (e : E) (s : S) (u : Unit {0}) (t : S)
      → Returns (check c e) s u t
      → (c s ≡ true) × (t ≡ s)
  unfolding check
  check-Returns c e s u t h = require-Returns (c s) e s u t h

  pub modify-Returns :
      (f : S → S) (s : S) (u : Unit {0}) (t : S) → Returns (modify {E = E} f) s u t → t ≡ f s
  unfolding modify
  modify-Returns f s u t h = ground (arith, h)

  pub require-runs : (b : Bool) (e : E) (s : S) → b ≡ true → Returns (require b e) s tt s
  unfolding require
  require-runs b e s h = rw h refl

  pub require-fails : (b : Bool) (e : E) (s : S) → b ≡ false → require b e s ≡ (err e, s)
  unfolding require
  require-fails b e s h = rw h refl

module _ {S E A : Type 0} where
  pub find_or_raise-runs :
      (f : S → Option A) (e : E) (s : S) (a : A) → f s ≡ some a → Returns (find_or_raise f e) s a s
  unfolding find_or_raise or_raise
  find_or_raise-runs f e s a h = rw h refl

  pub find_or_raise-fails :
      (f : S → Option A) (e : E) (s : S) → f s ≡ none → find_or_raise f e s ≡ (err e, s)
  unfolding find_or_raise or_raise
  find_or_raise-fails f e s h = rw h refl

-- What is known of the state after a part that returned holds in the rest of the call.
module _ {S : Type 0} {R : S → S → Type 0} (o : Preorder R) (P : S → Type 0) where
  pub Steps-after :
      {E A B : Type 0} (m : Exec S E A) (f : A → Exec S E B) (Q : A → S → Type 0)
      → Steps P R m
      → ((s : S) (a : A) (t : S) → P s → Returns m s a t → Q a t)
      → ((a : A) → Steps (Q a) R (f a))
      → Steps P R (m >>= f)
  unfolding ◌>>=◌
  Steps-after {E} {A} {B} m f Q km q kf = record {
    at = λ s p. go s p (m s).0 (m s).1 refl (km.at s p);
  }
    where
      go : (s : S) → P s → (r : Result E A) (t : S) → m s ≡ (r, t) → R s t → R s (continue r f t).1
      go s p (ok a) t e h = o.chain s t _ h ((kf a).at t (q s a t p e))
      go s p (err x) t e h = h

module _ {S E A : Type 0} {R : S → S → Type 0} where
  -- A call that returned.
  pub Steps-Returns :
      (m : Exec S E A) (s : S) (a : A) (t : S) → Steps Any R m → Returns m s a t → R s t
  Steps-Returns m s a t k r = let e : R s (m s).1 = k.at s tt in rw r at e
