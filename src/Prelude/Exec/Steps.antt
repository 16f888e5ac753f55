-- ===== src/Prelude/Exec/Steps.antt =====
-- A relation between the states before and after a call, with one rule for each way to build a call.
use mathlib.Core.Path.{◌≡◌, refl}
use mathlib.Core.Bool.{Bool, true, false}
use mathlib.Core.Option.{Option, none, some}
use motivra.Prelude.Tests.{if◌then◌else◌}
use motivra.Prelude.Exec.{
  Result, ok, err, Exec, pure, raise, gets, or_raise, find_or_raise, modify, require, check,
  continue, ◌>>=◌, recode, attempt,
}

pub record Preorder {S : Type 0} (R : S → S → Type 0) : Type 0 where
  pub same : (s : S) → R s s
  pub chain : (s t u : S) → R s t → R t u → R s u

-- From a state where `P` holds, `m` leaves one that `R` relates to it, whether it returns or fails.
pub record Steps {S E A : Type 0} (P : S → Type 0) (R : S → S → Type 0) (m : Exec S E A)
    : Type 0 where
  pub at : (s : S) → P s → R s (m s).1

-- The precondition that always holds.
abbrev pub Any : {S : Type 0} → S → Type 0
Any s = Unit

-- An invariant as a relation: if it holds before, it holds after.
abbrev pub Kept : {S : Type 0} → (S → Type 0) → S → S → Type 0
Kept I s t = I s → I t

pub Kept-Preorder : {S : Type 0} (I : S → Type 0) → Preorder (Kept I)
Kept-Preorder I = record { same = λ s h. h; chain = λ s t u f g h. g (f h) }

module _ {S : Type 0} {R : S → S → Type 0} (o : Preorder R) (P : S → Type 0) where
  pub Steps-pure : {E A : Type 0} (a : A) → Steps P R (pure {E = E} a)
  unfolding ◌>>=◌
  Steps-pure a = record { at = λ s p. o.same s }

  pub Steps-raise : {E A : Type 0} (e : E) → Steps P R (raise {A = A} e)
  unfolding ◌>>=◌
  Steps-raise e = record { at = λ s p. o.same s }

  pub Steps-gets : {E A : Type 0} (f : S → A) → Steps P R (gets {E = E} f)
  unfolding ◌>>=◌
  Steps-gets f = record { at = λ s p. o.same s }

  pub Steps-or_raise : {E A : Type 0} (x : Option A) (e : E) → Steps P R (or_raise x e)
  unfolding ◌>>=◌
  Steps-or_raise none e = record { at = λ s p. o.same s }
  Steps-or_raise (some a) e = record { at = λ s p. o.same s }

  -- The value that is there.
  pub Steps-or_raise_then :
      {E A B : Type 0} (x : Option A) (e : E) (f : A → Exec S E B)
      → ((a : A) → x ≡ some a → Steps P R (f a))
      → Steps P R (or_raise x e >>= f)
  unfolding ◌>>=◌
  Steps-or_raise_then none e f k = record { at = λ s p. o.same s }
  Steps-or_raise_then (some a) e f k = k a refl

  pub Steps-find_or_raise :
      {E A : Type 0} (g : S → Option A) (e : E) → Steps P R (find_or_raise g e)
  unfolding find_or_raise
  Steps-find_or_raise g e = record { at = λ s p. (Steps-or_raise (g s) e).at s p }

  pub Steps-require_only : {E : Type 0} (b : Bool) (e : E) → Steps P R (require b e)
  unfolding require
  Steps-require_only true e = record { at = λ s p. o.same s }
  Steps-require_only false e = record { at = λ s p. o.same s }

  pub Steps-bind :
      {E A B : Type 0} (m : Exec S E A) (f : A → Exec S E B)
      → Steps P R m
      → ((a : A) → Steps Any R (f a))
      → Steps P R (m >>= f)
  unfolding ◌>>=◌
  Steps-bind {E} {A} {B} m f km kf = record { at = λ s p. go s (m s).0 (m s).1 (km.at s p) }
    where
      go : (s : S) (r : Result E A) (t : S) → R s t → R s (continue r f t).1
      go s (ok a) t h = o.chain s t _ h ((kf a).at t tt)
      go s (err e) t h = h

  -- What a test or a read of the state has found holds in the rest of the call.
  pub Steps-require :
      {E B : Type 0} (b : Bool) (e : E) (f : Unit {0} → Exec S E B)
      → (b ≡ true → Steps P R (f tt))
      → Steps P R (require b e >>= f)
  unfolding ◌>>=◌
  Steps-require true e f k = k refl
  Steps-require false e f k = record { at = λ s p. o.same s }

  pub Steps-check :
      {E B : Type 0} (c : S → Bool) (e : E) (f : Unit {0} → Exec S E B)
      → Steps (λ s. P s × (c s ≡ true)) R (f tt)
      → Steps P R (check c e >>= f)
  unfolding ◌>>=◌
  Steps-check {E} {B} c e f k = record { at = λ s p. go s (c s) p (λ h. k.at s (p, h)) }
    where
      go : (s : S) (b : Bool) → P s → (b ≡ true → R s (f tt s).1) → R s ((require b e >>= f) s).1
      go s true p h = h refl
      go s false p h = o.same s

  pub Steps-find :
      {E A B : Type 0} (g : S → Option A) (e : E) (f : A → Exec S E B)
      → ((a : A) → Steps (λ s. P s × (g s ≡ some a)) R (f a))
      → Steps P R (find_or_raise g e >>= f)
  unfolding ◌>>=◌
  Steps-find {E} {A} {B} g e f k = record { at = λ s p. go s (g s) (λ a h. (k a).at s (p, h)) }
    where
      go :
          (s : S) (x : Option A)
          → ((a : A) → x ≡ some a → R s (f a s).1)
          → R s ((or_raise x e >>= f) s).1
      go s none h = o.same s
      go s (some a) h = h a refl

  pub Steps-write :
      {E B : Type 0} (g : S → S) (f : Unit {0} → Exec S E B)
      → ((s : S) → P s → R s (g s))
      → Steps Any R (f tt)
      → Steps P R (modify g >>= f)
  unfolding ◌>>=◌
  Steps-write g f h k = record { at = λ s p. o.chain s (g s) _ (h s p) (k.at (g s) tt) }

  -- Two writes of one transaction.
  pub Steps-write_both :
      {E B : Type 0} (g h : S → S) (f : Unit {0} → Exec S E B)
      → ((s : S) → P s → R s (h (g s)))
      → Steps Any R (f tt)
      → Steps P R (modify g >>= λ _. modify h >>= f)
  unfolding ◌>>=◌
  Steps-write_both g h f r k = record {
    at = λ s p. o.chain s (h (g s)) _ (r s p) (k.at (h (g s)) tt);
  }

  pub Steps-modify :
      {E : Type 0} (g : S → S) → ((s : S) → P s → R s (g s)) → Steps P R (modify {E = E} g)
  unfolding modify
  Steps-modify g h = record { at = h }

  pub Steps-read :
      {E A B : Type 0} (g : S → A) (f : A → Exec S E B)
      → ((a : A) → Steps (λ s. P s × (g s ≡ a)) R (f a))
      → Steps P R (gets g >>= f)
  unfolding ◌>>=◌
  Steps-read g f k = record { at = λ s p. (k (g s)).at s (p, refl) }

  pub Steps-attempt : {E A : Type 0} (f : S → Result E A) → Steps P R (attempt f)
  unfolding attempt
  Steps-attempt f = record { at = λ s p. o.same s }

  pub Steps-attempt_then :
      {E A B : Type 0} (g : S → Result E A) (f : A → Exec S E B)
      → ((a : A) → Steps (λ s. P s × (g s ≡ ok a)) R (f a))
      → Steps P R (attempt g >>= f)
  unfolding ◌>>=◌ attempt
  Steps-attempt_then {E} {A} {B} g f k = record {
    at = λ s p. go s (g s) (λ a h. (k a).at s (p, h));
  }
    where
      go : (s : S) (r : Result E A) → ((a : A) → r ≡ ok a → R s (f a s).1) → R s (continue r f s).1
      go s (ok a) h = h a refl
      go s (err e) h = o.same s

module _ {S : Type 0} {R : S → S → Type 0} where
  -- Another error leaves the same state.
  pub Steps-recode :
      {P : S → Type 0} {E A : Type 0} (f : E → E) (m : Exec S E A)
      → Steps P R m
      → Steps P R (recode f m)
  unfolding recode
  Steps-recode f m k = record { at = λ s p. k.at s p }

  pub Steps-if :
      {P : S → Type 0} {E A : Type 0} (b : Bool) (m n : Exec S E A)
      → (b ≡ true → Steps P R m)
      → (b ≡ false → Steps P R n)
      → Steps P R (if b then m else n)
  unfolding ◌>>=◌
  Steps-if true m n km kn = km refl
  Steps-if false m n km kn = kn refl

  -- A weaker precondition serves.
  pub Steps-weaken : {P : S → Type 0} {E A : Type 0} (m : Exec S E A) → Steps Any R m → Steps P R m
  unfolding ◌>>=◌
  Steps-weaken m k = record { at = λ s p. k.at s tt }
