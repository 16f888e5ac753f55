-- ===== src/Identity/Evolution/Rules.antt =====
-- One rule for each way to build a call that lets the identity tables evolve.
use motivra.Prelude.{Bool, true, false, Option, if◌then◌else◌}
use motivra.Prelude.Exec.{Result, ◌>>=◌, pure, raise, lift, gets, or_raise, require, check, recode}
use motivra.Prelude.Exec.Steps.{
  Any, Steps-pure, Steps-raise, Steps-bind, Steps-gets, Steps-or_raise, Steps-require_only,
  Steps-recode,
}
use motivra.Identity.World.{IdentityError, IdentityWorld, Action, unless_missing}
use motivra.Identity.Evolution.{evolving}
use motivra.Identity.Evolution.Store.{Calm}

pub bind-Calm :
    {A B : Type 0} (m : Action A) (f : A → Action B)
    → Calm m
    → ((a : A) → Calm (f a))
    → Calm (m >>= f)
bind-Calm m f = Steps-bind evolving Any m f

pub pure-Calm : {A : Type 0} (a : A) → Calm (pure a)
pure-Calm a = Steps-pure evolving Any a

pub raise-Calm : {A : Type 0} (e : IdentityError) → Calm (raise {A = A} e)
raise-Calm e = Steps-raise evolving Any e

pub lift-Calm : {A : Type 0} (r : Result IdentityError A) → Calm (lift r)
unfolding lift
lift-Calm r = record { at = λ w _. evolving.same w }

pub gets-Calm : {A : Type 0} (f : IdentityWorld → A) → Calm (gets f)
gets-Calm f = Steps-gets evolving Any f

pub or_raise-Calm : {A : Type 0} (x : Option A) (e : IdentityError) → Calm (or_raise x e)
or_raise-Calm x e = Steps-or_raise evolving Any x e

pub require-Calm : (b : Bool) (e : IdentityError) → Calm (require b e)
require-Calm b e = Steps-require_only evolving Any b e

pub check-Calm : (c : IdentityWorld → Bool) (e : IdentityError) → Calm (check c e)
unfolding check
check-Calm c e = record { at = λ w t. (require-Calm (c w) e).at w t }

pub recode-Calm :
    {A : Type 0} (f : IdentityError → IdentityError) (m : Action A) → Calm m → Calm (recode f m)
recode-Calm f m h = Steps-recode f m h

pub if-Calm : {A : Type 0} (b : Bool) (m n : Action A) → Calm m → Calm n → Calm (if b then m else n)
if-Calm true m n h k = h
if-Calm false m n h k = k

pub unless_missing-Calm : {A : Type 0} (m : Action A) → Calm m → Calm (unless_missing m)
unfolding unless_missing
unless_missing-Calm m h = record { at = λ w t. h.at w t }

pub ruleset calls = (
  bind-Calm, pure-Calm, raise-Calm, lift-Calm, gets-Calm, or_raise-Calm, require-Calm, check-Calm,
  recode-Calm, if-Calm, unless_missing-Calm,
)
