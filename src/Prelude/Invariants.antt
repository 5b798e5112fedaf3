-- ===== src/Prelude/Invariants.antt =====
-- Predicates on the state that a method keeps if it returns, one rule for each way to build a method.
use ic7610iq.Prelude.Tests.{if◌then◌else◌}
use mathlib.Core.Bool.{Bool, true, false}
use mathlib.Core.Option.{Option, none, some}
use ic7610iq.Prelude.Effects.{Error, M, ◌>>=◌, pure, throw, gets, modify, access, require}
use ic7610iq.Prelude.Logic.{Ends, Ends-bind}

pub record Keeps {S A : Type 0} (P : S → Type 0) (m : M S A) : Type 0 where
  pub at : (s : S) → P s → Ends (λ a t. P t) (m s)

module _ {S A : Type 0} {P : S → Type 0} where
  pub Keeps-pure : (a : A) → Keeps P (pure a)
  Keeps-pure a = record { at = λ s h. h }

  pub Keeps-gets : (f : S → A) → Keeps P (gets f)
  Keeps-gets f = record { at = λ s h. h }

  pub Keeps-throw : (e : Error) → Keeps P (throw {A = A} e)
  Keeps-throw e = record { at = λ s h. tt }

  pub Keeps-access : (o : Option A) → Keeps P (access o)
  Keeps-access none = record { at = λ s h. tt }
  Keeps-access (some a) = record { at = λ s h. h }

  pub Keeps-if : (b : Bool) (m n : M S A) → Keeps P m → Keeps P n → Keeps P (if b then m else n)
  Keeps-if true m n km kn = km
  Keeps-if false m n km kn = kn

module _ {S : Type 0} {P : S → Type 0} where
  pub Keeps-modify : (f : S → S) → ((s : S) → P s → P (f s)) → Keeps P (modify f)
  Keeps-modify f k = record { at = k }

  pub Keeps-require : (b : Bool) → Keeps P (require b)
  Keeps-require true = record { at = λ s h. h }
  Keeps-require false = record { at = λ s h. tt }

module _ {S A B : Type 0} {P : S → Type 0} where
  pub Keeps-bind :
      (m : M S A) (f : A → M S B) → Keeps P m → ((a : A) → Keeps P (f a)) → Keeps P (m >>= f)
  Keeps-bind m f km kf = record {
    at = λ s h. Ends-bind (λ a t. P t) (λ b t. P t) m f s (km.at s h) (λ a t h'. (kf a).at t h');
  }

pub ruleset keeps_rules =
    (Keeps-pure, Keeps-gets, Keeps-throw, Keeps-access, Keeps-require, Keeps-if, Keeps-bind)
