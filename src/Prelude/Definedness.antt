-- ===== src/Prelude/Definedness.antt =====
-- Calls that are not undefined: they return or throw.
use ic7610iq.Prelude.Tests.{if◌then◌else◌}
use mathlib.Core.Bool.{Bool, true, false}
use mathlib.Core.Path.{◌≡◌, refl}
use ic7610iq.Prelude.Effects.{Outcome, returns, throws, undefined, M, ◌>>=◌, require}
use ic7610iq.Prelude.Logic.{Ends, Runs}

abbrev pub IsDefined : {S A : Type 0} → Outcome S A → Type 0
IsDefined (returns a s) = Unit
IsDefined (throws e s) = Unit
IsDefined undefined = ⊥

module _ {S A B : Type 0} (P : A → S → Type 0) where
  IsDefined-then :
      (f : A → M S B) (o : Outcome S A)
      → IsDefined o
      → Ends P o
      → ((a : A) (s : S) → P a s → IsDefined (f a s))
      → IsDefined
          (elim o [ returns a s' ↦ f a s' | throws e s' ↦ throws e s' | undefined ↦ undefined ])
  IsDefined-then f (returns a s) d h k = k a s h
  IsDefined-then f (throws e s) d h k = tt
  IsDefined-then f undefined d h k = absurd d

  -- The rest of a call may use what holds once its first part has returned.
  pub IsDefined-bind :
      (m : M S A) (f : A → M S B) (s : S)
      → IsDefined (m s)
      → Ends P (m s)
      → ((a : A) (s' : S) → P a s' → IsDefined (f a s'))
      → IsDefined ((m >>= f) s)
  IsDefined-bind m f s d h k = IsDefined-then f (m s) d h k

pub IsDefined-if :
    {S A : Type 0} (b : Bool) (m k : M S A) (s : S)
    → (b ≡ true → IsDefined (m s))
    → (b ≡ false → IsDefined (k s))
    → IsDefined ((if b then m else k) s)
IsDefined-if true m k s h h' = h refl
IsDefined-if false m k s h h' = h' refl

pub IsDefined-require :
    {S B : Type 0} (b : Bool) (f : Unit {0} → M S B) (s : S)
    → b ≡ true
    → IsDefined (f tt s)
    → IsDefined ((require b >>= f) s)
IsDefined-require true f s e h = h
IsDefined-require false f s e h = absurd cc

pub IsDefined-Runs : {S A : Type 0} (P : A → S → Type 0) (o : Outcome S A) → Runs P o → IsDefined o
IsDefined-Runs P (returns a s) h = tt
IsDefined-Runs P (throws e s) h = absurd h
IsDefined-Runs P undefined h = absurd h
