-- ===== src/Prelude/Logic.antt =====
-- What holds of a call's value and state: if it returns, and of one that does return.
use ic7610iq.Prelude.Tests.{if◌then◌else◌}
use mathlib.Core.Bool.{Bool, true, false}
use mathlib.Core.Option.{Option, none, some}
use mathlib.Core.Path.{◌≡◌, refl, sym, subst}
use ic7610iq.Prelude.Effects.{Outcome, returns, throws, undefined, M, ◌>>=◌, access, require}

-- What holds of a call's value and state if it returns.
abbrev pub Ends {ℓ κ} : {S A : Type ℓ} → (A → S → Type κ) → Outcome S A → Type κ
Ends P (returns a s) = P a s
Ends P (throws e s) = Unit
Ends P undefined = Unit

module _ {ℓ κ} {S A B : Type ℓ} (P : A → S → Type κ) (Q : B → S → Type κ) where
  Ends-then :
      (f : A → M S B) (o : Outcome S A)
      → Ends P o
      → ((a : A) (s : S) → P a s → Ends Q (f a s))
      → Ends Q
          (elim o [ returns a s' ↦ f a s' | throws e s' ↦ throws e s' | undefined ↦ undefined ])
  Ends-then f (returns a s) h k = k a s h
  Ends-then f (throws e s) h k = tt
  Ends-then f undefined h k = tt

  pub Ends-bind :
      (m : M S A) (f : A → M S B) (s : S)
      → Ends P (m s)
      → ((a : A) (s' : S) → P a s' → Ends Q (f a s'))
      → Ends Q ((m >>= f) s)
  Ends-bind m f s h k = Ends-then f (m s) h k

pub Ends-if {ℓ κ} :
    {S A : Type ℓ} (P : A → S → Type κ) (b : Bool) (m k : M S A) (s : S)
    → (b ≡ true → Ends P (m s))
    → (b ≡ false → Ends P (k s))
    → Ends P ((if b then m else k) s)
Ends-if P true m k s h h' = h refl
Ends-if P false m k s h h' = h' refl

pub Ends-access {ℓ κ} :
    {S A B : Type ℓ} (P : B → S → Type κ) (o : Option A) (f : A → M S B) (s : S)
    → ((a : A) → Ends P (f a s))
    → Ends P ((access o >>= f) s)
Ends-access P none f s h = tt
Ends-access P (some a) f s h = h a

pub Ends-any {ℓ} : {S A : Type ℓ} (o : Outcome S A) → Ends (λ a s. Unit {0}) o
Ends-any (returns a s) = tt
Ends-any (throws e s) = tt
Ends-any undefined = tt

pub Ends-require {ℓ κ} :
    {S B : Type ℓ} (P : B → S → Type κ) (b : Bool) (f : Unit {ℓ} → M S B) (s : S)
    → Ends P (f tt s)
    → Ends P ((require b >>= f) s)
Ends-require P true f s h = h
Ends-require P false f s h = tt

pub Ends-access-some {ℓ κ} :
    {S A B : Type ℓ} (P : B → S → Type κ) (o : Option A) (a : A) (f : A → M S B) (s : S)
    → o ≡ some a
    → Ends P (f a s)
    → Ends P ((access o >>= f) s)
Ends-access-some P o a f s e h = subst (λ k. Ends P ((access k >>= f) s)) (sym e) h

pub Ends-weaken {ℓ κ} :
    {S A : Type ℓ} (P Q : A → S → Type κ) (o : Outcome S A)
    → Ends P o
    → ((a : A) (s : S) → P a s → Q a s)
    → Ends Q o
Ends-weaken P Q (returns a s) h k = k a s h
Ends-weaken P Q (throws e s) h k = tt
Ends-weaken P Q undefined h k = tt

-- A call that returns, with what holds of its value and state.
abbrev pub Runs {ℓ} : {S A : Type ℓ} → (A → S → Type 0) → Outcome S A → Type 0
Runs P (returns a s) = P a s
Runs P (throws e s) = ⊥
Runs P undefined = ⊥

pub Ends-Runs {ℓ} : {S A : Type ℓ} (P : A → S → Type 0) (o : Outcome S A) → Runs P o → Ends P o
Ends-Runs P (returns a s) h = h
Ends-Runs P (throws e s) h = tt
Ends-Runs P undefined h = tt

module _ {ℓ} {S A B : Type ℓ} (P : A → S → Type 0) (Q : B → S → Type 0) where
  Runs-then :
      (f : A → M S B) (o : Outcome S A)
      → Runs P o
      → ((a : A) (s : S) → P a s → Runs Q (f a s))
      → Runs Q
          (elim o [ returns a s' ↦ f a s' | throws e s' ↦ throws e s' | undefined ↦ undefined ])
  Runs-then f (returns a s) h k = k a s h
  Runs-then f (throws e s) h k = absurd h
  Runs-then f undefined h k = absurd h

  pub Runs-bind :
      (m : M S A) (f : A → M S B) (s : S)
      → Runs P (m s)
      → ((a : A) (s' : S) → P a s' → Runs Q (f a s'))
      → Runs Q ((m >>= f) s)
  Runs-bind m f s h k = Runs-then f (m s) h k

pub Runs-if {ℓ} :
    {S A : Type ℓ} (P : A → S → Type 0) (b : Bool) (m k : M S A) (s : S)
    → (b ≡ true → Runs P (m s))
    → (b ≡ false → Runs P (k s))
    → Runs P ((if b then m else k) s)
Runs-if P true m k s h h' = h refl
Runs-if P false m k s h h' = h' refl

pub Runs-require {ℓ} :
    {S B : Type ℓ} (P : B → S → Type 0) (b : Bool) (f : Unit {ℓ} → M S B) (s : S)
    → b ≡ true
    → Runs P (f tt s)
    → Runs P ((require b >>= f) s)
Runs-require P true f s e h = h
Runs-require P false f s e h = absurd cc

pub Runs-returns {ℓ} :
    {S A : Type ℓ} (P : A → S → Type 0) (o : Outcome S A)
    → Runs P o
    → (a : A) × (s : S) × (o ≡ returns a s) × P a s
Runs-returns P (returns a s) h = (a, s, refl, h)
Runs-returns P (throws e s) h = absurd h
Runs-returns P undefined h = absurd h
