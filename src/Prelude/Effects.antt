-- ===== src/Prelude/Effects.antt =====
-- What a C++ call can come to: a result, an exception, the end of the process, or undefined
-- behaviour (an access outside an object, an uninitialised read, signed overflow).
use mathlib.Core.Bool.{Bool, true, false}
use mathlib.Core.Option.{Option, none, some}

-- The `std::runtime_error`s of the sources, and the exit codes of `exit`.
pub data Error : Type 0 where
  no_devices device_list_failed open_failed no_port_name no_civ_port open_civ_failed : Error
  no_serial_device rx_only invalid_channel no_iq_device null_string bad_block : Error
  deadlock file_not_opened : Error

pub data Outcome {ℓ} (S A : Type ℓ) : Type ℓ where
  returns : A → S → Outcome S A
  throws : Error → S → Outcome S A
  undefined : Outcome S A

-- A method on the state `S`.
abbrev pub M {ℓ} : Type ℓ → Type ℓ → Type ℓ
M S A = S → Outcome S A

module _ {ℓ} {S : Type ℓ} where
  infixl 5 ◌>>=◌ ◌>>◌
  abbrev pub ◌>>=◌ : {A B : Type ℓ} → M S A → (A → M S B) → M S B
  ◌>>=◌ m f s = elim (m s) [
    | returns a s' ↦ f a s'
    | throws e s' ↦ throws e s'
    | undefined ↦ undefined
  ]

  abbrev pub ◌>>◌ : {A B : Type ℓ} → M S A → M S B → M S B
  m >> k = m >>= λ _. k

  abbrev pub pure : {A : Type ℓ} → A → M S A
  pure a s = returns a s

  abbrev pub throw : {A : Type ℓ} → Error → M S A
  throw e s = throws e s

  abbrev pub get : M S S
  get s = returns s s

  abbrev pub gets : {A : Type ℓ} → (S → A) → M S A
  gets f s = returns (f s) s

  abbrev pub modify : (S → S) → M S (Unit {ℓ})
  modify f s = returns tt (f s)

  -- Only a value that is there may be read: `none` is an access outside its object.
  abbrev pub access : {A : Type ℓ} → Option A → M S A
  access none s = undefined
  access (some a) s = returns a s

  abbrev pub require : Bool → M S (Unit {ℓ})
  require true s = returns tt s
  require false s = undefined
