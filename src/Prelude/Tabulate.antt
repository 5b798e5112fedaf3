-- ===== src/Prelude/Tabulate.antt =====
-- The list of the first values of a function on the numbers.
use Prim.Native.Nat.{ℕ, zero, suc, ◌+◌, ◌-◌, ◌≤◌, ◌<◌}
use mathlib.Core.Path.{◌≡◌, refl, ap, ap₂, ◌∙◌}
use mathlib.Core.List.{List, [], ◌∷◌, ◌++◌}
use native.Mathlib.Omega.{arith}
use ic7610iq.Prelude.Lists.{length, get_or, take, drop}

module _ {ℓ} {A : Type ℓ} where
  abbrev pub tabulate : ℕ → (ℕ → A) → List A
  tabulate zero f = []
  tabulate (suc n) f = f 0 ∷ tabulate n (λ i. f (suc i))

module _ {ℓ} {A : Type ℓ} where
  pub tabulate_ext :
      (n : ℕ) (f g : ℕ → A) → ((i : ℕ) → i < n → f i ≡ g i) → tabulate n f ≡ tabulate n g
  tabulate_ext zero f g h = refl
  tabulate_ext (suc n) f g h =
      ap₂ ◌∷◌ (h 0 (omega arith))
        (tabulate_ext n (λ i. f (suc i)) (λ i. g (suc i)) (λ i l. h (suc i) (omega arith)))

  pub tabulate_cong : (m n : ℕ) (f : ℕ → A) → m ≡ n → tabulate m f ≡ tabulate n f
  tabulate_cong m n f e = ap (λ k. tabulate k f) e

  pub tabulate-add :
      (m n : ℕ) (f : ℕ → A) → tabulate (m + n) f ≡ tabulate m f ++ tabulate n (λ i. f (m + i))
  tabulate-add zero n f =
      tabulate_cong (0 + n) n f (omega arith)
      ∙ tabulate_ext n f (λ i. f (0 + i)) (λ i h. ap f (omega arith))
  tabulate-add (suc m) n f =
      tabulate_cong (suc m + n) (suc (m + n)) f (omega arith)
      ∙ ap (λ t. f 0 ∷ t)
          (tabulate-add m n (λ i. f (suc i))
            ∙ ap (λ t. tabulate m (λ i. f (suc i)) ++ t)
                (tabulate_ext n (λ i. f (suc (m + i))) (λ i. f (suc m + i))
                  (λ i h. ap f (omega arith))))

  pub length-tabulate : (n : ℕ) (f : ℕ → A) → length (tabulate n f) ≡ n
  length-tabulate zero f = refl
  length-tabulate (suc n) f = ap suc (length-tabulate n (λ i. f (suc i)))

  pub take-tabulate : (n m : ℕ) (f : ℕ → A) → n ≤ m → take n (tabulate m f) ≡ tabulate n f
  take-tabulate zero m f h = refl
  take-tabulate (suc n) zero f h = absurd (omega arith)
  take-tabulate (suc n) (suc m) f h =
      ap (λ t. f 0 ∷ t) (take-tabulate n m (λ i. f (suc i)) (omega arith))

  pub drop-tabulate :
      (n m : ℕ) (f : ℕ → A) → n ≤ m → drop n (tabulate m f) ≡ tabulate (m - n) (λ i. f (n + i))
  drop-tabulate zero m f h =
      tabulate_cong m (m - 0) f (omega arith)
      ∙ tabulate_ext (m - 0) f (λ i. f (0 + i)) (λ i l. ap f (omega arith))
  drop-tabulate (suc n) zero f h = absurd (omega arith)
  drop-tabulate (suc n) (suc m) f h =
      drop-tabulate n m (λ i. f (suc i)) (omega arith)
      ∙ tabulate_cong (m - n) (suc m - suc n) (λ i. f (suc (n + i))) (omega arith)
      ∙ tabulate_ext (suc m - suc n) (λ i. f (suc (n + i))) (λ i. f (suc n + i))
          (λ i l. ap f (omega arith))

  pub take-eq-tabulate :
      (n : ℕ) (xs : List A) (d : A) → n ≤ length xs → take n xs ≡ tabulate n (λ i. get_or xs i d)
  take-eq-tabulate zero xs d h = refl
  take-eq-tabulate (suc n) [] d h = absurd (omega arith)
  take-eq-tabulate (suc n) (x ∷ xs) d h = ap (λ t. x ∷ t) (take-eq-tabulate n xs d (omega arith))
