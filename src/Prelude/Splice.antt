-- ===== src/Prelude/Splice.antt =====
-- Copies one behind the other.
use Prim.Native.Nat.{ℕ, zero, suc, ◌+◌, ◌≤◌}
use mathlib.Core.Path.{◌≡◌, refl, sym, ap, ◌∙◌}
use mathlib.Core.Option.{some}
use mathlib.Core.List.{List, [], ◌∷◌, ◌++◌}
use native.Mathlib.Omega.{arith}
use ic7610iq.Prelude.Tests.{le→leb}
use ic7610iq.Prelude.Lists.{length, take, drop}
use ic7610iq.Prelude.Memory.{splice, memcpy}

add_suc : (n m : ℕ) → suc n + m ≡ suc (n + m)
add_suc n m = omega arith

add_suc_right : (n m : ℕ) → n + suc m ≡ suc (n + m)
add_suc_right n m = omega arith

splice-nil : (off : ℕ) (b : List ℕ) → splice [] off b ≡ []
unfolding splice
splice-nil zero [] = refl
splice-nil zero (x ∷ b) = refl
splice-nil (suc off) [] = refl
splice-nil (suc off) (x ∷ b) = refl

splice-suc :
    (y : ℕ) (dst : List ℕ) (off : ℕ) (b : List ℕ)
    → splice (y ∷ dst) (suc off) b ≡ y ∷ splice dst off b
unfolding splice
splice-suc y dst off [] = refl
splice-suc y dst off (x ∷ b) = refl

pub take-nil : (n : ℕ) → take {A = ℕ} n [] ≡ []
take-nil zero = refl
take-nil (suc n) = refl

pub take-add : (n m : ℕ) (xs : List ℕ) → take (n + m) xs ≡ take n xs ++ take m (drop n xs)
take-add zero m xs = ap (λ k. take k xs) (omega arith)
take-add (suc n) m [] = ap (λ k. take {A = ℕ} k []) (add_suc n m) ∙ sym (take-nil m)
take-add (suc n) m (x ∷ xs) =
    ap (λ k. take k (x ∷ xs)) (add_suc n m) ∙ ap (λ t. x ∷ t) (take-add n m xs)

-- Two copies, the second behind the first, are one.
pub splice-append :
    (dst : List ℕ) (off : ℕ) (a b : List ℕ)
    → splice (splice dst off a) (off + length a) b ≡ splice dst off (a ++ b)
unfolding splice
splice-append [] zero [] [] = refl
splice-append [] zero [] (y ∷ b) = refl
splice-append [] zero (x ∷ a) b = splice-nil (0 + suc (length a)) b
splice-append [] (suc off) [] b = splice-nil (suc off + 0) b ∙ sym (splice-nil (suc off) b)
splice-append [] (suc off) (x ∷ a) b = splice-nil (suc off + suc (length a)) b
splice-append (y ∷ dst) zero [] [] = refl
splice-append (y ∷ dst) zero [] (x ∷ b) = refl
splice-append (y ∷ dst) zero (x ∷ a) b =
    ap (λ k. splice (x ∷ splice dst 0 a) k b) (add_suc_right 0 (length a))
    ∙ (splice-suc x (splice dst 0 a) (0 + length a) b ∙ ap (λ t. x ∷ t) (splice-append dst 0 a b))
splice-append (y ∷ dst) (suc off) a b =
    ap (λ t. splice t (suc off + length a) b) (splice-suc y dst off a)
    ∙ (ap (λ k. splice (y ∷ splice dst off a) k b) (add_suc off (length a))
        ∙ (splice-suc y (splice dst off a) (off + length a) b
            ∙ (ap (λ t. y ∷ t) (splice-append dst off a b) ∙ sym (splice-suc y dst off (a ++ b)))))

-- A copy within bounds.
pub memcpy-splice :
    (dst : List ℕ) (to : ℕ) (src : List ℕ) (from n : ℕ)
    → to + n ≤ length dst
    → from + n ≤ length src
    → memcpy dst to src from n ≡ some (splice dst to (take n (drop from src)))
unfolding memcpy
memcpy-splice dst to src from n hd hs = rw (le→leb _ _ hd, le→leb _ _ hs) refl
