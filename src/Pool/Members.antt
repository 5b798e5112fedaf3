-- ===== src/Pool/Members.antt =====
-- Membership, absence of repetitions and erasure in lists of addresses.
use ic7610iq.Prelude.{
  ℕ, Bool, true, false, ◌&&◌, ◌||◌, not, List, [], ◌∷◌, ◌++◌, ◌==◌, if◌then◌else◌, ◌≡◌, ◌≢◌, inl,
  inr, ap, ==_iff, Bool-cases, refl, arith,
}

unfoldable pub elem : ℕ → List ℕ → Bool
elem p [] = false
elem p (x ∷ xs) = p == x || elem p xs

abbrev pub Distinct : List ℕ → Type 0
Distinct [] = Unit
Distinct (x ∷ xs) = (elem x xs ≡ false) × Distinct xs

-- `erase(find(p))`: the first occurrence goes, if there is one.
unfoldable pub erase : ℕ → List ℕ → List ℕ
erase p [] = []
erase p (x ∷ xs) = if x == p then xs else x ∷ erase p xs

pub elem-erase :
    (p : ℕ) (xs : List ℕ) (q : ℕ) → Distinct xs → elem q (erase p xs) ≡ (elem q xs && not (q == p))
unfolding elem erase
elem-erase p [] q d = refl
elem-erase p (x ∷ xs) q d = ground (arith, elem-erase p xs q d.1)

pub erase-Distinct : (p : ℕ) (xs : List ℕ) → Distinct xs → Distinct (erase p xs)
unfolding erase
erase-Distinct p [] d = tt
erase-Distinct p (x ∷ xs) d = ground (arith, erase-Distinct p xs d.1, elem-erase p xs x d.1)

pub elem-append : (q : ℕ) (xs ys : List ℕ) → elem q (xs ++ ys) ≡ (elem q xs || elem q ys)
unfolding elem
elem-append q [] ys = refl
elem-append q (x ∷ xs) ys = ground (arith, elem-append q xs ys)

pub append_new-Distinct :
    (xs : List ℕ) (p : ℕ) → Distinct xs → elem p xs ≡ false → Distinct (xs ++ (p ∷ []))
unfolding elem
append_new-Distinct [] p d n = (refl, tt)
append_new-Distinct (x ∷ xs) p d n =
    ground (arith, append_new-Distinct xs p d.1, elem-append x xs (p ∷ []))

pub elem-head : (x : ℕ) (xs : List ℕ) → elem x (x ∷ xs) ≡ true
unfolding elem
elem-head x xs = ground arith

pub elem-tail : (q x : ℕ) (xs : List ℕ) → elem q xs ≡ true → elem q (x ∷ xs) ≡ true
unfolding elem
elem-tail q x xs h = ground arith

-- What is in the list is another number than one that is not.
pub elem-ne : (q x : ℕ) (xs : List ℕ) → elem x xs ≡ false → elem q xs ≡ true → (q == x) ≡ false
elem-ne q x xs n h = elim (Bool-cases (q == x)) [
  | inl t ↦ cc (ap (λ k. elem k xs) ((==_iff q x).0 t))
  | inr f ↦ f
]

pub elem-nil : (q : ℕ) → elem q [] ≢ true
unfolding elem
elem-nil q h = cc

pub ne-true : (b : Bool) → b ≢ true → b ≡ false
ne-true true h = absurd (h refl)
ne-true false h = refl
