-- ===== src/Stream/Convert.antt =====
-- The conversion in `processAndWriteCF32`: samples `S` become values `F` by the division by 32767,
-- which is the machine's. The two buffers get the two halves of the samples.
use ic7610iq.Prelude.{
  ℕ, zero, suc, ◌+◌, ◌/◌, ◌≤◌, ◌≡◌, refl, sym, ap, ap₂, ◌∙◌, get_elem?-some, get_or, tabulate,
  tabulate_ext, Option, none, some, List, [], ◌∷◌, length, get_elem?, arith,
}

-- The values that go to each of the two buffers.
pub num_values : ℕ → ℕ
num_values transferred = transferred / 4 / 2

module _ {S F : Type 0} (normalize : S → F) where
  -- One round: `none` is a read past the samples.
  convert_one : Option S → Option S → Option (List F × List F) → Option (List F × List F)
  convert_one none high rest = none
  convert_one (some low) none rest = none
  convert_one (some low) (some high) none = none
  convert_one (some low) (some high) (some (out1, out2)) =
      some (normalize low ∷ out1, normalize high ∷ out2)

  -- The loop from `i` on, with `n` rounds left: what it appends to the two buffers.
  convert_from : ℕ → ℕ → ℕ → List S → Option (List F × List F)
  unfolding convert_one
  convert_from zero i values input = some ([], [])
  convert_from (suc n) i values input =
      convert_one (get_elem? input i) (get_elem? input (i + values))
        (convert_from n (i + 1) values input)

  pub convert : ℕ → List S → Option (List F × List F)
  unfolding convert_from
  convert transferred input = convert_from (num_values transferred) 0 (num_values transferred) input

  -- What the values from `i` on are, for a default that is not used.
  values_at : List S → S → ℕ → ℕ → List F
  values_at input d n i = tabulate n (λ k. normalize (get_or input (i + k) d))

  values_at-suc :
      (input : List S) (d : S) (n i : ℕ)
      → values_at input d (suc n) i ≡ normalize (get_or input i d) ∷ values_at input d n (i + 1)
  unfolding values_at
  values_at-suc input d n i =
      ap₂ ◌∷◌ (ap (λ k. normalize (get_or input k d)) (omega arith))
        (tabulate_ext n _ _ (λ k h. ap (λ j. normalize (get_or input j d)) (omega arith)))

  convert_from-values :
      (n i values : ℕ) (input : List S) (d : S)
      → i + n ≤ length input
      → i + values + n ≤ length input
      → convert_from n i values input
        ≡ some (values_at input d n i, values_at input d n (i + values))
  unfolding convert_from convert_one values_at
  convert_from-values zero i values input d h h' = refl
  convert_from-values (suc n) i values input d h h' =
      let low : S = get_or input i d in
      let high : S = get_or input (i + values) d in
      let out1 : List F = values_at input d n (i + 1) in
      let out2 : List F = values_at input d n (i + 1 + values) in
      ap (λ o. convert_one o (get_elem? input (i + values)) (convert_from n (i + 1) values input))
        (get_elem?-some input i d (omega arith))
      ∙ ap (λ o. convert_one (some low) o (convert_from n (i + 1) values input))
          (get_elem?-some input (i + values) d (omega arith))
      ∙ ap (convert_one (some low) (some high))
          (convert_from-values n (i + 1) values input d (omega arith) (omega arith))
      ∙ ap₂ (λ a b. some (a, b)) (sym (values_at-suc input d n i))
          (ap (λ k. normalize high ∷ values_at input d n k) (omega arith)
            ∙ sym (values_at-suc input d n (i + values)))

  -- The conversion of `transferred` bytes of samples that are in the buffer reads nothing past them:
  -- the first buffer gets the first half of them, normalized and in their order, and the second
  -- buffer the second half.
  pub convert-values :
      (transferred : ℕ) (input : List S) (d : S)
      → transferred / 4 ≤ length input
      → convert transferred input
        ≡ some (
          tabulate (num_values transferred) (λ k. normalize (get_or input k d)),
          tabulate
              (num_values transferred)
              (λ k. normalize (get_or input (num_values transferred + k) d)),
        )
  unfolding convert num_values values_at
  convert-values transferred input d h =
      let v : ℕ = transferred / 4 / 2 in
      convert_from-values v 0 v input d (omega (arith, h)) (omega (arith, h))
      ∙ ap₂ (λ a b. some (a, b))
          (tabulate_ext v _ _ (λ k l. ap (λ j. normalize (get_or input j d)) (omega arith)))
          (tabulate_ext v _ _ (λ k l. ap (λ j. normalize (get_or input j d)) (omega arith)))
