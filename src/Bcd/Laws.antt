-- ===== src/Bcd/Laws.antt =====
-- Reading a packed byte gives back the two decimal digits that were packed.
use Prim.Native.Nat.{bit_or}
use ic7610iq.Prelude.{
  ℕ, zero, suc, ◌+◌, ◌*◌, ◌/◌, ◌%◌, ◌<◌, ◌≡◌, refl, sym, ap, ◌∙◌, inl, inr, Bool-cases, Bool, true,
  ◌&&◌, ◌==◌, ==_iff, arith,
}
use native.Mathlib.Nat.{mul_comm, div-div-eq-div-mul}
use ic7610iq.Bcd.{read_bcd, bcd_digit, bcd_digits}

-- A byte with the digits of `k`: how `bcd_digits` makes it, and how `read_bcd` reads it.
packs : ℕ → Bool
packs k = bit_or (0x10 * (k / 10)) (k % 10) == 16 * (k / 10) + k % 10

reads : ℕ → Bool
unfolding read_bcd
reads k = read_bcd (16 * (k / 10) + k % 10) == 10 * (k / 10) + k % 10

-- Both tests, for the numbers of two digits below a bound.
tested : ℕ → Bool × Bool
tested zero = (true, true)
tested (suc k) = let (p, r) = tested k in (p && packs k, r && reads k)

tested_hundred : tested 100 ≡ (true, true)
unfolding tested packs reads
tested_hundred = refl

tested_below :
    (bound k : ℕ)
    → k < bound
    → (tested bound).0 ≡ true
    → (tested bound).1 ≡ true
    → (packs k ≡ true) × (reads k ≡ true)
unfolding tested
tested_below zero k l p r = absurd (omega arith)
tested_below (suc b) k l p r =
    let (before_p, at_p) = and_true _ (packs b) p in
    let (before_r, at_r) = and_true _ (reads b) r in
    elim (Bool-cases (k == b)) [
      | inl t ↦ let same = (==_iff k b).0 t in (ap packs same ∙ at_p, ap reads same ∙ at_r)
      | inr f ↦ tested_below b k (ground (arith, l)) before_p before_r
    ]
  where
    and_true : (x y : Bool) → (x && y) ≡ true → (x ≡ true) × (y ≡ true)
    and_true x y h = (ground arith, ground arith)

module _ (a b : ℕ) (ha : a < 10) (hb : b < 10) where
  tens : (10 * a + b) / 10 ≡ a
  tens = omega arith

  units : (10 * a + b) % 10 ≡ b
  units = omega arith

  both : (packs (10 * a + b) ≡ true) × (reads (10 * a + b) ≡ true)
  both =
      tested_below 100 (10 * a + b) (omega arith) (ap (λ t. t.0) tested_hundred)
        (ap (λ t. t.1) tested_hundred)

  pub pack_digits : bit_or (0x10 * a) b ≡ 16 * a + b
  unfolding packs
  pack_digits = rw (tens, units) at ((==_iff _ _).0 both.0)

  pub read_digits : read_bcd (16 * a + b) ≡ 10 * a + b
  unfolding reads
  read_digits = rw (tens, units) at ((==_iff _ _).0 both.1)

pub bcd_digit-lt : (n value : ℕ) → bcd_digit n value < 10
unfolding bcd_digit
bcd_digit-lt n value = omega arith

pub bcd_digits-pack :
    (n value : ℕ) → bcd_digits n value ≡ 16 * bcd_digit n (10 * value) + bcd_digit n value
unfolding bcd_digits
bcd_digits-pack n value = pack_digits _ _ (bcd_digit-lt n (10 * value)) (bcd_digit-lt n value)

-- Every byte that `bcd_digits` makes is a `uint8_t`, and none is an end of message.
pub bcd_digits-lt : (n value : ℕ) → bcd_digits n value < 0x9a
bcd_digits-lt n value =
    omega (arith, bcd_digits-pack n value, bcd_digit-lt n (10 * value), bcd_digit-lt n value)

digits_of : (q t : ℕ) → t ≡ q / 10 → 10 * (t % 10) + q % 10 ≡ q % 100
digits_of q t h = omega arith

-- `read_bcd` undoes `bcd_digits`: it returns the two decimal digits of `n` at `value`.
pub read_bcd-bcd_digits : (n value : ℕ) → read_bcd (bcd_digits n value) ≡ n / value % 100
unfolding bcd_digit
read_bcd-bcd_digits n value = rw (bcd_digits-pack n value) (
    read_digits _ _ (bcd_digit-lt n (10 * value)) (bcd_digit-lt n value)
    ∙ digits_of (n / value) (n / (10 * value)) shift)
  where
    shift : n / (10 * value) ≡ n / value / 10
    shift = rw (mul_comm 10 value) (sym (div-div-eq-div-mul n value 10))
