-- ===== src/Port/Data/Bounds.antt =====
-- How much `readIQData` of src/IcomIQPort.cpp reads.
use ic7610iq.Prelude.{
  ℕ, ◌%◌, ◌^◌, ◌≤◌, ◌<◌, ◌≡◌, ℤ, pos, negsuc, neg, neg_int-to_int32, sym, subst, inl, inr,
  Bool-cases, Bool, true, false, not, ◌&&◌, ◌==◌, [], length, leb, le→leb, pure, Runs, Runs-bind,
  Runs-if, Runs-require, arith,
}
use ic7610iq.Common.{iq_in, ft_ok, ft_io_pending}
use ic7610iq.Driver.{Ftd3xx}
use ic7610iq.Port.{Port}
use ic7610iq.Port.Data.{negated, bytes_to_read, read_iq_data}

-- At most `size` samples, or an error code.
abbrev pub AtMost : ℕ → ℤ → Type 0
AtMost size (pos n) = n ≤ size
AtMost size (negsuc n) = Unit

-- The library's reads end with a status that an `int` holds, and store no more than was asked for.
pub record Documented {W : Type 0} (ft : Ftd3xx W) : Type 0 where
  pub small : (pipe size : ℕ) (w : W) → (ft.read_pipe pipe size w).0.0 < 2 ^ 31
  pub bounded : (pipe size : ℕ) (w : W) → length ((ft.read_pipe pipe size w).0.1) ≤ size

neg-AtMost : (size n : ℕ) → AtMost size (neg n)
neg-AtMost size n = elim (Bool-cases (leb n 0)) [ inl e ↦ rw e (omega arith) | inr e ↦ rw e tt ]

and_false : (b : Bool) → ¬ (b && false) ≡ true
and_false true e = cc
and_false false e = cc

int_status : (n : ℕ) → n < 2 ^ 31 → not (n % 2 ^ 32 == 2 ^ 31) ≡ true
int_status n h = ground arith

module _ {W : Type 0} (ft : Ftd3xx W) where
  -- A synchronous read for `size` samples returns, with at most as many.
  pub read_iq_data-AtMost :
      (size : ℕ) (p : Port W)
      → Documented ft
      → Runs (λ (samples, bytes) q. AtMost size samples) (read_iq_data ft size false p)
  unfolding read_iq_data negated bytes_to_read
  read_iq_data-AtMost size p h =
      let ((res, bytes), w) = ft.read_pipe iq_in (bytes_to_read size) p.world in
      let q : Port W = record p { world = w } in
      let small : res < 2 ^ 31 = h.small iq_in (bytes_to_read size) p.world in
      let few : length bytes ≤ bytes_to_read size = h.bounded iq_in (bytes_to_read size) p.world in
      Runs-if (λ (samples, bytes) q. AtMost size samples) p.iq_data_enabled _ _ p
        (λ _.
          Runs-if (λ (samples, bytes) q. AtMost size samples) (res == ft_ok) _ _ q
            (λ _.
              Runs-require (λ (samples, bytes) q. AtMost size samples) _ _ q (le→leb _ _ few)
                (omega (arith, few)))
            (λ _.
              Runs-if (λ (samples, bytes) q. AtMost size samples) (res == ft_io_pending && false) _
                _ q (λ e. absurd (and_false (res == ft_io_pending) e))
                (λ _.
                  Runs-bind (λ v q. AtMost size v) (λ (samples, bytes) q. AtMost size samples)
                    (negated res) (λ value. pure (value, [])) q
                    (Runs-require (λ v q. AtMost size v) _ _ q (int_status res small)
                      (subst (AtMost size) (sym (neg_int-to_int32 res small))
                        (neg-AtMost size res)))
                    (λ v q' k. k))))
        (λ _. tt)
