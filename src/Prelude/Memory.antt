-- ===== src/Prelude/Memory.antt =====
-- Bytes of an object, as a list, and `memcpy` into them.
use Prim.Native.Nat.{ℕ, zero, suc, ◌+◌, ◌≤◌, ◌<◌}
use mathlib.Core.Path.{◌≡◌, refl, sym, ap, ◌∙◌, subst}
use mathlib.Core.Bool.{◌&&◌}
use mathlib.Core.Option.{Option, none, some}
use mathlib.Core.List.{List, [], ◌∷◌}
use native.Mathlib.Omega.{arith}
use ic7610iq.Prelude.Tests.{leb, if◌then◌else◌, le→leb}
use ic7610iq.Prelude.Lists.{
  length, get_or, take, drop, length-take, length-drop, take_all, get_or-take, get_or-drop,
}

-- `memcpy(dst + off, src, length src)`: the bytes from `off` on are replaced.
unfoldable pub splice : List ℕ → ℕ → List ℕ → List ℕ
splice dst zero [] = dst
splice [] off src = []
splice (b ∷ dst) zero (x ∷ src) = x ∷ splice dst zero src
splice (b ∷ dst) (suc off) src = b ∷ splice dst off src

pub length-splice :
    (dst : List ℕ) (off : ℕ) (src : List ℕ) → length (splice dst off src) ≡ length dst
unfolding splice
length-splice [] zero [] = refl
length-splice [] zero (x ∷ src) = refl
length-splice [] (suc off) src = refl
length-splice (b ∷ dst) zero [] = refl
length-splice (b ∷ dst) zero (x ∷ src) = ap suc (length-splice dst zero src)
length-splice (b ∷ dst) (suc off) [] = ap suc (length-splice dst off [])
length-splice (b ∷ dst) (suc off) (x ∷ src) = ap suc (length-splice dst off (x ∷ src))

-- Bytes outside the copied range keep their value.
pub get_or-splice_before :
    (dst : List ℕ) (off : ℕ) (src : List ℕ) (i : ℕ)
    → i < off
    → get_or (splice dst off src) i 0 ≡ get_or dst i 0
unfolding splice
get_or-splice_before dst zero src i h = absurd (omega arith)
get_or-splice_before [] (suc off) src i h = refl
get_or-splice_before (b ∷ dst) (suc off) src zero h = refl
get_or-splice_before (b ∷ dst) (suc off) src (suc i) h =
    get_or-splice_before dst off src i (omega arith)

pub get_or-splice_after :
    (dst : List ℕ) (off : ℕ) (src : List ℕ) (i : ℕ)
    → off + length src ≤ i
    → get_or (splice dst off src) i 0 ≡ get_or dst i 0
unfolding splice
get_or-splice_after [] zero [] i h = refl
get_or-splice_after [] zero (x ∷ src) i h = refl
get_or-splice_after [] (suc off) src i h = refl
get_or-splice_after (b ∷ dst) zero [] i h = refl
get_or-splice_after (b ∷ dst) zero (x ∷ src) zero h = absurd (omega arith)
get_or-splice_after (b ∷ dst) zero (x ∷ src) (suc i) h =
    get_or-splice_after dst zero src i (omega arith)
get_or-splice_after (b ∷ dst) (suc off) src zero h = absurd (omega arith)
get_or-splice_after (b ∷ dst) (suc off) [] (suc i) h =
    get_or-splice_after dst off [] i (omega arith)
get_or-splice_after (b ∷ dst) (suc off) (x ∷ src) (suc i) h =
    get_or-splice_after dst off (x ∷ src) i (omega arith)

-- Inside the range stand the copied bytes.
pub get_or-splice_at :
    (dst : List ℕ) (off : ℕ) (src : List ℕ) (i : ℕ)
    → off + length src ≤ length dst
    → i < length src
    → get_or (splice dst off src) (off + i) 0 ≡ get_or src i 0
unfolding splice
get_or-splice_at dst zero [] i f h = absurd (omega arith)
get_or-splice_at dst (suc off) [] i f h = absurd (omega arith)
get_or-splice_at [] zero (x ∷ src) i f h = absurd (omega arith)
get_or-splice_at [] (suc off) (x ∷ src) i f h = absurd (omega arith)
get_or-splice_at (b ∷ dst) zero (x ∷ src) zero f h = refl
get_or-splice_at (b ∷ dst) zero (x ∷ src) (suc i) f h =
    let e : 0 + suc i ≡ suc (0 + i) = omega arith in
    rw e (get_or-splice_at dst zero src i (omega arith) (omega arith))
get_or-splice_at (b ∷ dst) (suc off) (x ∷ src) i f h =
    let e : suc off + i ≡ suc (off + i) = omega arith in
    rw e (get_or-splice_at dst off (x ∷ src) i (omega arith) (omega arith))

-- `memcpy(dst + to, src + from, n)`; `none` where it reads or writes outside an object.
unfoldable pub memcpy : List ℕ → ℕ → List ℕ → ℕ → ℕ → Option (List ℕ)
memcpy dst to src from n =
    if leb (to + n) (length dst) && leb (from + n) (length src)
    then some (splice dst to (take n (drop from src)))
    else none

-- What a copy within bounds leaves: every byte outside the range, and the source's bytes inside.
pub record Copied (dst : List ℕ) (to : ℕ) (src : List ℕ) (from n : ℕ) (out : List ℕ) : Type 0 where
  pub size : length out ≡ length dst
  pub before : (i : ℕ) → i < to → get_or out i 0 ≡ get_or dst i 0
  pub after : (i : ℕ) → to + n ≤ i → get_or out i 0 ≡ get_or dst i 0
  pub inside : (i : ℕ) → i < n → get_or out (to + i) 0 ≡ get_or src (from + i) 0

module _ (dst : List ℕ) (to : ℕ) (src : List ℕ) (from n : ℕ) where
  chunk : List ℕ
  chunk = take n (drop from src)

  length-chunk : from + n ≤ length src → length chunk ≡ n
  unfolding chunk
  length-chunk h = omega (arith, length-take n (drop from src), length-drop from src)

  pub memcpy-Copied :
      to + n ≤ length dst
      → from + n ≤ length src
      → (out : List ℕ) × (memcpy dst to src from n ≡ some out) × Copied dst to src from n out
  unfolding memcpy chunk
  memcpy-Copied hd hs = (
    splice dst to chunk,
    rw (le→leb _ _ hd, le→leb _ _ hs),
    record {
      size = length-splice dst to chunk;
      before = λ i h. get_or-splice_before dst to chunk i h;
      after = λ i h. get_or-splice_after dst to chunk i (omega (arith, length-chunk hs));
      inside = λ i h.
          get_or-splice_at dst to chunk i (omega (arith, length-chunk hs))
            (omega (arith, length-chunk hs))
          ∙ get_or-take n (drop from src) i 0 h
          ∙ get_or-drop from src i 0;
    },
  )

-- A copy that starts at the front and is longer than its source.
pub memcpy-none : (dst src : List ℕ) (n : ℕ) → length src < n → memcpy dst 0 src 0 n ≡ none
unfolding memcpy
memcpy-none dst src n h = ground arith

splice_same : (dst src : List ℕ) → length dst ≡ length src → splice dst 0 src ≡ src
unfolding splice
splice_same [] [] e = refl
splice_same [] (x ∷ src) e = absurd (omega (arith, e))
splice_same (b ∷ dst) [] e = absurd (omega (arith, e))
splice_same (b ∷ dst) (x ∷ src) e = ap (◌∷◌ x) (splice_same dst src (omega (arith, e)))

-- A copy of a whole object over one of the same size.
pub memcpy_all :
    (dst src : List ℕ) (n : ℕ) → length dst ≡ n → length src ≡ n → memcpy dst 0 src 0 n ≡ some src
unfolding memcpy
memcpy_all dst src n d e =
    let whole : take n src ≡ src = subst (λ k. take k src ≡ src) e (take_all src) in
    rw
      (
        le→leb (0 + n) (length dst) (omega (arith, d)),
        le→leb (0 + n) (length src) (omega (arith, e)),
      )
      (ap some (ap (splice dst 0) whole ∙ splice_same dst src (d ∙ sym e)))
