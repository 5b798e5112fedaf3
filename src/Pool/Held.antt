-- ===== src/Pool/Held.antt =====
-- Who has the buffers of a pool: each is on its stack or with one of its clients.
use ic7610iq.Prelude.{
  ℕ, zero, suc, ◌+◌, ◌≤◌, ◌<◌, ◌≡◌, ◌⊎◌, inl, inr, refl, sym, subst, true, false, none, some, List,
  [], ◌∷◌, ◌++◌, ◌==◌, ==_iff, if◌then◌else◌, Bool-cases, length, length-append, Outcome, returns,
  throws, undefined, ap, Option, arith,
}
use ic7610iq.Pool.Members.{elem, Distinct}
use ic7610iq.Pool.{Pool, create, new_buffer, new_buffers, acquire, release}
use ic7610iq.Pool.Create.{new_pool-IsValid}
use ic7610iq.Pool.Inv.{IsValid, IsOut, Acquired, acquire-Acquired, release-acquire}

-- How often an address is in a list.
unfoldable pub count : ℕ → List ℕ → ℕ
count q [] = 0
count q (x ∷ xs) = (if q == x then 1 else 0) + count q xs

pub count-cons : (q x : ℕ) (xs : List ℕ) → count q (x ∷ xs) ≡ count q (x ∷ []) + count q xs
unfolding count
count-cons q x xs = omega arith

pub count-append : (q : ℕ) (xs ys : List ℕ) → count q (xs ++ ys) ≡ count q xs + count q ys
unfolding count
count-append q [] ys = omega arith
count-append q (x ∷ xs) ys = omega (arith, count-append q xs ys)

count_self : (q : ℕ) → count q (q ∷ []) ≡ 1
unfolding count
count_self q = rw ((==_iff q q).1 refl) refl

count-elem : (q : ℕ) (xs : List ℕ) → elem q xs ≡ true → 0 < count q xs
unfolding count elem
count-elem q [] h = absurd (ground arith)
count-elem q (x ∷ xs) h = ground (arith, count-elem q xs)

count-not_elem : (q : ℕ) (xs : List ℕ) → elem q xs ≡ false → count q xs ≡ 0
unfolding count elem
count-not_elem q [] h = refl
count-not_elem q (x ∷ xs) h = ground (arith, count-not_elem q xs)

count-Distinct : (q : ℕ) (xs : List ℕ) → Distinct xs → count q xs ≤ 1
unfolding count
count-Distinct q [] d = omega arith
count-Distinct q (x ∷ xs) d = elim (Bool-cases (q == x)) [
  | inl t ↦
      let n : count q xs ≡ 0 =
        count-not_elem q xs (subst (λ k. elem k xs ≡ false) (sym ((==_iff q x).0 t)) d.0) in
      rw (t, n) (omega arith)
  | inr f ↦ rw f (omega (arith, count-Distinct q xs d.1))
]

-- `xs` are the buffers that the clients have: with those on the stack they are the pool's buffers,
-- none twice.
pub record Held (p : Pool) (xs : List ℕ) : Type 0 where
  pub valid : IsValid p
  pub shared : (q : ℕ) → count q p.free_buffers + count q xs ≡ count q p.buffer_list
  pub number : length p.free_buffers + length xs ≡ length p.buffer_list

-- Only which buffers the clients have matters, not in which order.
pub Held-reorder :
    (p : Pool) (xs ys : List ℕ)
    → ((q : ℕ) → count q xs ≡ count q ys)
    → length xs ≡ length ys
    → Held p xs
    → Held p ys
Held-reorder p xs ys same long h = record {
  valid = h.valid;
  shared = λ q. omega (arith, same q, h.shared q);
  number = omega (arith, long, h.number);
}

Held-IsOut : (p : Pool) (ptr : ℕ) (xs : List ℕ) → Held p (ptr ∷ xs) → IsOut p ptr
Held-IsOut p ptr xs h = (
  elim (Bool-cases (elem ptr p.buffer_list)) [
    | inl t ↦ t
    | inr f ↦
        absurd (omega (arith, count-not_elem ptr _ f, total, count_self ptr, count-cons ptr ptr xs))
  ],
  elim (Bool-cases (elem ptr p.free_buffers)) [
    | inl t ↦
        absurd
          (omega (arith, count-elem ptr _ t, total, once, count_self ptr, count-cons ptr ptr xs))
    | inr f ↦ f
  ],
)
  where
    total : count ptr p.free_buffers + count ptr (ptr ∷ xs) ≡ count ptr p.buffer_list
    total = h.shared ptr

    once : count ptr p.buffer_list ≤ 1
    once = count-Distinct ptr p.buffer_list h.valid.list_distinct

-- `acquire` gives a client a buffer, or `nullptr` when the clients have them all.
pub acquire-Held :
    (p : Pool) (xs : List ℕ)
    → Held p xs
    → ((p.free_buffers ≡ []) × (acquire p ≡ returns none p))
      ⊎ ((b : ℕ) × (p' : Pool) × (acquire p ≡ returns (some b) p')
          × Held p' (b ∷ xs)
          × (p.free_buffers ≡ b ∷ p'.free_buffers)
          × (p'.buffer_list ≡ p.buffer_list))
acquire-Held p xs h = split (acquire p) refl (acquire-Acquired p h.valid)
  where
    split :
        (o : Outcome Pool (Option ℕ))
        → acquire p ≡ o
        → Acquired p o
        → ((p.free_buffers ≡ []) × (acquire p ≡ returns none p))
          ⊎ ((b : ℕ) × (p' : Pool) × (acquire p ≡ returns (some b) p')
              × Held p' (b ∷ xs)
              × (p.free_buffers ≡ b ∷ p'.free_buffers)
              × (p'.buffer_list ≡ p.buffer_list))
    split (returns none p') e (nil, same) =
        inl (nil, subst (λ k. acquire p ≡ returns none k) same e)
    split (returns (some b) p') e (v, f, l, out) = inr (
      b,
      p',
      e,
      record {
        valid = v;
        shared = λ q. omega (
          arith,
          h.shared q,
          count-cons q b p'.free_buffers,
          count-cons q b xs,
          ap (count q) f,
          ap (count q) l,
        );
        number = omega (arith, h.number, ap length f, ap length l);
      },
      f,
      l,
    )
    split (throws x p') e a = absurd a
    split undefined e a = absurd a

-- A client gives back a buffer that it has.
pub release-Held :
    (p : Pool) (ptr : ℕ) (xs : List ℕ)
    → Held p (ptr ∷ xs)
    → (p' : Pool) × (release (some ptr) p ≡ returns tt p')
      × Held p' xs
      × (p'.free_buffers ≡ ptr ∷ p.free_buffers)
      × (p'.buffer_list ≡ p.buffer_list)
release-Held p ptr xs h =
    let (p', p'', e, v, f, l, next, same) = release-acquire p ptr h.valid (Held-IsOut p ptr xs h) in
    (
      p',
      e,
      record {
        valid = v;
        shared = λ q. omega (
          arith,
          h.shared q,
          count-cons q ptr p.free_buffers,
          count-cons q ptr xs,
          ap (count q) f,
          ap (count q) l,
        );
        number = omega (arith, h.number, ap length f, ap length l);
      },
      f,
      l,
    )

new_buffers-count :
    (n i : ℕ) (p : Pool)
    → ((q : ℕ) → count q p.free_buffers ≡ count q p.buffer_list)
    → (q : ℕ) → count q (new_buffers n i p).free_buffers ≡ count q (new_buffers n i p).buffer_list
unfolding new_buffers new_buffer
new_buffers-count zero i p h = h
new_buffers-count (suc n) i p h = new_buffers-count n (i + 1) (new_buffer i p) (λ q. omega (
  arith,
  h q,
  count-append q p.buffer_list (p.next_address ∷ []),
  count-cons q p.next_address p.free_buffers,
))

new_buffers-length :
    (n i : ℕ) (p : Pool) → length (new_buffers n i p).buffer_list ≡ n + length p.buffer_list
unfolding new_buffers new_buffer
new_buffers-length zero i p = omega arith
new_buffers-length (suc n) i p = omega (
  arith,
  new_buffers-length n (i + 1) (new_buffer i p),
  length-append p.buffer_list (p.next_address ∷ []),
)

abbrev empty_pool : ℕ → Pool
empty_pool size = record {
  free_buffers = [];
  buffer_list = [];
  buffer_size = size;
  cells = λ q. none;
  next_address = 0;
}

-- In a new pool, no client has a buffer.
pub new_pool-Held :
    (n size : ℕ) → Held (create n size) [] × (length (create n size).buffer_list ≡ n)
unfolding create count
new_pool-Held n size =
    let (v, l) = new_pool-IsValid n size in
    let long : length (create n size).buffer_list ≡ n =
      omega (arith, new_buffers-length n 0 (empty_pool size)) in
    (
      record {
        valid = v;
        shared = λ q. omega (arith, new_buffers-count n 0 (empty_pool size) (λ k. refl) q);
        number = omega (arith, l, long);
      },
      long,
    )
