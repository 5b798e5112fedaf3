-- ===== src/Pool/Create.antt =====
-- The constructor of `BufferPool` makes a valid pool.
use ic7610iq.Prelude.{
  ℕ, zero, suc, ◌+◌, ◌%◌, ◌≡◌, refl, true, false, some, [], ◌∷◌, ◌==◌, inl, inr, Bool-cases, length,
  arith,
}
use ic7610iq.Pool.Members.{elem, elem-append, append_new-Distinct, elem-nil, ne-true}
use ic7610iq.Pool.{Pool, Buffer, new_buffer, new_buffers, create}
use ic7610iq.Pool.Inv.{IsValid}

not_elem : (p : Pool) → IsValid p → elem p.next_address p.buffer_list ≡ false
not_elem p v = ne-true _ (λ t. omega (arith, v.below p.next_address t))

not_free : (p : Pool) → IsValid p → elem p.next_address p.free_buffers ≡ false
not_free p v = ne-true _ (λ t. omega (arith, v.below p.next_address (v.owned p.next_address t)))

new_buffer-live :
    (i : ℕ) (p : Pool)
    → IsValid p
    → (q : ℕ) → elem q (new_buffer i p).buffer_list ≡ true
    → (b : Buffer) × ((new_buffer i p).cells q ≡ some b)
unfolding new_buffer elem
new_buffer-live i p v q h = elim (Bool-cases (q == p.next_address)) [
  | inl t ↦ (record { buffer_id = i % 256; total_used = 0; size = p.buffer_size }, rw t refl)
  | inr f ↦
      let (b, e) = v.live q (ground (arith, elem-append q p.buffer_list (p.next_address ∷ []))) in
      (b, rw f e)
]

new_buffer-IsValid : (i : ℕ) (p : Pool) → IsValid p → IsValid (new_buffer i p)
unfolding new_buffer elem
new_buffer-IsValid i p v = record {
  free_distinct = (not_free p v, v.free_distinct);
  list_distinct = append_new-Distinct p.buffer_list p.next_address v.list_distinct (not_elem p v);
  owned = λ q h. ground (arith, v.owned q, elem-append q p.buffer_list (p.next_address ∷ []));
  live = new_buffer-live i p v;
  below = λ q h. ground (arith, v.below q, elem-append q p.buffer_list (p.next_address ∷ []));
}

new_buffers-IsValid : (n i : ℕ) (p : Pool) → IsValid p → IsValid (new_buffers n i p)
unfolding new_buffers
new_buffers-IsValid zero i p v = v
new_buffers-IsValid (suc n) i p v =
    new_buffers-IsValid n (i + 1) (new_buffer i p) (new_buffer-IsValid i p v)

length-new_buffers :
    (n i : ℕ) (p : Pool) → length (new_buffers n i p).free_buffers ≡ n + length p.free_buffers
unfolding new_buffers new_buffer
length-new_buffers zero i p = omega arith
length-new_buffers (suc n) i p = omega (arith, length-new_buffers n (i + 1) (new_buffer i p))

-- A new pool is valid and has `count` buffers on its stack.
pub new_pool-IsValid :
    (count size : ℕ)
    → IsValid (create count size) × (length (create count size).free_buffers ≡ count)
unfolding create
new_pool-IsValid count size = (
  new_buffers-IsValid count 0 _ (record {
    free_distinct = tt;
    list_distinct = tt;
    owned = λ q h. h;
    live = λ q h. absurd (elem-nil q h);
    below = λ q h. absurd (elem-nil q h);
  }),
  omega (arith, length-new_buffers count 0 _),
)
