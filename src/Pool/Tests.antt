-- ===== src/Pool/Tests.antt =====
-- A pool of two buffers, one of them handed out.
use ic7610iq.Prelude.{
  ℕ, ◌≡◌, refl, none, some, [], ◌∷◌, ◌==◌, if◌then◌else◌, returns, Bool-cases, inl, inr, clash,
  arith,
}
use ic7610iq.Pool.{
  Heap, Pool, update, new_buffer, new_buffers, create, reset, acquire, release, destroy,
}
use ic7610iq.Pool.Members.{elem}
use ic7610iq.Pool.Inv.{IsValid, IsOut, Acquired, acquire-Acquired, release-acquire}
use ic7610iq.Pool.Create.{new_pool-IsValid}
use ic7610iq.Pool.Destroy.{destroy-Without}

abbrev two_buffers : Pool
two_buffers = create 2 16

two_buffers-IsValid : IsValid two_buffers
two_buffers-IsValid = (new_pool-IsValid 2 16).0

-- The stack gives the last buffer first.
first_acquired : (p : Pool) × (acquire two_buffers ≡ returns (some 1) p) × (p.free_buffers ≡ 0 ∷ [])
unfolding acquire reset create new_buffers new_buffer
first_acquired = (_, refl, refl)

acquire-Acquired_example : Acquired two_buffers (acquire two_buffers)
acquire-Acquired_example = acquire-Acquired two_buffers two_buffers-IsValid

-- The pool after one `acquire`.
abbrev one_out : Pool
one_out = record {
  free_buffers = 0 ∷ [];
  buffer_list = 0 ∷ 1 ∷ [];
  buffer_size = 16;
  cells = λ q.
      if q == 0
      then some (record { buffer_id = 0; total_used = 0; size = 16 })
      else if q == 1
      then some (record { buffer_id = 1; total_used = 9; size = 16 })
      else none;
  next_address = 2;
}

one_out-IsValid : IsValid one_out
unfolding elem
one_out-IsValid = record {
  free_distinct = (refl, tt);
  list_distinct = (refl, (refl, tt));
  owned = λ q h. ground arith;
  live = λ q h. elim (Bool-cases (q == 0)) [
    | inl t ↦ (record { buffer_id = 0; total_used = 0; size = 16 }, rw t refl)
    | inr f ↦ elim (Bool-cases (q == 1)) [
      | inl t ↦ (record { buffer_id = 1; total_used = 9; size = 16 }, rw (f, t) refl)
      | inr g ↦ absurd (clash _ h (rw (f, g) refl))
    ]
  ];
  below = λ q h. ground arith;
}

out : IsOut one_out 1
unfolding elem
out = (refl, refl)

release-acquire_example :
    (p' : Pool) × (p'' : Pool) × (release (some 1) one_out ≡ returns tt p')
    × IsValid p'
    × (p'.free_buffers ≡ 1 ∷ 0 ∷ [])
    × (p'.buffer_list ≡ 0 ∷ 1 ∷ [])
    × (acquire p' ≡ returns (some 1) p'')
    × (p''.free_buffers ≡ 0 ∷ [])
release-acquire_example = release-acquire one_out 1 one_out-IsValid out

destroy-Without_example :
    (h : Heap) × (destroy one_out ≡ some h)
    × ((q : ℕ) → h q ≡ (if elem q (0 ∷ 1 ∷ []) then none else one_out.cells q))
destroy-Without_example = destroy-Without one_out one_out-IsValid

-- The pool after one release of buffer 1, and after another.
abbrev once : Pool
once = record one_out {
  free_buffers = 1 ∷ 0 ∷ [];
  cells = update one_out.cells 1 (some (record { buffer_id = 1; total_used = 0; size = 16 }));
}

abbrev twice : Pool
twice = record once {
  free_buffers = 1 ∷ 1 ∷ 0 ∷ [];
  cells = update once.cells 1 (some (record { buffer_id = 1; total_used = 0; size = 16 }));
}

released_once : release (some 1) one_out ≡ returns tt once
unfolding release reset
released_once = refl

released_again : release (some 1) once ≡ returns tt twice
unfolding release reset
released_again = refl
