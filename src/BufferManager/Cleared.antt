-- ===== src/BufferManager/Cleared.antt =====
-- Clearing deletes every array once, however often buffers were allocated before.
use ic7610iq.Prelude.{
  ℕ, zero, suc, ◌<◌, Bool, true, false, some, List, [], ◌∷◌, ◌==◌, if◌then◌else◌, ◌≡◌, refl, arith,
}
use ic7610iq.Pool.Members.{
  elem, Distinct, elem-append, append_new-Distinct, elem-head, elem-tail, elem-ne, elem-nil,
  ne-true,
}
use ic7610iq.BufferManager.{
  BufferManager, new_manager, delete_arrays, cleared, clear_buffers, new_array, new_arrays,
  allocate_buffers,
}

-- The arrays are there, each once, and the next address is a new one.
pub record IsValid (m : BufferManager) : Type 0 where
  pub distinct : Distinct m.arrays
  pub live : (q : ℕ) → elem q m.arrays ≡ true → m.live q ≡ true
  pub below : (q : ℕ) → elem q m.arrays ≡ true → q < m.next_address

pub new_manager-IsValid : IsValid new_manager
unfolding new_manager
new_manager-IsValid = record {
  distinct = tt;
  live = λ q h. absurd (elem-nil q h);
  below = λ q h. absurd (elem-nil q h);
}

new_array-IsValid : (m : BufferManager) → IsValid m → IsValid (new_array m)
unfolding new_array elem
new_array-IsValid m v = record {
  distinct =
      append_new-Distinct m.arrays m.next_address v.distinct
        (ne-true _ (λ t. omega (arith, v.below m.next_address t)));
  live = λ q h. ground (arith, v.live q, elem-append q m.arrays (m.next_address ∷ []));
  below = λ q h. ground (arith, v.below q, elem-append q m.arrays (m.next_address ∷ []));
}

new_arrays-IsValid : (n : ℕ) (m : BufferManager) → IsValid m → IsValid (new_arrays n m)
unfolding new_arrays
new_arrays-IsValid zero m v = v
new_arrays-IsValid (suc n) m v = new_arrays-IsValid n (new_array m) (new_array-IsValid m v)

-- Allocating keeps the manager valid: the arrays that were there stay.
pub allocate-IsValid : (m : BufferManager) → IsValid m → IsValid (allocate_buffers m)
unfolding allocate_buffers
allocate-IsValid m v = new_arrays-IsValid m.num_buffers m v

delete_arrays-some :
    (arrays : List ℕ) (live : ℕ → Bool)
    → Distinct arrays
    → ((q : ℕ) → elem q arrays ≡ true → live q ≡ true)
    → (live' : ℕ → Bool) × (delete_arrays arrays live ≡ some live')
      × ((q : ℕ) → live' q ≡ (if elem q arrays then false else live q))
unfolding delete_arrays elem
delete_arrays-some [] live d l = (live, refl, λ q. refl)
delete_arrays-some (p ∷ arrays) live d l =
    let (live', e, w) =
      delete_arrays-some arrays (λ q. if q == p then false else live q) d.1
        (λ q h. ground (arith, l q, elem-ne q p arrays d.0 h, elem-tail q p arrays h)) in
    (live', rw (l p (elem-head p arrays)) e, λ q. ground (arith, w q))

-- Clearing a valid manager deletes no array twice, leaves it valid and without arrays, and
-- afterwards exactly the addresses of its arrays are free again.
pub clear_buffers-IsValid :
    (m : BufferManager)
    → IsValid m
    → (m' : BufferManager) × (clear_buffers m ≡ some m')
      × IsValid m'
      × (m'.arrays ≡ [])
      × ((q : ℕ) → m'.live q ≡ (if elem q m.arrays then false else m.live q))
unfolding clear_buffers cleared
clear_buffers-IsValid m v =
    let (live, e, w) = delete_arrays-some m.arrays m.live v.distinct v.live in
    (
      cleared m live,
      rw (e, clear_buffers) refl,
      record {
        distinct = tt;
        live = λ q h. absurd (elem-nil q h);
        below = λ q h. absurd (elem-nil q h);
      },
      refl,
      w,
    )
