-- ===== src/Pool.antt =====
-- include/BufferPool.hpp: buffers allocated once, handed out from a stack and given back to it.
-- A `Buffer*` is an address; `cells` holds the `Buffer` that lives there, or `none` where none does.
pub mod Members
pub mod Inv
pub mod Create
pub mod Destroy
pub mod Held
mod Tests
use ic7610iq.Prelude.{
  ℕ, zero, suc, ◌+◌, ◌-◌, ◌%◌, Option, none, some, List, [], ◌∷◌, ◌++◌, ◌==◌, if◌then◌else◌,
  Outcome, returns, undefined, M, ◌>>=◌, ◌>>◌, pure, gets, modify, access,
}
use Members.{erase}

pub record Buffer : Type 0 where
  pub buffer_id : ℕ
  pub total_used : ℕ
  pub size : ℕ

abbrev pub Heap : Type 0
Heap = ℕ → Option Buffer

pub record Pool : Type 0 where
  pub free_buffers : List ℕ
  pub buffer_list : List ℕ
  pub buffer_size : ℕ
  pub cells : Heap
  pub next_address : ℕ

abbrev pub update : Heap → ℕ → Option Buffer → Heap
update h p b q = if q == p then b else h q

-- `new Buffer(i, size, alignment)`, at an address that was never used; `i` becomes a `uint8_t`.
unfoldable pub new_buffer : ℕ → Pool → Pool
new_buffer i p = record p {
  free_buffers = p.next_address ∷ p.free_buffers;
  buffer_list = p.buffer_list ++ (p.next_address ∷ []);
  cells =
      update p.cells p.next_address
        (some (record { buffer_id = i % 256; total_used = 0; size = p.buffer_size }));
  next_address = p.next_address + 1;
}

-- The constructor's loop: buffers `i`, `i + 1`, … with `n` rounds left.
unfoldable pub new_buffers : ℕ → ℕ → Pool → Pool
new_buffers zero i p = p
new_buffers (suc n) i p = new_buffers n (i + 1) (new_buffer i p)

-- `BufferPool(count, size)`.
unfoldable pub create : ℕ → ℕ → Pool
unfolding new_buffer new_buffers
create count size = new_buffers count 0 (record {
  free_buffers = [];
  buffer_list = [];
  buffer_size = size;
  cells = λ q. none;
  next_address = 0;
})

-- `ptr->totalUsed = 0`.
unfoldable pub reset : ℕ → M Pool (Unit {0})
reset ptr = do
  pool ← gets λ p. p
  buf ← access (pool.cells ptr)
  modify λ p. record p { cells = update p.cells ptr (some (record buf { total_used = 0 })) }

-- `none` is `nullptr`.
unfoldable pub acquire : M Pool (Option ℕ)
unfolding reset
acquire pool = elim pool.free_buffers [
  | [] ↦ returns none pool
  | top ∷ rest ↦ (do reset top; modify λ p. record p { free_buffers = rest }; pure (some top)) pool
]

pub release : Option ℕ → M Pool (Unit {0})
unfolding reset
release none pool = undefined
release (some ptr) pool =
    (do reset ptr; modify λ p. record p { free_buffers = ptr ∷ p.free_buffers }) pool

-- `delete ptr`: undefined if nothing lives there.
delete : ℕ → Heap → Option Heap
delete ptr h = elim (h ptr) [ none ↦ none | some buf ↦ some (update h ptr none) ]

-- The destructor's loop over the stack, and its loop over what was never given back.
destroy_free : List ℕ → List ℕ → Heap → Option (List ℕ × Heap)
destroy_free [] list h = some (list, h)
destroy_free (ptr ∷ free) list h = elim (delete ptr h) [
  | none ↦ none
  | some h' ↦ destroy_free free (erase ptr list) h'
]

destroy_rest : List ℕ → Heap → Option Heap
destroy_rest [] h = some h
destroy_rest (ptr ∷ list) h = elim (delete ptr h) [ none ↦ none | some h' ↦ destroy_rest list h' ]

-- `~BufferPool`: the heap that it leaves, or `none` if it deletes a buffer twice.
pub destroy : Pool → Option Heap
destroy pool = elim (destroy_free pool.free_buffers pool.buffer_list pool.cells) [
  | none ↦ none
  | some (list, h) ↦ destroy_rest list h
]
