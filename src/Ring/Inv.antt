-- ===== src/Ring/Inv.antt =====
-- The invariant of `BlockingRingBuffer`, and the counts of a valid ring.
use native.Mathlib.Nat.{mod-eq_of_lt, mod_self}
use ic7610iq.Prelude.{
  ℕ, ◌+◌, ◌-◌, ◌*◌, ◌%◌, ◌^◌, ◌≤◌, ◌<◌, ◌≡◌, ◌⊎◌, inl, inr, ◌↔◌, true, ltb, leb, leb→le, not_leb→lt,
  ltb→lt, not_ltb→le, ==_iff, ap, Bool-cases, if◌then◌else◌, get_or, length, length-replicate, List,
  tabulate, arith,
}
use ic7610iq.Common.{bytes_per_sample}
use ic7610iq.Ring.{
  Ring, create, available_data, available_space, is_empty, is_full, clear_ringbuffer,
}

pub record IsValid (r : Ring) : Type 0 where
  pub some_room : 1 < r.capacity
  pub small : r.capacity < 2 ^ 61
  pub head_in : r.head < r.capacity
  pub tail_in : r.tail < r.capacity
  pub storage : length r.buffer ≡ r.capacity * bytes_per_sample

-- The count in plain arithmetic: no `size_t` operation of a valid ring wraps.
pub available_data-cases :
    {r : Ring}
    → IsValid r
    → ((r.head ≤ r.tail) × (available_data r + r.head ≡ r.tail))
      ⊎ ((r.tail < r.head) × (available_data r + r.head ≡ r.capacity + r.tail))
unfolding available_data
available_data-cases {r} v = elim (Bool-cases (leb r.head r.tail)) [
  | inl e ↦ inl (leb→le _ _ e, rw e (omega (arith, leb→le _ _ e)))
  | inr e ↦ inr (not_leb→lt _ _ e, rw e (omega (arith, not_leb→lt _ _ e)))
]

pub available_data-lt : {r : Ring} → IsValid r → available_data r < r.capacity
available_data-lt v = omega (arith, available_data-cases v)

-- On a valid ring data and space make up the capacity, less the slot that tells full from empty.
pub available_space-add-data :
    {r : Ring} → IsValid r → available_space r + available_data r + 1 ≡ r.capacity
unfolding available_space
available_space-add-data {r} v = omega (arith, available_data-lt v)

-- `(t + n) % c` for an index `t` and a step that at most reaches the end.
pub end_index :
    (t n c : ℕ)
    → t + n ≤ c
    → 0 < c
    → ((t + n < c) × ((t + n) % c ≡ t + n)) ⊎ ((t + n ≡ c) × ((t + n) % c ≡ 0))
end_index t n c h p = elim (Bool-cases (ltb (t + n) c)) [
  | inl e ↦ inl (ltb→lt _ _ e, mod-eq_of_lt (ltb→lt _ _ e))
  | inr e ↦ let eq : t + n ≡ c = omega (arith, not_ltb→le _ _ e) in inr (eq, rw eq (mod_self c))
]

-- On a valid ring `isEmpty` says that no sample is unread.
pub is_empty_iff : {r : Ring} → IsValid r → (is_empty r ≡ true) ↔ (available_data r ≡ 0)
unfolding is_empty
is_empty_iff {r} v = (
  λ e. omega (arith, available_data-cases v, (==_iff _ _).0 e),
  λ e. (==_iff _ _).1 (omega (arith, available_data-cases v)),
)

-- On a valid ring `isFull` says that there is no space.
pub is_full_iff : {r : Ring} → IsValid r → (is_full r ≡ true) ↔ (available_space r ≡ 0)
unfolding is_full
is_full_iff {r} v = (
  λ e. omega (arith, available_data-cases v, available_space-add-data v, next, (==_iff _ _).0 e),
  λ e. (==_iff _ _).1 (omega (arith, available_data-cases v, available_space-add-data v, next)),
)
  where
    next :
        ((r.tail + 1 < r.capacity) × ((r.tail + 1) % r.capacity ≡ r.tail + 1))
        ⊎ ((r.tail + 1 ≡ r.capacity) × ((r.tail + 1) % r.capacity ≡ 0))
    next = end_index r.tail 1 r.capacity (omega arith) (omega arith)

pub create-IsValid : IsValid create
unfolding create
create-IsValid = record {
  some_room = omega arith;
  small = omega arith;
  head_in = omega arith;
  tail_in = omega arith;
  storage = length-replicate {A = ℕ} _ 0;
}

pub available_space-create : available_space create ≡ 32768
unfolding create available_space available_data
available_space-create = omega arith

-- Clearing a valid ring leaves a valid ring.
pub clear-IsValid : {r : Ring} → IsValid r → IsValid (clear_ringbuffer r)
unfolding clear_ringbuffer
clear-IsValid v = record {
  some_room = v.some_room;
  small = v.small;
  head_in = omega arith;
  tail_in = omega arith;
  storage = length-replicate {A = ℕ} _ 0;
}

pub clear-empties : (r : Ring) → available_data (clear_ringbuffer r) ≡ 0
unfolding clear_ringbuffer available_data
clear-empties r = omega arith

-- The place of byte `i` of the unread data, counted from the oldest.
pub place : Ring → ℕ → ℕ
place r i =
    let k = r.head * bytes_per_sample + i in
    if ltb k (r.capacity * bytes_per_sample) then k else k - r.capacity * bytes_per_sample

-- Byte `i` of the unread data.
pub byte_at : Ring → ℕ → ℕ
unfolding place
byte_at r i = get_or r.buffer (place r i) 0

pub place-cases :
    (r : Ring) (i : ℕ)
    → ((r.head * bytes_per_sample + i < r.capacity * bytes_per_sample)
        × (place r i ≡ r.head * bytes_per_sample + i))
      ⊎ ((r.capacity * bytes_per_sample ≤ r.head * bytes_per_sample + i)
          × (place r i + r.capacity * bytes_per_sample ≡ r.head * bytes_per_sample + i))
unfolding place
place-cases r i =
    elim (Bool-cases (ltb (r.head * bytes_per_sample + i) (r.capacity * bytes_per_sample))) [
      | inl e ↦ inl (ltb→lt _ _ e, rw e)
      | inr e ↦ inr (not_ltb→le _ _ e, rw e (omega (arith, not_ltb→le _ _ e)))
    ]

pub byte_at-eq : (r : Ring) (i k : ℕ) → place r i ≡ k → byte_at r i ≡ get_or r.buffer k 0
unfolding byte_at
byte_at-eq r i k e = ap (λ p. get_or r.buffer p 0) e

-- The unread bytes, oldest first: what the ring is for its clients.
unfoldable pub unread : Ring → List ℕ
unread r = tabulate (available_data r * bytes_per_sample) (byte_at r)
