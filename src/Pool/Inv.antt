-- ===== src/Pool/Inv.antt =====
-- The invariant of `BufferPool`, and what `acquire` and `release` do under it.
use ic7610iq.Prelude.{
  ℕ, ◌<◌, ◌≡◌, inl, inr, refl, true, false, Option, none, some, List, [], ◌∷◌, ◌==◌, ==_iff,
  Bool-cases, Outcome, returns, throws, undefined, subst, sym, ◌>>=◌, arith,
}
use ic7610iq.Pool.Members.{elem, Distinct, elem-head, elem-tail}
use ic7610iq.Pool.{Pool, Buffer, Heap, update, reset, acquire, release}

pub record IsValid (p : Pool) : Type 0 where
  pub free_distinct : Distinct p.free_buffers
  pub list_distinct : Distinct p.buffer_list
  pub owned : (q : ℕ) → elem q p.free_buffers ≡ true → elem q p.buffer_list ≡ true
  pub live : (q : ℕ) → elem q p.buffer_list ≡ true → (b : Buffer) × (p.cells q ≡ some b)
  pub below : (q : ℕ) → elem q p.buffer_list ≡ true → q < p.next_address

-- A buffer that is out: the pool made it and it is not on the stack.
abbrev pub IsOut : Pool → ℕ → Type 0
IsOut p q = (elem q p.buffer_list ≡ true) × (elem q p.free_buffers ≡ false)

reset-eq :
    (ptr : ℕ) (p : Pool) (b : Buffer)
    → p.cells ptr ≡ some b
    → reset ptr p
      ≡ returns tt (record p { cells = update p.cells ptr (some (record b { total_used = 0 })) })
unfolding reset
reset-eq ptr p b e = rw (e, ◌>>=◌) refl

-- A write to a live cell leaves every cell live.
update-live :
    (h : Heap) (ptr q : ℕ) (b b' : Buffer)
    → h q ≡ some b
    → (c : Buffer) × (update h ptr (some b') q ≡ some c)
update-live h ptr q b b' e = elim (Bool-cases (q == ptr)) [
  | inl t ↦ (b', rw t refl)
  | inr t ↦ (b, rw t e)
]

-- The pool with the cell of `ptr` reset and another stack.
moved : Pool → ℕ → Buffer → List ℕ → Pool
moved p ptr b free = record p {
  cells = update p.cells ptr (some (record b { total_used = 0 }));
  free_buffers = free;
}

moved-IsValid :
    (p : Pool) (ptr : ℕ) (b : Buffer) (free : List ℕ)
    → IsValid p
    → Distinct free
    → ((q : ℕ) → elem q free ≡ true → elem q p.buffer_list ≡ true)
    → IsValid (moved p ptr b free)
unfolding moved
moved-IsValid p ptr b free v d o = record {
  free_distinct = d;
  list_distinct = v.list_distinct;
  owned = o;
  live = λ q h. update-live p.cells ptr q (v.live q h).0 _ (v.live q h).1;
  below = v.below;
}

pub acquire-nil : (p : Pool) → p.free_buffers ≡ [] → acquire p ≡ returns none p
unfolding acquire
acquire-nil p e = simp (e, acquire)

acquire-eq :
    (p : Pool) (top : ℕ) (rest : List ℕ) (b : Buffer)
    → p.free_buffers ≡ top ∷ rest
    → p.cells top ≡ some b
    → acquire p ≡ returns (some top) (moved p top b rest)
unfolding acquire moved
acquire-eq p top rest b e c = rw (e, acquire) (rw (reset-eq top p b c, ◌>>=◌) refl)

release-eq :
    (p : Pool) (ptr : ℕ) (b : Buffer)
    → p.cells ptr ≡ some b
    → release (some ptr) p ≡ returns tt (moved p ptr b (ptr ∷ p.free_buffers))
unfolding release moved
release-eq p ptr b c = rw (reset-eq ptr p b c, ◌>>=◌) refl

elem-cons_owned :
    (p : Pool)
    → IsValid p
    → (ptr q : ℕ) → elem ptr p.buffer_list ≡ true
    → elem q (ptr ∷ p.free_buffers) ≡ true
    → elem q p.buffer_list ≡ true
unfolding elem
elem-cons_owned p v ptr q h e = elim (Bool-cases (q == ptr)) [
  | inl t ↦ rw ((==_iff q ptr).0 t) h
  | inr t ↦ v.owned q (ground arith)
]

-- What `acquire` comes to from `p`: `nullptr` and no change, or a buffer that was on the stack and
-- is out now, in a valid pool of the same buffers.
abbrev pub Acquired : Pool → Outcome Pool (Option ℕ) → Type 0
Acquired p (returns none p') = (p.free_buffers ≡ []) × (p' ≡ p)
Acquired p (returns (some b) p') =
    IsValid p'
    × (p.free_buffers ≡ b ∷ p'.free_buffers)
    × (p'.buffer_list ≡ p.buffer_list)
    × IsOut p' b
Acquired p (throws e p') = ⊥
Acquired p undefined = ⊥

acquire-split :
    (p : Pool) (free : List ℕ) → IsValid p → p.free_buffers ≡ free → Acquired p (acquire p)
unfolding acquire moved
acquire-split p [] v e = subst (Acquired p) (sym (acquire-nil p e)) (e, refl)
acquire-split p (top ∷ rest) v e =
    let on_stack : elem top p.free_buffers ≡ true = rw e (elem-head top rest) in
    let distinct : Distinct (top ∷ rest) = subst Distinct e v.free_distinct in
    let (b, live) = v.live top (v.owned top on_stack) in
    rw (acquire-eq p top rest b e live) (
      moved-IsValid p top b rest v distinct.1 (λ q h. v.owned q (rw e (elem-tail q top rest h))),
      e,
      refl,
      (v.owned top on_stack, distinct.0),
    )

-- `acquire` on a valid pool gives `nullptr` only when the stack is empty, and then changes
-- nothing; else it gives the buffer on the top of the stack, takes it off, and leaves a valid pool
-- of the same buffers, in which that buffer is out.
pub acquire-Acquired : (p : Pool) → IsValid p → Acquired p (acquire p)
acquire-Acquired p v = acquire-split p p.free_buffers v refl

-- In a valid pool, giving back a buffer that is out keeps the pool valid and puts it on the top of
-- the stack, and the next `acquire` returns that buffer and leaves the stack as it was.
pub release-acquire :
    (p : Pool) (ptr : ℕ)
    → IsValid p
    → IsOut p ptr
    → (p' : Pool) × (p'' : Pool) × (release (some ptr) p ≡ returns tt p')
      × IsValid p'
      × (p'.free_buffers ≡ ptr ∷ p.free_buffers)
      × (p'.buffer_list ≡ p.buffer_list)
      × (acquire p' ≡ returns (some ptr) p'')
      × (p''.free_buffers ≡ p.free_buffers)
unfolding moved
release-acquire p ptr v out =
    let (b, live) = v.live ptr out.0 in
    let p' : Pool = moved p ptr b (ptr ∷ p.free_buffers) in
    let zeroed : Buffer = record b { total_used = 0 } in
    (
      p',
      moved p' ptr zeroed p.free_buffers,
      release-eq p ptr b live,
      moved-IsValid p ptr b (ptr ∷ p.free_buffers) v (out.1, v.free_distinct)
          (λ q h. elem-cons_owned p v ptr q out.0 h),
      refl,
      refl,
      acquire-eq p' ptr p.free_buffers zeroed refl (ground arith),
      refl,
    )

-- A release that returns has pushed the buffer.
pub release-free_buffers :
    (p p' : Pool) (ptr : ℕ)
    → release (some ptr) p ≡ returns tt p'
    → p'.free_buffers ≡ ptr ∷ p.free_buffers
unfolding release reset
release-free_buffers p p' ptr e = ground arith
