-- ===== src/Pool/Destroy.antt =====
-- The destructor of `BufferPool` deletes every buffer of a valid pool, each once.
use ic7610iq.Prelude.{
  ℕ, ◌≡◌, refl, ◌∙◌, ap, true, false, ◌&&◌, not, none, some, List, [], ◌∷◌, ◌==◌, ==_iff,
  if◌then◌else◌, returns, subst, sym, arith,
}
use ic7610iq.Pool.Members.{
  elem, Distinct, erase, elem-erase, erase-Distinct, elem-head, elem-tail, elem-ne,
}
use ic7610iq.Pool.{Pool, Buffer, Heap, update, delete, destroy_free, destroy_rest, destroy, release}
use ic7610iq.Pool.Inv.{IsValid, release-free_buffers}

abbrev Live : Heap → List ℕ → Type 0
Live h xs = (q : ℕ) → elem q xs ≡ true → (b : Buffer) × (h q ≡ some b)

-- `h'` is `h` without what lived at the addresses of `xs`.
abbrev Without : List ℕ → Heap → Heap → Type 0
Without xs h h' = (q : ℕ) → h' q ≡ (if elem q xs then none else h q)

delete-eq :
    (ptr : ℕ) (h : Heap) (b : Buffer) → h ptr ≡ some b → delete ptr h ≡ some (update h ptr none)
unfolding delete
delete-eq ptr h b e = rw (e, delete) refl

update-Live :
    (h : Heap) (x : ℕ) (xs : List ℕ) → elem x xs ≡ false → Live h xs → Live (update h x none) xs
update-Live h x xs n l q e = let (b, live) = l q e in (b, rw (elem-ne q x xs n e) live)

destroy_rest-Without :
    (xs : List ℕ) (h : Heap)
    → Distinct xs
    → Live h xs
    → (h' : Heap) × (destroy_rest xs h ≡ some h') × Without xs h h'
unfolding destroy_rest elem
destroy_rest-Without [] h d l = (h, refl, λ q. refl)
destroy_rest-Without (x ∷ xs) h d l =
    let (b, e) = l x (elem-head x xs) in
    let (h', e', w) =
      destroy_rest-Without xs (update h x none) d.1
        (update-Live h x xs d.0 (λ q m. l q (elem-tail q x xs m))) in
    (h', rw (delete-eq x h b e, destroy_rest) e', λ q. ground (arith, w q))

erase-Live :
    (h : Heap) (x : ℕ) (list : List ℕ)
    → Distinct list
    → Live h list
    → Live (update h x none) (erase x list)
erase-Live h x list d l q e =
    let other : (q == x) ≡ false = ground (arith, elem-erase x list q d) in
    let (b, live) = l q (ground (arith, elem-erase x list q d)) in (b, rw other live)

destroy_free-Without :
    (free list : List ℕ) (h : Heap)
    → Distinct free
    → Distinct list
    → ((q : ℕ) → elem q free ≡ true → elem q list ≡ true)
    → Live h list
    → (rest : List ℕ) × (h' : Heap) × (destroy_free free list h ≡ some (rest, h'))
      × Distinct rest
      × Live h' rest
      × Without free h h'
      × ((q : ℕ) → elem q rest ≡ (elem q list && not (elem q free)))
unfolding destroy_free elem
destroy_free-Without [] list h df dl o l = (list, h, refl, dl, l, λ q. refl, λ q. ground arith)
destroy_free-Without (x ∷ free) list h df dl o l =
    let (b, e) = l x (o x (elem-head x free)) in
    let (rest, h', e', dr, lr, w, m) =
      destroy_free-Without free (erase x list) (update h x none) df.1 (erase-Distinct x list dl)
        (λ q f.
          ground
            (arith, o q, elem-tail q x free f, elem-erase x list q dl, elem-ne q x free df.0 f))
        (erase-Live h x list dl l) in
    (
      rest,
      h',
      rw (delete-eq x h b e, destroy_free) e',
      dr,
      lr,
      λ q. ground (arith, w q),
      λ q. ground (arith, m q, elem-erase x list q dl),
    )

-- Destroying a valid pool deletes no buffer twice, and afterwards exactly the cells of its buffers
-- are empty, those never given back included.
pub destroy-Without :
    (p : Pool)
    → IsValid p
    → (h : Heap) × (destroy p ≡ some h)
      × ((q : ℕ) → h q ≡ (if elem q p.buffer_list then none else p.cells q))
unfolding destroy
destroy-Without p v =
    let (rest, h, e, dr, lr, w, m) =
      destroy_free-Without p.free_buffers p.buffer_list p.cells v.free_distinct v.list_distinct
        v.owned v.live in
    let (h', e', w') = destroy_rest-Without rest h dr lr in
    (h', rw (e, destroy) e', λ q. ground (arith, w q, w' q, m q, v.owned q))

destroy_free-twice :
    (ptr : ℕ) (free list : List ℕ) (h : Heap) → destroy_free (ptr ∷ ptr ∷ free) list h ≡ none
unfolding destroy_free delete
destroy_free-twice ptr free list h = ground (arith, (==_iff ptr ptr).1 refl)

destroy-none :
    (p : Pool) (free : List ℕ)
    → p.free_buffers ≡ free
    → destroy_free free p.buffer_list p.cells ≡ none
    → destroy p ≡ none
unfolding destroy
destroy-none p free e d =
    rw (subst (λ f. destroy_free f p.buffer_list p.cells ≡ none) (sym e) d, destroy) refl

-- When a buffer is released twice in a row and both calls return, the destructor right after
-- deletes it twice, which is undefined behaviour.
pub released_twice :
    (p p' p'' : Pool) (ptr : ℕ)
    → release (some ptr) p ≡ returns tt p'
    → release (some ptr) p' ≡ returns tt p''
    → destroy p'' ≡ none
released_twice p p' p'' ptr e e' =
    destroy-none p'' (ptr ∷ ptr ∷ p.free_buffers)
      (release-free_buffers p' p'' ptr e' ∙ ap (λ f. ptr ∷ f) (release-free_buffers p p' ptr e))
      (destroy_free-twice ptr p.free_buffers p''.buffer_list p''.cells)
