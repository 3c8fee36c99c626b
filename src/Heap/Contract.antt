-- ===== src/Heap/Contract.antt =====
-- heap.c: what its callers may rely on.
use neka_kernel.Base.{
  ℕ, ◌+◌, ◌-◌, ◌<◌, ◌≤◌, ◌^◌, ◌≡◌, ◌≢◌, ◌⊎◌, inl, inr, refl, ap, ◌∙◌, sym, arith, true, false, some,
  List, [], ◌∷◌, ◌==◌, Bool-cases, update_self,
}
use mathlib.Core.Path.{subst}
use mathlib.Core.Bool.{false≢true}
use neka_kernel.Heap.{
  Heap, Outcome, Lock, heap_size, align16, kmalloc, kfree, block_magic, panic_heap_oom,
  panic_heap_corrupt, heap_free_bytes, free_bytes,
}
use neka_kernel.Heap.Cells.{
  Cell, after, Has, extent, free_cells, free_total, IsCoalesced, first_fit, alloc_cells,
}
use neka_kernel.Heap.Chain.{free_bytes_lem}
use neka_kernel.Heap.Free.{Has-det, Has-le, Has-extent}
use neka_kernel.Heap.Layout.{
  extent-alloc_cells, first_fit_was_free, first_fit_in_use, Has-alloc_cells,
}
use neka_kernel.Heap.Freeing.{Has-free_cells, Has-free_cells_inv}
use neka_kernel.Heap.Safety.{
  IsHeap, IsArena, needed, allocated, freed, kmalloc_oom, kmalloc_found, allocated-IsHeap,
  kfree_in_use, kfree_no_magic, freed-IsHeap, length-le, link_full,
}

-- A call of `kmalloc(size)` that answers with the block at `x`, of `k` bytes, and leaves `h'`.
pub record Serves (L : Lock) (arena fuel size : ℕ) (s : L.State) (h : Heap) (l : List Cell)
    (x k : ℕ) (h' : Heap) : Type 0 where
  pub result :
      kmalloc L fuel size (s, h) ≡ some (Outcome.returns (x + 32 + 4), L.unlock (L.lock s), h')
  -- The block has room for the magic number and `size` bytes, inside the arena.
  pub room : 4 + size ≤ k
  pub inside : (arena ≤ x) × (x + 32 + k ≤ arena + heap_size)
  -- It was part of a free block and is in use now, and the heap stays well formed.
  pub was_free : (k' : ℕ) × Has x k' true arena l
  pub in_use : Has x k false arena (alloc_cells (needed size) l)
  pub valid : IsHeap arena h' (alloc_cells (needed size) l)
  -- Every block that was in use is so at the same place with the same size.
  pub others :
      (y n : ℕ)
      → Has y n false arena l
      → Has y n false arena (alloc_cells (needed size) l) × (y ≢ x)

-- A request that does not overflow `size_t` asks for its size and the magic number.
needed_room : (size : ℕ) → size ≤ 2 ^ 64 - 32 → 4 + size ≤ needed size
unfolding align16
needed_room size h = omega arith

needed_wraps : (size : ℕ) → 2 ^ 64 - 15 ≤ size → size < 2 ^ 64 → needed size ≡ 4
unfolding align16
needed_wraps size lo hi = omega arith

zero_not_magic : 0 ≢ block_magic
zero_not_magic e = absurd (omega arith)

module _ (L : Lock) (arena : ℕ) (at : IsArena arena) where
  open L use {State, lock, unlock}

  -- `kmalloc` of a size from 1 to 2^64 - 32 on a well-formed heap: either no free block is large
  -- enough, and it panics with the lock given back and the heap unchanged; or it serves the request.
  pub kmalloc_correct :
      (fuel size : ℕ) (s : State) (h : Heap) (l : List Cell)
      → IsHeap arena h l
      → 32768 < fuel
      → 0 < size
      → size ≤ 2 ^ 64 - 32
      → ((first_fit (needed size) arena l ≡ 0)
          × (kmalloc L fuel size (s, h) ≡ some (Outcome.panics panic_heap_oom, unlock (lock s), h)))
        ⊎ ((x : ℕ) × (k : ℕ) × (h' : Heap) × Serves L arena fuel size s h l x k h')
  kmalloc_correct fuel size s h l v fu pos small =
      elim (Bool-cases (first_fit (needed size) arena l == 0)) [
        | inl oom ↦
            inl (ground arith, kmalloc_oom L arena at fuel size s h l v fu pos (ground arith))
        | inr found ↦
            let pos_fit : 0 < first_fit (needed size) arena l = ground arith in
            let new = first_fit_in_use (needed size) arena l pos_fit in
            let old = first_fit_was_free (needed size) arena l pos_fit in
            let valid = allocated-IsHeap L arena at fuel size s h l v pos_fit in
            inr (
              first_fit (needed size) arena l,
              new.0,
              allocated size (first_fit (needed size) arena l) h,
              record {
                result = kmalloc_found L arena at fuel size s h l v fu pos pos_fit;
                room = omega (arith, needed_room size small, new.1);
                inside = (
                  Has-le _ _ new.0 false arena new.2,
                  omega (arith, Has-extent _ _ new.0 false arena new.2, valid.full),
                );
                was_free = (old.0, old.2);
                in_use = new.2;
                valid = valid;
                others = λ y n live. (
                  Has-alloc_cells (needed size) arena y n l live,
                  λ e.
                      false≢true
                        (Has-det l y n old.0 false true arena live
                          (subst (λ z. Has z old.0 true arena l) (sym e) old.2)).1,
                );
              },
            )
      ]

  -- `kfree` of a block in use on a well-formed heap returns with the lock given back, the heap stays
  -- well formed, and exactly the other blocks stay in use, where they were and as large.
  pub kfree_correct :
      (x n : ℕ) (s : State) (h : Heap) (l : List Cell)
      → IsHeap arena h l
      → Has x n false arena l
      → (kfree L (x + 32 + 4) (s, h) ≡ (Outcome.returns 0, unlock (lock s), freed x h))
        × IsHeap arena (freed x h) (free_cells x arena l)
        × ((y k : ℕ) → Has y k false arena l → y ≢ x → Has y k false arena (free_cells x arena l))
        × ((y k : ℕ) → Has y k false arena (free_cells x arena l) → Has y k false arena l × (y ≢ x))
  kfree_correct x n s h l v has = (
    kfree_in_use L arena at x n s h l v has,
    freed-IsHeap L arena at x n s h l v has,
    λ y k live ne. Has-free_cells x arena n y k l has live ne,
    λ y k live. Has-free_cells_inv x arena n y k l has live,
  )

  -- Freeing a pointer again at once is caught: `kfree` panics, with the lock given back and the heap
  -- unchanged.
  pub double_free_panics :
      (x n : ℕ) (s : State) (h : Heap) (l : List Cell)
      → IsHeap arena h l
      → Has x n false arena l
      → let (_, s', h') = kfree L (x + 32 + 4) (s, h) in
        kfree L (x + 32 + 4) (s', h') ≡ (Outcome.panics panic_heap_corrupt, unlock (lock s'), h')
  double_free_panics x n s h l v has =
      let at_end = Has-extent l x n false arena has in
      let gone : (freed x h).word (x + 32) ≢ block_magic =
        λ e. zero_not_magic (sym (update_self h.word (x + 32) 0) ∙ e) in
      rw (kfree_in_use L arena at x n s h l v has)
        (kfree_no_magic L arena at x n (unlock (lock s)) (freed x h) l (omega (arith, v.full)) gone)

  -- A size within 15 of 2^64 overflows in `align16`: as soon as four bytes are free, `kmalloc`
  -- returns a block that is smaller than the size it was asked for.
  pub kmalloc_wraps :
      (fuel size : ℕ) (s : State) (h : Heap) (l : List Cell)
      → IsHeap arena h l
      → 32768 < fuel
      → 2 ^ 64 - 15 ≤ size
      → size < 2 ^ 64
      → 0 < first_fit 4 arena l
      → (x : ℕ) × (k : ℕ) × (h' : Heap) × (kmalloc L fuel size (s, h)
          ≡ some (Outcome.returns (x + 32 + 4), unlock (lock s), h'))
        × Has x k false arena (alloc_cells 4 l)
        × (k < size)
  kmalloc_wraps fuel size s h l v fu lo hi fit =
      let asks = needed_wraps size lo hi in
      let new = first_fit_in_use 4 arena l fit in
      let end = Has-extent _ _ new.0 false arena new.2 in
      (
        first_fit 4 arena l,
        new.0,
        allocated size (first_fit 4 arena l) h,
        subst
            (λ n.
              kmalloc L fuel size (s, h)
              ≡ some (
                Outcome.returns (first_fit n arena l + 32 + 4),
                unlock (lock s),
                allocated size (first_fit n arena l) h,
              ))
            asks
            (kmalloc_found L arena at fuel size s h l v fu (omega arith)
              (subst (λ n. 0 < first_fit n arena l) (sym asks) fit)),
        new.2,
        omega (arith, extent-alloc_cells 4 l, v.full, Has-le _ _ new.0 false arena new.2),
      )

-- With nothing in use, no two free neighbours leave one block.
all_free_one :
    (a : ℕ) (l : List Cell)
    → ((y k : ℕ) → ¬ Has y k false a l)
    → IsCoalesced l
    → extent l ≡ heap_size
    → free_total l ≡ heap_size - 32
all_free_one a [] none_used co full = absurd (omega arith)
all_free_one a (c ∷ []) none_used co full = elim (Bool-cases c.free) [
  | inl free ↦ rw free (omega arith)
  | inr busy ↦ absurd (none_used a c.size (inl (refl, refl, busy)))
]
all_free_one a (c ∷ d ∷ l) none_used co full = elim (Bool-cases c.free) [
  | inl free ↦ elim (Bool-cases d.free) [
    | inl free' ↦ ground arith
    | inr busy ↦ absurd (none_used (after a c.size) d.size (inr (inl (refl, refl, busy))))
  ]
  | inr busy ↦ absurd (none_used a c.size (inl (refl, refl, busy)))
]

pub no_leak :
    (arena fuel : ℕ) (h : Heap) (l : List Cell)
    → IsArena arena
    → IsHeap arena h l
    → 32768 < fuel
    → ((y k : ℕ) → ¬ Has y k false arena l)
    → heap_free_bytes fuel h ≡ some (heap_size - 32)
unfolding heap_free_bytes
no_leak arena fuel h l at v fu none_used =
    ap (λ p. free_bytes fuel h.block p 0) (v.start ∙ sym (link_full arena l v.full))
    ∙ free_bytes_lem fuel l h.block 0 arena 0 (omega (arith, length-le l, v.full)) at.0 v.chain
    ∙ ap some (omega (arith, all_free_one arena l none_used v.coalesced v.full))

-- `kmalloc` and `kfree` give the kernel lock back on every path, panics included: the depth to which
-- the caller holds it is as before.
pub lock_is_given_back :
    (L : Lock) (fuel size ptr : ℕ) (s : L.State) (h : Heap)
    → ((o : Outcome) (s' : L.State) (h' : Heap)
        → kmalloc L fuel size (s, h) ≡ some (o, s', h')
        → L.depth s' ≡ L.depth s)
      × (L.depth (kfree L ptr (s, h)).1 ≡ L.depth s)
unfolding kmalloc kfree
lock_is_given_back L fuel size ptr s h =
    let back : L.depth (L.unlock (L.lock s)) ≡ L.depth s =
      omega (arith, L.depth-unlock (L.lock s), L.depth-lock s) in
    (λ o s' h' e. ground (arith, back), ground (arith, back))
