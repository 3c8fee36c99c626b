-- ===== src/Heap/Safety.antt =====
-- heap.c: the invariant of the heap, and what `kmalloc` and `kfree` do on every path.
use neka_kernel.Base.{
  ℕ, ◌+◌, ◌-◌, ◌*◌, ◌<◌, ◌≤◌, ◌^◌, ◌%◌, ◌≡◌, ◌≢◌, inl, inr, refl, ◌∙◌, sym, arith, true, false,
  some, List, [], ◌∷◌, length, update, update_self, update_ne, eq→==, ne→==,
}
use mathlib.Core.Path.{subst}
use neka_kernel.Heap.{
  Heap, Outcome, Lock, heap_size, align16, heap_init, kmalloc, kfree, take_block, release_block,
  block_magic, panic_heap_oom, panic_heap_corrupt, find_free_block,
}
use neka_kernel.Heap.Cells.{Cell, Has, extent, free_cells, IsCoalesced, first_fit, alloc_cells}
use neka_kernel.Heap.Chain.{Chain, find_free_block_lem, link}
use neka_kernel.Heap.Alloc.{take_first_fit}
use neka_kernel.Heap.Free.{release_lem, Has-le, Has-extent}
use neka_kernel.Heap.Layout.{extent-alloc_cells, alloc_cells-IsCoalesced, Has-alloc_cells_inv}
use neka_kernel.Heap.Freeing.{extent-free_cells, free_cells-IsCoalesced, Has-free_cells_inv}

-- The heap at `arena` consists of these cells: the list in memory represents them, they fill the
-- arena, no two free ones are neighbours, and the magic number stands in each that is in use.
pub record IsHeap (arena : ℕ) (h : Heap) (l : List Cell) : Type 0 where
  pub start : h.heap_list ≡ arena
  pub chain : Chain h.block 0 arena l
  pub full : extent l ≡ heap_size
  pub coalesced : IsCoalesced l
  pub magic : (x n : ℕ) → Has x n false arena l → h.word (x + 32) ≡ block_magic

-- The arena is a range of addresses of the machine.
abbrev pub IsArena : ℕ → Type 0
IsArena arena = (0 < arena) × (arena + heap_size < 2 ^ 64)

-- Enough fuel for the loops over the list: the arena has no room for 32769 headers.
pub length-le : (l : List Cell) → 32 * length l ≤ extent l
length-le [] = omega arith
length-le (c ∷ l) = omega (arith, length-le l)

-- `heap_init` makes one free block of the whole arena.
pub heap_init-IsHeap :
    (arena : ℕ) (h : Heap)
    → IsHeap arena (heap_init arena h) (record { size = heap_size - 32; free = true } ∷ [])
unfolding heap_init
heap_init-IsHeap arena h = record {
  start = refl;
  chain = (update_self h.block arena _, tt);
  full = refl;
  coalesced = (refl, tt);
  magic = none_in_use;
}
  where
    none_in_use :
        (x n : ℕ)
        → Has x n false arena (record { size = heap_size - 32; free = true } ∷ [])
        → h.word (x + 32) ≡ block_magic
    none_in_use x n (inl has) = cc (has.2)
    none_in_use x n (inr has) = absurd has

pub link_full : (a : ℕ) (l : List Cell) → extent l ≡ heap_size → link a l ≡ a
link_full a [] h = absurd (omega arith)
link_full a (c ∷ l) h = refl

-- What `kmalloc` asks the list for.
abbrev pub needed : ℕ → ℕ
needed size = (align16 size + 4) % 2 ^ 64

-- The heap that `kmalloc` leaves when it finds the block at `x`, and `kfree` when it frees it.
abbrev pub allocated : ℕ → ℕ → Heap → Heap
allocated size x h = record h {
  block = take_block h.block x (needed size);
  word = update h.word (x + 32) block_magic;
}

abbrev pub freed : ℕ → Heap → Heap
freed x h = record h { block = release_block h.block x; word = update h.word (x + 32) 0 }

module _ (L : Lock) (arena : ℕ) (at : IsArena arena) where
  open L use {State, lock, unlock}

  module _ (fuel : ℕ) (size : ℕ) (s : State) (h : Heap) (l : List Cell) where
    find_lem :
        IsHeap arena h l
        → 32768 < fuel
        → find_free_block fuel h.block h.heap_list (needed size)
          ≡ some (first_fit (needed size) arena l)
    find_lem v fu =
        subst
          (λ p.
            find_free_block fuel h.block p (needed size) ≡ some (first_fit (needed size) arena l))
          (link_full arena l v.full ∙ sym v.start)
          (find_free_block_lem fuel l h.block 0 arena (needed size)
            (omega (arith, length-le l, v.full)) at.0 v.chain)

    -- Out of memory: `kmalloc` panics, with the lock given back and the heap unchanged.
    pub kmalloc_oom :
        IsHeap arena h l
        → 32768 < fuel
        → 0 < size
        → first_fit (needed size) arena l ≡ 0
        → kmalloc L fuel size (s, h) ≡ some (Outcome.panics panic_heap_oom, unlock (lock s), h)
    unfolding kmalloc
    kmalloc_oom v fu pos oom = rw (find_lem v fu, oom, ne→== size 0 (omega arith))

    pub kmalloc_found :
        IsHeap arena h l
        → 32768 < fuel
        → 0 < size
        → 0 < first_fit (needed size) arena l
        → kmalloc L fuel size (s, h)
          ≡ some (
            Outcome.returns (first_fit (needed size) arena l + 32 + 4),
            unlock (lock s),
            allocated size (first_fit (needed size) arena l) h,
          )
    unfolding kmalloc
    kmalloc_found v fu pos found = rw (
      find_lem v fu,
      ne→== size 0 (omega arith),
      ne→== (first_fit (needed size) arena l) 0 (omega arith),
    )

    pub allocated-IsHeap :
        IsHeap arena h l
        → 0 < first_fit (needed size) arena l
        → IsHeap arena
            (allocated size (first_fit (needed size) arena l) h)
            (alloc_cells (needed size) l)
    allocated-IsHeap v found = record {
      start = v.start;
      chain =
          (take_first_fit l h.block 0 arena (needed size) (at.0) (omega (arith, v.full)) v.chain
            found).0;
      full = extent-alloc_cells (needed size) l ∙ v.full;
      coalesced = alloc_cells-IsCoalesced (needed size) l v.coalesced;
      magic = λ x n has. elim (Has-alloc_cells_inv (needed size) arena x n l has) [
        | inl old ↦ ground (arith, v.magic x n old)
        | inr new ↦ ground arith
      ];
    }

  -- A block in use that `kfree` is given, with the address `x` of its header.
  module _ (x n : ℕ) (s : State) (h : Heap) (l : List Cell) where
    pub kfree_in_use :
        IsHeap arena h l
        → Has x n false arena l
        → kfree L (x + 32 + 4) (s, h) ≡ (Outcome.returns 0, unlock (lock s), freed x h)
    unfolding kfree
    kfree_in_use v has =
        let lo = Has-le l x n false arena has in
        let hi = Has-extent l x n false arena has in
        let slot : (x + 32 + 4 + 2 ^ 64 - 4) % 2 ^ 64 ≡ x + 32 = omega (arith, v.full) in
        let head : (x + 32 + 2 ^ 64 - 32) % 2 ^ 64 ≡ x = omega (arith, v.full) in
        rw (
          ne→== (x + 32 + 4) 0 (omega arith),
          slot,
          eq→== (h.word (x + 32)) block_magic (v.magic x n has),
          head,
        )

    -- A pointer with no magic number before it.
    pub kfree_no_magic :
        x + 32 < 2 ^ 64
        → h.word (x + 32) ≢ block_magic
        → kfree L (x + 32 + 4) (s, h) ≡ (Outcome.panics panic_heap_corrupt, unlock (lock s), h)
    unfolding kfree
    kfree_no_magic small wrong =
        let slot : (x + 32 + 4 + 2 ^ 64 - 4) % 2 ^ 64 ≡ x + 32 = omega arith in
        rw (ne→== (x + 32 + 4) 0 (omega arith), slot, ne→== (h.word (x + 32)) block_magic wrong)

    pub freed-IsHeap :
        IsHeap arena h l → Has x n false arena l → IsHeap arena (freed x h) (free_cells x arena l)
    freed-IsHeap v has = record {
      start = v.start;
      chain = release_lem l h.block arena x n false at.0 v.chain has;
      full = extent-free_cells x arena l ∙ v.full;
      coalesced = free_cells-IsCoalesced x arena n l has v.coalesced;
      magic = λ y k live.
          let old = Has-free_cells_inv x arena n y k l has live in
          update_ne h.word (x + 32) (y + 32) 0 (λ e. old.1 (omega arith)) ∙ v.magic y k old.0;
    }
