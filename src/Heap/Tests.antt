-- ===== src/Heap/Tests.antt =====
-- heap.c at concrete inputs: an arena at 0x10000, under a lock that is a counter.
use neka_kernel.Base.{
  ℕ, ◌+◌, ◌-◌, ◌≡◌, ◌<◌, ◌^◌, refl, arith, true, false, none, some, List, [], ◌∷◌, inl, ◌⊎◌, ◌≢◌,
}
use neka_kernel.Heap.{
  Heap, Outcome, Lock, heap_size, heap_init, kmalloc, kfree, take_block, release_block,
  coalesce_forward, find_free_block, heap_free_bytes, align16, panic_heap_oom, panic_heap_corrupt,
}
use neka_kernel.Heap.Cells.{Cell, Has, free_cells, first_fit, alloc_cells}
use neka_kernel.Heap.Safety.{
  allocated-IsHeap, IsHeap, IsArena, needed, heap_init-IsHeap, allocated, freed,
}
use neka_kernel.Heap.Contract.{
  Serves, kmalloc_correct, kfree_correct, double_free_panics, kmalloc_wraps,
}

abbrev counter : Lock
counter = record {
  State = ℕ;
  lock = λ n. n + 1;
  unlock = λ n. n - 1;
  depth = λ n. n;
  depth-lock = λ n. refl;
  depth-unlock = λ n. refl;
}

abbrev arena : ℕ
arena = 0x10000

arena-IsArena : IsArena arena
arena-IsArena = omega arith

abbrev empty : Heap
empty = record {
  heap_list = 0;
  block = λ _. record { size = 0; free = false; next = 0; prev = 0 };
  word = λ _. 0;
}

abbrev fresh : Heap
fresh = heap_init arena empty

abbrev all_free : List Cell
all_free = record { size = heap_size - 32; free = true } ∷ []

fresh-IsHeap : IsHeap arena fresh all_free
fresh-IsHeap = heap_init-IsHeap arena empty

-- `heap_self_test`: 100, 4000 and 50 bytes, freed in another order.
abbrev after_malloc : ℕ → ℕ × Heap → ℕ × Heap
after_malloc n (s, h) = elim (kmalloc counter 32769 n (s, h)) [
  | none ↦ (s, h)
  | some (_, s', h') ↦ (s', h')
]

abbrev self_test : ℕ × Heap
self_test =
    let (_, s1, h1) =
      kfree counter (arena + 36 + 148 + 4036)
        (after_malloc 50 (after_malloc 4000 (after_malloc 100 (0, fresh)))) in
    let (_, s2, h2) = kfree counter (arena + 36) (s1, h1) in
    let (_, s3, h3) = kfree counter (arena + 36 + 148) (s2, h2) in (s3, h3)

self_test_passes : (heap_free_bytes 32769 self_test.1 ≡ some (heap_size - 32)) × (self_test.0 ≡ 0)
unfolding heap_init kmalloc kfree take_block release_block coalesce_forward find_free_block align16
    heap_free_bytes
self_test_passes = (refl, refl)

kmalloc_correct_example :
    ((first_fit (needed 100) arena all_free ≡ 0)
      × (kmalloc counter 32769 100 (0, fresh) ≡ some (Outcome.panics panic_heap_oom, 0, fresh)))
    ⊎ ((x : ℕ) × (k : ℕ) × (h' : Heap) × Serves counter arena 32769 100 0 fresh all_free x k h')
kmalloc_correct_example =
    kmalloc_correct counter arena arena-IsArena 32769 100 0 fresh all_free fresh-IsHeap
      (omega arith) (omega arith) (omega arith)

-- After `kmalloc(100)`: 112 bytes and the magic number.
abbrev busy : Heap
busy = allocated 100 arena fresh

abbrev one_busy : List Cell
one_busy = record { size = 116; free = false } ∷ record { size = heap_size - 180; free = true } ∷ []

busy-IsHeap : IsHeap arena busy one_busy
unfolding align16 first_fit alloc_cells
busy-IsHeap =
    allocated-IsHeap counter arena arena-IsArena 32769 100 0 fresh all_free fresh-IsHeap
      (omega arith)

first_in_use : Has arena 116 false arena one_busy
first_in_use = inl (refl, refl, refl)

kfree_correct_example :
    (kfree counter (arena + 32 + 4) (0, busy) ≡ (Outcome.returns 0, 0, freed arena busy))
    × IsHeap arena (freed arena busy) (free_cells arena arena one_busy)
    × ((y k : ℕ)
        → Has y k false arena one_busy
        → y ≢ arena
        → Has y k false arena (free_cells arena arena one_busy))
    × ((y k : ℕ)
        → Has y k false arena (free_cells arena arena one_busy)
        → Has y k false arena one_busy × (y ≢ arena))
kfree_correct_example =
    kfree_correct counter arena arena-IsArena arena 116 0 busy one_busy busy-IsHeap first_in_use

double_free_panics_example :
    let (_, s', h') = kfree counter (arena + 32 + 4) (0, busy) in
    kfree counter (arena + 32 + 4) (s', h') ≡ (Outcome.panics panic_heap_corrupt, s' + 1 - 1, h')
double_free_panics_example =
    double_free_panics counter arena arena-IsArena arena 116 0 busy one_busy busy-IsHeap
      first_in_use

kmalloc_wraps_example :
    (x : ℕ) × (k : ℕ) × (h' : Heap) × (kmalloc counter 32769 (2 ^ 64 - 1) (0, fresh)
      ≡ some (Outcome.returns (x + 32 + 4), 0, h'))
    × Has x k false arena (alloc_cells 4 all_free)
    × (k < 2 ^ 64 - 1)
unfolding first_fit
kmalloc_wraps_example =
    kmalloc_wraps counter arena arena-IsArena 32769 (2 ^ 64 - 1) 0 fresh all_free fresh-IsHeap
      (omega arith) (omega arith) (omega arith) (omega arith)

-- Under the kernel's own lock, on CPU 3.
