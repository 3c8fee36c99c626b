-- ===== src/Main64/Steps.antt =====
-- main64.c: the calls of heap.c in `heap_self_test`, a step at a time.
use neka_kernel.Base.{ℕ, ◌+◌, ◌-◌, ◌<◌, ◌≡◌, ◌≢◌, refl, ap, arith, false, List}
use mathlib.Core.Path.{subst}
use neka_kernel.Heap.{Lock, heap_size}
use neka_kernel.Heap.Cells.{Cell, Has, free_cells, first_fit, alloc_cells}
use neka_kernel.Heap.Safety.{IsHeap, IsArena, needed, allocated, kmalloc_found, allocated-IsHeap}
use neka_kernel.Heap.Contract.{kfree_correct, no_leak}
use neka_kernel.Main64.{World, malloc, free, bytes_left}
use neka_kernel.Main64.Runs.{Cmd, ok, and_then, Returns, Returns-bind}

module _ (L : Lock) (arena : ℕ) (at : IsArena arena) (fuel : ℕ) (fuelled : 32768 < fuel) where
  -- The state after a step on `w`: the cells, and the depth of the lock.
  pub record IsAfter (w : World L) (l : List Cell) (w' : World L) : Type 0 where
    pub heap : IsHeap arena w'.heap l
    pub depth : L.depth w'.locks ≡ L.depth w.locks

  given_back : (t : L.State) → L.depth (L.unlock (L.lock t)) ≡ L.depth t
  given_back t = omega (arith, L.depth-unlock (L.lock t), L.depth-lock t)

  malloc_found :
      (n : ℕ) (l : List Cell) (w : World L)
      → 0 < n
      → 0 < first_fit (needed n) arena l
      → IsHeap arena w.heap l
      → let x = first_fit (needed n) arena l in
        malloc L fuel n w
        ≡ ok (x + 32 + 4) (record {
          locks = L.unlock (L.lock w.locks);
          heap = allocated n x w.heap;
          bytes = w.bytes;
        })
  unfolding malloc
  malloc_found n l w pos found v =
      rw (kmalloc_found L arena at fuel n w.locks w.heap l v fuelled pos found, malloc)

  -- `malloc` of `n` bytes takes the block at `x`.
  malloc_step :
      (n x : ℕ) (l l' : List Cell) (w : World L)
      → 0 < n
      → 0 < x
      → first_fit (needed n) arena l ≡ x
      → alloc_cells (needed n) l ≡ l'
      → IsHeap arena w.heap l
      → Returns
          (λ p w'. (p ≡ x + 32 + 4) × (w'.bytes ≡ w.bytes) × IsAfter w l' w')
          (malloc L fuel n w)
  malloc_step n x l l' w pos pos_x fit cells v =
      let found : 0 < first_fit (needed n) arena l = rw fit pos_x in
      rw (malloc_found n l w pos found v) (
        ap (λ (y : ℕ). y + 32 + 4) fit,
        refl,
        record {
          heap =
              subst (IsHeap arena _) cells
                (allocated-IsHeap L arena at fuel n w.locks w.heap l v found);
          depth = given_back w.locks;
        },
      )

  pub malloc_bind :
      (n x : ℕ) (l l' : List Cell) (w : World L) {B : Type 0} (Q : B → World L → Type 0)
      (k : ℕ → Cmd (World L) B)
      → 0 < n
      → 0 < x
      → first_fit (needed n) arena l ≡ x
      → alloc_cells (needed n) l ≡ l'
      → IsHeap arena w.heap l
      → ((p : ℕ) (w' : World L)
          → (p ≡ x + 32 + 4) × (w'.bytes ≡ w.bytes) × IsAfter w l' w'
          → Returns Q (k p w'))
      → Returns Q (and_then (malloc L fuel n w) k)
  malloc_bind n x l l' w Q k pos pos_x fit cells v next =
      Returns-bind (λ p w'. (p ≡ x + 32 + 4) × (w'.bytes ≡ w.bytes) × IsAfter w l' w') Q
        (malloc L fuel n w) k (malloc_step n x l l' w pos pos_x fit cells v) next

  -- `free` of the block at `x`: exactly the other blocks stay in use.
  pub record IsFreed (w : World L) (x : ℕ) (l l' : List Cell) (w' : World L) : Type 0 where
    pub after : IsAfter w l' w'
    pub bytes : w'.bytes ≡ w.bytes
    pub stays : (y k : ℕ) → Has y k false arena l → y ≢ x → Has y k false arena l'
    pub only : (y k : ℕ) → Has y k false arena l' → Has y k false arena l × (y ≢ x)

  free_step :
      (p x n : ℕ) (l : List Cell) (w : World L)
      → p ≡ x + 32 + 4
      → IsHeap arena w.heap l
      → Has x n false arena l
      → Returns (λ r w'. IsFreed w x l (free_cells x arena l) w') (free L p w)
  unfolding free
  free_step p x n l w e v has =
      let f = kfree_correct L arena at x n w.locks w.heap l v has in
      rw (e, f.0)
        (record {
          after = record { heap = f.1; depth = given_back w.locks };
          bytes = refl;
          stays = f.2;
          only = f.3;
        })

  pub free_bind :
      (p x n : ℕ) (l : List Cell) (w : World L) {B : Type 0} (Q : B → World L → Type 0)
      (k : ℕ → Cmd (World L) B)
      → p ≡ x + 32 + 4
      → IsHeap arena w.heap l
      → Has x n false arena l
      → ((r : ℕ) (w' : World L) → IsFreed w x l (free_cells x arena l) w' → Returns Q (k r w'))
      → Returns Q (and_then (free L p w) k)
  free_bind p x n l w Q k e v has next =
      Returns-bind (λ r. IsFreed w x l (free_cells x arena l)) Q (free L p w) k
        (free_step p x n l w e v has) next

  pub bytes_left_step :
      (l : List Cell) (w : World L)
      → IsHeap arena w.heap l
      → ((y k : ℕ) → ¬ Has y k false arena l)
      → bytes_left L fuel w ≡ ok (heap_size - 32) w
  unfolding bytes_left
  bytes_left_step l w v none_used =
      rw (no_leak arena fuel w.heap l at v fuelled none_used, bytes_left)
