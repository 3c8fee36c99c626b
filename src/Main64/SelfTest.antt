-- ===== src/Main64/SelfTest.antt =====
-- main64.c: `heap_self_test` on the heap that `heap_init` leaves.
use neka_kernel.Base.{
  ℕ, ◌+◌, ◌-◌, ◌<◌, ◌≤◌, ◌≡◌, ◌⊎◌, inl, inr, refl, ap, ◌∙◌, arith, Bool, true, false, ◌||◌, List,
  [], ◌∷◌, ◌==◌,
}
use neka_kernel.Heap.{Heap, Lock, heap_size, align16, heap_init}
use neka_kernel.Heap.Cells.{Cell, Has, free_cells, first_fit, alloc_cells}
use neka_kernel.Heap.Safety.{IsHeap, IsArena, heap_init-IsHeap}
use neka_kernel.Main64.{World, malloc, free, bytes_left, fill, differs, heap_self_test}
use neka_kernel.Main64.Runs.{Cmd, ok, ◌>>=◌, Returns, Returns-map}
use neka_kernel.Main64.Steps.{malloc_bind, free_bind, bytes_left_step}
use neka_kernel.Main64.Blocks.{used, spare, cells5, x2, x3, x4, x5, only_five, patterns}
use neka_kernel.Main64.Stores.{IsClear, store_lem}

module _ (L : Lock) (arena : ℕ) (at : IsArena arena) (fuel : ℕ) (fuelled : 32768 < fuel) where
  abbrev c6 : List Cell
  c6 = free_cells (x3 arena) arena cells5

  abbrev c7 : List Cell
  c7 = free_cells arena arena c6

  abbrev c8 : List Cell
  c8 = free_cells (x4 arena) arena c7

  abbrev c9 : List Cell
  c9 = free_cells (x2 arena) arena c8

  abbrev c10 : List Cell
  c10 = free_cells (x5 arena) arena c9

  -- What the test leaves: no damage found, every byte free again, and the lock as it was.
  pub record Passes (w : World L) (r : Bool × Bool) (w' : World L) : Type 0 where
    pub verdict : r ≡ (false, true)
    pub cells : List Cell
    pub heap : IsHeap arena w'.heap cells
    pub none_used : (y k : ℕ) → ¬ Has y k false arena cells
    pub depth : L.depth w'.locks ≡ L.depth w.locks
    pub inside : (x : ℕ) → (x < arena) ⊎ (arena + heap_size ≤ x) → w'.bytes x ≡ w.bytes x

  -- The three patterns stay inside their blocks.
  clear1 : (p : ℕ) → p ≡ arena + 32 + 4 → IsClear p 100 arena cells5
  clear1 p e = (
    inl (omega arith),
    (
      inr (omega arith),
      (inr (omega arith), (inr (omega arith), (inr (omega arith), (inr (omega arith), tt)))),
    ),
  )

  clear3 : (p : ℕ) → p ≡ (x3 arena) + 32 + 4 → IsClear p 50 arena cells5
  clear3 p e = (
    inl (omega arith),
    (
      inl (omega arith),
      (inl (omega arith), (inr (omega arith), (inr (omega arith), (inr (omega arith), tt)))),
    ),
  )

  clear5 : (p : ℕ) → p ≡ (x5 arena) + 32 + 4 → IsClear p 16 arena cells5
  clear5 p e = (
    inl (omega arith),
    (
      inl (omega arith),
      (inl (omega arith), (inl (omega arith), (inl (omega arith), (inr (omega arith), tt)))),
    ),
  )

  -- The part from the first `kfree` on.
  frees :
      (corrupted : Bool) (p1 p2 p3 p4 p5 : ℕ) (w : World L)
      → p1 ≡ arena + 32 + 4
      → p2 ≡ (x2 arena) + 32 + 4
      → p3 ≡ (x3 arena) + 32 + 4
      → p4 ≡ (x4 arena) + 32 + 4
      → p5 ≡ (x5 arena) + 32 + 4
      → IsHeap arena w.heap cells5
      → corrupted ≡ false
      → Returns (Passes w) (
          (free L p3 >>= λ _. free L p1 >>= λ _. free L p4 >>= λ _. free L p2 >>= λ _.
          free L p5 >>= λ _.
          bytes_left L fuel >>= λ final_free w1. ok (corrupted, final_free == heap_size - 32) w1)
            w)
  frees corrupted p1 p2 p3 p4 p5 w e1 e2 e3 e4 e5 v fine =
      let Q = Passes w in
      free_bind L arena at fuel fuelled p3 (x3 arena) 68 cells5 w Q _ e3 v
        (inr (inr (inl (refl, refl, refl))))
        (λ _ wa a.
          let a1 = a.stays arena 116 (inl (refl, refl, refl)) (λ q. absurd (omega arith)) in
          let a2 =
            a.stays (x2 arena) 4004 (inr (inl (refl, refl, refl))) (λ q. absurd (omega arith)) in
          let a4 =
            a.stays (x4 arena) 20004 (inr (inr (inr (inl (refl, refl, refl)))))
              (λ q. absurd (omega arith)) in
          let a5 =
            a.stays (x5 arena) 20 (inr (inr (inr (inr (inl (refl, refl, refl))))))
              (λ q. absurd (omega arith)) in
          free_bind L arena at fuel fuelled p1 arena 116 c6 wa Q _ e1 a.after.heap a1 (λ _ wb b.
            let b2 = b.stays (x2 arena) 4004 a2 (λ q. absurd (omega arith)) in
            let b4 = b.stays (x4 arena) 20004 a4 (λ q. absurd (omega arith)) in
            let b5 = b.stays (x5 arena) 20 a5 (λ q. absurd (omega arith)) in
            free_bind L arena at fuel fuelled p4 (x4 arena) 20004 c7 wb Q _ e4 b.after.heap b4
              (λ _ wc c.
                let d2 = c.stays (x2 arena) 4004 b2 (λ q. absurd (omega arith)) in
                let d5 = c.stays (x5 arena) 20 b5 (λ q. absurd (omega arith)) in
                free_bind L arena at fuel fuelled p2 (x2 arena) 4004 c8 wc Q _ e2 c.after.heap d2
                  (λ _ wd d.
                    free_bind L arena at fuel fuelled p5 (x5 arena) 20 c9 wd Q _ e5 d.after.heap
                      (d.stays (x5 arena) 20 d5 (λ q. absurd (omega arith)))
                      (λ _ we e.
                        let none_used : (y k : ℕ) → ¬ Has y k false arena c10 = λ y k has.
                          let h5 = e.only y k has in
                          let h2 = d.only y k h5.0 in
                          let h4 = c.only y k h2.0 in
                          let h1 = b.only y k h4.0 in
                          let h3 = a.only y k h1.0 in
                          only_five arena y k h3.0 h3.1 h1.1 h4.1 h2.1 h5.1 in
                        rw (bytes_left_step L arena at fuel fuelled c10 we e.after.heap none_used)
                          (record {
                            verdict = rw fine;
                            cells = c10;
                            heap = e.after.heap;
                            none_used = none_used;
                            depth =
                                e.after.depth ∙ d.after.depth ∙ c.after.depth ∙ b.after.depth
                                ∙ a.after.depth;
                            inside = λ x out.
                                ap (λ (m : ℕ → ℕ). m x)
                                  (e.bytes ∙ d.bytes ∙ c.bytes ∙ b.bytes ∙ a.bytes);
                          }))))))

  -- The five calls of `kmalloc`.
  record IsPlaced (w : World L) (p1 p2 p3 p4 p5 : ℕ) (w' : World L) : Type 0 where
    e1 : p1 ≡ arena + 32 + 4
    e2 : p2 ≡ (x2 arena) + 32 + 4
    e3 : p3 ≡ (x3 arena) + 32 + 4
    e4 : p4 ≡ (x4 arena) + 32 + 4
    e5 : p5 ≡ (x5 arena) + 32 + 4
    heap : IsHeap arena w'.heap cells5
    bytes : w'.bytes ≡ w.bytes
    depth : L.depth w'.locks ≡ L.depth w.locks

  mallocs :
      (w : World L) {B : Type 0} (Q : B → World L → Type 0)
      (k : ℕ → ℕ → ℕ → ℕ → ℕ → Cmd (World L) B)
      → IsHeap arena w.heap (spare 1048544 ∷ [])
      → ((p1 p2 p3 p4 p5 : ℕ) (w' : World L)
          → IsPlaced w p1 p2 p3 p4 p5 w'
          → Returns Q (k p1 p2 p3 p4 p5 w'))
      → Returns Q (
          (malloc L fuel 100 >>= λ p1. malloc L fuel 4000 >>= λ p2. malloc L fuel 50 >>= λ p3.
          malloc L fuel 20000 >>= λ p4. malloc L fuel 16 >>= λ p5. k p1 p2 p3 p4 p5)
            w)
  unfolding first_fit alloc_cells align16
  mallocs w Q k v next =
      malloc_bind L arena at fuel fuelled 100 arena _ (used 116 ∷ spare 1048396 ∷ []) w Q _
        (omega arith) at.0 refl refl v
        (λ p1 wa a.
          malloc_bind L arena at fuel fuelled 4000 (x2 arena) _
            (used 116 ∷ used 4004 ∷ spare 1044360 ∷ []) wa Q _ (omega arith) (omega arith) refl refl
            a.2.heap
            (λ p2 wb b.
              malloc_bind L arena at fuel fuelled 50 (x3 arena) _
                (used 116 ∷ used 4004 ∷ used 68 ∷ spare 1044260 ∷ []) wb Q _ (omega arith)
                (omega arith) refl refl b.2.heap
                (λ p3 wc c.
                  malloc_bind L arena at fuel fuelled 20000 (x4 arena) _
                    (used 116 ∷ used 4004 ∷ used 68 ∷ used 20004 ∷ spare 1024224 ∷ []) wc Q _
                    (omega arith) (omega arith) refl refl c.2.heap
                    (λ p4 wd d.
                      malloc_bind L arena at fuel fuelled 16 (x5 arena) _ cells5 wd Q _
                        (omega arith) (omega arith) refl refl d.2.heap
                        (λ p5 we e. next p1 p2 p3 p4 p5 we (record {
                          e1 = a.0;
                          e2 = b.0;
                          e3 = c.0;
                          e4 = d.0;
                          e5 = e.0;
                          heap = e.2.heap;
                          bytes = e.1 ∙ d.1 ∙ c.1 ∙ b.1 ∙ a.1;
                          depth = e.2.depth ∙ d.2.depth ∙ c.2.depth ∙ b.2.depth ∙ a.2.depth;
                        }))))))

  -- On the heap that `heap_init` leaves, whatever the memory held before, `heap_self_test` ends:
  -- none of its stores touches a word of the heap, none of its patterns is damaged, all bytes are
  -- free again, no block is in use in the well-formed heap, the kernel lock is as deep as before,
  -- and no byte outside of the arena has changed.
  pub heap_self_test_correct :
      (t : L.State) (h : Heap) (bytes : ℕ → ℕ)
      → let w : World L = record { locks = t; heap = heap_init arena h; bytes = bytes } in
        Returns (Passes w) (heap_self_test L fuel w)
  unfolding heap_self_test
  heap_self_test_correct t h bytes =
      let w : World L = record { locks = t; heap = heap_init arena h; bytes = bytes } in
      let v = heap_init-IsHeap arena h in
      let none_used : (y k : ℕ) → ¬ Has y k false arena (spare 1048544 ∷ []) =
        λ y k has. elim has [ inl e ↦ cc (e.2) | inr e ↦ e ] in
      rw (bytes_left_step L arena at fuel fuelled _ w v none_used) (
        mallocs w (Passes w) _ v (λ p1 p2 p3 p4 p5 we e.
          let w1 : World L = record we { bytes = fill p1 100 0xaa we.bytes } in
          let w3 : World L = record w1 { bytes = fill p3 50 0xbb w1.bytes } in
          let s1 =
            store_lem L arena at fuel fuelled p1 100 0xaa cells5 we e.heap (clear1 p1 e.e1) in
          let s3 = store_lem L arena at fuel fuelled p3 50 0xbb cells5 w1 e.heap (clear3 p3 e.e3) in
          let s5 = store_lem L arena at fuel fuelled p5 16 0xcc cells5 w3 e.heap (clear5 p5 e.e5) in
          let b = fill p5 16 0xcc (fill p3 50 0xbb (fill p1 100 0xaa we.bytes)) in
          let wf : World L = record we { bytes = b } in
          let pats = patterns arena p1 p3 p5 we.bytes e.e1 e.e3 e.e5 in
          rw (s1, s3, s5)
            (Returns-map (Passes wf) (Passes w) _
              (frees (differs p1 100 0xaa b || differs p3 50 0xbb b || differs p5 16 0xcc b) p1 p2
                p3 p4 p5 wf e.e1 e.e2 e.e3 e.e4 e.e5 e.heap pats.0)
              (λ r w' q. record {
                verdict = q.verdict;
                cells = q.cells;
                heap = q.heap;
                none_used = q.none_used;
                depth = q.depth ∙ e.depth;
                inside = λ x out. q.inside x out ∙ pats.1 x out ∙ ap (λ (m : ℕ → ℕ). m x) e.bytes;
              }))))
