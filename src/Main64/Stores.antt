-- ===== src/Main64/Stores.antt =====
-- main64.c: the stores of `heap_self_test`, which keep clear of the words of the heap.
use neka_kernel.Base.{
  ℕ, zero, suc, ◌+◌, ◌<◌, ◌≤◌, ◌≡◌, ◌⊎◌, inl, inr, refl, ap, ◌∙◌, sym, arith, false, ◌&&◌, some,
  List, [], ◌∷◌, length, ltb,
}
use neka_kernel.Heap.{Block, Lock}
use neka_kernel.Heap.Cells.{Cell, after}
use neka_kernel.Heap.Chain.{Chain, link}
use neka_kernel.Heap.Safety.{IsHeap, IsArena, length-le, link_full}
use neka_kernel.Main64.{World, hits, fill, store_pattern}
use neka_kernel.Main64.Runs.{ok}

-- The `n` bytes from `p` on are apart from the header and the magic number of every cell.
abbrev pub IsClear : ℕ → ℕ → ℕ → List Cell → Type 0
IsClear p n a [] = Unit {0}
IsClear p n a (c ∷ l) = ((a + 32 + 4 ≤ p) ⊎ (p + n ≤ a)) × IsClear p n (after a c.size) l

apart : (p n a : ℕ) → (a + 32 + 4 ≤ p) ⊎ (p + n ≤ a) → (ltb p (a + 32 + 4) && ltb a (p + n)) ≡ false
apart p n a (inl behind) = ground arith
apart p n a (inr before) = ground arith

hits_lem :
    (fuel : ℕ) (l : List Cell) (m : ℕ → Block) (q a p n : ℕ)
    → length l < fuel
    → 0 < a
    → Chain m q a l
    → IsClear p n a l
    → hits fuel m (link a l) p n ≡ some false
unfolding hits
hits_lem zero l m q a p n lt pos h clear = absurd (omega arith)
hits_lem (suc f) [] m q a p n lt pos h clear = ground arith
hits_lem (suc f) (c ∷ l) m q a p n lt pos h clear = ground (
  arith,
  h.0,
  apart p n a clear.0,
  hits_lem f l m a (after a c.size) p n (omega arith) (omega arith) h.1 clear.1,
)

module _ (L : Lock) (arena : ℕ) (at : IsArena arena) (fuel : ℕ) (fuelled : 32768 < fuel) where
  pub store_lem :
      (p n v : ℕ) (l : List Cell) (w : World L)
      → IsHeap arena w.heap l
      → IsClear p n arena l
      → store_pattern L fuel p n v w ≡ ok tt (record w { bytes = fill p n v w.bytes })
  unfolding store_pattern
  store_lem p n v l w h clear =
      let clear_of : hits fuel w.heap.block w.heap.heap_list p n ≡ some false =
        ap (λ b. hits fuel w.heap.block b p n) (h.start ∙ sym (link_full arena l h.full))
        ∙ hits_lem fuel l w.heap.block 0 arena p n (omega (arith, length-le l, h.full)) at.0 h.chain
            clear in
      rw (clear_of, store_pattern) refl
