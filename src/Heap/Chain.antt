-- ===== src/Heap/Chain.antt =====
-- heap.c: the linked list in memory that represents a list of cells.
use neka_kernel.Base.{
  ℕ, zero, suc, ◌+◌, ◌<◌, ◌≤◌, ◌≡◌, refl, ap, ◌∙◌, arith, some, List, [], ◌∷◌, if◌then◌else◌,
  update, update_self, update_ne, length,
}
use neka_kernel.Heap.{Block, find_free_block, free_bytes}
use neka_kernel.Heap.Cells.{Cell, after, first_fit, free_total}

-- The address of a list's first block: NULL for an empty list.
abbrev pub link : ℕ → List Cell → ℕ
link a [] = 0
link a (c ∷ l) = a

-- The headers from `a` on, after a block at `p`, are those of the cells, laid end to end.
abbrev pub Chain : (ℕ → Block) → ℕ → ℕ → List Cell → Type 0
Chain m p a [] = Unit {0}
Chain m p a (c ∷ l) =
    (m a ≡ record { size = c.size; free = c.free; next = link (after a c.size) l; prev = p })
    × Chain m a (after a c.size) l

-- Headers below `a` do not matter.
pub Chain-frame :
    (l : List Cell) (m m' : ℕ → Block) (p a : ℕ)
    → ((x : ℕ) → a ≤ x → m' x ≡ m x)
    → Chain m p a l
    → Chain m' p a l
Chain-frame [] m m' p a same h = tt
Chain-frame (c ∷ l) m m' p a same h = (
  same a (omega arith) ∙ h.0,
  Chain-frame l m m' a (after a c.size) (λ x lt. same x (omega arith)) h.1,
)

-- The back pointer of the first block.
abbrev pub set_prev : (ℕ → Block) → ℕ → ℕ → ℕ → Block
set_prev m a q = update m a (record (m a) { prev = q })

pub Chain-set_prev :
    (l : List Cell) (m : ℕ → Block) (p q a : ℕ) → Chain m p a l → Chain (set_prev m a q) q a l
Chain-set_prev [] m p q a h = tt
Chain-set_prev (c ∷ l) m p q a h = (
  update_self m a _ ∙ ap (λ (b : Block). record b { prev = q }) h.0,
  Chain-frame l m (set_prev m a q) a (after a c.size) (λ x lt. update_ne m a x _ (omega arith)) h.1,
)

-- First fit: with a step of fuel for each block and one more the loop ends, at the first cell that
-- fits, or at NULL.
pub find_free_block_lem :
    (fuel : ℕ) (l : List Cell) (m : ℕ → Block) (p a n : ℕ)
    → length l < fuel
    → 0 < a
    → Chain m p a l
    → find_free_block fuel m (link a l) n ≡ some (first_fit n a l)
unfolding find_free_block first_fit
find_free_block_lem zero l m p a n lt pos h = absurd (omega arith)
find_free_block_lem (suc f) [] m p a n lt pos h = refl
find_free_block_lem (suc f) (c ∷ l) m p a n lt pos h =
    ground
      (arith, h.0, find_free_block_lem f l m a (after a c.size) n (omega arith) (omega arith) h.1)

pub free_bytes_lem :
    (fuel : ℕ) (l : List Cell) (m : ℕ → Block) (p a total : ℕ)
    → length l < fuel
    → 0 < a
    → Chain m p a l
    → free_bytes fuel m (link a l) total ≡ some (total + free_total l)
unfolding free_bytes
free_bytes_lem zero l m p a total lt pos h = absurd (omega arith)
free_bytes_lem (suc f) [] m p a total lt pos h = ground arith
free_bytes_lem (suc f) (c ∷ l) m p a total lt pos h = ground (
  arith,
  h.0,
  free_bytes_lem f l m a (after a c.size) (if c.free then total + c.size else total) (omega arith)
      (omega arith) h.1,
)
