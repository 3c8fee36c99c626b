-- ===== src/Heap/Alloc.antt =====
-- heap.c: `split_block` and the rest of `kmalloc` do to the list in memory what first fit does to
-- the cells.
use neka_kernel.Base.{
  ℕ, ◌+◌, ◌-◌, ◌<◌, ◌≤◌, ◌^◌, ◌≡◌, ◌≢◌, ◌⊎◌, inl, inr, refl, ap, ◌∙◌, arith, true, false, leb, List,
  [], ◌∷◌, Bool-cases, leb→le, leb→lt,
}
use neka_kernel.Heap.{Block, take_block}
use neka_kernel.Heap.Cells.{Cell, after, extent, fits, first_fit, carve, alloc_cells}
use neka_kernel.Heap.Chain.{link, Chain, Chain-frame}

-- What `take_block` writes, header by header.
module _ (m : ℕ → Block) (b n : ℕ) (room : n ≤ (m b).size) (small : (m b).size < 2 ^ 64) where
  module _ (whole : (m b).size - n ≤ 48) where
    take_whole_at : take_block m b n b ≡ record (m b) { free = false }
    unfolding take_block
    take_whole_at = ground arith

    take_whole_ne : (x : ℕ) → x ≢ b → take_block m b n x ≡ m x
    unfolding take_block
    take_whole_ne x ne = ground arith

  module _ (split : 48 < (m b).size - n)
      (after_b : ((m b).next ≡ 0) ⊎ (b + 32 + n < (m b).next)) where
    take_split_at :
        take_block m b n b ≡ record { size = n; free = false; next = b + 32 + n; prev = (m b).prev }
    unfolding take_block
    take_split_at = ground arith

    take_split_fresh :
        take_block m b n (b + 32 + n)
        ≡ record { size = (m b).size - n - 32; free = true; next = (m b).next; prev = b }
    unfolding take_block
    take_split_fresh = ground arith

    take_split_next :
        0 < (m b).next → take_block m b n (m b).next ≡ record (m (m b).next) { prev = b + 32 + n }
    unfolding take_block
    take_split_next pos = ground arith

    take_split_ne : (x : ℕ) → x ≢ b → x ≢ b + 32 + n → x ≢ (m b).next → take_block m b n x ≡ m x
    unfolding take_block
    take_split_ne x ne ne_fresh ne_next = ground arith

module _ (c : Cell) (m : ℕ → Block) (p a n : ℕ) (room : n ≤ c.size) (small : c.size < 2 ^ 64) where
  -- The same on a list in memory, where no header below the block changes.
  abbrev Carved : List Cell → Type 0
  Carved l =
      Chain (take_block m a n) p a (carve n c l)
      × ((x : ℕ) → 0 < x → x < a → take_block m a n x ≡ m x)

  carve_whole : (l : List Cell) → Chain m p a (c ∷ l) → leb (c.size - n) 48 ≡ true → Carved l
  carve_whole l h whole =
      let size : (m a).size ≡ c.size = ap (λ (b : Block). b.size) h.0 in
      let le : c.size - n ≤ 48 = leb→le _ _ whole in
      let same = take_whole_ne m a n (rw size room) (rw size small) (rw size le) in
      rw whole (
        (
          take_whole_at m a n (rw size room) (rw size small) (rw size le)
              ∙ ap (λ (b : Block). record b { free = false }) h.0,
          Chain-frame l m (take_block m a n) a (after a c.size) (λ x lt. same x (omega arith)) h.1,
        ),
        λ x pos lt. same x (omega arith),
      )

  carve_last : Chain m p a (c ∷ []) → leb (c.size - n) 48 ≡ false → Carved []
  carve_last h split =
      let size : (m a).size ≡ c.size = ap (λ (b : Block). b.size) h.0 in
      let next : (m a).next ≡ 0 = ap (λ (b : Block). b.next) h.0 in
      let lt : 48 < (m a).size - n = rw size (leb→lt _ _ split) in
      rw split (
        (
          ground (arith, h.0, take_split_at m a n (rw size room) (rw size small) lt (inl next)),
          (
            ground
                (arith, h.0, take_split_fresh m a n (rw size room) (rw size small) lt (inl next)),
            tt,
          ),
        ),
        λ x pos below.
            take_split_ne m a n (rw size room) (rw size small) lt (inl next) x (omega arith)
              (omega arith) (omega arith),
      )

  carve_inner :
      (d : Cell) (l : List Cell)
      → Chain m p a (c ∷ d ∷ l)
      → leb (c.size - n) 48 ≡ false
      → Carved (d ∷ l)
  carve_inner d l h split =
      let size : (m a).size ≡ c.size = ap (λ (b : Block). b.size) h.0 in
      let next : (m a).next ≡ after a c.size = ap (λ (b : Block). b.next) h.0 in
      let lt : 48 < (m a).size - n = rw size (leb→lt _ _ split) in
      let same = take_split_ne m a n (rw size room) (rw size small) lt (inr (omega arith)) in
      let end : after (after a n) (c.size - n - 32) ≡ after a c.size = omega arith in
      rw (split, end)
        (
          (
            ground (
              arith,
              h.0,
              take_split_at m a n (rw size room) (rw size small) lt (inr (omega arith)),
            ),
            (
              ground (
                arith,
                h.0,
                take_split_fresh m a n (rw size room) (rw size small) lt (inr (omega arith)),
              ),
              (
                ground (
                  arith,
                  h.1.0,
                  take_split_next m a n (rw size room) (rw size small) lt (inr (omega arith))
                      (omega arith),
                ),
                Chain-frame l m (take_block m a n) (after a c.size) (after (after a c.size) d.size)
                    (λ x le. same x (omega arith) (omega arith) (omega arith)) h.1.1,
              ),
            ),
          ),
          λ x pos below. same x (omega arith) (omega arith) (omega arith),
        )

  carve_split : (l : List Cell) → Chain m p a (c ∷ l) → leb (c.size - n) 48 ≡ false → Carved l
  carve_split [] = carve_last
  carve_split (d ∷ l) = carve_inner d l

  carve_lem : (l : List Cell) → Chain m p a (c ∷ l) → Carved l
  carve_lem l h = elim (Bool-cases (leb (c.size - n) 48)) [
    | inl whole ↦ carve_whole l h whole
    | inr split ↦ carve_split l h split
  ]

link-alloc_cells : (n b : ℕ) (l : List Cell) → link b (alloc_cells n l) ≡ link b l
unfolding alloc_cells
link-alloc_cells n b [] = refl
link-alloc_cells n b (c ∷ l) = ground arith

-- Taking the first block that fits does to the list in memory what first fit does to the cells, and
-- changes no header below it.
pub take_first_fit :
    (l : List Cell) (m : ℕ → Block) (p a n : ℕ)
    → 0 < a
    → extent l < 2 ^ 64
    → Chain m p a l
    → 0 < first_fit n a l
    → Chain (take_block m (first_fit n a l) n) p a (alloc_cells n l)
      × ((x : ℕ) → 0 < x → x < a → take_block m (first_fit n a l) n x ≡ m x)
unfolding first_fit alloc_cells
take_first_fit [] m p a n pos small h found = absurd (omega arith)
take_first_fit (c ∷ l) m p a n pos small h found = elim (Bool-cases (fits n c)) [
  | inl yes_fits ↦ rw yes_fits (carve_lem c m p a n (ground arith) (omega arith) l h)
  | inr over ↦
      let rest =
        take_first_fit l m a (after a c.size) n (omega arith) (omega arith) h.1
          (rw over at found) in
      rw over (
        (rw (link-alloc_cells n (after a c.size) l) (rest.1 a pos (omega arith) ∙ h.0), rest.0),
        λ x posx lt. rest.1 x posx (omega arith),
      )
]
