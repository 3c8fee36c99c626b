-- ===== src/Heap/Cells.antt =====
-- heap.c, abstractly: the heap as the list of its blocks' sizes and states, laid end to end.
use neka_kernel.Base.{
  ℕ, ◌+◌, ◌-◌, ◌≡◌, ◌⊎◌, Bool, true, false, ◌&&◌, leb, List, [], ◌∷◌, ◌==◌, if◌then◌else◌,
}

pub record Cell : Type 0 where
  pub size : ℕ
  pub free : Bool

-- Where the block after one of `n` bytes at `a` starts.
abbrev pub after : ℕ → ℕ → ℕ
after a n = a + 32 + n

-- The cell of `n` bytes at address `x`, in a list that starts at `a`.
abbrev pub Has : ℕ → ℕ → Bool → ℕ → List Cell → Type 0
Has x n f a [] = ⊥
Has x n f a (c ∷ l) = ((x ≡ a) × (c.size ≡ n) × (c.free ≡ f)) ⊎ Has x n f (after a c.size) l

-- The bytes that the list takes, headers included.
abbrev pub extent : List Cell → ℕ
extent [] = 0
extent (c ∷ l) = 32 + c.size + extent l

abbrev pub free_total : List Cell → ℕ
free_total [] = 0
free_total (c ∷ l) = (if c.free then c.size else 0) + free_total l

abbrev pub head_free : List Cell → Bool
head_free [] = false
head_free (c ∷ l) = c.free

-- No two free neighbours.
abbrev pub IsCoalesced : List Cell → Type 0
IsCoalesced [] = Unit {0}
IsCoalesced (c ∷ l) = ((c.free && head_free l) ≡ false) × IsCoalesced l

abbrev pub fits : ℕ → Cell → Bool
fits n c = c.free && leb n c.size

-- The address of the first free cell of at least `n` bytes, 0 if there is none.
unfoldable pub first_fit : ℕ → ℕ → List Cell → ℕ
first_fit n a [] = 0
first_fit n a (c ∷ l) = if fits n c then a else first_fit n (after a c.size) l

-- Take `n` bytes of a cell, and leave the rest as a free cell if more than 48 bytes remain.
abbrev pub carve : ℕ → Cell → List Cell → List Cell
carve n c l =
    if leb (c.size - n) 48
    then record c { free = false } ∷ l
    else record { size = n; free = false } ∷ record { size = c.size - n - 32; free = true } ∷ l

unfoldable pub alloc_cells : ℕ → List Cell → List Cell
alloc_cells n [] = []
alloc_cells n (c ∷ l) = if fits n c then carve n c l else c ∷ alloc_cells n l

-- Join the first cell with the second if that is free.
abbrev pub merge : Cell → List Cell → List Cell
merge c [] = c ∷ []
merge c (d ∷ l) = if d.free then record c { size = c.size + (32 + d.size) } ∷ l else c ∷ d ∷ l

abbrev pub join : Cell → List Cell → List Cell
join c l = if c.free then merge c l else c ∷ l

-- Free the cell at `x`, and join it with its free neighbours.
unfoldable pub free_cells : ℕ → ℕ → List Cell → List Cell
free_cells x a [] = []
free_cells x a (c ∷ l) =
    let rest = free_cells x (after a c.size) l in
    if a == x
    then merge (record c { free = true }) l
    else if after a c.size == x
    then join c rest
    else c ∷ rest
