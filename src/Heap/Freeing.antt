-- ===== src/Heap/Freeing.antt =====
-- heap.c: what freeing keeps of the layout.
use neka_kernel.Base.{
  ℕ, ◌<◌, ◌≤◌, ◌≡◌, ◌≢◌, ◌⊎◌, inl, inr, refl, ◌∙◌, sym, arith, true, false, List, [], ◌∷◌,
  Bool-cases,
}
use mathlib.Core.Path.{subst}
use neka_kernel.Heap.Free.{Has-le, free_cells_at, free_cells_next, free_cells_later}
use neka_kernel.Heap.Join.{join_of_free, join_of_busy}
use neka_kernel.Heap.Cells.{
  Cell, after, Has, extent, merge, join, free_cells, head_free, IsCoalesced,
}

-- Joining.
extent-merge : (c : Cell) (l : List Cell) → extent (merge c l) ≡ extent (c ∷ l)
extent-merge c [] = refl
extent-merge c (d ∷ l) = ground arith

extent-join : (c : Cell) (l : List Cell) → extent (join c l) ≡ extent (c ∷ l)
extent-join c l = ground (arith, extent-merge c l)

pub extent-free_cells : (x a : ℕ) (l : List Cell) → extent (free_cells x a l) ≡ extent l
unfolding free_cells
extent-free_cells x a [] = refl
extent-free_cells x a (c ∷ l) = ground (
  arith,
  extent-merge (record c { free = true }) l,
  extent-join c (free_cells x (after a c.size) l),
  extent-free_cells x (after a c.size) l,
)

merge-IsCoalesced : (c : Cell) (l : List Cell) → IsCoalesced l → IsCoalesced (merge c l)
merge-IsCoalesced c [] h = ground arith
merge-IsCoalesced c (d ∷ l) h = ground arith

join-IsCoalesced : (c : Cell) (l : List Cell) → IsCoalesced l → IsCoalesced (join c l)
join-IsCoalesced c l h = ground (arith, merge-IsCoalesced c l h)

-- A block in use behind the first is the next one or lies further on.
next_or_later : (x a n : ℕ) → after a n ≤ x → (x ≡ after a n) ⊎ (after a n < x)
next_or_later x a n h = ground arith

-- A block that `x` does not name keeps its state.
head_free-free_cells :
    (x a n : ℕ) (l : List Cell)
    → Has x n false a l
    → head_free l ≡ false
    → a < x
    → head_free (free_cells x a l) ≡ false
unfolding free_cells
head_free-free_cells x a n [] has h lt = refl
head_free-free_cells x a n (c ∷ l) has h lt = ground arith

pub free_cells-IsCoalesced :
    (x a n : ℕ) (l : List Cell) → Has x n false a l → IsCoalesced l → IsCoalesced (free_cells x a l)
free_cells-IsCoalesced x a n [] has h = absurd has
free_cells-IsCoalesced x a n (c ∷ l) (inl has) h =
    subst IsCoalesced (sym (free_cells_at x a c l has.0))
      (merge-IsCoalesced (record c { free = true }) l h.1)
free_cells-IsCoalesced x a n (c ∷ l) (inr has) h =
    let rest = free_cells x (after a c.size) l in
    let ih = free_cells-IsCoalesced x (after a c.size) n l has h.1 in
    elim (next_or_later x a c.size (Has-le l x n false (after a c.size) has)) [
      | inl next ↦
          subst IsCoalesced (sym (free_cells_next x a c l next)) (join-IsCoalesced c rest ih)
      | inr later ↦
          let busy = head_free-free_cells x (after a c.size) n l has in
          subst IsCoalesced (sym (free_cells_later x a c l later)) (ground arith, ih)
    ]

-- The other blocks in use stay where they are, and no new ones appear.
Has-merge :
    (y k a : ℕ) (c : Cell) (l : List Cell)
    → Has y k false (after a c.size) l
    → Has y k false a (merge c l)
Has-merge y k a c [] h = absurd h
Has-merge y k a c (d ∷ l) h = ground arith

Has-merge_inv :
    (y k a : ℕ) (c : Cell) (l : List Cell)
    → c.free ≡ true
    → Has y k false a (merge c l)
    → Has y k false (after a c.size) l
Has-merge_inv y k a c [] t h = ground arith
Has-merge_inv y k a c (d ∷ l) t h = ground arith

Has-join_inv :
    (y k a : ℕ) (c : Cell) (l : List Cell) → Has y k false a (join c l) → Has y k false a (c ∷ l)
Has-join_inv y k a c l h = elim (Bool-cases c.free) [
  | inl joins ↦
      inr (Has-merge_inv y k a c l joins (subst (Has y k false a) (join_of_free c l joins) h))
  | inr busy ↦ subst (Has y k false a) (join_of_busy c l busy) h
]

pub Has-free_cells :
    (x a n y k : ℕ) (l : List Cell)
    → Has x n false a l
    → Has y k false a l
    → y ≢ x
    → Has y k false a (free_cells x a l)
unfolding free_cells
Has-free_cells x a n y k [] hx hy ne = absurd hx
Has-free_cells x a n y k (c ∷ l) (inl hx) (inl hy) ne = absurd (ne (hy.0 ∙ sym hx.0))
Has-free_cells x a n y k (c ∷ l) (inl hx) (inr hy) ne =
    ground (arith, Has-merge y k a (record c { free = true }) l hy)
Has-free_cells x a n y k (c ∷ l) (inr hx) (inl hy) ne =
    ground (arith, Has-le l x n false (after a c.size) hx)
Has-free_cells x a n y k (c ∷ l) (inr hx) (inr hy) ne =
    let ih = Has-free_cells x (after a c.size) n y k l hx hy ne in
    ground (
      arith,
      ih,
      Has-le l x n false (after a c.size) hx,
      Has-merge y k a c (free_cells x (after a c.size) l) ih,
    )

-- What is in use afterwards was in use before, and is not the freed block.
pub Has-free_cells_inv :
    (x a n y k : ℕ) (l : List Cell)
    → Has x n false a l
    → Has y k false a (free_cells x a l)
    → Has y k false a l × (y ≢ x)
Has-free_cells_inv x a n y k [] hx hy = absurd hx
Has-free_cells_inv x a n y k (c ∷ l) (inl hx) hy =
    let later =
      Has-merge_inv y k a (record c { free = true }) l refl
        (subst (Has y k false a) (free_cells_at x a c l hx.0) hy) in
    (inr later, omega (arith, Has-le l y k false (after a c.size) later))
Has-free_cells_inv x a n y k (c ∷ l) (inr hx) hy =
    let le = Has-le l x n false (after a c.size) hx in
    let ih = Has-free_cells_inv x (after a c.size) n y k l hx in
    elim (next_or_later x a c.size le) [
      | inl next ↦
          keep ih le
            (Has-join_inv y k a c _ (subst (Has y k false a) (free_cells_next x a c l next) hy))
      | inr later ↦ keep ih le (subst (Has y k false a) (free_cells_later x a c l later) hy)
    ]
  where
    keep :
        (Has y k false (after a c.size) (free_cells x (after a c.size) l)
          → Has y k false (after a c.size) l × (y ≢ x))
        → after a c.size ≤ x
        → Has y k false a (c ∷ free_cells x (after a c.size) l)
        → Has y k false a (c ∷ l) × (y ≢ x)
    keep rec le (inl here) = (inl here, omega arith)
    keep rec le (inr there) = let r = rec there in (inr r.0, r.1)
