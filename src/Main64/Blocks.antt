-- ===== src/Main64/Blocks.antt =====
-- main64.c: the five blocks of `heap_self_test`, which do not overlap.
use neka_kernel.Base.{
  ℕ, ◌+◌, ◌<◌, ◌≤◌, ◌≡◌, ◌≢◌, ◌⊎◌, inl, inr, ◌∙◌, arith, true, false, ◌||◌, List, [], ◌∷◌,
}
use neka_kernel.Heap.{heap_size}
use neka_kernel.Heap.Cells.{Cell, after, Has}
use neka_kernel.Main64.{fill, differs}
use neka_kernel.Main64.Patterns.{fill_inside, fill_outside, intact}

abbrev pub used : ℕ → Cell
used n = record { size = n; free = false }

abbrev pub spare : ℕ → Cell
spare n = record { size = n; free = true }

-- The heap with the five blocks in use.
abbrev pub cells5 : List Cell
cells5 = used 116 ∷ used 4004 ∷ used 68 ∷ used 20004 ∷ used 20 ∷ spare 1024172 ∷ []

module _ (arena : ℕ) where
  -- Where they start.
  abbrev pub x2 : ℕ
  x2 = after arena 116

  abbrev pub x3 : ℕ
  x3 = after x2 4004

  abbrev pub x4 : ℕ
  x4 = after x3 68

  abbrev pub x5 : ℕ
  x5 = after x4 20004

  pub only_five :
      (y k : ℕ) → Has y k false arena cells5 → y ≢ x3 → y ≢ arena → y ≢ x4 → y ≢ x2 → y ≢ x5 → ⊥
  only_five y k (inl h) d3 d1 d4 d2 d5 = d1 h.0
  only_five y k (inr (inl h)) d3 d1 d4 d2 d5 = d2 h.0
  only_five y k (inr (inr (inl h))) d3 d1 d4 d2 d5 = d3 h.0
  only_five y k (inr (inr (inr (inl h)))) d3 d1 d4 d2 d5 = d4 h.0
  only_five y k (inr (inr (inr (inr (inl h))))) d3 d1 d4 d2 d5 = d5 h.0
  only_five y k (inr (inr (inr (inr (inr (inl h)))))) d3 d1 d4 d2 d5 = cc (h.2)
  only_five y k (inr (inr (inr (inr (inr (inr h)))))) d3 d1 d4 d2 d5 = h

  -- The three patterns, in blocks that do not overlap.
  pub patterns :
      (p1 p3 p5 : ℕ) (bytes : ℕ → ℕ)
      → p1 ≡ arena + 32 + 4
      → p3 ≡ x3 + 32 + 4
      → p5 ≡ x5 + 32 + 4
      → let b = fill p5 16 0xcc (fill p3 50 0xbb (fill p1 100 0xaa bytes)) in
        ((differs p1 100 0xaa b || differs p3 50 0xbb b || differs p5 16 0xcc b) ≡ false)
        × ((x : ℕ) → (x < arena) ⊎ (arena + heap_size ≤ x) → b x ≡ bytes x)
  patterns p1 p3 p5 bytes e1 e3 e5 =
      let b1 = fill p1 100 0xaa bytes in
      let b3 = fill p3 50 0xbb b1 in
      let b5 = fill p5 16 0xcc b3 in
      let i1 : differs p1 100 0xaa b5 ≡ false = intact p1 100 0xaa b5 (λ j h.
        fill_outside p5 16 0xcc b3 (p1 + j) (inl (omega arith))
        ∙ fill_outside p3 50 0xbb b1 (p1 + j) (inl (omega arith))
        ∙ fill_inside p1 100 0xaa bytes j h) in
      let i3 : differs p3 50 0xbb b5 ≡ false = intact p3 50 0xbb b5 (λ j h.
        fill_outside p5 16 0xcc b3 (p3 + j) (inl (omega arith)) ∙ fill_inside p3 50 0xbb b1 j h) in
      let i5 : differs p5 16 0xcc b5 ≡ false =
        intact p5 16 0xcc b5 (λ j h. fill_inside p5 16 0xcc b3 j h) in
      (
        rw (i1, i3, i5),
        λ x out. elim out [
          | inl lo ↦
              fill_outside p5 16 0xcc b3 x (inl (omega arith))
              ∙ fill_outside p3 50 0xbb b1 x (inl (omega arith))
              ∙ fill_outside p1 100 0xaa bytes x (inl (omega arith))
          | inr hi ↦
              fill_outside p5 16 0xcc b3 x (inr (omega arith))
              ∙ fill_outside p3 50 0xbb b1 x (inr (omega arith))
              ∙ fill_outside p1 100 0xaa bytes x (inr (omega arith))
        ],
      )
