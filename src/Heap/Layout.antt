-- ===== src/Heap/Layout.antt =====
-- heap.c: what allocating and freeing keep of the layout: every byte of the arena, no two free
-- neighbours, and each block in use at its place.
use neka_kernel.Base.{
  ℕ, ◌-◌, ◌<◌, ◌≤◌, ◌≡◌, ◌⊎◌, inl, inr, refl, ◌∙◌, sym, arith, Bool, true, false, leb, List, [],
  ◌∷◌, Bool-cases,
}
use mathlib.Core.Path.{subst, subst₂}
use neka_kernel.Heap.Cells.{
  Cell, after, Has, extent, head_free, IsCoalesced, fits, first_fit, alloc_cells,
}

-- Allocation.
pub extent-alloc_cells : (n : ℕ) (l : List Cell) → extent (alloc_cells n l) ≡ extent l
unfolding alloc_cells
extent-alloc_cells n [] = refl
extent-alloc_cells n (c ∷ l) = ground (arith, extent-alloc_cells n l)

head_free-alloc_cells :
    (n : ℕ) (l : List Cell) → head_free l ≡ false → head_free (alloc_cells n l) ≡ false
unfolding alloc_cells
head_free-alloc_cells n [] h = refl
head_free-alloc_cells n (c ∷ l) h = ground arith

pub alloc_cells-IsCoalesced :
    (n : ℕ) (l : List Cell) → IsCoalesced l → IsCoalesced (alloc_cells n l)
unfolding alloc_cells
alloc_cells-IsCoalesced n [] h = tt
alloc_cells-IsCoalesced n (c ∷ l) h =
    ground (arith, alloc_cells-IsCoalesced n l h.1, head_free-alloc_cells n l)

-- When nothing fits, nothing changes.
pub alloc_cells_none : (n a : ℕ) (l : List Cell) → 0 < a → first_fit n a l ≡ 0 → alloc_cells n l ≡ l
unfolding alloc_cells first_fit
alloc_cells_none n a [] pos h = refl
alloc_cells_none n a (c ∷ l) pos h =
    ground (arith, alloc_cells_none n (after a c.size) l (omega arith))

-- The two ways that first fit goes at a cell.
module _ (n a : ℕ) (c : Cell) (l : List Cell) where
  first_fit_here : fits n c ≡ true → first_fit n a (c ∷ l) ≡ a
  unfolding first_fit
  first_fit_here h = rw h

  first_fit_later : fits n c ≡ false → first_fit n a (c ∷ l) ≡ first_fit n (after a c.size) l
  unfolding first_fit
  first_fit_later h = rw h

  alloc_whole :
      fits n c ≡ true
      → leb (c.size - n) 48 ≡ true
      → alloc_cells n (c ∷ l) ≡ record c { free = false } ∷ l
  unfolding alloc_cells
  alloc_whole h whole = rw (h, whole)

  alloc_split :
      fits n c ≡ true
      → leb (c.size - n) 48 ≡ false
      → alloc_cells n (c ∷ l)
        ≡ record { size = n; free = false } ∷ record { size = c.size - n - 32; free = true } ∷ l
  unfolding alloc_cells
  alloc_split h split = rw (h, split)

  alloc_later : fits n c ≡ false → alloc_cells n (c ∷ l) ≡ c ∷ alloc_cells n l
  unfolding alloc_cells
  alloc_later h = rw h

-- A cell of a list stays in an equal list.
Has-subst :
    {x x' : ℕ} (k : ℕ) (f : Bool) (a : ℕ) {l l' : List Cell}
    → x ≡ x'
    → l ≡ l'
    → Has x' k f a l'
    → Has x k f a l
Has-subst k f a e e' h = subst₂ (λ x l. Has x k f a l) (sym e) (sym e') h

first_fit-nil : (n a : ℕ) → first_fit n a [] ≡ 0
unfolding first_fit
first_fit-nil n a = refl

-- The block that is handed out was free, is in use now, and has at least `n` bytes.
pub first_fit_was_free :
    (n a : ℕ) (l : List Cell)
    → 0 < first_fit n a l
    → (k : ℕ) × (n ≤ k) × Has (first_fit n a l) k true a l
first_fit_was_free n a [] h = absurd (omega (arith, first_fit-nil n a))
first_fit_was_free n a (c ∷ l) h = elim (Bool-cases (fits n c)) [
  | inl found ↦ (c.size, ground arith, inl (first_fit_here n a c l found, refl, ground arith))
  | inr over ↦
      let e = first_fit_later n a c l over in
      let r = first_fit_was_free n (after a c.size) l (omega arith) in
      (r.0, r.1, Has-subst r.0 true a {l' = c ∷ l} e refl (inr r.2))
]

pub first_fit_in_use :
    (n a : ℕ) (l : List Cell)
    → 0 < first_fit n a l
    → (k : ℕ) × (n ≤ k) × Has (first_fit n a l) k false a (alloc_cells n l)
first_fit_in_use n a [] h = absurd (omega (arith, first_fit-nil n a))
first_fit_in_use n a (c ∷ l) h = elim (Bool-cases (fits n c)) [
  | inl found ↦
      let e = first_fit_here n a c l found in
      elim (Bool-cases (leb (c.size - n) 48)) [
        | inl whole ↦ (
          c.size,
          ground arith,
          Has-subst c.size false a e (alloc_whole n a c l found whole) (inl (refl, refl, refl)),
        )
        | inr split ↦ (
          n,
          omega arith,
          Has-subst n false a e (alloc_split n a c l found split) (inl (refl, refl, refl)),
        )
      ]
  | inr over ↦
      let e = first_fit_later n a c l over in
      let r = first_fit_in_use n (after a c.size) l (omega arith) in
      (r.0, r.1, Has-subst r.0 false a e (alloc_later n a c l over) (inr r.2))
]

-- No block in use is moved or resized.
pub Has-alloc_cells :
    (n a y k : ℕ) (l : List Cell) → Has y k false a l → Has y k false a (alloc_cells n l)
Has-alloc_cells n a y k [] h = absurd h
Has-alloc_cells n a y k (c ∷ l) (inl h) =
    Has-subst k false a refl (alloc_later n a c l (ground arith)) (inl h)
Has-alloc_cells n a y k (c ∷ l) (inr h) = elim (Bool-cases (fits n c)) [
  | inl found ↦ elim (Bool-cases (leb (c.size - n) 48)) [
    | inl whole ↦ Has-subst k false a refl (alloc_whole n a c l found whole) (inr h)
    | inr split ↦
        let e : after (after a n) (c.size - n - 32) ≡ after a c.size = ground arith in
        Has-subst k false a refl (alloc_split n a c l found split)
          (inr (inr (subst (λ z. Has y k false z l) (sym e) h)))
  ]
  | inr over ↦
      Has-subst k false a refl (alloc_later n a c l over)
        (inr (Has-alloc_cells n (after a c.size) y k l h))
]

-- Nothing new is in use but the block that is handed out.
pub Has-alloc_cells_inv :
    (n a y k : ℕ) (l : List Cell)
    → Has y k false a (alloc_cells n l)
    → Has y k false a l ⊎ (y ≡ first_fit n a l)
Has-alloc_cells_inv n a y k [] h = absurd (alloc_nil h)
  where
    alloc_nil : Has y k false a (alloc_cells n []) → ⊥
    alloc_nil = unfold alloc_cells in λ h. h
Has-alloc_cells_inv n a y k (c ∷ l) h = elim (Bool-cases (fits n c)) [
  | inl found ↦
      let e = first_fit_here n a c l found in
      elim (Bool-cases (leb (c.size - n) 48)) [
        | inl whole ↦
            whole_case e (Has-subst k false a refl (sym (alloc_whole n a c l found whole)) h)
        | inr split ↦
            let at : after (after a n) (c.size - n - 32) ≡ after a c.size = ground arith in
            split_case e at (Has-subst k false a refl (sym (alloc_split n a c l found split)) h)
      ]
  | inr over ↦
      let e = first_fit_later n a c l over in
      later_case (Has-alloc_cells_inv n (after a c.size) y k l) e
        (Has-subst k false a refl (sym (alloc_later n a c l over)) h)
]
  where
    whole_case :
        first_fit n a (c ∷ l) ≡ a
        → Has y k false a (record c { free = false } ∷ l)
        → Has y k false a (c ∷ l) ⊎ (y ≡ first_fit n a (c ∷ l))
    whole_case e (inl at) = inr (at.0 ∙ sym e)
    whole_case e (inr later) = inl (inr later)

    split_case :
        first_fit n a (c ∷ l) ≡ a
        → after (after a n) (c.size - n - 32) ≡ after a c.size
        → Has y k false a
            (record { size = n; free = false } ∷ record { size = c.size - n - 32; free = true } ∷ l)
        → Has y k false a (c ∷ l) ⊎ (y ≡ first_fit n a (c ∷ l))
    split_case e at (inl here) = inr (here.0 ∙ sym e)
    split_case e at (inr (inl rest)) = cc (rest.2)
    split_case e at (inr (inr later)) = inl (inr (subst (λ z. Has y k false z l) at later))

    later_case :
        (Has y k false (after a c.size) (alloc_cells n l)
          → Has y k false (after a c.size) l ⊎ (y ≡ first_fit n (after a c.size) l))
        → first_fit n a (c ∷ l) ≡ first_fit n (after a c.size) l
        → Has y k false a (c ∷ alloc_cells n l)
        → Has y k false a (c ∷ l) ⊎ (y ≡ first_fit n a (c ∷ l))
    later_case rec e (inl here) = inl (inl here)
    later_case rec e (inr later) = elim (rec later) [
      | inl old ↦ inl (inr old)
      | inr new ↦ inr (new ∙ sym e)
    ]
