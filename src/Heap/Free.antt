-- ===== src/Heap/Free.antt =====
-- heap.c: `kfree` does to the list in memory what freeing a cell and joining it with its free
-- neighbours does to the cells.
use neka_kernel.Base.{
  ℕ, ◌+◌, ◌<◌, ◌≤◌, ◌≡◌, inl, inr, refl, ap, ◌∙◌, arith, Bool, true, false, List, [], ◌∷◌, ◌==◌,
  if◌then◌else◌, Bool-cases, sym,
}
use mathlib.Core.Path.{subst}
use neka_kernel.Heap.{Block, coalesce_forward, release_block}
use neka_kernel.Heap.Cells.{Cell, after, Has, extent, merge, join, free_cells}
use neka_kernel.Heap.Chain.{link, Chain}
use neka_kernel.Heap.Join.{
  Leads, Leads-subst, join_of_free, join_of_busy, join_lem, mark, mark_lem, Chain-prev, link-merge,
}

-- The three ways through the rest of `kfree`.
module _ (m : ℕ → Block) (b : ℕ) where
  release_alone : (mark m b b).prev ≡ 0 → release_block m b ≡ mark m b
  unfolding release_block
  release_alone h = ground arith

  release_busy :
      (q : ℕ) → (mark m b b).prev ≡ q → (mark m b q).free ≡ false → release_block m b ≡ mark m b
  unfolding release_block
  release_busy q h busy = ground arith

  release_back :
      (q : ℕ)
      → (mark m b b).prev ≡ q
      → 0 < q
      → (mark m b q).free ≡ true
      → release_block m b ≡ coalesce_forward (mark m b) q
  unfolding release_block
  release_back q h pos joins = ground arith

-- Freeing the first block.
pub release_first :
    (c : Cell) (l : List Cell) (m : ℕ → Block) (a : ℕ)
    → 0 < a
    → Chain m 0 a (c ∷ l)
    → Leads m (release_block m a) 0 a (merge (record c { free = true }) l)
release_first c l m a pos h =
    let r = mark_lem c l m 0 a pos h in
    Leads-subst m 0 a
      (release_alone m a (Chain-prev (record c { free = true }) l (mark m a) 0 a r.0)) refl r

-- Freeing the second of two blocks.
release_second :
    (c d : Cell) (l : List Cell) (m : ℕ → Block) (p a : ℕ)
    → 0 < a
    → Chain m p a (c ∷ d ∷ l)
    → Leads m (release_block m (after a c.size)) p a (join c (merge (record d { free = true }) l))
release_second c d l m p a pos h =
    let b = after a c.size in
    let d' : Cell = record d { free = true } in
    let r = mark_lem d l m a b (omega arith) h.1 in
    let back = Chain-prev d' l (mark m b) a b r.0 in
    let at = r.1 a pos (omega arith) ∙ h.0 in
    let whole : Chain (mark m b) p a (c ∷ merge d' l) = (rw (link-merge b d' l) at, r.0) in
    let state : (mark m b a).free ≡ c.free = ap (λ (k : Block). k.free) at in
    elim (Bool-cases c.free) [
      | inl joins ↦
          let j = join_lem c (merge d' l) (mark m b) p a pos whole in
          Leads-subst m p a (release_back m b a back pos (state ∙ joins))
            (join_of_free c (merge d' l) joins)
            (j.0, λ x posx lt. j.1 x posx lt ∙ r.1 x posx (omega arith))
      | inr busy ↦
          Leads-subst m p a (release_busy m b a back (state ∙ busy))
            (join_of_busy c (merge d' l) busy) (whole, λ x posx lt. r.1 x posx (omega arith))
    ]

pub Has-le : (l : List Cell) (x n : ℕ) (f : Bool) (a : ℕ) → Has x n f a l → a ≤ x
Has-le [] x n f a h = absurd h
Has-le (c ∷ l) x n f a (inl h) = omega arith
Has-le (c ∷ l) x n f a (inr h) = omega (arith, Has-le l x n f (after a c.size) h)

pub Has-extent :
    (l : List Cell) (x n : ℕ) (f : Bool) (a : ℕ) → Has x n f a l → x + 32 + n ≤ a + extent l
Has-extent [] x n f a h = absurd h
Has-extent (c ∷ l) x n f a (inl h) = omega arith
Has-extent (c ∷ l) x n f a (inr h) = omega (arith, Has-extent l x n f (after a c.size) h)

-- There is one block at an address.
pub Has-det :
    (l : List Cell) (x k k' : ℕ) (f f' : Bool) (a : ℕ)
    → Has x k f a l
    → Has x k' f' a l
    → (k ≡ k') × (f ≡ f')
Has-det [] x k k' f f' a h g = absurd h
Has-det (c ∷ l) x k k' f f' a (inl h) (inl g) = (sym h.1 ∙ g.1, sym h.2 ∙ g.2)
Has-det (c ∷ l) x k k' f f' a (inl h) (inr g) =
    absurd (omega (arith, Has-le l x k' f' (after a c.size) g))
Has-det (c ∷ l) x k k' f f' a (inr h) (inl g) =
    absurd (omega (arith, Has-le l x k f (after a c.size) h))
Has-det (c ∷ l) x k k' f f' a (inr h) (inr g) = Has-det l x k k' f f' (after a c.size) h g

-- What freeing does to the cells, at the first and behind it.
module _ (x a : ℕ) (c : Cell) (l : List Cell) where
  pub free_cells_at : x ≡ a → free_cells x a (c ∷ l) ≡ merge (record c { free = true }) l
  unfolding free_cells
  free_cells_at h = ground arith

  pub free_cells_next :
      x ≡ after a c.size → free_cells x a (c ∷ l) ≡ join c (free_cells x (after a c.size) l)
  unfolding free_cells
  free_cells_next h = ground arith

  pub free_cells_later :
      after a c.size < x → free_cells x a (c ∷ l) ≡ c ∷ free_cells x (after a c.size) l
  unfolding free_cells
  free_cells_later h = ground arith

link-branches :
    (at behind : Bool) (b : ℕ) (c : Cell) (l rest : List Cell)
    → link b (
        if at then merge (record c { free = true }) l else if behind then join c rest else c ∷ rest)
      ≡ b
link-branches true behind b c l rest = link-merge b (record c { free = true }) l
link-branches false true b c l rest = ground (arith, link-merge b c rest)
link-branches false false b c l rest = refl

link-free_cells : (x a b : ℕ) (l : List Cell) → link b (free_cells x a l) ≡ link b l
unfolding free_cells
link-free_cells x a b [] = refl
link-free_cells x a b (c ∷ l) =
    link-branches (a == x) (after a c.size == x) b c l (free_cells x (after a c.size) l)

-- Freeing a block behind another.
release_behind :
    (c : Cell) (l : List Cell) (m : ℕ → Block) (p a x n : ℕ) (f : Bool)
    → 0 < a
    → Chain m p a (c ∷ l)
    → Has x n f (after a c.size) l
    → Leads m (release_block m x) p a (free_cells x a (c ∷ l))
release_behind c [] m p a x n f pos h has = absurd has
release_behind c (d ∷ l) m p a x n f pos h (inl here) =
    let e : after a c.size ≡ x = sym here.0 in
    subst (λ y. Leads m (release_block m y) p a (free_cells y a (c ∷ d ∷ l))) e
      (Leads-subst m p a refl
        (free_cells_next (after a c.size) a c (d ∷ l) refl
          ∙ ap (join c) (free_cells_at (after a c.size) (after a c.size) d l refl))
        (release_second c d l m p a pos h))
release_behind c (d ∷ l) m p a x n f pos h (inr later) =
    let past = Has-le l x n f (after (after a c.size) d.size) later in
    let r = release_behind d l m a (after a c.size) x n f (omega arith) h.1 later in
    Leads-subst m p a refl (free_cells_later x a c (d ∷ l) (omega arith)) (
      (
        r.1 a pos (omega arith)
            ∙ rw (link-free_cells x (after a c.size) (after a c.size) (d ∷ l)) h.0,
        r.0,
      ),
      λ y posy lt. r.1 y posy (omega arith),
    )

-- Freeing a block of the list does to the list in memory what it does to the cells.
pub release_lem :
    (l : List Cell) (m : ℕ → Block) (a x n : ℕ) (f : Bool)
    → 0 < a
    → Chain m 0 a l
    → Has x n f a l
    → Chain (release_block m x) 0 a (free_cells x a l)
release_lem [] m a x n f pos h has = absurd has
release_lem (c ∷ l) m a x n f pos h (inl here) =
    subst (λ y. Chain (release_block m y) 0 a (free_cells y a (c ∷ l))) (sym here.0)
      (Leads-subst m 0 a refl (free_cells_at a a c l refl) (release_first c l m a pos h)).0
release_lem (c ∷ l) m a x n f pos h (inr later) = (release_behind c l m 0 a x n f pos h later).0
