-- ===== src/Heap/Join.antt =====
-- heap.c: `coalesce_forward` does to the list in memory what joining a cell with a free one behind
-- it does to the cells.
use neka_kernel.Base.{
  ℕ, ◌+◌, ◌<◌, ◌≡◌, ◌≢◌, ◌⊎◌, inl, inr, refl, ap, ◌∙◌, arith, true, false, List, [], ◌∷◌, update,
  update_self, update_ne, Bool-cases, sym,
}
use mathlib.Core.Path.{subst₂}
use neka_kernel.Heap.{Block, coalesce_forward}
use neka_kernel.Heap.Cells.{Cell, after, merge, join}
use neka_kernel.Heap.Chain.{link, Chain, Chain-frame}

-- What `coalesce_forward` writes when the next block is free.
module _ (m : ℕ → Block) (b : ℕ) (next_pos : b < (m b).next) (joins : (m (m b).next).free ≡ true)
    (after_n : ((m (m b).next).next ≡ 0) ⊎ ((m b).next < (m (m b).next).next)) where
  join_at :
      coalesce_forward m b b
      ≡ record (m b) { size = (m b).size + (32 + (m (m b).next).size); next = (m (m b).next).next }
  unfolding coalesce_forward
  join_at = ground arith

  join_after :
      0 < (m (m b).next).next
      → coalesce_forward m b (m (m b).next).next ≡ record (m (m (m b).next).next) { prev = b }
  unfolding coalesce_forward
  join_after pos = ground arith

  join_ne : (x : ℕ) → x ≢ b → 0 < x → x ≢ (m (m b).next).next → coalesce_forward m b x ≡ m x
  unfolding coalesce_forward
  join_ne x ne pos ne_after = ground arith

-- Nothing is written when there is no next block or it is in use.
join_none : (m : ℕ → Block) (b : ℕ) → (m b).next ≡ 0 → coalesce_forward m b ≡ m
unfolding coalesce_forward
join_none m b h = ground arith

join_busy : (m : ℕ → Block) (b : ℕ) → (m (m b).next).free ≡ false → coalesce_forward m b ≡ m
unfolding coalesce_forward
join_busy m b h = ground arith

-- A list in memory, made from another with no change to the headers below it.
abbrev pub Leads : (ℕ → Block) → (ℕ → Block) → ℕ → ℕ → List Cell → Type 0
Leads m m' p a l = Chain m' p a l × ((x : ℕ) → 0 < x → x < a → m' x ≡ m x)

pub Leads-subst :
    (m : ℕ → Block) {m1 m2 : ℕ → Block} (p a : ℕ) {l1 l2 : List Cell}
    → m1 ≡ m2
    → l1 ≡ l2
    → Leads m m2 p a l2
    → Leads m m1 p a l1
Leads-subst m p a e1 e2 h = subst₂ (λ m' l. Leads m m' p a l) (sym e1) (sym e2) h

merge_busy : (c d : Cell) (l : List Cell) → d.free ≡ false → merge c (d ∷ l) ≡ c ∷ d ∷ l
merge_busy c d l h = ground arith

pub join_of_free : (c : Cell) (l : List Cell) → c.free ≡ true → join c l ≡ merge c l
join_of_free c l h = rw h

pub join_of_busy : (c : Cell) (l : List Cell) → c.free ≡ false → join c l ≡ c ∷ l
join_of_busy c l h = ground arith

-- Joining forward in memory is joining the cells.
abbrev pub Joined : (ℕ → Block) → ℕ → ℕ → Cell → List Cell → Type 0
Joined m p b c l = Leads m (coalesce_forward m b) p b (merge c l)

module _ (c d : Cell) (m : ℕ → Block) (p b : ℕ) (pos : 0 < b) (joins : d.free ≡ true) where
  join_two : Chain m p b (c ∷ d ∷ []) → Joined m p b c (d ∷ [])
  join_two h =
      let next : (m b).next ≡ after b c.size = ap (λ (k : Block). k.next) h.0 in
      let joins' : (m (m b).next).free ≡ true = rw (next, h.1.0) joins in
      let end : (m (m b).next).next ≡ 0 = rw (next, h.1.0) in
      rw joins (
        (ground (arith, h.0, h.1.0, join_at m b (omega arith) joins' (inl end)), tt),
        λ x posx lt. join_ne m b (omega arith) joins' (inl end) x (omega arith) posx (omega arith),
      )

  join_inner : (e : Cell) (l : List Cell) → Chain m p b (c ∷ d ∷ e ∷ l) → Joined m p b c (d ∷ e ∷ l)
  join_inner e l h =
      let next : (m b).next ≡ after b c.size = ap (λ (k : Block). k.next) h.0 in
      let joins' : (m (m b).next).free ≡ true = rw (next, h.1.0) joins in
      let end : (m (m b).next).next ≡ after (after b c.size) d.size = rw (next, h.1.0) in
      let same = join_ne m b (omega arith) joins' (inr (omega arith)) in
      let at : after b (c.size + (32 + d.size)) ≡ after (after b c.size) d.size = omega arith in
      rw (joins, at)
        (
          (
            ground (arith, h.0, h.1.0, join_at m b (omega arith) joins' (inr (omega arith))),
            (
              ground (
                arith,
                h.1.1.0,
                join_after m b (omega arith) joins' (inr (omega arith)) (omega arith),
              ),
              Chain-frame l m (coalesce_forward m b) (after (after b c.size) d.size)
                  (after (after (after b c.size) d.size) e.size)
                  (λ x le. same x (omega arith) (omega arith) (omega arith)) h.1.1.1,
            ),
          ),
          λ x posx lt. same x (omega arith) posx (omega arith),
        )

  join_free : (l : List Cell) → Chain m p b (c ∷ d ∷ l) → Joined m p b c (d ∷ l)
  join_free [] = join_two
  join_free (e ∷ l) = join_inner e l

pub join_lem :
    (c : Cell) (l : List Cell) (m : ℕ → Block) (p b : ℕ)
    → 0 < b
    → Chain m p b (c ∷ l)
    → Joined m p b c l
join_lem c [] m p b pos h =
    rw (join_none m b (ap (λ (k : Block). k.next) h.0)) (h, λ x posx lt. refl)
join_lem c (d ∷ l) m p b pos h = elim (Bool-cases d.free) [
  | inl joins ↦ join_free c d m p b pos joins l h
  | inr busy ↦
      let next : (m b).next ≡ after b c.size = ap (λ (k : Block). k.next) h.0 in
      Leads-subst m p b (join_busy m b (rw (next, h.1.0) busy)) (merge_busy c d l busy)
        (h, λ x posx lt. refl)
]

-- The marking of a block, and the first of the two joins.
abbrev pub mark : (ℕ → Block) → ℕ → ℕ → Block
mark m b = coalesce_forward (update m b (record (m b) { free = true })) b

pub mark_lem :
    (c : Cell) (l : List Cell) (m : ℕ → Block) (p b : ℕ)
    → 0 < b
    → Chain m p b (c ∷ l)
    → Chain (mark m b) p b (merge (record c { free = true }) l)
      × ((x : ℕ) → 0 < x → x < b → mark m b x ≡ m x)
mark_lem c l m p b pos h =
    let r =
      join_lem (record c { free = true }) l (update m b (record (m b) { free = true })) p b pos
        (
          update_self m b _ ∙ ap (λ (k : Block). record k { free = true }) h.0,
          Chain-frame l m _ b (after b c.size) (λ x le. update_ne m b x _ (omega arith)) h.1,
        ) in
    (r.0, λ x posx lt. r.1 x posx lt ∙ update_ne m b x _ (omega arith))

pub Chain-prev :
    (c : Cell) (l : List Cell) (m : ℕ → Block) (p b : ℕ) → Chain m p b (merge c l) → (m b).prev ≡ p
Chain-prev c [] m p b h = ap (λ (k : Block). k.prev) h.0
Chain-prev c (d ∷ l) m p b h = ground arith

pub link-merge : (b : ℕ) (c : Cell) (l : List Cell) → link b (merge c l) ≡ b
link-merge b c [] = refl
link-merge b c (d ∷ l) = ground arith
