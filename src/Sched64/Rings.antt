-- ===== src/Sched64/Rings.antt =====
-- sched64.c: the ring of the threads of one priority, as a list from its head on.
use neka_kernel.Base.{
  ℕ, zero, suc, ◌+◌, ◌<◌, ◌≡◌, ◌≢◌, refl, ap, ◌∙◌, sym, arith, Option, none, some, eq→==, ne→==,
  update, update_ne, List, [], ◌∷◌, ◌++◌, length,
}
use neka_kernel.Sched64.{Thread64, find_tail}

-- From `a`, the `next` fields lead through the list and then to `b`.
abbrev pub Links : (ℕ → Thread64) → ℕ → List ℕ → ℕ → Type 0
Links t a [] b = (t a).next ≡ some b
Links t a (x ∷ xs) b = ((t a).next ≡ some x) × Links t x xs b

-- A head and the threads of its ring.
abbrev pub Ring : (ℕ → Thread64) → Option ℕ → List ℕ → Type 0
Ring t none [] = Unit {0}
Ring t none (x ∷ xs) = ⊥
Ring t (some h) [] = ⊥
Ring t (some h) (x ∷ xs) = (h ≡ x) × Links t x xs x

abbrev pub Absent : ℕ → List ℕ → Type 0
Absent k [] = Unit {0}
Absent k (x ∷ xs) = (k ≢ x) × Absent k xs

abbrev pub Distinct : List ℕ → Type 0
Distinct [] = Unit {0}
Distinct (x ∷ xs) = Absent x xs × Distinct xs

abbrev pub Below : ℕ → List ℕ → Type 0
Below n [] = Unit {0}
Below n (x ∷ xs) = (x < n) × Below n xs

abbrev pub last : ℕ → List ℕ → ℕ
last a [] = a
last a (x ∷ xs) = last x xs

pub Below-Absent : (n : ℕ) (l : List ℕ) → Below n l → Absent n l
Below-Absent n [] h = tt
Below-Absent n (x ∷ xs) h = (λ e. absurd (omega (arith, h.0)), Below-Absent n xs h.1)

pub Below-suc : (n : ℕ) (l : List ℕ) → Below n l → Below (n + 1) l
Below-suc n [] h = tt
Below-suc n (x ∷ xs) h = (omega (arith, h.0), Below-suc n xs h.1)

pub append-Below : (n k : ℕ) (l : List ℕ) → Below n l → k < n → Below n (l ++ (k ∷ []))
append-Below n k [] h s = (s, tt)
append-Below n k (x ∷ xs) h s = (h.0, append-Below n k xs h.1 s)

pub append-Absent : (j k : ℕ) (l : List ℕ) → Absent j l → j ≢ k → Absent j (l ++ (k ∷ []))
append-Absent j k [] h s = (s, tt)
append-Absent j k (x ∷ xs) h s = (h.0, append-Absent j k xs h.1 s)

pub append-Distinct : (k : ℕ) (l : List ℕ) → Absent k l → Distinct l → Distinct (l ++ (k ∷ []))
append-Distinct k [] h s = (tt, tt)
append-Distinct k (x ∷ xs) h s =
    (append-Absent x k xs s.0 (λ e. h.0 (sym e)), append-Distinct k xs h.1 s.1)

-- Threads whose `next` fields are the same have the same rings.
pub Links-same :
    (t t' : ℕ → Thread64) (a : ℕ) (l : List ℕ) (b : ℕ)
    → ((x : ℕ) → (t' x).next ≡ (t x).next)
    → Links t a l b
    → Links t' a l b
Links-same t t' a [] b same h = same a ∙ h
Links-same t t' a (x ∷ xs) b same h = (same a ∙ h.0, Links-same t t' x xs b same h.1)

pub Ring-same :
    (t t' : ℕ → Thread64) (o : Option ℕ) (l : List ℕ)
    → ((x : ℕ) → (t' x).next ≡ (t x).next)
    → Ring t o l
    → Ring t' o l
Ring-same t t' none [] same h = tt
Ring-same t t' none (y ∷ ys) same h = elim h [ ]
Ring-same t t' (some x) [] same h = elim h [ ]
Ring-same t t' (some x) (y ∷ ys) same h = (h.0, Links-same t t' y ys y same h.1)

-- A write to a thread outside of a ring does not touch it.
pub Links-update :
    (t : ℕ → Thread64) (k : ℕ) (v : Thread64) (a : ℕ) (l : List ℕ) (b : ℕ)
    → Absent k (a ∷ l)
    → Links t a l b
    → Links (update t k v) a l b
Links-update t k v a [] b out h = ap (λ (u : Thread64). u.next) (update_ne t k a v out.0) ∙ h
Links-update t k v a (x ∷ xs) b out h = (
  ap (λ (u : Thread64). u.next) (update_ne t k a v out.0) ∙ h.0,
  Links-update t k v x xs b out.1 h.1,
)

pub Ring-update :
    (t : ℕ → Thread64) (k : ℕ) (v : Thread64) (o : Option ℕ) (l : List ℕ)
    → Absent k l
    → Ring t o l
    → Ring (update t k v) o l
Ring-update t k v none [] out h = tt
Ring-update t k v none (y ∷ ys) out h = elim h [ ]
Ring-update t k v (some x) [] out h = elim h [ ]
Ring-update t k v (some x) (y ∷ ys) out h = (h.0, Links-update t k v y ys y out h.1)

-- One more link.
pub Links-append :
    (t : ℕ → Thread64) (a : ℕ) (l : List ℕ) (b c : ℕ)
    → Links t a l b
    → (t b).next ≡ some c
    → Links t a (l ++ (b ∷ [])) c
Links-append t a [] b c h e = (h, e)
Links-append t a (x ∷ xs) b c h e = (h.0, Links-append t x xs b c h.1 e)

-- The walk finds the end of the ring.
pub find_tail_lem :
    (fuel : ℕ) (t : ℕ → Thread64) (h a : ℕ) (l : List ℕ)
    → length l < fuel
    → Absent h l
    → Links t a l h
    → find_tail fuel t h a ≡ some (last a l)
unfolding find_tail
find_tail_lem zero t h a l small out links = absurd (omega arith)
find_tail_lem (suc fuel) t h a [] small out links = rw (find_tail, links, eq→== h h refl)
find_tail_lem (suc fuel) t h a (x ∷ xs) small out links =
    let rest = find_tail_lem fuel t h x xs (omega arith) out.1 links.1 in
    rw (find_tail, links.0, ne→== x h (λ e. out.0 (sym e)), rest)

-- A thread `k` is put between the end of the ring and its head.
abbrev pub spliced : (ℕ → Thread64) → ℕ → ℕ → ℕ → ℕ → Thread64
spliced t k end h =
    let t1 = update t end (record (t end) { next = some k }) in
    update t1 k (record (t1 k) { next = some h })

module _ (t : ℕ → Thread64) (k h : ℕ) where
  spliced_new : (end : ℕ) → (spliced t k end h k).next ≡ some h
  spliced_new end = rw (eq→== k k refl)

  spliced_end : (end : ℕ) → k ≢ end → (spliced t k end h end).next ≡ some k
  spliced_end end d = rw (ne→== k end d, eq→== end end refl)

  spliced_other : (end x : ℕ) → k ≢ x → end ≢ x → (spliced t k end h x).next ≡ (t x).next
  spliced_other end x d e = rw (ne→== k x d, ne→== end x e)

  last-Absent : (a : ℕ) (x : ℕ) (xs : List ℕ) → Absent a (x ∷ xs) → last x xs ≢ a
  last-Absent a x [] h e = h.0 (sym e)
  last-Absent a x (y ∷ ys) h e = last-Absent a y ys h.1 e

  pub spliced-Links :
      (a : ℕ) (l : List ℕ)
      → Absent k (a ∷ l)
      → Distinct (a ∷ l)
      → Links t a l h
      → Links (spliced t k (last a l) h) a (l ++ (k ∷ [])) h
  spliced-Links a [] out distinct links = (spliced_end a out.0, spliced_new a)
  spliced-Links a (x ∷ xs) out distinct links = (
    spliced_other (last x xs) a out.0 (last-Absent a x xs distinct.0) ∙ links.0,
    spliced-Links x xs out.1 distinct.1 links.1,
  )

  -- A ring that holds neither thread stays as it is.
  pub spliced-Ring :
      (end : ℕ) (o : Option ℕ) (l : List ℕ)
      → Absent k l
      → Absent end l
      → Ring t o l
      → Ring (spliced t k end h) o l
  spliced-Ring end o l out apart ring =
      let v = record (t end) { next = some k } in
      let w = record (update t end v k) { next = some h } in
      Ring-update (update t end v) k w o l out (Ring-update t end v o l apart ring)
