-- ===== src/Sched64/Queues.antt =====
-- sched64.c: the scheduler as eight queues of threads.
use neka_kernel.Base.{
  ℕ, ◌<◌, ◌≤◌, ◌^◌, ◌≡◌, ◌≢◌, refl, ap, sym, arith, Bool, true, false, Option, some, none, List, [],
  ◌∷◌, ◌++◌, length, bit, update, ◌==◌, Bool-cases, ==→eq, ==→ne, inl, inr,
}
use mathlib.Core.Path.{subst}
use neka_kernel.Sched64.{Thread64, Scheduler64, num_priorities64}
use neka_kernel.Sched64.Rings.{Ring, Absent, Distinct, Below, last, append-Absent}

-- No thread of the first list is in the second.
abbrev pub Apart : List ℕ → List ℕ → Type 0
Apart [] l = Unit {0}
Apart (x ∷ xs) l = Absent x l × Apart xs l

abbrev pub is_busy : List ℕ → Bool
is_busy [] = false
is_busy (x ∷ xs) = true

-- `q p` lists the threads of priority `p`, the head first.
pub record IsQueued (s : Scheduler64) (q : ℕ → List ℕ) : Type 0 where
  pub rings : (p : ℕ) → p < num_priorities64 → Ring s.threads64 (s.ready_queue p) (q p)
  pub idle : (p : ℕ) → num_priorities64 ≤ p → q p ≡ []
  pub distinct : (p : ℕ) → Distinct (q p)
  pub below : (p : ℕ) → Below s.thread64_count (q p)
  pub apart : (p r : ℕ) → p ≢ r → Apart (q p) (q r)
  pub bounded : (p : ℕ) → length (q p) ≤ s.thread64_count
  pub bits : (p : ℕ) → p < 32 → bit s.ready_bitmap p ≡ is_busy (q p)
  pub small : s.ready_bitmap < 2 ^ 32

pub Apart-last : (a : ℕ) (xs l : List ℕ) → Apart (a ∷ xs) l → Absent (last a xs) l
Apart-last a [] l h = h.0
Apart-last a (x ∷ xs) l h = Apart-last x xs l h.1

pub append-Apart : (k : ℕ) (l r : List ℕ) → Apart l r → Absent k r → Apart (l ++ (k ∷ [])) r
append-Apart k [] r h out = (out, tt)
append-Apart k (x ∷ xs) r h out = (h.0, append-Apart k xs r h.1 out)

pub Apart-append : (k : ℕ) (l r : List ℕ) → Apart l r → Absent k l → Apart l (r ++ (k ∷ []))
Apart-append k [] r h out = tt
Apart-append k (x ∷ xs) r h out =
    (append-Absent x k r h.0 (λ e. out.0 (sym e)), Apart-append k xs r h.1 out.1)

-- A statement about every queue holds after a change of one if it holds for the new queue and the
-- others.
pub update_all {ℓ ℓ'} :
    {A : Type ℓ} (P : ℕ → A → Type ℓ') (f : ℕ → A) (i : ℕ) (v : A)
    → P i v
    → ((p : ℕ) → i ≢ p → P p (f p))
    → (p : ℕ) → P p (update f i v p)
update_all P f i v new others p = elim (Bool-cases (i == p)) [
  | inl e ↦ rw e (subst (λ x. P x v) (==→eq _ _ e) new)
  | inr e ↦ rw e (others p (==→ne _ _ e))
]

pub busy-cases : (l : List ℕ) → is_busy l ≡ true → (x : ℕ) × (xs : List ℕ) × (l ≡ x ∷ xs)
busy-cases [] h = absurd (ground arith)
busy-cases (x ∷ xs) h = (x, xs, refl)

pub idle-empty : (l : List ℕ) → is_busy l ≡ false → l ≡ []
idle-empty [] h = refl
idle-empty (x ∷ xs) h = absurd (ground arith)

pub Ring-head :
    (t : ℕ → Thread64) (o : Option ℕ) (x : ℕ) (xs : List ℕ) → Ring t o (x ∷ xs) → o ≡ some x
Ring-head t none x xs ring = elim ring [ ]
Ring-head t (some h) x xs ring = ap some ring.0
