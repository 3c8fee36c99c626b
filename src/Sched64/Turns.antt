-- ===== src/Sched64/Turns.antt =====
-- sched64.c: the turn of the next thread in the ring of a priority.
use neka_kernel.Base.{
  ℕ, ◌<◌, ◌≤◌, ◌≡◌, ◌≢◌, refl, ap, ◌∙◌, sym, arith, true, false, Option, some, none, List, [], ◌∷◌,
  ◌++◌, length, length-append, bit, eq→==, ne→==, update, if◌then◌else◌, Bool-cases, ==→eq, ==→ne,
  inl, inr,
}
use neka_kernel.Sched64.{Scheduler64, num_priorities64, is_thread, pick_next}
use neka_kernel.Sched64.Rings.{
  Ring, Distinct, Below, append-Below, append-Distinct, append-Absent, Links-append,
}
use neka_kernel.Sched64.Queues.{Apart, is_busy, IsQueued, append-Apart, update_all}

pub is_thread-true : (o : Option ℕ) (t : ℕ) → is_thread o t ≡ true → o ≡ some t
unfolding is_thread
is_thread-true none t h = absurd (ground arith)
is_thread-true (some u) t h = ap some (==→eq u t h)

pub is_thread-false : (o : Option ℕ) (t : ℕ) → is_thread o t ≡ false → o ≢ some t
unfolding is_thread
is_thread-false none t h e = absurd (ground arith)
is_thread-false (some u) t h e = ground (arith, ==→ne u t h)

-- The ring after the choice: the head goes to the end if it is the thread that runs and not alone.
abbrev pub served : Option ℕ → List ℕ → List ℕ
served prev [] = []
served prev (x ∷ []) = x ∷ []
served prev (x ∷ y ∷ ys) = if is_thread prev x then (y ∷ ys) ++ (x ∷ []) else x ∷ y ∷ ys

-- A list that can take the place of a queue.
pub record IsShuffle (n : ℕ) (l l' : List ℕ) : Type 0 where
  pub unique : Distinct l → Distinct l'
  pub inside : Below n l → Below n l'
  pub away : (r : List ℕ) → Apart l r → Apart l' r
  pub avoided : (r : List ℕ) → Apart r l → Apart r l'
  pub as_long : length l' ≡ length l
  pub as_busy : is_busy l' ≡ is_busy l

pub same-IsShuffle : (n : ℕ) (l : List ℕ) → IsShuffle n l l
same-IsShuffle n l = record {
  unique = λ h. h;
  inside = λ h. h;
  away = λ r h. h;
  avoided = λ r h. h;
  as_long = refl;
  as_busy = refl;
}

Apart-rotate : (x : ℕ) (xs r : List ℕ) → Apart r (x ∷ xs) → Apart r (xs ++ (x ∷ []))
Apart-rotate x xs [] h = tt
Apart-rotate x xs (y ∷ ys) h = (append-Absent y x xs h.0.1 h.0.0, Apart-rotate x xs ys h.1)

rotate-IsShuffle : (n x y : ℕ) (ys : List ℕ) → IsShuffle n (x ∷ y ∷ ys) ((y ∷ ys) ++ (x ∷ []))
rotate-IsShuffle n x y ys = record {
  unique = λ h. append-Distinct x (y ∷ ys) h.0 h.1;
  inside = λ h. append-Below n x (y ∷ ys) h.1 h.0;
  away = λ r h. append-Apart x (y ∷ ys) r h.1 h.0;
  avoided = λ r h. Apart-rotate x (y ∷ ys) r h;
  as_long = omega (arith, length-append (y ∷ ys) (x ∷ []));
  as_busy = refl;
}

-- The choice: the thread it returns heads the served ring, and the other rings keep their heads.
pub record IsPicked (prio : ℕ) (prev : Option ℕ) (s : Scheduler64) (l : List ℕ) (n : ℕ)
    (rest : List ℕ) (queue : ℕ → Option ℕ) : Type 0 where
  pub picked : n ∷ rest ≡ served prev l
  pub shuffled : IsShuffle s.thread64_count l (n ∷ rest)
  pub ring : Ring s.threads64 (queue prio) (n ∷ rest)
  pub others : (p : ℕ) → prio ≢ p → queue p ≡ s.ready_queue p

module _ (prio : ℕ) (prev : Option ℕ) (s : Scheduler64) where
  pub pick_next_lem :
      (x : ℕ) (xs : List ℕ)
      → Ring s.threads64 (s.ready_queue prio) (x ∷ xs)
      → Distinct (x ∷ xs)
      → Ring s.threads64 (some x) (x ∷ xs)
      → (n : ℕ) × (rest : List ℕ) × (queue : ℕ → Option ℕ) × (pick_next prio x prev s ≡ (n, queue))
        × IsPicked prio prev s (x ∷ xs) n rest queue
  unfolding pick_next
  pick_next_lem x [] ring d h = (
    x,
    [],
    s.ready_queue,
    ground (arith, h.1, eq→== x x refl),
    record { picked = refl; shuffled = same-IsShuffle _ _; ring = ring; others = λ p d. refl },
  )
  pick_next_lem x (y ∷ ys) ring d h = elim (Bool-cases (is_thread prev x)) [
    | inl runs ↦ (
      y,
      ys ++ (x ∷ []),
      update s.ready_queue prio (some y),
      rw (pick_next, h.1.0, runs, ne→== y x (λ e. d.0.0 (sym e))),
      record {
        picked = rw runs;
        shuffled = rotate-IsShuffle _ x y ys;
        ring = rw (eq→== prio prio refl) (refl, Links-append s.threads64 y ys x y h.1.1 h.1.0);
        others = λ p d. rw (ne→== prio p d);
      },
    )
    | inr waits ↦ (
      x,
      y ∷ ys,
      s.ready_queue,
      rw (pick_next, h.1.0, waits),
      record {
        picked = rw waits;
        shuffled = same-IsShuffle _ _;
        ring = ring;
        others = λ p d. refl;
      },
    )
  ]

-- The queues stay well formed when one is replaced, and `next` fields and the other heads stay.
pub replace-IsQueued :
    (s s' : Scheduler64) (q : ℕ → List ℕ) (prio : ℕ) (l : List ℕ)
    → IsQueued s q
    → prio < num_priorities64
    → IsShuffle s.thread64_count (q prio) l
    → Ring s'.threads64 (s'.ready_queue prio) l
    → ((p : ℕ) → prio ≢ p → p < num_priorities64 → Ring s'.threads64 (s'.ready_queue p) (q p))
    → s'.thread64_count ≡ s.thread64_count
    → s'.ready_bitmap ≡ s.ready_bitmap
    → IsQueued s' (update q prio l)
replace-IsQueued s s' q prio l v in_range sh ring others count bitmap = record {
  rings =
      update_all (λ p u. p < num_priorities64 → Ring s'.threads64 (s'.ready_queue p) u) q prio l
        (λ h. ring) others;
  idle =
      update_all (λ p u. num_priorities64 ≤ p → u ≡ []) q prio l (λ h. absurd (omega arith))
        (λ p d. v.idle p);
  distinct =
      update_all (λ p u. Distinct u) q prio l (sh.unique (v.distinct prio)) (λ p d. v.distinct p);
  below = rw count (
      update_all (λ p u. Below s.thread64_count u) q prio l (sh.inside (v.below prio))
        (λ p d. v.below p));
  apart =
      update_all (λ p u. (r : ℕ) → p ≢ r → Apart u (update q prio l r)) q prio l
        (update_all (λ r u. prio ≢ r → Apart l u) q prio l (λ e. absurd (e refl))
          (λ r d e. sh.away (q r) (v.apart prio r e)))
        (λ p d.
          update_all (λ r u. p ≢ r → Apart (q p) u) q prio l
            (λ e. sh.avoided (q p) (v.apart p prio e)) (λ r d2 e. v.apart p r e));
  bounded = rw count (
      update_all (λ p u. length u ≤ s.thread64_count) q prio l
        (omega (arith, sh.as_long, v.bounded prio)) (λ p d. v.bounded p));
  bits = rw bitmap (
      update_all (λ p u. p < 32 → bit s.ready_bitmap p ≡ is_busy u) q prio l
        (λ h. v.bits prio h ∙ sym sh.as_busy) (λ p d. v.bits p));
  small = rw bitmap v.small;
}
