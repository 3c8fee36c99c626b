-- ===== src/Sched64/Joins.antt =====
-- sched64.c: how a new thread joins its ring.
use neka_kernel.Base.{
  ℕ, ◌<◌, ◌≡◌, ◌≢◌, refl, ap, ◌∙◌, arith, Option, some, none, List, [], ◌∷◌, ◌++◌, length, eq→==,
  ne→==, update, ◌==◌, Bool-cases, ==→eq, inl, inr,
}
use mathlib.Core.Path.{subst}
use neka_kernel.Sched64.{Thread64, Scheduler64, num_priorities64, enqueue, find_tail}
use neka_kernel.Sched64.Rings.{
  Ring, Absent, Distinct, last, Ring-update, find_tail_lem, spliced, spliced-Links, spliced-Ring,
}
use neka_kernel.Sched64.Queues.{Apart, Apart-last}

-- Two tables of threads that differ in `next` fields at most.
abbrev pub IsRelinked : (ℕ → Thread64) → (ℕ → Thread64) → Type 0
IsRelinked t t' = (x : ℕ) → t' x ≡ record (t x) { next = (t' x).next }

update-IsRelinked :
    (t : ℕ → Thread64) (k : ℕ) (n : Option ℕ)
    → IsRelinked t (update t k (record (t k) { next = n }))
update-IsRelinked t k n x = elim (Bool-cases (k == x)) [
  | inl e ↦
      let t' = update t k (record (t k) { next = n }) in
      let at_k : t' k ≡ record (t k) { next = (t' k).next } = rw (eq→== k k refl) in
      subst (λ (x : ℕ). t' x ≡ record (t x) { next = (t' x).next }) (==→eq _ _ e) at_k
  | inr e ↦ rw e
]

IsRelinked-trans :
    (t t' t'' : ℕ → Thread64) → IsRelinked t t' → IsRelinked t' t'' → IsRelinked t t''
IsRelinked-trans t t' t'' h g x =
    g x ∙ ap (λ (u : Thread64). record u { next = (t'' x).next }) (h x)

-- The rings after a thread that is in none of them has joined one.
pub record IsJoined (fuel k prio : ℕ) (s : Scheduler64) (q : ℕ → List ℕ) (threads : ℕ → Thread64)
    (queue : ℕ → Option ℕ) : Type 0 where
  pub enqueued :
      enqueue fuel k prio s ≡ some (record s { threads64 = threads; ready_queue = queue })
  pub ring : Ring threads (queue prio) (q prio ++ (k ∷ []))
  pub others : (p : ℕ) → prio ≢ p → p < num_priorities64 → Ring threads (queue p) (q p)
  pub relinked : IsRelinked s.threads64 threads

module _ (fuel k prio : ℕ) (s : Scheduler64) (q : ℕ → List ℕ)
    (rings : (p : ℕ) → p < num_priorities64 → Ring s.threads64 (s.ready_queue p) (q p))
    (out : (p : ℕ) → Absent k (q p)) (distinct : (p : ℕ) → Distinct (q p))
    (apart : (p r : ℕ) → p ≢ r → Apart (q p) (q r)) (short : length (q prio) < fuel) where
  enqueue_first :
      s.ready_queue prio ≡ none
      → q prio ≡ []
      → (t : ℕ → Thread64) × (queue : ℕ → Option ℕ) × IsJoined fuel k prio s q t queue
  unfolding enqueue
  enqueue_first e f = (
    update s.threads64 k (record (s.threads64 k) { next = some k }),
    update s.ready_queue prio (some k),
    record {
      enqueued = ground arith;
      ring = rw (f, eq→== prio prio refl) (refl, rw (eq→== k k refl));
      others = λ p d l. rw (ne→== prio p d) (
          Ring-update s.threads64 k (record (s.threads64 k) { next = some k }) (s.ready_queue p)
            (q p) (out p) (rings p l));
      relinked = update-IsRelinked s.threads64 k (some k);
    },
  )

  enqueue_last :
      (h : ℕ) (xs : List ℕ)
      → s.ready_queue prio ≡ some h
      → q prio ≡ h ∷ xs
      → Ring s.threads64 (some h) (h ∷ xs)
      → (t : ℕ → Thread64) × (queue : ℕ → Option ℕ) × IsJoined fuel k prio s q t queue
  unfolding enqueue
  enqueue_last h xs e f ring =
      let dist : Distinct (h ∷ xs) = subst Distinct f (distinct prio) in
      let absent : Absent k (h ∷ xs) = subst (Absent k) f (out prio) in
      let joint =
        update s.threads64 (last h xs) (record (s.threads64 (last h xs)) { next = some k }) in
      let found : find_tail fuel s.threads64 h h ≡ some (last h xs) =
        find_tail_lem fuel s.threads64 h h xs (omega (arith, ap length f)) dist.0 ring.1 in
      (
        spliced s.threads64 k (last h xs) h,
        s.ready_queue,
        record {
          enqueued = ground arith;
          ring = rw (e, f) (refl, spliced-Links s.threads64 k h h xs absent dist ring.1);
          others = λ p d l.
              spliced-Ring s.threads64 k h (last h xs) (s.ready_queue p) (q p) (out p)
                (Apart-last h xs (q p) (subst (λ u. Apart u (q p)) f (apart prio p d))) (rings p l);
          relinked =
              IsRelinked-trans s.threads64 joint (spliced s.threads64 k (last h xs) h)
                (update-IsRelinked s.threads64 (last h xs) (some k))
                (update-IsRelinked joint k (some h));
        },
      )

  pub enqueue_joins :
      (o : Option ℕ) (l : List ℕ)
      → s.ready_queue prio ≡ o
      → q prio ≡ l
      → Ring s.threads64 o l
      → (t : ℕ → Thread64) × (queue : ℕ → Option ℕ) × IsJoined fuel k prio s q t queue
  enqueue_joins none [] e f ring = enqueue_first e f
  enqueue_joins none (x ∷ xs) e f ring = elim ring [ ]
  enqueue_joins (some h) [] e f ring = elim ring [ ]
  enqueue_joins (some h) (x ∷ xs) e f ring = enqueue_last x xs (e ∙ ap some ring.0) f (refl, ring.1)
