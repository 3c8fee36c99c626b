-- ===== src/Sched64/Sharing.antt =====
-- sched64.c: one queue served by several CPUs.
use neka_kernel.Base.{
  ℕ, ◌≡◌, ◌≢◌, refl, ap, ◌∙◌, arith, Option, some, List, [], ◌∷◌, Bool-cases, inl, inr, ltb, ltb→lt,
  ltb→le,
}
use neka_kernel.Sched64.{Scheduler64, Outcome, is_thread, sched64_reschedule}
use neka_kernel.Sched64.Queues.{IsQueued}
use neka_kernel.Sched64.Turns.{served, is_thread-true}
use neka_kernel.Sched64.Reschedule.{IsTop, reschedule_correct}

served_other :
    (prev : Option ℕ) (x : ℕ) (xs : List ℕ) → prev ≢ some x → served prev (x ∷ xs) ≡ x ∷ xs
served_other prev x [] d = refl
served_other prev x (y ∷ ys) d = elim (Bool-cases (is_thread prev x)) [
  | inl e ↦ absurd (d (is_thread-true prev x e))
  | inr e ↦ rw e
]

same_top :
    (q : ℕ → List ℕ) (p prio x : ℕ) (xs : List ℕ)
    → q prio ≡ x ∷ xs
    → q p ≢ []
    → IsTop q p
    → IsTop q prio
    → p ≡ prio
same_top q p prio x xs f busy high top = elim (Bool-cases (ltb p prio)) [
  | inl l ↦ absurd (cc (f, high prio (ltb→lt _ _ l)))
  | inr l ↦ elim (Bool-cases (ltb prio p)) [
    | inl g ↦ absurd (busy (top p (ltb→lt _ _ g)))
    | inr g ↦ omega (arith, ltb→le _ _ l, ltb→le _ _ g)
  ]
]

abbrev first : ℕ → List ℕ → ℕ
first d [] = d
first d (x ∷ xs) = x

-- The queue does not lose a thread that runs: when the head of the highest queue runs on CPU `d`, a
-- reschedule on another CPU `c` that runs another thread switches to the same thread, which then is
-- the current thread of both CPUs, with one stack.
pub two_cpus_one_thread :
    (c d : ℕ) (s : Scheduler64) (q : ℕ → List ℕ) (prio x : ℕ) (xs : List ℕ)
    → IsQueued s q
    → q prio ≡ x ∷ xs
    → IsTop q prio
    → c ≢ d
    → s.current d ≡ some x
    → s.current c ≢ some x
    → (r : Outcome × Scheduler64) × (sched64_reschedule c s ≡ some r)
      × (r.1.current c ≡ some x)
      × (r.1.current d ≡ some x)
two_cpus_one_thread c d s q prio x xs v f top apart there away = elim (reschedule_correct c s q v) [
  | inl (none_ready, e) ↦ absurd (cc (f, none_ready prio))
  | inr (p, busy, high, (h, rest, r, e, sv)) ↦
      let same : p ≡ prio = same_top q p prio x xs f busy high top in
      let turn : h ∷ rest ≡ x ∷ xs =
        sv.turn
        ∙ ap (λ k. served (s.current c) (q k)) same
        ∙ ap (served (s.current c)) f
        ∙ served_other (s.current c) x xs away in
      (r, e, sv.runs ∙ ap (λ l. some (first h l)) turn, sv.cpus d apart ∙ there)
]
