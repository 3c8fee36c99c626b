-- ===== src/Sched64/Fairness.antt =====
-- sched64.c: every ready thread of the highest priority gets its turn.
use neka_kernel.Base.{
  ℕ, zero, suc, ◌≡◌, ◌≢◌, refl, ap, ◌∙◌, arith, Option, some, none, List, [], ◌∷◌, ◌++◌, length,
  eq→==, update, update_self, update_ne, ltb, ltb→lt, ltb→le, Bool-cases, inl, inr, if◌then◌else◌,
}
use mathlib.Core.Path.{subst}
use neka_kernel.Nkern.{nkern_unlock_after_switch}
use neka_kernel.Sched64.{Scheduler64, Outcome, is_thread, sched64_reschedule}
use neka_kernel.Sched64.Queues.{IsQueued}
use neka_kernel.Sched64.Turns.{served}
use neka_kernel.Sched64.Reschedule.{IsServed, IsTop, reschedule_correct}

-- A reschedule on CPU `c`, up to where the thread that runs next is outside the kernel lock again:
-- behind `context_switch64` that thread calls `NKern_UnlockAfterSwitch`.
abbrev pub settle : ℕ → Outcome × Scheduler64 → Scheduler64
settle c (Outcome.returns, s) = s
settle c (Outcome.switches p rsp, s) = record s { nkern = nkern_unlock_after_switch c s.nkern }

abbrev pub rounds : ℕ → ℕ → Scheduler64 → Option Scheduler64
rounds zero c s = some s
rounds (suc n) c s = elim (sched64_reschedule c s) [
  | none ↦ none
  | some r ↦ rounds n c (settle c r)
]

rounds_first :
    (n c : ℕ) (s : Scheduler64) (r : Outcome × Scheduler64)
    → sched64_reschedule c s ≡ some r
    → rounds (suc n) c s ≡ rounds n c (settle c r)
rounds_first n c s r e = rw (rounds, e)

settle-IsQueued :
    (c : ℕ) (r : Outcome × Scheduler64) (q : ℕ → List ℕ) → IsQueued r.1 q → IsQueued (settle c r) q
settle-IsQueued c (Outcome.returns, s) q v = v
settle-IsQueued c (Outcome.switches p rsp, s) q v = record {
  rings = v.rings;
  idle = v.idle;
  distinct = v.distinct;
  below = v.below;
  apart = v.apart;
  bounded = v.bounded;
  bits = v.bits;
  small = v.small;
}

settle_current : (c d : ℕ) (r : Outcome × Scheduler64) → (settle c r).current d ≡ r.1.current d
settle_current c d (Outcome.returns, s) = refl
settle_current c d (Outcome.switches p rsp, s) = refl

nil≢cons : (x : ℕ) (xs l : List ℕ) → l ≡ x ∷ xs → l ≢ []
nil≢cons x xs l e n = absurd (cc (e, n))

-- Two priorities with threads, and none above either, are the same.
same_top : (q : ℕ → List ℕ) (p r : ℕ) → IsTop q p → q p ≢ [] → IsTop q r → q r ≢ [] → p ≡ r
same_top q p r tp np tr nr = elim (Bool-cases (ltb p r)) [
  | inl e ↦ absurd (nr (tp r (ltb→lt _ _ e)))
  | inr e ↦ elim (Bool-cases (ltb r p)) [
    | inl f ↦ absurd (np (tr p (ltb→lt _ _ f)))
    | inr f ↦ omega (arith, ltb→le _ _ e, ltb→le _ _ f)
  ]
]

module _ (c prio : ℕ) where
  -- CPU `c` runs the head of the queue of the highest priority.
  pub record Runs (s : Scheduler64) (q : ℕ → List ℕ) (x : ℕ) (xs : List ℕ) : Type 0 where
    pub queued : IsQueued s q
    pub top : IsTop q prio
    pub queue : q prio ≡ x ∷ xs
    pub current : s.current c ≡ some x

  next-turn :
      (s : Scheduler64) (q : ℕ → List ℕ) (x y : ℕ) (ys : List ℕ)
      → Runs s q x (y ∷ ys)
      → served (s.current c) (q prio) ≡ y ∷ (ys ++ (x ∷ []))
  unfolding is_thread
  next-turn s q x y ys v =
      ap (λ o. served o (q prio)) v.current
      ∙ ap (served (some x)) v.queue
      ∙ ap (λ b. if b then (y ∷ ys) ++ (x ∷ []) else x ∷ y ∷ ys) (eq→== x x refl)

  next-Runs :
      (s : Scheduler64) (q : ℕ → List ℕ) (x y : ℕ) (ys : List ℕ) (h : ℕ) (rest : List ℕ)
      (r : Outcome × Scheduler64)
      → Runs s q x (y ∷ ys)
      → IsServed c prio s q h rest r
      → Runs (settle c r) (update q prio (y ∷ (ys ++ (x ∷ [])))) y (ys ++ (x ∷ []))
  next-Runs s q x y ys h rest r v d =
      let t = d.turn ∙ next-turn s q x y ys v in
      record {
        queued = settle-IsQueued c r _ (subst (λ l. IsQueued r.1 (update q prio l)) t d.queued);
        top = λ p above. update_ne q prio p _ (λ e. absurd (omega arith)) ∙ v.top p above;
        queue = update_self q prio _;
        current = settle_current c c r ∙ d.runs ∙ ap some (cc t);
      }

  one_round :
      (s : Scheduler64) (q : ℕ → List ℕ) (x y : ℕ) (ys : List ℕ)
      → Runs s q x (y ∷ ys)
      → (r : Outcome × Scheduler64) × (sched64_reschedule c s ≡ some r)
        × Runs (settle c r) (update q prio (y ∷ (ys ++ (x ∷ [])))) y (ys ++ (x ∷ []))
  one_round s q x y ys v = elim (reschedule_correct c s q v.queued) [
    | inl (none_ready, e) ↦ absurd (nil≢cons x (y ∷ ys) (q prio) v.queue (none_ready prio))
    | inr (p, busy, top, (h, rest, r, e, d)) ↦
        let same = same_top q p prio top busy v.top (nil≢cons x (y ∷ ys) (q prio) v.queue) in
        (r, e, next-Runs s q x y ys h rest r v (subst (λ z. IsServed c z s q h rest r) same d))
  ]

  append_snoc :
      (pre post : List ℕ) (t x : ℕ)
      → (pre ++ (t ∷ post)) ++ (x ∷ []) ≡ pre ++ (t ∷ (post ++ (x ∷ [])))
  append_snoc [] post t x = refl
  append_snoc (y ∷ ys) post t x = ap (λ l. y ∷ l) (append_snoc ys post t x)

  turn_comes :
      (pre post : List ℕ) (t x : ℕ) (s : Scheduler64) (q : ℕ → List ℕ)
      → Runs s q x (pre ++ (t ∷ post))
      → (s' : Scheduler64) × (rounds (suc (length pre)) c s ≡ some s') × (s'.current c ≡ some t)
  turn_comes [] post t x s q v =
      let (r, e, next) = one_round s q x t post v in
      (settle c r, rounds_first zero c s r e, next.current)
  turn_comes (y ∷ ys) post t x s q v =
      let (r, e, next) = one_round s q x y (ys ++ (t ∷ post)) v in
      let again =
        subst (λ l. Runs (settle c r) (update q prio (y ∷ l)) y l) (append_snoc ys post t x) next in
      let (s', f, runs) = turn_comes ys (post ++ (x ∷ [])) t y (settle c r) _ again in
      (s', rounds_first (suc (length ys)) c s r e ∙ f, runs)

-- On a CPU that runs the head of the queue of the highest priority, and reschedules alone, the thread
-- at position `n + 1` of that queue runs after `n + 1` reschedules, so each gets its turn.
pub every_thread_runs :
    (c prio : ℕ) (s : Scheduler64) (q : ℕ → List ℕ) (x t : ℕ) (pre post : List ℕ)
    → IsQueued s q
    → IsTop q prio
    → q prio ≡ x ∷ (pre ++ (t ∷ post))
    → s.current c ≡ some x
    → (s' : Scheduler64) × (rounds (suc (length pre)) c s ≡ some s') × (s'.current c ≡ some t)
every_thread_runs c prio s q x t pre post queued top queue current =
    turn_comes c prio pre post t x s q
      (record { queued = queued; top = top; queue = queue; current = current })
