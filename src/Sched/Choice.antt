-- ===== src/Sched/Choice.antt =====
-- sched.c and sched64.c: the two schedulers choose alike.
use neka_kernel.Base.{
  ℕ, zero, suc, ◌≡◌, ◌⊎◌, inl, inr, refl, ap, ◌∙◌, Bool, ◌&&◌, not, Option, none, some, ◌==◌, eq→==,
  if◌then◌else◌, Bool-cases, update, bit,
}
use neka_kernel.Nkern.{Nkern, nkern_lock_for_switch}
use neka_kernel.Sched.{
  ThreadState, Thread, Scheduler, Departure, highest_bit_from, find_highest_bit, is_same, choose,
  change_state, depart, sched_reschedule,
}
use neka_kernel.Sched64.{
  Thread64State, Thread64, Scheduler64, Outcome, highest_from, find_highest_bit64, is_thread,
  pick_next, set_state, switch_to, sched64_reschedule,
}

-- The state of the one scheduler as that of the other, on CPU 0.
abbrev state_64 : ThreadState → Thread64State
state_64 ThreadState.thread_unused = Thread64State.t64_unused
state_64 ThreadState.thread_ready = Thread64State.t64_ready
state_64 ThreadState.thread_running = Thread64State.t64_running
state_64 ThreadState.thread_suspended = Thread64State.t64_unused

abbrev thread_64 : Thread → Thread64
thread_64 t = record {
  rsp = t.esp;
  cr3 = 0;
  priority = t.priority;
  state = state_64 t.state;
  time_slice = t.time_slice;
  stack = t.stack;
  name = t.name;
  next = t.next;
}

abbrev pub as_64 : Nkern → Scheduler → Scheduler64
as_64 n s = record {
  ready_bitmap = s.ready_bitmap;
  ready_queue = s.ready_queue;
  current = λ c. if c == 0 then s.current else none;
  threads64 = λ i. thread_64 (s.threads i);
  thread64_count = s.thread_count;
  loaded_cr3 = λ c. 0;
  nkern = n;
}

-- What a reschedule decides: the thread that runs, the heads of the rings, and, for a switch, whose
-- stack pointer is saved and which one is loaded.
abbrev pub Decision : Type 0
Decision = Option ℕ × (ℕ → Option ℕ) × Option (Option ℕ × ℕ)

abbrev of_departure : Departure × Scheduler → Decision
of_departure (Departure.returns, s) = (s.current, s.ready_queue, none)
of_departure (Departure.switches p sp, s) = (s.current, s.ready_queue, some (p, sp))

abbrev of_outcome : Outcome × Scheduler64 → Decision
of_outcome (Outcome.returns, s) = (s.current 0, s.ready_queue, none)
of_outcome (Outcome.switches p sp, s) = (s.current 0, s.ready_queue, some (p, sp))

abbrev pub decision : Option (Departure × Scheduler) → Option Decision
decision none = none
decision (some r) = some (of_departure r)

abbrev pub decision_64 : Option (Outcome × Scheduler64) → Option Decision
decision_64 none = none
decision_64 (some r) = some (of_outcome r)

same_from : (b pos : ℕ) → highest_bit_from b pos ≡ highest_from b pos
unfolding highest_bit_from highest_from
same_from b zero = refl
same_from b (suc pos) =
    ap (λ (o : Option ℕ). if bit b (suc pos) then some (suc pos) else o) (same_from b pos)

same_highest : (b : ℕ) → find_highest_bit b ≡ find_highest_bit64 b
unfolding find_highest_bit find_highest_bit64
same_highest b = ap (λ (o : Option ℕ). if b == 0 then none else o) (same_from b 31)

same_thread : (o : Option ℕ) (t : ℕ) → is_same o t ≡ is_thread o t
unfolding is_same is_thread
same_thread none t = refl
same_thread (some u) t = refl

module _ (n : Nkern) (s : Scheduler) where
  same_choose : (prio head : ℕ) → choose prio head s ≡ pick_next prio head s.current (as_64 n s)
  unfolding choose pick_next
  same_choose prio head =
      ap
        (λ (b : Bool). elim (s.threads head).next as (λ _. ℕ × (ℕ → Option ℕ)) [
          | none ↦ (head, s.ready_queue)
          | some k ↦
              if b && not (k == head)
              then (k, update s.ready_queue prio (some k))
              else (head, s.ready_queue)
        ])
        (same_thread s.current head)

-- Behind the choice, by the thread that ran before.
same_depart :
    (n : Nkern) (next : ℕ) (s : Scheduler) (prev : Option ℕ)
    → let s' = record s { current = prev } in
      of_departure (depart next s') ≡ of_outcome (switch_to 0 next prev (as_64 n s'))
unfolding depart is_same change_state switch_to is_thread set_state
same_depart n next s none = rw (eq→== next next refl)
same_depart n next s (some p) = elim (Bool-cases (p == next)) [
  | inl same ↦ rw same
  | inr other ↦ rw (other, eq→== next next refl)
]

-- With a ring to serve.
same_served :
    (n : Nkern) (s : Scheduler) (prio head : ℕ)
    → let (next, queue) = choose prio head s in
      of_departure (depart next (record s { ready_queue = queue })) ≡ (
        let (next', queue') = pick_next prio head s.current (as_64 n s) in
        of_outcome (switch_to 0 next' s.current (record (as_64 n s) { ready_queue = queue' })))
same_served n s prio head =
    let k = choose prio head s in
    same_depart n k.0 (record s { ready_queue = k.1 }) s.current
    ∙ ap
        (λ (z : ℕ × (ℕ → Option ℕ)).
          of_outcome (switch_to 0 z.0 s.current (record (as_64 n s) { ready_queue = z.1 })))
        (same_choose n s prio head)

Option-cases : (o : Option ℕ) → (o ≡ none) ⊎ ((x : ℕ) × (o ≡ some x))
Option-cases none = inl refl
Option-cases (some x) = inr (x, refl)

module _ (n : Nkern) (s : Scheduler) where
  abbrev locked : Scheduler64
  locked = as_64 (nkern_lock_for_switch 0 n) s

  none_ready :
      find_highest_bit64 s.ready_bitmap ≡ none
      → decision (sched_reschedule s) ≡ decision_64 (sched64_reschedule 0 (as_64 n s))
  unfolding sched_reschedule sched64_reschedule
  none_ready e =
      let f = same_highest s.ready_bitmap ∙ e in rw (sched_reschedule, sched64_reschedule, f)

  empty_ring :
      (prio : ℕ)
      → find_highest_bit64 s.ready_bitmap ≡ some prio
      → s.ready_queue prio ≡ none
      → decision (sched_reschedule s) ≡ decision_64 (sched64_reschedule 0 (as_64 n s))
  unfolding sched_reschedule sched64_reschedule
  empty_ring prio e g =
      let f = same_highest s.ready_bitmap ∙ e in rw (sched_reschedule, sched64_reschedule, f, g)

  with_ring :
      (prio head : ℕ)
      → find_highest_bit64 s.ready_bitmap ≡ some prio
      → s.ready_queue prio ≡ some head
      → decision (sched_reschedule s) ≡ decision_64 (sched64_reschedule 0 (as_64 n s))
  unfolding sched_reschedule sched64_reschedule
  with_ring prio head e g =
      let f = same_highest s.ready_bitmap ∙ e in
      rw (sched_reschedule, sched64_reschedule, f, g)
        (ap some (same_served (nkern_lock_for_switch 0 n) s prio head))

-- Whatever the state, `sched_reschedule` decides what `sched64_reschedule` does on CPU 0 of the same
-- state: which thread runs, how the rings turn, and between which stacks to switch.
pub reschedule_as_64 :
    (n : Nkern) (s : Scheduler)
    → decision (sched_reschedule s) ≡ decision_64 (sched64_reschedule 0 (as_64 n s))
reschedule_as_64 n s = elim (Option-cases (find_highest_bit64 s.ready_bitmap)) [
  | inl e ↦ none_ready n s e
  | inr (prio, e) ↦ elim (Option-cases (s.ready_queue prio)) [
    | inl g ↦ empty_ring n s prio e g
    | inr (head, g) ↦ with_ring n s prio head e g
  ]
]
