-- ===== src/Main64/First.antt =====
-- main64.c: the first reschedule in the loop of `kernel_main64`.
use neka_kernel.Base.{
  ℕ, ◌<◌, ◌≡◌, ◌≢◌, ap, ◌∙◌, sym, arith, Option, none, some, List, [], ◌∷◌, ◌==◌, Bool-cases, inl,
  inr, ltb, ltb→lt, ltb→le, ==→eq, ==→ne,
}
use mathlib.Core.Path.{subst}
use neka_kernel.Apic.{get_cpu_index}
use neka_kernel.Nkern.{Nkern}
use neka_kernel.Sched64.{Scheduler64, Outcome, is_thread, sched64_reschedule}
use neka_kernel.Sched64.Queues.{IsQueued}
use neka_kernel.Sched64.Reschedule.{reschedule_correct, IsTop}
use neka_kernel.Sched64.Turns.{served}
use neka_kernel.Main64.Spawning.{ready_queues}

-- The boot CPU has an index below 16.
pub index_small : (id_reg : ℕ) → get_cpu_index id_reg < 16
unfolding get_cpu_index
index_small id_reg = ground arith

-- Only two queues hold threads.
idle_queue : (p : ℕ) → 5 ≢ p → 2 ≢ p → ready_queues p ≡ []
idle_queue p d e = ground arith

top_is_five : (prio : ℕ) → ready_queues prio ≢ [] → IsTop ready_queues prio → prio ≡ 5
top_is_five prio busy top = elim (Bool-cases (ltb prio 5)) [
  | inl below ↦ absurd (cc (top 5 (ltb→lt prio 5 below)))
  | inr above ↦ elim (Bool-cases (5 == prio)) [
    | inl e ↦ sym (==→eq 5 prio e)
    | inr d ↦
        let far : 2 ≢ prio = λ q. absurd (omega (arith, ltb→le prio 5 above)) in
        absurd (busy (idle_queue prio (==→ne 5 prio d) far))
  ]
]

head_is_a : (h : ℕ) (rest : List ℕ) → h ∷ rest ≡ served none (0 ∷ 1 ∷ 3 ∷ []) → h ≡ 0
unfolding is_thread
head_is_a h rest e = cc

-- With no thread running, a reschedule runs the head of the queue of priority 5.
pub first_lem :
    (c : ℕ) (s : Scheduler64)
    → IsQueued s ready_queues
    → s.current c ≡ none
    → (r : Outcome × Scheduler64) × (sched64_reschedule c s ≡ some r) × (r.1.current c ≡ some 0)
first_lem c s v idle = elim (reschedule_correct c s ready_queues v) [
  | inl (all_empty, e) ↦ absurd (cc (all_empty 5))
  | inr (prio, busy, top, (h, rest, r, e, turn)) ↦
      let five = top_is_five prio busy top in
      let line : h ∷ rest ≡ served none (ready_queues 5) =
        subst (λ (p : ℕ). h ∷ rest ≡ served none (ready_queues p)) five
          (subst (λ (o : Option ℕ). h ∷ rest ≡ served o (ready_queues prio)) idle turn.turn) in
      (r, e, turn.runs ∙ ap some (head_is_a h rest line))
]

-- The queues do not depend on the state of the kernel lock.
pub IsQueued-nkern :
    (s : Scheduler64) (q : ℕ → List ℕ) (n : Nkern)
    → IsQueued s q
    → IsQueued (record s { nkern = n }) q
IsQueued-nkern s q n v = record {
  rings = v.rings;
  idle = v.idle;
  distinct = v.distinct;
  below = v.below;
  apart = v.apart;
  bounded = v.bounded;
  bits = v.bits;
  small = v.small;
}
