-- ===== src/Sched64/Tests.antt =====
-- sched64.c: the theorems at two threads of one priority.
use neka_kernel.Base.{
  ℕ, zero, suc, ◌+◌, ◌*◌, ◌<◌, ◌≤◌, ◌≡◌, ◌≢◌, ◌⊎◌, refl, arith, true, false, Option, some, none,
  List, [], ◌∷◌, length, ◌==◌, if◌then◌else◌, bit, bit_zero,
}
use neka_kernel.Nkern.{Nkern, nkern_lock_for_switch, nkern_unlock_after_switch}
use neka_kernel.Sched64.{
  Thread64, Thread64State, Scheduler64, Outcome, Given, sched64_create_thread, sched64_reschedule,
}
use neka_kernel.Sched64.Rings.{Ring, Distinct, Below}
use neka_kernel.Sched64.Queues.{Apart, is_busy, IsQueued}
use neka_kernel.Sched64.Create.{IsCreated, create_correct}
use neka_kernel.Sched64.Fairness.{rounds, every_thread_runs}
use neka_kernel.Sched64.Reschedule.{IsServed, IsTop, reschedule_correct}
use neka_kernel.Sched64.Sharing.{two_cpus_one_thread}

abbrev idle_lock : Nkern
idle_lock = record {
  preempt_disable_count = λ c. 0;
  reschedule_pending = λ c. false;
  saved_if = λ c. true;
  big_kernel_lock = false;
  interrupts = λ c. true;
}

-- Threads 0 and 1 lead to each other.
abbrev two_threads : ℕ → Thread64
two_threads t = record {
  rsp = 0x9000 + 0x2000 * t;
  cr3 = 0x1000 * (t + 1);
  priority = 2;
  state = Thread64State.t64_ready;
  time_slice = 1;
  stack = λ i. 0;
  name = 0;
  next = some (if t == 0 then 1 else 0);
}

abbrev queues : ℕ → List ℕ
queues zero = []
queues (suc zero) = []
queues (suc (suc zero)) = 0 ∷ 1 ∷ []
queues (suc (suc (suc p))) = []

abbrev heads : ℕ → Option ℕ
heads zero = none
heads (suc zero) = none
heads (suc (suc zero)) = some 0
heads (suc (suc (suc p))) = none

-- CPU 1 runs thread 0, and the others run none.
abbrev two_ready : Scheduler64
two_ready = record {
  ready_bitmap = 4;
  ready_queue = heads;
  current = λ c. if c == 1 then some 0 else none;
  threads64 = two_threads;
  thread64_count = 2;
  loaded_cr3 = λ c. 0;
  nkern = idle_lock;
}

two_ready-rings : (p : ℕ) → Ring two_threads (heads p) (queues p)
two_ready-rings zero = tt
two_ready-rings (suc zero) = tt
two_ready-rings (suc (suc zero)) = (refl, (refl, refl))
two_ready-rings (suc (suc (suc p))) = tt

queues-idle : (p : ℕ) → 8 ≤ p → queues p ≡ []
queues-idle zero h = refl
queues-idle (suc zero) h = refl
queues-idle (suc (suc zero)) h = absurd (omega arith)
queues-idle (suc (suc (suc p))) h = refl

queues-Distinct : (p : ℕ) → Distinct (queues p)
queues-Distinct zero = tt
queues-Distinct (suc zero) = tt
queues-Distinct (suc (suc zero)) = ((λ e. absurd (omega arith), tt), (tt, tt))
queues-Distinct (suc (suc (suc p))) = tt

queues-Below : (p : ℕ) → Below 2 (queues p)
queues-Below zero = tt
queues-Below (suc zero) = tt
queues-Below (suc (suc zero)) = (omega arith, (omega arith, tt))
queues-Below (suc (suc (suc p))) = tt

queues-Apart : (p r : ℕ) → p ≢ r → Apart (queues p) (queues r)
queues-Apart zero r d = tt
queues-Apart (suc zero) r d = tt
queues-Apart (suc (suc zero)) zero d = (tt, (tt, tt))
queues-Apart (suc (suc zero)) (suc zero) d = (tt, (tt, tt))
queues-Apart (suc (suc zero)) (suc (suc zero)) d = absurd (d refl)
queues-Apart (suc (suc zero)) (suc (suc (suc r))) d = (tt, (tt, tt))
queues-Apart (suc (suc (suc p))) r d = tt

queues-length : (p : ℕ) → length (queues p) ≤ 2
queues-length zero = omega arith
queues-length (suc zero) = omega arith
queues-length (suc (suc zero)) = omega arith
queues-length (suc (suc (suc p))) = omega arith

queues-bits : (p : ℕ) → bit 4 p ≡ is_busy (queues p)
queues-bits zero = refl
queues-bits (suc zero) = refl
queues-bits (suc (suc zero)) = refl
queues-bits (suc (suc (suc p))) = bit_zero p

two_ready-IsQueued : IsQueued two_ready queues
two_ready-IsQueued = record {
  rings = λ p l. two_ready-rings p;
  idle = queues-idle;
  distinct = queues-Distinct;
  below = queues-Below;
  apart = queues-Apart;
  bounded = queues-length;
  bits = λ p l. queues-bits p;
  small = omega arith;
}

queues-IsTop : IsTop queues 2
queues-IsTop zero h = refl
queues-IsTop (suc zero) h = refl
queues-IsTop (suc (suc zero)) h = absurd (omega arith)
queues-IsTop (suc (suc (suc r))) h = refl

abbrev main_thread : Given
main_thread = record {
  entry = 0x10_0000;
  name = 0;
  thread_start64 = 0x10_1000;
  stack_base = λ t. 0x20_0000 + 0x2000 * t;
  address_space = 0x30_0000;
}

create_correct_example :
    (((16 ≤ 2) ⊎ (8 ≤ 2))
      × (sched64_create_thread 3 main_thread 2 two_ready ≡ some (none, two_ready)))
    ⊎ ((2 < 16)
        × (2 < 8)
        × ((s' : Scheduler64) × (sched64_create_thread 3 main_thread 2 two_ready
              ≡ some (some 2, s'))
            × IsCreated main_thread 2 two_ready queues s'))
create_correct_example =
    create_correct 3 main_thread 2 two_ready queues two_ready-IsQueued (omega arith)

reschedule_correct_example :
    (((p : ℕ) → queues p ≡ [])
      × (sched64_reschedule 1 two_ready
          ≡ some (
            Outcome.returns,
            record two_ready {
              nkern = nkern_unlock_after_switch 1 (nkern_lock_for_switch 1 idle_lock);
            },
          )))
    ⊎ ((prio : ℕ) × (queues prio ≢ [])
        × IsTop queues prio
        × ((h : ℕ) × (rest : List ℕ) × (r : Outcome × Scheduler64) × (sched64_reschedule 1 two_ready
              ≡ some r)
            × IsServed 1 prio two_ready queues h rest r))
reschedule_correct_example = reschedule_correct 1 two_ready queues two_ready-IsQueued

two_cpus_one_thread_example :
    (r : Outcome × Scheduler64) × (sched64_reschedule 0 two_ready ≡ some r)
    × (r.1.current 0 ≡ some 0)
    × (r.1.current 1 ≡ some 0)
two_cpus_one_thread_example =
    two_cpus_one_thread 0 1 two_ready queues 2 0 (1 ∷ []) two_ready-IsQueued refl queues-IsTop
      (λ e. absurd (omega arith)) refl (λ e. absurd (ground arith))

every_thread_runs_example :
    (s' : Scheduler64) × (rounds 1 1 two_ready ≡ some s') × (s'.current 1 ≡ some 1)
every_thread_runs_example =
    every_thread_runs 1 2 two_ready queues 0 1 [] [] two_ready-IsQueued queues-IsTop refl refl
