-- ===== src/Sched/Tests.antt =====
-- sched.c: the theorem at two threads of one priority, of which the head runs.
use neka_kernel.Base.{ℕ, ◌≡◌, none, some, false, ◌==◌, if◌then◌else◌}
use neka_kernel.Nkern.{Nkern}
use neka_kernel.Sched.{ThreadState, Thread, Scheduler, sched_reschedule}
use neka_kernel.Sched.Choice.{as_64, decision, decision_64, reschedule_as_64}
use neka_kernel.Sched64.{sched64_reschedule}

abbrev ready : ℕ → Thread
ready t = record {
  esp = if t == 0 then 0x1000 else 0x2000;
  priority = 3;
  state = ThreadState.thread_ready;
  time_slice = 5;
  stack = λ i. 0;
  name = 0;
  next = if t == 0 then some 1 else some 0;
}

abbrev two_ready : Scheduler
two_ready = record {
  ready_bitmap = 8;
  ready_queue = λ p. if p == 3 then some 0 else none;
  current = some 0;
  threads = ready;
  thread_count = 2;
}

abbrev unlocked : Nkern
unlocked = record {
  preempt_disable_count = λ c. 0;
  reschedule_pending = λ c. false;
  saved_if = λ c. false;
  big_kernel_lock = false;
  interrupts = λ c. false;
}

reschedule_as_64_example :
    decision (sched_reschedule two_ready)
    ≡ decision_64 (sched64_reschedule 0 (as_64 unlocked two_ready))
reschedule_as_64_example = reschedule_as_64 unlocked two_ready
