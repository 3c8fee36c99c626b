-- ===== src/Nkern/Interleaving.antt =====
-- nkern_lock.c: threads on several CPUs that enter and leave the kernel lock, a shared access at a
-- time.
use neka_kernel.Base.{
  ℕ, ◌<◌, ◌≡◌, Bool, true, false, Option, none, some, update, if◌then◌else◌, ◌==◌,
}
use neka_kernel.Nkern.{
  Nkern, lock_enter, test_and_set, leave, unlock_last, nkern_request_reschedule, switch_enter,
  switch_last,
}

-- Where a CPU stands: outside, in the spin loop of its first level, inside, or with its count back
-- at 0 and the spinlock not yet released, in either of the two unlock functions.
pub data Pc : Type 0 where
  outside spinning inside leaving leaving_switch : Pc

-- `cpu_of` is the CPU of a thread, and `calls` the index that a thread has read in `NKern_Lock` or
-- `NKern_LockForSwitch`, while it has not yet come to the `cli`.
pub record System : Type 0 where
  pub nkern : Nkern
  pub pc : ℕ → Pc
  pub cpu_of : ℕ → ℕ
  pub calls : ℕ → Option ℕ

-- Behind the increment: the first level spins, a deeper one is inside.
abbrev pub spins_or_enters : ℕ → Nkern → Pc
spins_or_enters c n = if n.preempt_disable_count c == 1 then Pc.spinning else Pc.inside

-- One step of thread `t` or of CPU `p`, on `cpus` CPUs with what `get_cpu_index` gives on each, and
-- with or without threads that move. A caller unlocks only what it has locked.
pub data Step (index : ℕ → ℕ) (cpus : ℕ) (moves : Bool) (s : System) : System → Type 0 where
  -- `int c = cpu_idx();`
  read :
      (t : ℕ)
      → s.cpu_of t < cpus
      → s.pc (s.cpu_of t) ≡ Pc.outside
      → Step index cpus moves s (record s { calls = update s.calls t (some (index (s.cpu_of t))) })
  -- The timer takes a thread off its CPU, and another CPU goes on with it.
  move :
      (t p : ℕ)
      → moves ≡ true
      → p < cpus
      → s.nkern.interrupts (s.cpu_of t) ≡ true
      → Step index cpus moves s (record s { cpu_of = update s.cpu_of t p })
  -- The `cli` and the count, with the index that was read.
  enter :
      (t c : ℕ)
      → s.calls t ≡ some c
      → s.pc (s.cpu_of t) ≡ Pc.outside
      → Step index cpus moves s (record s {
        nkern = lock_enter c (s.cpu_of t) s.nkern;
        pc = update s.pc (s.cpu_of t) (spins_or_enters c (lock_enter c (s.cpu_of t) s.nkern));
        calls = update s.calls t none;
      })
  enter_switch :
      (t c : ℕ)
      → s.calls t ≡ some c
      → s.pc (s.cpu_of t) ≡ Pc.outside
      → Step index cpus moves s (record s {
        nkern = switch_enter c (s.cpu_of t) s.nkern;
        pc = update s.pc (s.cpu_of t) (spins_or_enters c (switch_enter c (s.cpu_of t) s.nkern));
        calls = update s.calls t none;
      })
  -- The same functions further in, where no interrupt comes between the two.
  nest :
      (p : ℕ)
      → s.pc p ≡ Pc.inside
      → Step index cpus moves s (record s { nkern = lock_enter (index p) p s.nkern })
  nest_switch :
      (p : ℕ)
      → s.pc p ≡ Pc.inside
      → Step index cpus moves s (record s { nkern = switch_enter (index p) p s.nkern })
  -- The test-and-set of the spin loop: it wins or goes round.
  win :
      (p : ℕ)
      → s.pc p ≡ Pc.spinning
      → (test_and_set s.nkern).0 ≡ false
      → Step index cpus moves s
          (record s { nkern = (test_and_set s.nkern).1; pc = update s.pc p Pc.inside })
  lose :
      (p : ℕ)
      → s.pc p ≡ Pc.spinning
      → (test_and_set s.nkern).0 ≡ true
      → Step index cpus moves s (record s { nkern = (test_and_set s.nkern).1 })
  -- `NKern_Unlock` and `NKern_UnlockAfterSwitch`: from an inner level, and from the first.
  unnest :
      (p : ℕ)
      → s.pc p ≡ Pc.inside
      → 1 < s.nkern.preempt_disable_count (index p)
      → Step index cpus moves s (record s { nkern = leave (index p) s.nkern })
  last :
      (p : ℕ)
      → s.pc p ≡ Pc.inside
      → s.nkern.preempt_disable_count (index p) ≡ 1
      → Step index cpus moves s
          (record s { nkern = leave (index p) s.nkern; pc = update s.pc p Pc.leaving })
  last_switch :
      (p : ℕ)
      → s.pc p ≡ Pc.inside
      → s.nkern.preempt_disable_count (index p) ≡ 1
      → Step index cpus moves s
          (record s { nkern = leave (index p) s.nkern; pc = update s.pc p Pc.leaving_switch })
  release :
      (p : ℕ)
      → s.pc p ≡ Pc.leaving
      → Step index cpus moves s
          (record s { nkern = (unlock_last (index p) p s.nkern).1; pc = update s.pc p Pc.outside })
  release_switch :
      (p : ℕ)
      → s.pc p ≡ Pc.leaving_switch
      → Step index cpus moves s
          (record s { nkern = switch_last p s.nkern; pc = update s.pc p Pc.outside })
  -- A timer tick.
  request :
      (p : ℕ)
      → Step index cpus moves s (record s { nkern = nkern_request_reschedule (index p) s.nkern })

-- All locks free, interrupts on, and the threads on their CPUs.
abbrev pub boot : (ℕ → ℕ) → System
boot cpu_of = record {
  nkern = record {
    preempt_disable_count = λ _. 0;
    reschedule_pending = λ _. false;
    saved_if = λ _. false;
    big_kernel_lock = false;
    interrupts = λ _. true;
  };
  pc = λ _. Pc.outside;
  cpu_of = cpu_of;
  calls = λ _. none;
}

pub data Reach (index : ℕ → ℕ) (cpus : ℕ) (moves : Bool) : System → Type 0 where
  start : (cpu_of : ℕ → ℕ) → Reach index cpus moves (boot cpu_of)
  later :
      {s t : System}
      → Reach index cpus moves s
      → Step index cpus moves s t
      → Reach index cpus moves t
