-- ===== src/Nkern/Client.antt =====
-- nkern_lock.c: what a caller on one CPU sees of the kernel lock, and the interface it serves.
use neka_kernel.Base.{ℕ, ◌+◌, ◌-◌, ◌<◌, ◌≡◌, arith, true, false}
use neka_kernel.Heap.{Lock}
use neka_kernel.Nkern.{
  Nkern, nkern_lock, nkern_unlock, nkern_lock_for_switch, nkern_unlock_after_switch,
}

pub depth-nkern_lock :
    (c : ℕ) (n : Nkern) → (nkern_lock c n).preempt_disable_count c ≡ n.preempt_disable_count c + 1
unfolding nkern_lock
depth-nkern_lock c n = ground arith

pub depth-nkern_unlock :
    (c : ℕ) (n : Nkern)
    → (nkern_unlock c n).1.preempt_disable_count c ≡ n.preempt_disable_count c - 1
unfolding nkern_unlock
depth-nkern_unlock c n = ground arith

-- The kernel lock on CPU `c`, as the heap takes it.
abbrev pub kernel_lock : ℕ → Lock
kernel_lock c = record {
  State = Nkern;
  lock = nkern_lock c;
  unlock = λ n. (nkern_unlock c n).1;
  depth = λ n. n.preempt_disable_count c;
  depth-lock = depth-nkern_lock c;
  depth-unlock = depth-nkern_unlock c;
}

-- `NKern_Unlock` undoes `NKern_Lock`. At the first level, from a free spinlock, the count, the
-- spinlock and the interrupt flag of every CPU are as before, whatever the flag was, and a pending
-- reschedule is called and cleared; further in the count and the spinlock are as before and no
-- reschedule is called.
pub unlock-lock :
    (c : ℕ) (n : Nkern)
    → (n.preempt_disable_count c ≡ 0
        → n.big_kernel_lock ≡ false
        → let (called, n') = nkern_unlock c (nkern_lock c n) in
          ((i : ℕ)
            → (n'.preempt_disable_count i ≡ n.preempt_disable_count i)
              × (n'.interrupts i ≡ n.interrupts i))
          × (n'.big_kernel_lock ≡ false)
          × (called ≡ n.reschedule_pending c)
          × (n'.reschedule_pending c ≡ false))
      × (0 < n.preempt_disable_count c
          → let (called, n') = nkern_unlock c (nkern_lock c n) in
            ((i : ℕ) → n'.preempt_disable_count i ≡ n.preempt_disable_count i)
            × (n'.big_kernel_lock ≡ n.big_kernel_lock)
            × (called ≡ false))
unfolding nkern_lock nkern_unlock
unlock-lock c n = (
  λ top free. (λ i. (ground arith, ground arith), ground arith, ground arith, ground arith),
  λ nested. (λ i. ground arith, ground arith, ground arith),
)

-- The pair for the scheduler leaves the count and the spinlock as before too, but always leaves
-- interrupts on, at the first level.
pub unlock_after_switch-lock_for_switch :
    (c : ℕ) (n : Nkern)
    → n.preempt_disable_count c ≡ 0
    → n.big_kernel_lock ≡ false
    → let n' = nkern_unlock_after_switch c (nkern_lock_for_switch c n) in
      ((i : ℕ) → n'.preempt_disable_count i ≡ n.preempt_disable_count i)
      × (n'.big_kernel_lock ≡ false)
      × (n'.interrupts c ≡ true)
unfolding nkern_lock_for_switch nkern_unlock_after_switch
unlock_after_switch-lock_for_switch c n top free = (λ i. ground arith, ground arith, ground arith)
