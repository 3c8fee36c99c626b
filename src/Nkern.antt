-- ===== src/Nkern.antt =====
-- nkern_lock.c: the kernel lock. Each CPU counts how deep it is inside, and the first level takes a
-- spinlock that all CPUs share.
pub mod Interleaving
mod Exclusion
pub mod Client
mod Tests
use neka_kernel.Base.{
  ℕ, ◌+◌, ◌-◌, ◌≡◌, Bool, true, false, Option, none, some, ltb, ◌==◌, if◌then◌else◌, update,
}

-- The static variables, with the interrupt flag of each CPU. A CPU is its `get_cpu_index()`.
pub record Nkern : Type 0 where
  pub preempt_disable_count : ℕ → ℕ
  pub reschedule_pending : ℕ → Bool
  pub saved_if : ℕ → Bool
  pub big_kernel_lock : Bool
  pub interrupts : ℕ → Bool

-- `pushfq; cli`, and what stands before the spinlock, on CPU `p`. The caller has read the index `c`
-- before, when it was perhaps on another CPU.
unfoldable pub lock_enter : ℕ → ℕ → Nkern → Nkern
lock_enter c p n =
    let flag = n.interrupts p in
    let count = n.preempt_disable_count c in
    record n {
      interrupts = update n.interrupts p false;
      saved_if = if count == 0 then update n.saved_if c flag else n.saved_if;
      preempt_disable_count = update n.preempt_disable_count c (count + 1);
    }

-- One `__sync_lock_test_and_set(lock, 1)`: the old value and the new state.
unfoldable pub test_and_set : Nkern → Bool × Nkern
test_and_set n = (n.big_kernel_lock, record n { big_kernel_lock = true })

-- `NKern_Lock` once its spinlock, if it is the first level, has been won, for a caller that stays on
-- its CPU throughout.
unfoldable pub nkern_lock : ℕ → Nkern → Nkern
unfolding lock_enter test_and_set
nkern_lock c n =
    let n1 = lock_enter c c n in if n1.preempt_disable_count c == 1 then (test_and_set n1).1 else n1

-- The decrement of `NKern_Unlock` and `NKern_UnlockAfterSwitch`.
unfoldable pub leave : ℕ → Nkern → Nkern
leave c n =
    let count = n.preempt_disable_count c in
    if ltb 0 count
    then record n { preempt_disable_count = update n.preempt_disable_count c (count - 1) }
    else n

unfoldable pub spin_release : Nkern → Nkern
spin_release n = record n { big_kernel_lock = false }

-- `NKern_Unlock` on CPU `p` behind the decrement, on a count of 0: the new state, and whether
-- `sched64_reschedule` is called. The interrupt flag is put back when that returns.
unfoldable pub unlock_last : ℕ → ℕ → Nkern → Bool × Nkern
unfolding spin_release
unlock_last c p n =
    let n1 = spin_release n in
    let pending = n1.reschedule_pending c in
    (
      pending,
      record n1 {
        reschedule_pending =
            if pending then update n1.reschedule_pending c false else n1.reschedule_pending;
        interrupts = if n1.saved_if c then update n1.interrupts p true else n1.interrupts;
      },
    )

unfoldable pub nkern_unlock : ℕ → Nkern → Bool × Nkern
unfolding leave unlock_last
nkern_unlock c n =
    let n1 = leave c n in
    if n1.preempt_disable_count c == 0 then unlock_last c c n1 else (false, n1)

unfoldable pub nkern_is_locked : ℕ → Nkern → Bool
nkern_is_locked c n = ltb 0 (n.preempt_disable_count c)

unfoldable pub nkern_request_reschedule : ℕ → Nkern → Nkern
nkern_request_reschedule c n = record n { reschedule_pending = update n.reschedule_pending c true }

-- `NKern_LockForSwitch` before its spinlock, likewise, and once that has been won.
unfoldable pub switch_enter : ℕ → ℕ → Nkern → Nkern
switch_enter c p n = record n {
  interrupts = update n.interrupts p false;
  preempt_disable_count = update n.preempt_disable_count c (n.preempt_disable_count c + 1);
}

unfoldable pub nkern_lock_for_switch : ℕ → Nkern → Nkern
unfolding switch_enter test_and_set
nkern_lock_for_switch c n =
    let n1 = switch_enter c c n in
    if n1.preempt_disable_count c == 1 then (test_and_set n1).1 else n1

-- `NKern_UnlockAfterSwitch` on CPU `p`, on a count of 0.
unfoldable pub switch_last : ℕ → Nkern → Nkern
unfolding spin_release
switch_last p n = let n1 = spin_release n in record n1 { interrupts = update n1.interrupts p true }

unfoldable pub nkern_unlock_after_switch : ℕ → Nkern → Nkern
unfolding leave switch_last
nkern_unlock_after_switch c n =
    let n1 = leave c n in if n1.preempt_disable_count c == 0 then switch_last c n1 else n1
