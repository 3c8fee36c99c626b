-- ===== src/Sched64/Ticks.antt =====
-- sched64.c: the timer tick, and the first stack of a thread.
use neka_kernel.Base.{
  ℕ, zero, suc, ◌+◌, ◌-◌, ◌*◌, ◌/◌, ◌%◌, ◌<◌, ◌≡◌, ◌⊎◌, refl, arith, true, false, some, ltb, ◌==◌,
  update, update_self, Bool-cases, inl, inr,
}
use neka_kernel.Nkern.{nkern_is_locked, nkern_request_reschedule}
use neka_kernel.Sched64.{
  Scheduler64, Tick, clear_slots, initial_stack, sched64_reschedule, sched64_timer_tick,
  stack_size64,
}

abbrev pub with_slice : Scheduler64 → ℕ → ℕ → Scheduler64
with_slice s t n = record s {
  threads64 = update s.threads64 t (record (s.threads64 t) { time_slice = n });
}

-- A tick on a CPU that runs a thread with `n + 1` ticks left counts one down when `n` is positive.
-- When it was the last one the thread gets 5 new ones, and the CPU reschedules, or, inside the
-- kernel lock, only notes the request, which its `NKern_Unlock` then finds.
pub timer_tick_correct :
    (c t n : ℕ) (s : Scheduler64)
    → s.current c ≡ some t
    → (s.threads64 t).time_slice ≡ suc n
    → ((0 < n) × (sched64_timer_tick c s ≡ Tick.ticks (with_slice s t n)))
      ⊎ ((n ≡ 0)
          × (((nkern_is_locked c s.nkern ≡ true)
                × (s' : Scheduler64) × (sched64_timer_tick c s ≡ Tick.requests s')
                × (s'.nkern.reschedule_pending c ≡ true)
                × (s'.threads64 ≡ (with_slice s t 5).threads64)
                × (s'.current ≡ s.current))
              ⊎ ((nkern_is_locked c s.nkern ≡ false)
                  × (sched64_timer_tick c s
                      ≡ Tick.reschedules (sched64_reschedule c (with_slice s t 5))))))
unfolding sched64_timer_tick nkern_request_reschedule
timer_tick_correct c t zero s at slice = inr (
  refl,
  elim (Bool-cases (nkern_is_locked c s.nkern)) [
    | inl e ↦ inl (
      e,
      record (with_slice s t 5) { nkern = nkern_request_reschedule c s.nkern },
      rw (sched64_timer_tick, at, slice, e),
      update_self s.nkern.reschedule_pending c true,
      refl,
      refl,
    )
    | inr e ↦ inr (e, rw (sched64_timer_tick, at, slice, e))
  ],
)
timer_tick_correct c t (suc n) s at slice =
    let some_left : ltb 0 (suc (suc n)) ≡ true = ground arith in
    let one_less : suc (suc n) - 1 ≡ suc n = omega arith in
    let not_last : (suc n == 0) ≡ false = ground arith in
    inl (omega arith, rw (sched64_timer_tick, at, slice, some_left, one_less, not_last))

-- `context_switch64` pops six registers and the flags and returns; `thread_start64` pops once more.
-- From the first stack pointer of a thread these find six zeros, flags with interrupts on,
-- `thread_start64` and the entry point; the pointer then is 8 above a multiple of 16, as at the
-- entry of a function, when the stack is aligned to 16.
pub initial_stack_correct :
    (base entry start : ℕ) (old : ℕ → ℕ)
    → base % 16 ≡ 0
    → let (stack, rsp) = initial_stack base entry start old in
      let slot = (rsp - base) / 8 in
      ((i : ℕ) → i < 6 → stack (slot + i) ≡ 0)
      × (stack (slot + 6) ≡ 0x202)
      × (stack (slot + 7) ≡ start)
      × (stack (slot + 8) ≡ entry)
      × ((rsp + 9 * 8) % 16 ≡ 8)
      × (rsp + 10 * 8 ≡ base + stack_size64)
      × ((i : ℕ) → i < slot → stack i ≡ old i)
unfolding initial_stack clear_slots
initial_stack_correct base entry start old aligned =
    let slot : (base + 1014 * 8 - base) / 8 ≡ 1014 = omega arith in
    rw slot (λ i l. ground arith, refl, refl, refl, omega arith, omega arith, λ i l. ground arith)
