-- ===== src/Apic/Indexes.antt =====
-- apic.c: the index of a CPU, with what gdt64.c and nkern_lock.c make of it.
use neka_kernel.Base.{
  ℕ, ◌+◌, ◌<◌, ◌≤◌, ◌≡◌, refl, arith, leb, ltb, ltb→lt, ltb→le, Bool-cases, ◌⊎◌, inl, inr, lt→ltb,
  le→ltb, ◌==◌, true, false, update_self,
}
use neka_kernel.Apic.{lapic_get_id, get_cpu_index, max_tracked_cpus}
use neka_kernel.Gdt64.{Gdt64, gdt_setup_cpu_tss, gdt_get_tss_rsp0, max_tss_cpus}
use neka_kernel.Gdt64.Tasks.{IsLinked, HasTask, setup_cpu_tss_correct}
use neka_kernel.Nkern.{Nkern, lock_enter, nkern_lock}

index_small : (reg : ℕ) → lapic_get_id reg < 16 → get_cpu_index reg ≡ lapic_get_id reg
unfolding get_cpu_index
index_small reg h = rw (lt→ltb (lapic_get_id reg) max_tracked_cpus h)

index_large : (reg : ℕ) → 16 ≤ lapic_get_id reg → get_cpu_index reg ≡ 0
unfolding get_cpu_index
index_large reg h = rw (le→ltb (lapic_get_id reg) max_tracked_cpus h)

-- A CPU of a high index gets no TSS.
no_task :
    (cpu : ℕ) (s : Gdt64) → 4 ≤ cpu → (gdt_setup_cpu_tss cpu s ≡ s) × (gdt_get_tss_rsp0 cpu s ≡ 0)
unfolding gdt_setup_cpu_tss gdt_get_tss_rsp0
no_task cpu s h = let high : leb max_tss_cpus cpu ≡ true = ground arith in (rw high, rw high)

-- A CPU whose count is not 0 is taken to hold the lock.
enters_at_once :
    (c : ℕ) (n : Nkern) → 0 < n.preempt_disable_count c → nkern_lock c n ≡ lock_enter c c n
unfolding nkern_lock lock_enter
enters_at_once c n h =
    let deeper : (n.preempt_disable_count c + 1 == 1) ≡ false = ground arith in
    rw (update_self n.preempt_disable_count c (n.preempt_disable_count c + 1), deeper)

-- Three ranges of APIC ids, while CPU 0 is inside the kernel lock. A CPU with an id below 4 has it as
-- its index, and gets a task of its own. One with an id from 4 to 15 has it as its index, and
-- `gdt_setup_cpu_tss` does nothing for it. One with an id from 16 on has the index 0 of the boot CPU:
-- it loads the task of CPU 0, set up anew with that CPU's stack, and its `NKern_Lock` enters as well,
-- without a look at the spinlock.
pub cpu_index_ranges :
    (reg : ℕ) (s : Gdt64) (n : Nkern)
    → IsLinked s
    → 0 < n.preempt_disable_count 0
    → let id = lapic_get_id reg in
      let c = get_cpu_index reg in
      ((id < 4) × (c ≡ id) × HasTask (gdt_setup_cpu_tss c s) id (gdt_setup_cpu_tss c s).tr)
      ⊎ (((4 ≤ id)
            × (id < 16)
            × (c ≡ id)
            × (gdt_setup_cpu_tss c s ≡ s)
            × (gdt_get_tss_rsp0 c s ≡ 0))
          ⊎ ((16 ≤ id)
              × (c ≡ 0)
              × HasTask (gdt_setup_cpu_tss c s) 0 (gdt_setup_cpu_tss c s).tr
              × (nkern_lock c n ≡ lock_enter 0 0 n)))
cpu_index_ranges reg s n v inside = elim (Bool-cases (ltb (lapic_get_id reg) 4)) [
  | inl e ↦
      let h = ltb→lt _ _ e in
      inl (
        rw (index_small reg (omega arith))
          (h, refl, (setup_cpu_tss_correct (lapic_get_id reg) s v h).0))
  | inr e ↦ inr (elim (Bool-cases (ltb (lapic_get_id reg) 16)) [
    | inl f ↦
        let low = ltb→le _ _ e in
        let none_left = no_task (lapic_get_id reg) s low in
        inl
          (rw (index_small reg (ltb→lt _ _ f)) (low, ltb→lt _ _ f, refl, none_left.0, none_left.1))
    | inr f ↦
        let high = ltb→le _ _ f in
        inr (
          rw (index_large reg high)
            (high, refl, (setup_cpu_tss_correct 0 s v (omega arith)).0, enters_at_once 0 n inside))
  ])
]
