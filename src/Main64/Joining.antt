-- ===== src/Main64/Joining.antt =====
-- smp.c: what `ap_entry64` has done when the CPU starts to take threads.
use neka_kernel.Base.{true, ℕ, ◌+◌, ◌*◌, ◌/◌, ◌%◌, ◌^◌, ◌<◌, ◌≡◌, ◌≢◌, false, [], ◌∷◌, ◌==◌}
use neka_kernel.Apic.{get_cpu_index}
use neka_kernel.Fpu.{fpu_init}
use neka_kernel.Fpu.Registers.{IsReady}
use neka_kernel.Gdt64.{max_tss_cpus, gdt_setup_cpu_tss}
use neka_kernel.Gdt64.Tasks.{IsLinked, HasTask}
use neka_kernel.Idt.{idt_load_current_cpu}
use neka_kernel.Paging64.{Paging64}
use neka_kernel.Paging64
use neka_kernel.Paging64.Outcomes
use neka_kernel.Paging64.Supply.{IsSound}
use neka_kernel.Paging64.Kernel.{IsKernelMap}
use neka_kernel.Paging64.Directories.{IsApart}
use neka_kernel.Paging64.Mmio.{AddsPage}
use neka_kernel.Terminal64.{text, print_calls}
use neka_kernel.Smp.{Smp}
use neka_kernel.Main64.Boot.{Platform, Kernel}

-- The kernel's map has a directory for the gigabyte of an address below 512 GB.
pub record Reaches (fuel : ℕ) (p : Paging64) (pa : ℕ) : Type 0 where
  pub sound : IsSound fuel p
  pub kernel : IsKernelMap p
  pub apart : IsApart p
  pub aligned : pa % 2 ^ 21 ≡ 0
  pub small : pa < 2 ^ 39
  pub mapped : (p.mem p.kernel_pdpt (pa / 2 ^ 30 % 512) % 2 == 0) ≡ false

-- The CPU has one of the four TSS, the linker has placed them below 2^64, and the boot CPU has mapped
-- the local APIC.
pub record CanJoin (fuel : ℕ) (b : Platform) (k : Kernel) : Type 0 where
  pub linked : IsLinked k.gdt
  pub known : get_cpu_index b.id_reg < max_tss_cpus
  pub reaches : Reaches fuel k.paging k.apic.lapic_base_pa

-- SSE instructions are allowed; the interrupt table of the kernel is loaded; the task register leads to
-- the CPU's own TSS and stack, and the tasks of other CPUs are kept; the page of the local APIC is
-- mapped; the flag `i` that the boot CPU waits for is set, and interrupts are allowed on this CPU.
pub record HasJoined (fuel : ℕ) (b : Platform) (i : ℕ) (k k' : Kernel) : Type 0 where
  pub fpu : IsReady k.fpu k'.fpu
  pub idtr : k'.idt.idtr ≡ k.idt.idt_ptr
  pub task : HasTask k'.gdt (get_cpu_index b.id_reg) k'.gdt.tr
  pub tasks :
      (d : ℕ)
      → d ≢ get_cpu_index b.id_reg
      → d < max_tss_cpus
      → HasTask k.gdt d (0x28 + d * 16)
      → HasTask k'.gdt d (0x28 + d * 16)
  pub device : AddsPage fuel k.apic.lapic_base_pa k.paging k'.paging
  pub ready : k'.smp.ap_ready i ≡ true
  pub others_ready : (j : ℕ) → i ≢ j → k'.smp.ap_ready j ≡ k.smp.ap_ready j
  pub unmasked : k'.scheduler.nkern.interrupts (get_cpu_index b.id_reg) ≡ true
  pub others_unmasked :
      (d : ℕ)
      → get_cpu_index b.id_reg ≢ d
      → k'.scheduler.nkern.interrupts d ≡ k.scheduler.nkern.interrupts d
  pub depth : k'.scheduler.nkern.preempt_disable_count ≡ k.scheduler.nkern.preempt_disable_count
  pub queues : k'.scheduler.ready_queue ≡ k.scheduler.ready_queue
  pub threads : k'.scheduler.threads64 ≡ k.scheduler.threads64
  pub heap : k'.heap ≡ k.heap

module _ (fuel : ℕ) (b : Platform) where
  abbrev Enabled : Kernel → Unit {0} → Kernel → Type 0
  Enabled k u k' =
      AddsPage fuel k.apic.lapic_base_pa k.paging k'.paging
      × (k' ≡ record k { paging = k'.paging; apic = k'.apic })

  -- The state behind the first three calls and their text.
  abbrev set_up_registers : Kernel → Kernel
  set_up_registers k = record k {
    fpu = fpu_init k.fpu;
    idt = idt_load_current_cpu k.idt;
    gdt = gdt_setup_cpu_tss (get_cpu_index b.id_reg) k.gdt;
    terminal =
        print_calls (text "[smp] AP TSS configured\n" ∷ text "[smp] ap_entry64 reached\n" ∷ [])
          k.terminal;
  }
