-- ===== src/Main64/Start.antt =====
-- main64.c: the phases of `kernel_main64`, in the order of the source.
use neka_kernel.Base.{
  ℕ, Bool, true, ◌||◌, Option, none, some, List, [], ◌∷◌, leb, if◌then◌else◌, update,
}
use neka_kernel.Acpi.{acpi_find_rsdp_bios, acpi_find_cpus}
use neka_kernel.Apic.{
  apic_check_supported, apic_apply_acpi_bases, disable_legacy_pic, lapic_enable,
  ioapic_set_redirect, apic_timer_init, lapic_get_id, get_cpu_index,
}
use neka_kernel.Fpu.{fpu_init}
use neka_kernel.Gdt64.{gdt_init, gdt_get_tss_rsp0}
use neka_kernel.Heap.{heap_init}
use neka_kernel.Idt.{idt_init}
use neka_kernel.Memmap.{Memmap, memmap_parse_multiboot, memmap_activate}
use neka_kernel.Nkern.Client.{kernel_lock}
use neka_kernel.Paging64.{
  paging_init_kernel_map, paging_get_kernel_cr3, create_address_space, create_user_process,
}
use neka_kernel.Sched64.{
  Scheduler64, Given, Outcome, max_threads64, num_priorities64, sched64_init, sched64_create_thread,
  sched64_reschedule,
}
use neka_kernel.Smp
use neka_kernel.Smp.{Board, max_ap_cpus, smp_start_aps}
use neka_kernel.Terminal64.{text, hex64, terminal64_init}
use neka_kernel.Main64.{World, heap_self_test}
use neka_kernel.Main64.Runs.{
  Run, Panic, ok, panics, faults, out_of_fuel, Cmd, and_then, ◌>>=◌, ◌>>◌,
}
use neka_kernel.Main64.Boot.{
  panic_thread_create_failed, Platform, Kernel, Step, change, print, on_paging, on_devices,
}

-- `none` of a loop is the end of its fuel.
abbrev pub or_fuel : {A : Type 0} → Option A → (A → Kernel → Kernel) → Step
or_fuel none f k = out_of_fuel
or_fuel (some a) f k = ok tt (f a k)

-- From `fpu_init` to `idt_init`.
unfoldable pub set_up_cpu : ℕ → Platform → Step
set_up_cpu fuel b = do
  change (λ k. record k { fpu = fpu_init k.fpu })
  on_paging (paging_init_kernel_map fuel)
  change (λ k. record k { terminal = terminal64_init k.terminal })
  print (
      text "[diag] kernel_main64 runtime address = "
      ∷ hex64 b.kernel_main64_address
      ∷ text "\n"
      ∷ text "========================================\n"
      ∷ text " NEKA64 -- preemptive scheduler online\n"
      ∷ text "========================================\n"
      ∷ text "FPU/SSE initialized (CR0.EM=0, CR4.OSFXSR=1)\n"
      ∷ [])
  change (λ k. record k { gdt = gdt_init k.gdt })
  λ k.
      print
        (text "GDT rebuilt: kernel+user segments, TSS loaded (ring3 ready)\n"
          ∷ text "[diag] TSS.RSP0 (cpu0) = "
          ∷ hex64 (gdt_get_tss_rsp0 0 k.gdt)
          ∷ text "\n"
          ∷ [])
        k
  change (λ k. record k { idt = idt_init b.isr k.idt })
  print (text "IDT installed (32 exceptions + IRQ0/IRQ1)\n" ∷ [])

-- `neka_panic` of `apic_check_supported`.
abbrev pub unless : Option ℕ → Step
unless none k = ok tt k
unless (some c) k = panics (Panic.apic c)

-- From `acpi_find_rsdp_bios` to `apic_timer_init`.
unfoldable pub set_up_devices : ℕ → Platform → Step
set_up_devices fuel b = do
  λ k. or_fuel (acpi_find_rsdp_bios fuel b.acpi k.g_rsdp) (λ r w. record w { g_rsdp = r }) k
  unless (apic_check_supported b.cpuid_edx)
  λ k. or_fuel (apic_apply_acpi_bases fuel b.acpi k.g_rsdp k.apic) (λ a w. record w { apic = a }) k
  on_devices fuel disable_legacy_pic
  on_devices fuel (lapic_enable b.apic_base)
  on_devices fuel (ioapic_set_redirect 1 33 b.id_reg)
  on_devices fuel (apic_timer_init 32 100 b.port61 b.remaining)
  print (text "Legacy PIC disabled, LAPIC+IOAPIC online\n" ∷ [])

abbrev pub with_memmap : Memmap → Kernel → Kernel
with_memmap m k = record k { paging = record k.paging { memmap = m } }

-- `heap_self_test` on the heap, the kernel lock and the bytes of the kernel.
abbrev pub ran_self_test :
    (c : ℕ) → Run (World (kernel_lock c)) (Bool × Bool) → Cmd Kernel (Bool × Bool)
ran_self_test c (ok r w) k = ok r (record k {
  heap = w.heap;
  bytes = w.bytes;
  scheduler = record k.scheduler { nkern = w.locks };
})
ran_self_test c (panics n) k = panics n
ran_self_test c faults k = faults
ran_self_test c out_of_fuel k = out_of_fuel

unfoldable pub self_test : ℕ → ℕ → Cmd Kernel (Bool × Bool)
unfolding heap_self_test
self_test fuel c k =
    ran_self_test c
      (heap_self_test (kernel_lock c) fuel
        (record { locks = k.scheduler.nkern; heap = k.heap; bytes = k.bytes }))
      k

-- From `memmap_parse_multiboot` to `heap_self_test`, with the verdict of the test.
unfoldable pub set_up_memory : ℕ → Platform → Cmd Kernel (Bool × Bool)
unfolding self_test
set_up_memory fuel b = do
  λ k. or_fuel (memmap_parse_multiboot b.info b.entry fuel b.mbi_addr k.paging.memmap) with_memmap k
  change (λ k. with_memmap (memmap_activate 0x10_0000 b.kernel_end k.paging.memmap) k)
  change (λ k. record k { heap = heap_init b.heap_arena k.heap })
  self_test fuel (get_cpu_index b.id_reg)

-- `sched64_create_thread`, which makes the address space of the thread once it has a place for it, and
-- the panic of its callers when it returns null.
abbrev pub created : Option (Option ℕ × Scheduler64) → Cmd Kernel ℕ
created none k = out_of_fuel
created (some (none, s)) k = panics (Panic.sched panic_thread_create_failed)
created (some (some t, s)) k = ok t (record k { scheduler = s })

unfoldable pub spawn : ℕ → Given → ℕ → Cmd Kernel ℕ
spawn fuel g prio k =
    if leb max_threads64 k.scheduler.thread64_count || leb num_priorities64 prio
    then panics (Panic.sched panic_thread_create_failed)
    else and_then (on_paging (create_address_space fuel) k) (λ cr3 w.
      created (sched64_create_thread fuel (record g { address_space = cr3 }) prio w.scheduler) w)

-- `ring3_thread->cr3 = create_user_process();`
abbrev pub set_cr3 : ℕ → ℕ → Kernel → Kernel
set_cr3 t cr3 k =
    let s = k.scheduler in
    record k {
      scheduler = record s {
        threads64 = update s.threads64 t (record (s.threads64 t) { cr3 = cr3 });
      };
    }

-- From `sched64_init` to the last thread.
unfoldable pub set_up_threads : ℕ → Platform → Step
unfolding spawn
set_up_threads fuel b = do
  change (λ k. record k { scheduler = sched64_init k.scheduler })
  a ← spawn fuel b.thread_a 5
  t ← spawn fuel b.thread_b 5
  c ← spawn fuel b.thread_c_low_priority 2
  ring3_thread ← spawn fuel b.thread_ring3_launcher 5
  cr3 ← on_paging (create_user_process fuel)
  change (set_cr3 ring3_thread cr3)
  print (text "4 threads created (A,B,Ring3Launcher prio=5, C prio=2)\n" ∷ [])

-- `smp_start_aps` with what the parts of the kernel give it.
abbrev pub ran_smp : (c : ℕ) → Smp.Result (kernel_lock c) → Cmd Kernel ℕ
ran_smp c (Smp.ends n s t h) k =
    ok n (record k { smp = s; heap = h; scheduler = record k.scheduler { nkern = t } })
ran_smp c (Smp.panics p) k = panics (Panic.heap p)
ran_smp c Smp.out_of_fuel k = out_of_fuel

abbrev pub board_of : Platform → Kernel → Board
board_of b k = record (b.board) {
  kernel_cr3 = paging_get_kernel_cr3 k.paging;
  bsp_id = lapic_get_id b.id_reg;
}

abbrev pub start_found : ℕ → Platform → Option (List ℕ) → Cmd Kernel ℕ
start_found fuel b none k = out_of_fuel
start_found fuel b (some ids) k =
    let c = get_cpu_index b.id_reg in
    ran_smp c (smp_start_aps (kernel_lock c) fuel (board_of b k) ids k.smp k.scheduler.nkern k.heap)
      k

-- `sti`
abbrev pub enable_interrupts : ℕ → Kernel → Kernel
enable_interrupts c k =
    let s = k.scheduler in
    record k {
      scheduler = record s {
        nkern = record (s.nkern) { interrupts = update s.nkern.interrupts c true };
      };
    }

unfoldable pub start_cpus : ℕ → Platform → Step
start_cpus fuel b = do
  aps_started ← λ k. start_found fuel b (acpi_find_cpus fuel b.acpi k.g_rsdp max_ap_cpus) k
  print (
      text "[smp] Application Processors started: "
      ∷ hex64 aps_started
      ∷ text "\n"
      ∷ text "Enabling interrupts -- preemption starts now.\n\n"
      ∷ [])
  change (enable_interrupts (get_cpu_index b.id_reg))

-- The whole function up to its loop, with the verdict of the self-test.
unfoldable pub kernel_main64 : ℕ → Platform → Cmd Kernel (Bool × Bool)
unfolding set_up_cpu set_up_devices set_up_memory set_up_threads start_cpus
kernel_main64 fuel b = do
  set_up_cpu fuel b
  set_up_devices fuel b
  verdict ← set_up_memory fuel b
  set_up_threads fuel b
  start_cpus fuel b
  λ k. ok verdict k

-- One round of the loop, up to the `hlt`.
unfoldable pub first_reschedule : Platform → Kernel → Option (Outcome × Scheduler64)
first_reschedule b k = sched64_reschedule (get_cpu_index b.id_reg) k.scheduler
