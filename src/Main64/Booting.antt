-- ===== src/Main64/Booting.antt =====
-- main64.c: the whole of `kernel_main64`, from the boot loader to the first thread.
use neka_kernel.Base.{
  ℕ, ◌^◌, ◌<◌, ◌≡◌, ap, ◌∙◌, arith, Bool, true, false, some, List, [], ◌%◌, ◌==◌,
}
use neka_kernel.Acpi.{acpi_find_cpus}
use neka_kernel.Apic.{Apic, get_cpu_index}
use neka_kernel.Heap.Cells.{Cell}
use neka_kernel.Heap.Safety.{IsHeap, IsArena}
use neka_kernel.Memmap.{Memmap, memmap_parse_multiboot, memmap_activate}
use neka_kernel.Paging64.{Paging64}
use neka_kernel.Paging64.Supply.{IsSound, IsActive}
use neka_kernel.Paging64.Kernel.{IsKernelMap}
use neka_kernel.Paging64.Boot.{IsBooted}
use neka_kernel.Paging64.User.{IsProcess}
use neka_kernel.Sched64.{Scheduler64, Outcome}
use neka_kernel.Sched64.Queues.{IsQueued}
use neka_kernel.Smp.{Smp, Ipi, max_ap_cpus}
use neka_kernel.Smp.Waking.{AllReady}
use neka_kernel.Main64.Boot.{Platform, Kernel}
use neka_kernel.Main64.Start.{first_reschedule, board_of}
use neka_kernel.Gdt64.Tasks.{IsLinked}
use neka_kernel.Main64.Phases.{HasCore}
use neka_kernel.Main64.Devices.{Finds, WithApic}
use neka_kernel.Main64.Memory.{WithMemory, exchanged-IsKernelMap, exchanged-IsSound}
use neka_kernel.Main64.Spawning.{ready_queues}

-- What the boot relies on: a frame pool and a heap arena inside the machine; tables of the firmware
-- whose walks end, with devices in neither of the first two gigabytes; and a memory map that is sane,
-- once parsed and activated, with the pool inside the reserved image.
pub record IsBootable (fuel : ℕ) (b : Platform) (k : Kernel) (rsdp : ℕ) (apic : Apic) (map : Memmap)
    (ids : List ℕ) : Type 0 where
  pub sound : IsSound fuel k.paging
  pub idle : k.paging.memmap.map_active ≡ false
  pub finds : Finds fuel b k.g_rsdp k.apic rsdp apic
  pub parsed : memmap_parse_multiboot b.info b.entry fuel b.mbi_addr k.paging.memmap ≡ some map
  pub active :
      IsActive fuel (record k.paging { memmap = memmap_activate 0x10_0000 b.kernel_end map })
  pub listed : acpi_find_cpus fuel b.acpi rsdp max_ap_cpus ≡ some ids
  pub arena : IsArena b.heap_arena
  pub fuelled : 32768 < fuel
  pub given : (b.board.gdt_ptr_addr < 2 ^ 64) × (b.board.ap_entry64 < 2 ^ 64)
  pub quiet : k.smp.ipis ≡ []
  pub linked : IsLinked k.gdt
  pub isr : (i : ℕ) → b.isr i < 2 ^ 64
  pub alone : (id : ℕ) (l : List Ipi) → b.board.answers id l ≡ false

-- The kernel when it enters its loop: SSE, the segments, the boot CPU's task and the interrupt
-- gates are set up; the self-test of the heap has found nothing, and the heap is well formed; the
-- four threads wait in their queues, the launcher with a process of its own; every CPU that was
-- called finds a complete mailbox; and the first reschedule runs thread A.
pub record IsUp (fuel : ℕ) (b : Platform) (k0 : Kernel) (r : Bool × Bool) (k : Kernel)
    : Type 0 where
  pub verdict : r ≡ (false, true)
  pub core : HasCore b k0 k
  pub cells : List Cell
  pub heap : IsHeap b.heap_arena k.heap cells
  pub queued : IsQueued k.scheduler ready_queues
  pub before : Paging64
  pub process : IsProcess fuel before (k.scheduler.threads64 3).cr3 k.paging
  pub ready : AllReady (board_of b k) b.heap_arena k.smp.ipis
  pub first : Outcome × Scheduler64
  pub rescheduled : first_reschedule b k ≡ some first
  pub runs : first.1.current (get_cpu_index b.id_reg) ≡ some 0

module _ (fuel : ℕ) (b : Platform) (k : Kernel) (rsdp : ℕ) (apic : Apic) (map : Memmap)
    (ids : List ℕ) (v : IsBootable fuel b k rsdp apic map ids) where
  abbrev active_map : Memmap
  active_map = memmap_activate 0x10_0000 b.kernel_end map

  -- The kernel behind the third phase, of whose paging this is known.
  record IsPrepared (k3 : Kernel) : Type 0 where
    sound : IsSound fuel k3.paging
    kernel : IsKernelMap k3.paging
    second : (k3.paging.mem k3.paging.kernel_pdpt 1 % 2 == 0) ≡ true
    fits : k3.paging.kernel_pml4 < 2 ^ 64

  map_stays :
      (k1 k2 : Kernel)
      → IsBooted fuel k.paging k1.paging
      → WithApic fuel b k1 rsdp k2
      → k2.paging.memmap ≡ k.paging.memmap
  map_stays k1 k2 h1 h2 =
      h2.paging.extended.supply.1 (ap (λ (m : Memmap). m.map_active) (h1.supply.1 v.idle) ∙ v.idle)
      ∙ h1.supply.1 v.idle

  prepared :
      (k1 k2 k3 : Kernel) (r : Bool × Bool)
      → IsBooted fuel k.paging k1.paging
      → WithApic fuel b k1 rsdp k2
      → WithMemory fuel b k2 active_map r k3
      → IsPrepared k3
  prepared k1 k2 k3 r h1 h2 h3 =
      let x = h2.paging.extended in
      let off : k2.paging.memmap.map_active ≡ false =
        ap (λ (m : Memmap). m.map_active) (map_stays k1 k2 h1 h2) ∙ v.idle in
      let pool : k2.paging.frame_pool ≡ k.paging.frame_pool = x.supply.0 ∙ h1.supply.0 in
      let a = v.active in
      rw h3.paging (record {
        sound = exchanged-IsSound k2.paging active_map off fuel x.sound (record {
          sane = a.sane;
          ascending = a.ascending;
          aligned = a.aligned;
          fuelled = a.fuelled;
          low = a.low;
          covered = rw pool a.covered;
        });
        kernel = exchanged-IsKernelMap k2.paging active_map off x.kernel;
        second = h2.paging.second (h1.empty 1 (omega arith) (λ e. absurd (omega arith)));
        fits = rw x.same_pml4 h1.fits;
      })
