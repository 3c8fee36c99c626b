-- ===== src/Main64/Cpus.antt =====
-- main64.c: the last phase of `kernel_main64`, which starts the other CPUs.
use mathlib.Core.List.{List}
use neka_kernel.Base.{
  ℕ, ◌<◌, ◌≡◌, refl, true, false, some, length, leb, leb→lt, Bool-cases, inl, inr, update,
}
use neka_kernel.Acpi.{acpi_find_cpus}
use neka_kernel.Apic.{get_cpu_index}
use neka_kernel.Heap.{Heap}
use neka_kernel.Heap.Cells.{Cell}
use neka_kernel.Heap.Safety.{IsHeap, IsArena}
use neka_kernel.Nkern.{Nkern}
use neka_kernel.Nkern.Client.{kernel_lock}
use neka_kernel.Smp
use neka_kernel.Smp.{Smp, Board, Ipi, max_ap_cpus, smp_start_aps}
use neka_kernel.Smp.Mailbox.{IsGiven}
use neka_kernel.Smp.Waking as Waking
use neka_kernel.Smp.Waking.{AllReady, answering, smp_start_aps_correct}
use neka_kernel.Main64.Runs.{Cmd, and_then, Ends}
use neka_kernel.Main64.Boot.{Platform, Kernel}
use neka_kernel.Main64.Start.{start_cpus, ran_smp, board_of, enable_interrupts}
use neka_kernel.Main64.Phases.{Allowed, SameCore}

-- What the phase leaves: a heap that is well formed, complete mailboxes for the CPUs that were woken,
-- and nothing else changed but the state of the kernel lock.
pub record WithCpus (b : Platform) (k k' : Kernel) : Type 0 where
  pub nkern : Nkern
  pub scheduler : k'.scheduler ≡ record k.scheduler { nkern = nkern }
  pub paging : k'.paging ≡ k.paging
  pub cells : List Cell
  pub heap : IsHeap b.heap_arena k'.heap cells
  pub ready : AllReady (board_of b k) b.heap_arena k'.smp.ipis
  pub core : SameCore k k'

-- A list of at most one CPU starts none.
no_others :
    (c fuel : ℕ) (g : Board) (ids : List ℕ) (s : Smp) (t : Nkern) (h : Heap)
    → leb (length ids) 1 ≡ true
    → smp_start_aps (kernel_lock c) fuel g ids s t h ≡ Smp.ends 0 s t h
unfolding smp_start_aps
no_others c fuel g ids s t h few = rw few

-- No CPU answers, so that none but the boot CPU runs anything.
module _ (fuel : ℕ) (b : Platform) (k : Kernel) (at : IsArena b.heap_arena)
    (alone : (id : ℕ) (l : List Ipi) → b.board.answers id l ≡ false) where
  abbrev cpu : ℕ
  cpu = get_cpu_index b.id_reg

  ran_lem :
      (expected : ℕ) (r : Smp.Result (kernel_lock cpu)) (next : ℕ → Cmd Kernel (Unit {0}))
      → Waking.Ends (kernel_lock cpu) b.heap_arena at (board_of b k) expected r
      → ((n : ℕ) (s : Smp) (t : Nkern) (h : Heap) (l : List Cell)
          → IsHeap b.heap_arena h l
          → AllReady (board_of b k) b.heap_arena s.ipis
          → Ends
              (Allowed b)
              (λ u. WithCpus b k)
              (next n
                (record k { smp = s; heap = h; scheduler = record k.scheduler { nkern = t } })))
      → Ends (Allowed b) (λ u. WithCpus b k) (and_then (ran_smp cpu r k) next)
  ran_lem expected (Smp.ends n s t h) next e go = go n s t h e.cells e.heap e.ready
  ran_lem expected (Smp.panics c) next e go = e
  ran_lem expected Smp.out_of_fuel next e go = elim e [ ]

  pub start_cpus_lem :
      (ids : List ℕ) (l : List Cell)
      → acpi_find_cpus fuel b.acpi k.g_rsdp max_ap_cpus ≡ some ids
      → 32768 < fuel
      → IsGiven (board_of b k)
      → IsHeap b.heap_arena k.heap l
      → AllReady (board_of b k) b.heap_arena k.smp.ipis
      → Ends (Allowed b) (λ u. WithCpus b k) (start_cpus fuel b k)
  unfolding start_cpus
  start_cpus_lem ids l listed fuelled given hv quiet = elim (Bool-cases (leb (length ids) 1)) [
    | inl few ↦
        rw (listed, no_others cpu fuel (board_of b k) ids k.smp k.scheduler.nkern k.heap few)
          (record {
            nkern = (enable_interrupts cpu k).scheduler.nkern;
            scheduler = refl;
            paging = refl;
            cells = l;
            heap = hv;
            ready = quiet;
            core = record { fpu = refl; gdt = refl; idt = refl };
          })
    | inr several ↦ rw listed (
        ran_lem (answering (board_of b k) (λ id. false) ids)
          (smp_start_aps (kernel_lock cpu) fuel (board_of b k) ids k.smp k.scheduler.nkern k.heap) _
          (smp_start_aps_correct (kernel_lock cpu) b.heap_arena at fuel (board_of b k) fuelled given
            (λ id. false) (λ id l sent. alone id l) ids k.smp k.scheduler.nkern k.heap l hv quiet
            (leb→lt _ _ several))
          (λ n s t h l2 hv2 ready. record {
            nkern = record t { interrupts = update t.interrupts cpu true };
            scheduler = refl;
            paging = refl;
            cells = l2;
            heap = hv2;
            ready = ready;
            core = record { fpu = refl; gdt = refl; idt = refl };
          }))
  ]
