-- ===== src/Main64/Memory.antt =====
-- main64.c: the phase of `kernel_main64` that activates the memory map and tests the heap.
use mathlib.Core.List.{List}
use neka_kernel.Base.{ℕ, ◌<◌, ◌≡◌, refl, ap, ◌∙◌, Bool, true, false, some, inl, inr}
use neka_kernel.Apic.{get_cpu_index}
use neka_kernel.Heap.Cells.{Cell, Has}
use neka_kernel.Heap.Safety.{IsHeap, IsArena}
use neka_kernel.Memmap.{Memmap, memmap_parse_multiboot, memmap_activate}
use neka_kernel.Nkern.{Nkern}
use neka_kernel.Nkern.Client.{kernel_lock}
use neka_kernel.Paging64.{Paging64}
use neka_kernel.Paging64.Supply.{IsSound, IsActive, IsTaken}
use neka_kernel.Paging64.Kernel.{IsKernelMap}
use neka_kernel.Main64.{World}
use neka_kernel.Main64.Runs.{Run, ok, panics, faults, out_of_fuel, Returns, Ends}
use neka_kernel.Main64.Boot.{Platform, Kernel}
use neka_kernel.Main64.Start.{set_up_memory, self_test, ran_self_test}
use neka_kernel.Main64.SelfTest.{Passes, heap_self_test_correct}
use neka_kernel.Main64.Phases.{Allowed, SameCore}

-- Frames of the pool stay handed out when the memory map is exchanged.
module _ (p : Paging64) (m : Memmap) (idle : p.memmap.map_active ≡ false) where
  abbrev pub exchanged : Paging64
  exchanged = record p { memmap = m }

  taken_still : (u : ℕ) → IsTaken p u → IsTaken exchanged u
  taken_still u (aligned, inl pool) = (aligned, inl pool)
  taken_still u (aligned, inr (on, past)) = absurd (cc (on, idle))

  pub exchanged-IsKernelMap : IsKernelMap p → IsKernelMap exchanged
  exchanged-IsKernelMap v = record {
    pml4_taken = taken_still p.kernel_pml4 v.pml4_taken;
    pdpt_taken = taken_still p.kernel_pdpt v.pdpt_taken;
    root = v.root;
    tables = λ i l there. taken_still _ (v.tables i l there);
    leaves = v.leaves;
  }

  pub exchanged-IsSound :
      (fuel : ℕ) → IsSound fuel p → IsActive fuel exchanged → IsSound fuel exchanged
  exchanged-IsSound fuel sound active = record {
    pool_aligned = sound.pool_aligned;
    pool_fits = sound.pool_fits;
    counted = sound.counted;
    active = λ on. active;
  }

module _ (fuel : ℕ) (b : Platform) where
  abbrev cpu : ℕ
  cpu = get_cpu_index b.id_reg

  -- What the phase leaves: the active memory map `m`, and a heap with all bytes free that has passed
  -- its test.
  pub record WithMemory (k : Kernel) (m : Memmap) (r : Bool × Bool) (k' : Kernel) : Type 0 where
    pub verdict : r ≡ (false, true)
    pub paging : k'.paging ≡ record k.paging { memmap = m }
    pub cells : List Cell
    pub heap : IsHeap b.heap_arena k'.heap cells
    pub none_used : (y n : ℕ) → ¬ Has y n false b.heap_arena cells
    pub depth :
        k'.scheduler.nkern.preempt_disable_count cpu ≡ k.scheduler.nkern.preempt_disable_count cpu
    pub smp : k'.smp ≡ k.smp
    pub g_rsdp : k'.g_rsdp ≡ k.g_rsdp
    pub core : SameCore k k'

  after_test :
      (k k1 : Kernel) (m : Memmap) (w : World (kernel_lock cpu)) (at : IsArena b.heap_arena)
      (fuelled : 32768 < fuel)
      → k1.paging ≡ record k.paging { memmap = m }
      → k1.smp ≡ k.smp
      → k1.g_rsdp ≡ k.g_rsdp
      → SameCore k k1
      → w.locks ≡ k.scheduler.nkern
      → (r : Run (World (kernel_lock cpu)) (Bool × Bool))
      → Returns (Passes (kernel_lock cpu) b.heap_arena at fuel fuelled w) r
      → Ends (Allowed b) (WithMemory k m) (ran_self_test cpu r k1)
  after_test k k1 m w at fuelled e1 e2 e3 same e4 (ok r w') h = record {
    verdict = h.verdict;
    paging = e1;
    cells = h.cells;
    heap = h.heap;
    none_used = h.none_used;
    depth = h.depth ∙ ap (λ (n : Nkern). n.preempt_disable_count cpu) e4;
    smp = e2;
    g_rsdp = e3;
    core = record { fpu = same.fpu; gdt = same.gdt; idt = same.idt };
  }
  after_test k k1 m w at fuelled e1 e2 e3 same e4 (panics c) h = elim h [ ]
  after_test k k1 m w at fuelled e1 e2 e3 same e4 faults h = elim h [ ]
  after_test k k1 m w at fuelled e1 e2 e3 same e4 out_of_fuel h = elim h [ ]

  pub set_up_memory_lem :
      (k : Kernel) (m : Memmap)
      → memmap_parse_multiboot b.info b.entry fuel b.mbi_addr k.paging.memmap ≡ some m
      → IsArena b.heap_arena
      → 32768 < fuel
      → Ends
          (Allowed b)
          (WithMemory k (memmap_activate 0x10_0000 b.kernel_end m))
          (set_up_memory fuel b k)
  unfolding set_up_memory self_test
  set_up_memory_lem k m parsed at fuelled = rw parsed (
      after_test k _ (memmap_activate 0x10_0000 b.kernel_end m) _ at fuelled refl refl refl
        (record { fpu = refl; gdt = refl; idt = refl }) refl _
        (heap_self_test_correct (kernel_lock cpu) b.heap_arena at fuel fuelled k.scheduler.nkern
          k.heap k.bytes))
