-- ===== src/Main64/Phases.antt =====
-- main64.c: the first two phases of `kernel_main64`, up to the devices.
use neka_kernel.Base.{ℕ, ◌-◌, ◌*◌, ◌/◌, ◌^◌, ◌<◌, ◌≡◌, refl, ◌∙◌, ap, sym, false, bit}
use mathlib.Core.Path.{subst}
use neka_kernel.Fpu.{Fpu, fpu_init}
use neka_kernel.Fpu.Registers.{IsReady, fpu_init_lem}
use neka_kernel.Gdt64.{Gdt64}
use neka_kernel.Gdt64.Tasks.{IsLinked, IsSegment, HasTask, gdt_init_correct}
use neka_kernel.Idt.{Idt}
use neka_kernel.Idt.Gates.{IsEntry, idt_init_correct}
use neka_kernel.Heap.{panic_heap_oom}
use neka_kernel.Paging64
use neka_kernel.Paging64.{Paging64, paging_map_mmio_2mb, panic_out_of_frames}
use neka_kernel.Paging64.Outcomes as PagingOutcomes
use neka_kernel.Paging64.Supply.{IsSound}
use neka_kernel.Paging64.Boot.{IsBooted, init_kernel_map_lem}
use neka_kernel.Main64.Runs.{Panic, Cmd, and_then, Ends}
use neka_kernel.Main64.Boot.{Platform, Kernel, from_paging}
use neka_kernel.Main64.Start.{set_up_cpu}

-- The panics that the boot may end in: no frame is left, the processor has no local APIC, or the heap
-- has no room. A thread is always made.
abbrev pub Allowed : Platform → Panic → Type 0
Allowed b (Panic.frames c) = Unit {0}
Allowed b (Panic.apic c) = bit b.cpuid_edx 9 ≡ false
Allowed b (Panic.heap c) = c ≡ panic_heap_oom
Allowed b (Panic.sched c) = ⊥

-- A command of paging64.c, and what follows.
pub paging_bind :
    (b : Platform) (k : Kernel) {A B : Type 0} (P : A → Paging64 → Type 0) (R : B → Kernel → Type 0)
    (r : Paging64.Run A) (next : A → Cmd Kernel B)
    → PagingOutcomes.Ends P r
    → ((a : A) (p : Paging64) → P a p → Ends (Allowed b) R (next a (record k { paging = p })))
    → Ends (Allowed b) R (and_then (from_paging k r) next)
paging_bind b k P R (Paging64.ok a p) next h go = go a p h
paging_bind b k P R (Paging64.panics c) next h go = tt
paging_bind b k P R Paging64.faults next h go = elim h [ ]
paging_bind b k P R Paging64.out_of_fuel next h go = elim h [ ]

-- The parts that a phase leaves alone.
pub record SameParts (k k' : Kernel) : Type 0 where
  pub scheduler : k'.scheduler ≡ k.scheduler
  pub smp : k'.smp ≡ k.smp
  pub g_rsdp : k'.g_rsdp ≡ k.g_rsdp
  pub apic : k'.apic ≡ k.apic

-- What the first phase sets up for the boot CPU: SSE instructions are allowed; the processor uses the
-- kernel's segments, with a task of its own; and each of the 34 vectors of exceptions and devices, and
-- the system call, has a gate to its handler.
pub record HasCore (b : Platform) (k k' : Kernel) : Type 0 where
  pub fpu : IsReady k.fpu k'.fpu
  pub gdtr : k'.gdt.gdtr ≡ (13 * 8 - 1, k.gdt.gdt_address)
  pub code : IsSegment (k'.gdt.gdt (k'.gdt.cs / 8)) 1 0
  pub data_segments : IsSegment (k'.gdt.gdt (k'.gdt.data_segments / 8)) 0 0
  pub task : HasTask k'.gdt 0 k'.gdt.tr
  pub idtr : k'.idt.idtr ≡ (256 * 16 - 1, k.idt.idt_address)
  pub gates : (v : ℕ) → v < 34 → IsEntry (k'.idt.idt v) (b.isr v) 0
  pub system_call : IsEntry (k'.idt.idt 128) (b.isr 128) 3

-- The later phases leave all of this alone.
pub record SameCore (k k' : Kernel) : Type 0 where
  pub fpu : k'.fpu ≡ k.fpu
  pub gdt : k'.gdt ≡ k.gdt
  pub idt : k'.idt ≡ k.idt

pub SameCore-refl : (k : Kernel) → SameCore k k
SameCore-refl k = record { fpu = refl; gdt = refl; idt = refl }

pub SameCore-trans : (a b c : Kernel) → SameCore a b → SameCore b c → SameCore a c
SameCore-trans a b c h g = record { fpu = g.fpu ∙ h.fpu; gdt = g.gdt ∙ h.gdt; idt = g.idt ∙ h.idt }

pub HasCore-same :
    (b : Platform) (k k1 k2 : Kernel) → HasCore b k k1 → SameCore k1 k2 → HasCore b k k2
HasCore-same b k k1 k2 h s = record {
  fpu = subst (λ (f : Fpu). IsReady k.fpu f) (sym s.fpu) h.fpu;
  gdtr = ap (λ (g : Gdt64). g.gdtr) s.gdt ∙ h.gdtr;
  code = subst (λ (g : Gdt64). IsSegment (g.gdt (g.cs / 8)) 1 0) (sym s.gdt) h.code;
  data_segments =
      subst (λ (g : Gdt64). IsSegment (g.gdt (g.data_segments / 8)) 0 0) (sym s.gdt)
        h.data_segments;
  task = subst (λ (g : Gdt64). HasTask g 0 g.tr) (sym s.gdt) h.task;
  idtr = ap (λ (i : Idt). i.idtr) s.idt ∙ h.idtr;
  gates = λ v l. subst (λ (i : Idt). IsEntry (i.idt v) (b.isr v) 0) (sym s.idt) (h.gates v l);
  system_call = subst (λ (i : Idt). IsEntry (i.idt 128) (b.isr 128) 3) (sym s.idt) h.system_call;
}

pub set_up_cpu_lem :
    (fuel : ℕ) (b : Platform) (k : Kernel)
    → IsSound fuel k.paging
    → IsLinked k.gdt
    → ((i : ℕ) → b.isr i < 2 ^ 64)
    → Ends
        (Allowed b)
        (λ u k'. IsBooted fuel k.paging k'.paging × SameParts k k' × HasCore b k k')
        (set_up_cpu fuel b k)
unfolding set_up_cpu
set_up_cpu_lem fuel b k sound linked isr =
    let g = gdt_init_correct k.gdt linked in
    let i = idt_init_correct b.isr k.idt isr in
    paging_bind b (record k { fpu = fpu_init k.fpu }) (λ u. IsBooted fuel k.paging)
      (λ u k'. IsBooted fuel k.paging k'.paging × SameParts k k' × HasCore b k k') _ _
      (init_kernel_map_lem fuel k.paging sound)
      (λ u p h. (
        h,
        record { scheduler = refl; smp = refl; g_rsdp = refl; apic = refl },
        record {
          fpu = fpu_init_lem k.fpu;
          gdtr = g.0;
          code = g.2;
          data_segments = g.3;
          task = g.6;
          idtr = i.0;
          gates = i.1;
          system_call = i.2;
        },
      ))
