-- ===== src/Main64/Boot.antt =====
-- main64.c: `kernel_main64`, which brings the parts of the kernel up one after the other.
use neka_kernel.Base.{ℕ, List, [], ◌∷◌, ◌++◌}
use neka_kernel.Acpi.{Memory}
use neka_kernel.Apic.{Apic, Access, writes, outb, wrmsr, maps}
use neka_kernel.Fpu.{Fpu}
use neka_kernel.Gdt64.{Gdt64}
use neka_kernel.Heap.{Heap}
use neka_kernel.Idt.{Idt}
use neka_kernel.Memmap.{MmapEntry, MultibootInfo}
use neka_kernel.Paging64.{
  Paging64, paging_init_kernel_map, paging_map_mmio_2mb, paging_get_kernel_cr3,
  create_address_space, create_user_process,
}
use neka_kernel.Paging64
use neka_kernel.Sched64.{Scheduler64, Given}
use neka_kernel.Smp.{Smp, Board}
use neka_kernel.Terminal64.{Terminal64, Call, print_calls}
use neka_kernel.Main64.Runs.{Run, Panic, ok, panics, faults, out_of_fuel, Cmd}

abbrev pub panic_thread_create_failed : ℕ
panic_thread_create_failed = 1

-- What the boot loader, the linker and the hardware give.
pub record Platform : Type 0 where
  pub mbi_addr : ℕ
  pub info : ℕ → MultibootInfo
  pub entry : ℕ → MmapEntry
  pub acpi : Memory
  pub cpuid_edx : ℕ
  pub id_reg : ℕ
  pub apic_base : ℕ
  pub port61 : ℕ
  pub remaining : ℕ
  pub isr : ℕ → ℕ
  pub kernel_main64_address : ℕ
  pub kernel_end : ℕ
  pub heap_arena : ℕ
  pub thread_a : Given
  pub thread_b : Given
  pub thread_c_low_priority : Given
  pub thread_ring3_launcher : Given
  pub board : Board

-- The static variables of all files; the interrupt flags are in the state of the kernel lock.
pub record Kernel : Type 0 where
  pub fpu : Fpu
  pub paging : Paging64
  pub terminal : Terminal64
  pub gdt : Gdt64
  pub idt : Idt
  pub g_rsdp : ℕ
  pub apic : Apic
  pub heap : Heap
  pub bytes : ℕ → ℕ
  pub scheduler : Scheduler64
  pub smp : Smp

abbrev pub Step : Type 0
Step = Cmd Kernel (Unit {0})

abbrev pub change : (Kernel → Kernel) → Step
change f k = ok tt (f k)

abbrev pub print : List Call → Step
print calls = change (λ k. record k { terminal = print_calls calls k.terminal })

-- A command of paging64.c.
abbrev pub from_paging : {A : Type 0} → Kernel → Paging64.Run A → Run Kernel A
from_paging k (Paging64.ok a p) = ok a (record k { paging = p })
from_paging k (Paging64.panics c) = panics (Panic.frames c)
from_paging k Paging64.faults = faults
from_paging k Paging64.out_of_fuel = out_of_fuel

abbrev pub on_paging : {A : Type 0} → Paging64.Cmd A → Cmd Kernel A
on_paging m k = from_paging k (m k.paging)

-- The calls of `paging_map_mmio_2mb` among the accesses of a function of apic.c.
unfoldable pub map_devices : ℕ → List Access → Paging64.Cmd (Unit {0})
map_devices fuel [] p = Paging64.ok tt p
map_devices fuel (maps pa ∷ l) p =
    Paging64.and_then (paging_map_mmio_2mb fuel pa p) (λ u. map_devices fuel l)
map_devices fuel (writes a v ∷ l) p = map_devices fuel l p
map_devices fuel (outb a v ∷ l) p = map_devices fuel l p
map_devices fuel (wrmsr a v ∷ l) p = map_devices fuel l p

unfoldable pub on_devices : ℕ → (Apic → Apic) → Step
unfolding map_devices
on_devices fuel f k =
    let a = f (record k.apic { accesses = [] }) in
    on_paging (map_devices fuel a.accesses)
      (record k { apic = record a { accesses = k.apic.accesses ++ a.accesses } })
