-- ===== src/Apic/Tests.antt =====
-- apic.c: the theorems at a CPU whose APIC id is 20, and at the rate that the kernel uses.
use neka_kernel.Base.{◌+◌, ◌*◌, ◌<◌, ◌≤◌, ◌≡◌, arith, ◌⊎◌, ◌/◌, false, []}
use neka_kernel.Apic.{lapic_get_id, get_cpu_index, Apic}
use neka_kernel.Apic.Indexes.{cpu_index_ranges}
use neka_kernel.Apic.Calibration.{sent, pit_count_fits}
use neka_kernel.Gdt64.{Gdt64, gdt_setup_cpu_tss, gdt_get_tss_rsp0}
use neka_kernel.Gdt64.Tasks.{IsLinked, HasTask}
use neka_kernel.Nkern.{Nkern, lock_enter, nkern_lock}

abbrev tables : Gdt64
tables = record {
  gdt = λ i. 0;
  tss = λ cpu i. 0;
  gdt_address = 0x20_0000;
  tss_address = 0x20_0100;
  kstack0_address = 0x30_0000;
  gdt_ptr = (0, 0);
  gdtr = (0, 0);
  cs = 0;
  data_segments = 0;
  tr = 0;
}

tables-IsLinked : IsLinked tables
tables-IsLinked = record { stacks = omega arith; tasks = omega arith }

-- CPU 0 is inside the lock.
abbrev held : Nkern
held = record {
  preempt_disable_count = λ c. 1;
  reschedule_pending = λ c. false;
  saved_if = λ c. false;
  big_kernel_lock = false;
  interrupts = λ c. false;
}

cpu_index_ranges_example :
    let id = lapic_get_id 0x1400_0000 in
    let c = get_cpu_index 0x1400_0000 in
    ((id < 4) × (c ≡ id) × HasTask (gdt_setup_cpu_tss c tables) id (gdt_setup_cpu_tss c tables).tr)
    ⊎ (((4 ≤ id)
          × (id < 16)
          × (c ≡ id)
          × (gdt_setup_cpu_tss c tables ≡ tables)
          × (gdt_get_tss_rsp0 c tables ≡ 0))
        ⊎ ((16 ≤ id)
            × (c ≡ 0)
            × HasTask (gdt_setup_cpu_tss c tables) 0 (gdt_setup_cpu_tss c tables).tr
            × (nkern_lock c held ≡ lock_enter 0 0 held)))
cpu_index_ranges_example = cpu_index_ranges 0x1400_0000 tables held tables-IsLinked (omega arith)

-- A local APIC at the usual address.
abbrev device : Apic
device = record { lapic_base_pa = 0xfee0_0000; ioapic_base_pa = 0xfec0_0000; accesses = [] }

pit_count_fits_example :
    let n = sent 10 0 0xffff_0000 device in
    ((19 ≤ 100)
      × (n ≡ 1193182 * 10 / 1000)
      × (n * 1000 ≤ 1193182 * 10)
      × (1193182 * 10 < (n + 1) * 1000))
    ⊎ ((100 < 19) × (n < 1193182 * 10 / 1000))
pit_count_fits_example = pit_count_fits 100 0 0xffff_0000 device (omega arith) (omega arith)
