-- ===== src/Main64/Machine.antt =====
-- main64.c: a small machine for the tests: 128 MB of memory, two CPUs, and a BIOS with its tables.
use neka_kernel.Base.{
  ◌%◌, ℕ, ◌+◌, ◌*◌, ◌-◌, false, List, [], ◌∷◌, none, leb, ◌==◌, if◌then◌else◌, get_or, update,
}
use neka_kernel.Acpi.{Memory}
use neka_kernel.Heap.{Heap}
use neka_kernel.Memmap.{Region, Memmap, MmapEntry, MultibootInfo}
use neka_kernel.Nkern.{Nkern}
use neka_kernel.Paging64.Samples.{started}
use neka_kernel.Sched64.{Given, Thread64, Thread64State}
use neka_kernel.Smp.{Board}
use neka_kernel.Main64.Boot.{Platform, Kernel}

-- The RSDP at 0x100, the RSDT at 0x124 with one pointer, and the MADT at 0x14c with two local APICs
-- and an I/O APIC.
abbrev tables : List ℕ
tables =
    82 ∷ 83 ∷ 68 ∷ 32 ∷ 80 ∷ 84 ∷ 82 ∷ 32 ∷ 188 ∷ 0 ∷ 0 ∷ 0 ∷ 0 ∷ 0 ∷ 0 ∷ 0 ∷ 0x24 ∷ 1 ∷ 0 ∷ 0 ∷ 0
    ∷ 0 ∷ 0 ∷ 0 ∷ 0 ∷ 0 ∷ 0 ∷ 0 ∷ 0 ∷ 0 ∷ 0 ∷ 0 ∷ 0 ∷ 0 ∷ 0 ∷ 0 ∷ 82 ∷ 83 ∷ 68 ∷ 84 ∷ 40 ∷ 0 ∷ 0 ∷ 0
    ∷ 0 ∷ 0 ∷ 0 ∷ 0 ∷ 0 ∷ 0 ∷ 0 ∷ 0 ∷ 0 ∷ 0 ∷ 0 ∷ 0 ∷ 0 ∷ 0 ∷ 0 ∷ 0 ∷ 0 ∷ 0 ∷ 0 ∷ 0 ∷ 0 ∷ 0 ∷ 0 ∷ 0
    ∷ 0 ∷ 0 ∷ 0 ∷ 0 ∷ 0x4c ∷ 1 ∷ 0 ∷ 0 ∷ 65 ∷ 80 ∷ 73 ∷ 67 ∷ 72 ∷ 0 ∷ 0 ∷ 0 ∷ 0 ∷ 0 ∷ 0 ∷ 0 ∷ 0 ∷ 0
    ∷ 0 ∷ 0 ∷ 0 ∷ 0 ∷ 0 ∷ 0 ∷ 0 ∷ 0 ∷ 0 ∷ 0 ∷ 0 ∷ 0 ∷ 0 ∷ 0 ∷ 0 ∷ 0 ∷ 0 ∷ 0 ∷ 0 ∷ 0 ∷ 0 ∷ 0 ∷ 0 ∷ 0
    ∷ 0xe0 ∷ 0xfe ∷ 0 ∷ 0 ∷ 0 ∷ 0 ∷ 0 ∷ 8 ∷ 0 ∷ 0 ∷ 1 ∷ 0 ∷ 0 ∷ 0 ∷ 0 ∷ 8 ∷ 1 ∷ 1 ∷ 1 ∷ 0 ∷ 0 ∷ 0
    ∷ 1 ∷ 12 ∷ 2 ∷ 0 ∷ 0 ∷ 0 ∷ 0xc0 ∷ 0xfe ∷ 0 ∷ 0 ∷ 0 ∷ 0 ∷ []

-- The segment of the EBDA, at 0x40e, is 0x10.
abbrev pub bios : Memory
bios a = if a == 0x40e then 0x10 else if leb 0x100 a then get_or tables (a - 0x100) 0 else 0

abbrev low_memory : Region
low_memory = record { base = 0; length = 0x9_fc00 }

abbrev high_memory : Region
high_memory = record { base = 0x10_0000; length = 0x7f0_0000 }

abbrev pub entry : ℕ → MmapEntry
entry a =
    if a == 0xa000
    then record { size = 20; addr = 0; len = 0x9_fc00; type = 1 }
    else record { size = 20; addr = 0x10_0000; len = 0x7f0_0000; type = 1 }

abbrev pub info : ℕ → MultibootInfo
info a = record { flags = 0x40; mmap_length = 48; mmap_addr = 0xa000 }

-- What the parser leaves.
abbrev pub parsed : Memmap
parsed = record (started.memmap) {
  regions = update (update started.memmap.regions 0 low_memory) 1 high_memory;
  region_count = 2;
}

abbrev given : ℕ → Given
given entry = record {
  entry = entry;
  name = 0x12_0000;
  thread_start64 = 0x10_8000;
  stack_base = λ t. 0x15_0000 + t * 0x4000;
  address_space = 0;
}

abbrev board : Board
board = record {
  blob = λ i. 0x90;
  blob_size = 0x120;
  kernel_cr3 = 0;
  gdt_ptr_addr = 0x11_0000;
  ap_entry64 = 0x10_9000;
  bsp_id = 0;
  answers = λ id l. false;
}

abbrev pub platform : Platform
platform = record {
  mbi_addr = 0x9000;
  info = info;
  entry = entry;
  acpi = bios;
  cpuid_edx = 0x200;
  id_reg = 0;
  apic_base = 0xfee0_0900;
  port61 = 0;
  remaining = 0xffff_0000;
  isr = λ v. 0x10_4000 + v % 256 * 16;
  kernel_main64_address = 0x10_1000;
  kernel_end = 0x60_0000;
  heap_arena = 0x20_0000;
  thread_a = given 0x10_a000;
  thread_b = given 0x10_b000;
  thread_c_low_priority = given 0x10_c000;
  thread_ring3_launcher = given 0x10_d000;
  board = board;
}

abbrev pub free_lock : Nkern
free_lock = record {
  preempt_disable_count = λ c. 0;
  reschedule_pending = λ c. false;
  saved_if = λ c. false;
  big_kernel_lock = false;
  interrupts = λ c. false;
}

abbrev no_thread : Thread64
no_thread = record {
  rsp = 0;
  cr3 = 0;
  priority = 0;
  state = Thread64State.t64_unused;
  time_slice = 0;
  stack = λ i. 0;
  name = 0;
  next = none;
}

abbrev pub no_heap : Heap
no_heap = record {
  heap_list = 0;
  block = λ b. record { size = 0; free = false; next = 0; prev = 0 };
  word = λ a. 0;
}

-- The static variables as the loader leaves them.
abbrev pub loaded : Kernel
loaded = record {
  fpu = record { cr0 = 0x8000_0011; cr4 = 0x20; reset = false };
  paging = started;
  terminal = record { vga_memory = λ i. 0; term_row = 0; term_col = 0; serial = [] };
  gdt = record {
    gdt = λ i. 0;
    tss = λ c i. 0;
    gdt_address = 0x11_1000;
    tss_address = 0x11_2000;
    kstack0_address = 0x11_4000;
    gdt_ptr = (0, 0);
    gdtr = (0, 0);
    cs = 0x08;
    data_segments = 0x10;
    tr = 0;
  };
  idt = record {
    idt = λ v. record {
      offset_low = 0;
      selector = 0;
      ist = 0;
      type_attr = 0;
      offset_mid = 0;
      offset_high = 0;
      zeros = 0;
    };
    idt_address = 0x11_3000;
    idt_ptr = (0, 0);
    idtr = (0, 0);
  };
  g_rsdp = 0;
  apic = record { lapic_base_pa = 0xfee0_0000; ioapic_base_pa = 0xfec0_0000; accesses = [] };
  heap = no_heap;
  bytes = λ a. 0;
  scheduler = record {
    ready_bitmap = 0;
    ready_queue = λ p. none;
    current = λ c. none;
    threads64 = λ t. no_thread;
    thread64_count = 0;
    loaded_cr3 = λ c. 0;
    nkern = free_lock;
  };
  smp = record { ap_ready = λ i. false; g_ap_index_starting = none; memory = λ a. 0; ipis = [] };
}
