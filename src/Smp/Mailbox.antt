-- ===== src/Smp/Mailbox.antt =====
-- smp.c: what a CPU that is woken finds in the mailbox.
use neka_kernel.Base.{ℕ, ◌+◌, ◌%◌, ◌^◌, ◌<◌, ◌≤◌, ◌≡◌, ◌≢◌, arith}
use neka_kernel.Acpi.{Memory, read64}
use neka_kernel.Gdt64.{store_bytes}
use neka_kernel.Heap.{heap_size}
use neka_kernel.Smp.{Board, Ipi, stack_top_of, fill_mailbox, ap_stack_size}

-- The addresses that the linker and the other parts give fit in 64 bits.
pub record IsGiven (g : Board) : Type 0 where
  pub cr3 : g.kernel_cr3 < 2 ^ 64
  pub gdt : g.gdt_ptr_addr < 2 ^ 64
  pub entry : g.ap_entry64 < 2 ^ 64

-- An interrupt for a CPU other than the boot CPU, which finds a complete mailbox, with a stack that is
-- aligned to 16 and ends within the heap's arena, with room for all but 15 bytes of its size.
pub record IsReady (g : Board) (arena : ℕ) (i : Ipi) : Type 0 where
  pub target : i.target ≢ g.bsp_id
  pub cr3 : read64 i.memory 0x8100 ≡ g.kernel_cr3
  pub gdt : read64 i.memory 0x8108 ≡ g.gdt_ptr_addr
  pub aligned : read64 i.memory 0x8110 % 16 ≡ 0
  pub room : arena + ap_stack_size ≤ read64 i.memory 0x8110
  pub inside : read64 i.memory 0x8110 ≤ arena + heap_size
  pub entry : read64 i.memory 0x8118 ≡ g.ap_entry64

module _ (g : Board) (ap_stack : ℕ) (m : Memory) (v : IsGiven g)
    (fits : ap_stack + ap_stack_size < 2 ^ 64) where
  abbrev box : Memory
  box = fill_mailbox g ap_stack m

  stack_aligned :
      (stack_top_of ap_stack % 16 ≡ 0)
      × (stack_top_of ap_stack < 2 ^ 64)
      × (stack_top_of ap_stack ≤ ap_stack + ap_stack_size)
      × (ap_stack + ap_stack_size ≤ stack_top_of ap_stack + 15)
  unfolding stack_top_of
  stack_aligned = omega (arith, fits)

  reads_cr3 : read64 box 0x8100 ≡ g.kernel_cr3
  unfolding fill_mailbox store_bytes
  reads_cr3 = omega (arith, v.cr3)

  reads_gdt : read64 box 0x8108 ≡ g.gdt_ptr_addr
  unfolding fill_mailbox store_bytes
  reads_gdt = omega (arith, v.gdt)

  reads_stack : read64 box 0x8110 ≡ stack_top_of ap_stack
  unfolding fill_mailbox store_bytes
  reads_stack = omega (arith, stack_aligned.1)

  reads_entry : read64 box 0x8118 ≡ g.ap_entry64
  unfolding fill_mailbox store_bytes
  reads_entry = omega (arith, v.entry)

  pub mailbox-IsReady :
      (arena apic_id command : ℕ)
      → apic_id ≢ g.bsp_id
      → arena + 15 ≤ ap_stack
      → ap_stack + ap_stack_size ≤ arena + heap_size
      → IsReady g arena (record { target = apic_id; command = command; memory = box })
  mailbox-IsReady arena apic_id command apart low high = record {
    target = apart;
    cr3 = reads_cr3;
    gdt = reads_gdt;
    aligned = rw reads_stack stack_aligned.0;
    room = rw reads_stack (omega (arith, stack_aligned.3));
    inside = rw reads_stack (omega (arith, stack_aligned.2));
    entry = reads_entry;
  }
