-- ===== src/Smp.antt =====
-- smp.c: the boot CPU wakes the other CPUs, one after the other.
pub mod Mailbox
pub mod Waking
mod Tests
use neka_kernel.Base.{
  ℕ, zero, suc, ◌+◌, ◌-◌, ◌*◌, ◌/◌, ◌%◌, ◌^◌, bit_or, Bool, true, false, List, [], ◌∷◌, length,
  Option, none, some, leb, ◌==◌, if◌then◌else◌, update,
}
use neka_kernel.Acpi.{Memory}
use neka_kernel.Gdt64.{store_bytes}
use neka_kernel.Heap.{Heap, Outcome, Lock, kmalloc}

abbrev pub trampoline_addr : ℕ
trampoline_addr = 0x8000

abbrev pub mbox_offset : ℕ
mbox_offset = 0x100

abbrev pub ap_stack_size : ℕ
ap_stack_size = 16 * 1024

abbrev pub max_ap_cpus : ℕ
max_ap_cpus = 8

-- One interprocessor interrupt: the id written to `LAPIC_ICR_HIGH`, the command written to
-- `LAPIC_ICR_LOW`, and the memory that the target finds.
pub record Ipi : Type 0 where
  pub target : ℕ
  pub command : ℕ
  pub memory : Memory

-- What the linker, the other parts and the hardware give: the bytes of the trampoline, the page
-- tables, the GDT pointer, the entry point, the id of the boot CPU, and whether the CPU with an id
-- has set its flag before the wait for it ends, for the interrupts sent so far, the last one first.
pub record Board : Type 0 where
  pub blob : ℕ → ℕ
  pub blob_size : ℕ
  pub kernel_cr3 : ℕ
  pub gdt_ptr_addr : ℕ
  pub ap_entry64 : ℕ
  pub bsp_id : ℕ
  pub answers : ℕ → List Ipi → Bool

-- The static variables, the memory below 1 MB, and the interrupts sent so far, the last one first.
pub record Smp : Type 0 where
  pub ap_ready : ℕ → Bool
  pub g_ap_index_starting : Option ℕ
  pub memory : Memory
  pub ipis : List Ipi

unfoldable pub send_init_sipi_sipi : ℕ → Smp → Smp
send_init_sipi_sipi apic_id s =
    let vector = trampoline_addr / 2 ^ 12 in
    let send : ℕ → Ipi =
      λ command. record { target = apic_id; command = command; memory = s.memory } in
    record s {
      ipis = send (bit_or 0x4600 vector) ∷ send (bit_or 0x4600 vector) ∷ send 0x4500 ∷ s.ipis;
    }

-- The first `n` rounds of the loop that copies the trampoline.
unfoldable pub copy_blob : (ℕ → ℕ) → ℕ → Memory → Memory
copy_blob src zero m = m
copy_blob src (suc n) m = update (copy_blob src n m) (trampoline_addr + n) (src n)

unfoldable pub stack_top_of : ℕ → ℕ
stack_top_of ap_stack = (ap_stack + ap_stack_size) / 16 * 16

unfoldable pub fill_mailbox : Board → ℕ → Memory → Memory
unfolding store_bytes stack_top_of
fill_mailbox g ap_stack m =
    let mbox = trampoline_addr + mbox_offset in
    store_bytes 8 (mbox + 24) g.ap_entry64 (
      store_bytes 8 (mbox + 16) (stack_top_of ap_stack)
        (store_bytes 8 (mbox + 8) g.gdt_ptr_addr (store_bytes 8 mbox g.kernel_cr3 m)))

-- One CPU, with a stack that `kmalloc` gave: the trampoline, the mailbox and the interrupts, and the
-- answer, if there is one.
unfoldable pub wake : Board → ℕ → ℕ → ℕ → Smp → Smp
unfolding send_init_sipi_sipi copy_blob fill_mailbox
wake g apic_id ap_stack started s =
    let sent = send_init_sipi_sipi apic_id (record s {
      memory = fill_mailbox g ap_stack (copy_blob g.blob g.blob_size s.memory);
      ap_ready = update s.ap_ready started false;
      g_ap_index_starting = some started;
    }) in
    record sent { ap_ready = update sent.ap_ready started (g.answers apic_id sent.ipis) }

module _ (L : Lock) where
  open L use {State}

  -- How the loop ends: with the number of CPUs started, in a panic of the heap, or, with too little
  -- fuel for `kmalloc`, without an answer.
  pub data Result : Type 0 where
    ends : ℕ → Smp → State → Heap → Result
    panics : ℕ → Result
    out_of_fuel : Result

  -- The loop over the ids that ACPI lists.
  unfoldable pub start_loop : ℕ → Board → List ℕ → ℕ → Smp → State → Heap → Result
  unfolding wake
  start_loop fuel g [] started s t h = ends started s t h
  start_loop fuel g (apic_id ∷ ids) started s t h =
      if leb max_ap_cpus started
      then ends started s t h
      else if apic_id == g.bsp_id
      then start_loop fuel g ids started s t h
      else elim (kmalloc L fuel ap_stack_size (t, h)) [
        | none ↦ out_of_fuel
        | some (Outcome.panics c, t1, h1) ↦ panics c
        | some (Outcome.returns ap_stack, t1, h1) ↦
            let s1 = wake g apic_id ap_stack started s in
            start_loop fuel g ids (if s1.ap_ready started then started + 1 else started) s1 t1 h1
      ]

  -- On the ids that `acpi_find_cpus` gives.
  unfoldable pub smp_start_aps : ℕ → Board → List ℕ → Smp → State → Heap → Result
  unfolding start_loop
  smp_start_aps fuel g apic_ids s t h =
      if leb (length apic_ids) 1 then ends 0 s t h else start_loop fuel g apic_ids 0 s t h
