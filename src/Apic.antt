-- ===== src/Apic.antt =====
-- apic.c: the local APIC, its timer, and the I/O APIC.
mod Indexes
mod Calibration
mod Tests
use neka_kernel.Base.{
  ℕ, ◌+◌, ◌-◌, ◌*◌, ◌/◌, ◌%◌, ◌^◌, bit_or, bit, List, [], ◌∷◌, ◌++◌, Option, none, some, ltb, ◌==◌,
  if◌then◌else◌,
}
use neka_kernel.Acpi.{Memory, acpi_find_apic_bases}

abbrev pub panic_no_apic : ℕ
panic_no_apic = 1

abbrev pub lapic_spurious : ℕ
lapic_spurious = 0xf0

abbrev pub lapic_lvt_timer : ℕ
lapic_lvt_timer = 0x320

abbrev pub lapic_timer_init : ℕ
lapic_timer_init = 0x380

abbrev pub lapic_timer_div : ℕ
lapic_timer_div = 0x3e0

abbrev pub max_tracked_cpus : ℕ
max_tracked_cpus = 16

-- What the code does to the machine: a write to a device register of 32 bits, to a port or to a
-- model specific register, or a call of `paging_map_mmio_2mb`.
pub data Access : Type 0 where
  writes : ℕ → ℕ → Access
  outb : ℕ → ℕ → Access
  wrmsr : ℕ → ℕ → Access
  maps : ℕ → Access

-- The two variables, with the accesses so far.
pub record Apic : Type 0 where
  pub lapic_base_pa : ℕ
  pub ioapic_base_pa : ℕ
  pub accesses : List Access

abbrev pub perform : List Access → Apic → Apic
perform l a = record a { accesses = a.accesses ++ l }

-- The panic, on the register EDX of `cpuid` leaf 1.
unfoldable pub apic_check_supported : ℕ → Option ℕ
apic_check_supported d = if bit d 9 then none else some panic_no_apic

-- `none` when the walk over the MADT runs out of fuel.
unfoldable pub apic_apply_acpi_bases : ℕ → Memory → ℕ → Apic → Option Apic
apic_apply_acpi_bases fuel mem g_rsdp a = elim (acpi_find_apic_bases fuel mem g_rsdp) [
  | none ↦ none
  | some none ↦ some a
  | some (some (lapic_pa, ioapic_pa)) ↦
      if ioapic_pa == 0
      then some a
      else some (record a { lapic_base_pa = lapic_pa; ioapic_base_pa = ioapic_pa })
]

unfoldable pub disable_legacy_pic : Apic → Apic
disable_legacy_pic a = perform (outb 0xa1 0xff ∷ outb 0x21 0xff ∷ []) a

-- On the value of the register `LAPIC_ID`.
unfoldable pub lapic_get_id : ℕ → ℕ
lapic_get_id id_reg = id_reg / 2 ^ 24 % 2 ^ 8

unfoldable pub get_cpu_index : ℕ → ℕ
unfolding lapic_get_id
get_cpu_index id_reg = let id = lapic_get_id id_reg in if ltb id max_tracked_cpus then id else 0

-- On the value of `IA32_APIC_BASE`.
unfoldable pub lapic_enable : ℕ → Apic → Apic
lapic_enable base a =
    perform
      (maps a.lapic_base_pa
        ∷ wrmsr 0x1b (bit_or base (2 ^ 11))
        ∷ writes (a.lapic_base_pa + lapic_spurious) 0x1ff
        ∷ [])
      a

-- The count for the PIT, of which the two bytes are sent.
unfoldable pub pit_count : ℕ → ℕ
pit_count ms = 1193182 * ms / 1000 % 2 ^ 32

-- `x` is the byte at port 0x61, and `remaining` what the timer shows when the PIT is done.
unfoldable pub lapic_calibrate_ticks : ℕ → ℕ → ℕ → Apic → ℕ × Apic
unfolding pit_count
lapic_calibrate_ticks ms x remaining a =
    let count = pit_count ms in
    (
      0xffff_ffff - remaining,
      perform
          (writes (a.lapic_base_pa + lapic_timer_div) 3
            ∷ outb 0x61 (bit_or (x / 4 * 4 + x % 2) 1)
            ∷ outb 0x43 0xb0
            ∷ outb 0x42 (count % 2 ^ 8)
            ∷ outb 0x42 (count / 2 ^ 8 % 2 ^ 8)
            ∷ writes (a.lapic_base_pa + lapic_timer_init) 0xffff_ffff
            ∷ [])
          a,
    )

-- For a rate `hz` that is not 0.
unfoldable pub apic_timer_init : ℕ → ℕ → ℕ → ℕ → Apic → Apic
unfolding lapic_calibrate_ticks
apic_timer_init vector hz x remaining a =
    let (ticks, a1) = lapic_calibrate_ticks (1000 / hz) x remaining a in
    perform
      (writes (a1.lapic_base_pa + lapic_lvt_timer) (bit_or vector (2 ^ 17))
        ∷ writes (a1.lapic_base_pa + lapic_timer_div) 3
        ∷ writes (a1.lapic_base_pa + lapic_timer_init) ticks
        ∷ [])
      a1

unfoldable pub ioapic_write : ℕ → ℕ → Apic → Apic
ioapic_write reg val a =
    perform
      (maps a.ioapic_base_pa
        ∷ writes a.ioapic_base_pa reg
        ∷ writes (a.ioapic_base_pa + 0x10) val
        ∷ [])
      a

unfoldable pub ioapic_set_redirect : ℕ → ℕ → ℕ → Apic → Apic
unfolding lapic_get_id ioapic_write
ioapic_set_redirect irq vector id_reg a =
    let high = lapic_get_id id_reg * 2 ^ 24 in
    ioapic_write ((0x10 + irq * 2 + 1) % 2 ^ 8) high
      (ioapic_write ((0x10 + irq * 2) % 2 ^ 8) vector a)
