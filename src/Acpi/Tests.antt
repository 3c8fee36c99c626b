-- ===== src/Acpi/Tests.antt =====
-- acpi.c: the theorems at small tables.
use neka_kernel.Base.{ℕ, ◌-◌, ◌≡◌, arith, some, List, [], ◌∷◌, get_or}
use neka_kernel.Acpi.{Memory, scan_for_rsdp, cpus_loop}
use neka_kernel.Acpi.Checksum.{IsScanned, scan_for_rsdp_correct}
use neka_kernel.Acpi.Madt.{Entries, ended, entry, cpus_loop_correct}

-- A local APIC with id 5 that is enabled, and an I/O APIC at 0xFEC00000.
abbrev entry_bytes : List ℕ
entry_bytes =
    0 ∷ 8 ∷ 0 ∷ 5 ∷ 1 ∷ 0 ∷ 0 ∷ 0 ∷ 1 ∷ 12 ∷ 0 ∷ 0 ∷ 0 ∷ 0 ∷ 0xc0 ∷ 0xfe ∷ 0 ∷ 0 ∷ 0 ∷ 0 ∷ []

abbrev firmware : Memory
firmware a = get_or entry_bytes (a - 100) 0

two-Entries : Entries firmware 120 100 (100 ∷ 108 ∷ [])
two-Entries = entry (omega arith) (entry (omega arith) (ended (omega arith)))

scan_for_rsdp_correct_example : IsScanned firmware 0x80 0xc0 (scan_for_rsdp 5 firmware 0x80 0xc0)
scan_for_rsdp_correct_example =
    scan_for_rsdp_correct 5 firmware 0x80 0xc0 (omega arith) (omega arith) (omega arith)

cpus_loop_correct_example : cpus_loop 3 firmware 100 120 16 ≡ some (5 ∷ [])
cpus_loop_correct_example =
    cpus_loop_correct 3 firmware 100 120 16 (100 ∷ 108 ∷ []) two-Entries (omega arith)
