-- ===== src/Acpi.antt =====
-- acpi.c: the tables that the firmware leaves in memory.
mod Checksum
mod Madt
mod Tests
use neka_kernel.Base.{
  ℕ, zero, suc, ◌+◌, ◌-◌, ◌*◌, ◌/◌, ◌%◌, ◌^◌, Bool, true, false, ◌&&◌, Option, none, some, List, [],
  ◌∷◌, ◌++◌, length, ltb, leb, ◌==◌, if◌then◌else◌,
}

-- Memory is a function from addresses to bytes, and numbers in it are little-endian.
abbrev pub Memory : Type 0
Memory = ℕ → ℕ

abbrev pub read16 : Memory → ℕ → ℕ
read16 mem a = mem a + mem (a + 1) * 2 ^ 8

abbrev pub read32 : Memory → ℕ → ℕ
read32 mem a = read16 mem a + read16 mem (a + 2) * 2 ^ 16

abbrev pub read64 : Memory → ℕ → ℕ
read64 mem a = read32 mem a + read32 mem (a + 4) * 2 ^ 32

-- The loop of `checksum_ok` from `addr` on, with the sum so far in a byte.
unfoldable pub checksum_loop : Memory → ℕ → ℕ → ℕ → ℕ
checksum_loop mem addr zero sum = sum
checksum_loop mem addr (suc n) sum = checksum_loop mem (addr + 1) n ((sum + mem addr) % 2 ^ 8)

unfoldable pub checksum_ok : Memory → ℕ → ℕ → Bool
unfolding checksum_loop
checksum_ok mem addr len = checksum_loop mem addr len 0 == 0

-- The comparison of a signature, character by character.
unfoldable pub has_signature : Memory → ℕ → List ℕ → Bool
has_signature mem addr [] = true
has_signature mem addr (c ∷ cs) = (mem addr == c) && has_signature mem (addr + 1) cs

-- "RSD PTR " and "APIC"
abbrev pub rsdp_signature : List ℕ
rsdp_signature = 82 ∷ 83 ∷ 68 ∷ 32 ∷ 80 ∷ 84 ∷ 82 ∷ 32 ∷ []

abbrev pub madt_signature : List ℕ
madt_signature = 65 ∷ 80 ∷ 73 ∷ 67 ∷ []

-- A null pointer is 0. The loop takes fuel: `none` means that it ran out.
unfoldable pub scan_for_rsdp : ℕ → Memory → ℕ → ℕ → Option ℕ
unfolding has_signature checksum_ok
scan_for_rsdp zero mem addr end = none
scan_for_rsdp (suc fuel) mem addr end =
    let rest = scan_for_rsdp fuel mem ((addr + 16) % 2 ^ 64) end in
    if ltb addr end
    then if has_signature mem addr rsdp_signature && checksum_ok mem addr 20
      then some addr
      else rest
    else some 0

-- `acpi_find_rsdp_bios` on the old `g_rsdp`, with the new one.
unfoldable pub acpi_find_rsdp_bios : ℕ → Memory → ℕ → Option ℕ
unfolding scan_for_rsdp
acpi_find_rsdp_bios fuel mem g_rsdp =
    let ebda_addr = read16 mem 0x40e * 2 ^ 4 in
    let rom = scan_for_rsdp fuel mem 0xe0000 0x100000 in
    if g_rsdp == 0
    then elim (if ebda_addr == 0
        then some 0
        else scan_for_rsdp fuel mem ebda_addr (ebda_addr + 1024)) [
          | none ↦ none
          | some found ↦ if found == 0 then rom else some found
        ]
    else some g_rsdp

-- `sizeof(sdt_header_t)`
abbrev pub sizeof_sdt_header : ℕ
sizeof_sdt_header = 36

-- The loop of `find_madt` over the last `n` table pointers, each of `width` bytes.
unfoldable pub find_table : Memory → (Memory → ℕ → ℕ) → ℕ → ℕ → ℕ → ℕ
unfolding has_signature
find_table mem read width ptr zero = 0
find_table mem read width ptr (suc n) =
    let t = read mem ptr in
    if has_signature mem t madt_signature then t else find_table mem read width (ptr + width) n

-- The number of pointers behind a header, of which the source keeps the low 32 bits.
abbrev pub table_count : Memory → ℕ → ℕ → ℕ
table_count mem sdt width =
    (read32 mem (sdt + 4) + 2 ^ 64 - sizeof_sdt_header) % 2 ^ 64 / width % 2 ^ 32

unfoldable pub find_madt : Memory → ℕ → ℕ
unfolding find_table
find_madt mem g_rsdp =
    let xsdt = read64 mem (g_rsdp + 24) in
    let rsdt = read32 mem (g_rsdp + 16) in
    if g_rsdp == 0
    then 0
    else if leb 2 (mem (g_rsdp + 15)) && ltb 0 xsdt
    then find_table mem read64 8 (xsdt + sizeof_sdt_header) (table_count mem xsdt 8)
    else find_table mem read32 4 (rsdt + sizeof_sdt_header) (table_count mem rsdt 4)

abbrev pub madt_type_local_apic : ℕ
madt_type_local_apic = 0

abbrev pub madt_type_io_apic : ℕ
madt_type_io_apic = 1

-- `entries` of `madt_t`, and the end of the table.
abbrev pub madt_entries : ℕ → ℕ
madt_entries madt = madt + 44

abbrev pub madt_end : Memory → ℕ → ℕ
madt_end mem madt = madt + read32 mem (madt + 4)

-- The loop of `acpi_find_apic_bases`: the address of the first I/O APIC, or 0.
unfoldable pub io_apic_loop : ℕ → Memory → ℕ → ℕ → Option ℕ
io_apic_loop zero mem ptr end = none
io_apic_loop (suc fuel) mem ptr end =
    let rest = io_apic_loop fuel mem (ptr + mem (ptr + 1)) end in
    if ltb ptr end
    then if mem ptr == madt_type_io_apic then some (read32 mem (ptr + 4)) else rest
    else some 0

-- `*lapic_pa_out` and `*ioapic_pa_out`; the function returns 1 when the second is not 0. `some none`
-- stands for the return without a table.
unfoldable pub acpi_find_apic_bases : ℕ → Memory → ℕ → Option (Option (ℕ × ℕ))
unfolding find_madt io_apic_loop
acpi_find_apic_bases fuel mem g_rsdp =
    let madt = find_madt mem g_rsdp in
    if madt == 0
    then some none
    else elim (io_apic_loop fuel mem (madt_entries madt) (madt_end mem madt)) [
      | none ↦ none
      | some address ↦ some (some (read32 mem (madt + 36), address))
    ]

-- `flags & MADT_FLAG_ENABLED` of a local APIC.
abbrev pub is_enabled_cpu : Memory → ℕ → Bool
is_enabled_cpu mem ptr = (mem ptr == madt_type_local_apic) && (read32 mem (ptr + 4) % 2 == 1)

-- The loop of `acpi_find_cpus`, with room for `room` more: the ids that it writes.
unfoldable pub cpus_loop : ℕ → Memory → ℕ → ℕ → ℕ → Option (List ℕ)
cpus_loop zero mem ptr end room = none
cpus_loop (suc fuel) mem ptr end room =
    let next = ptr + mem (ptr + 1) in
    let taken = cpus_loop fuel mem next end (room - 1) in
    let skipped = cpus_loop fuel mem next end room in
    if ltb ptr end && ltb 0 room
    then if is_enabled_cpu mem ptr
      then elim taken [ none ↦ none | some ids ↦ some (mem (ptr + 3) ∷ ids) ]
      else skipped
    else some []

-- The ids in `apic_ids_out`; the function returns their number.
unfoldable pub acpi_find_cpus : ℕ → Memory → ℕ → ℕ → Option (List ℕ)
unfolding find_madt cpus_loop
acpi_find_cpus fuel mem g_rsdp max_cpus =
    let madt = find_madt mem g_rsdp in
    let found = cpus_loop fuel mem (madt_entries madt) (madt_end mem madt) max_cpus in
    if madt == 0 then some [] else found
