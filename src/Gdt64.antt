-- ===== src/Gdt64.antt =====
-- gdt64.c: the table of segment descriptors, and the TSS of each CPU.
mod Descriptors
pub mod Tasks
use neka_kernel.Base.{
  ℕ, zero, suc, ◌+◌, ◌-◌, ◌*◌, ◌/◌, ◌%◌, ◌^◌, bit_or, ◌&&◌, ltb, leb, ◌==◌, if◌then◌else◌, update,
}

abbrev pub kstack0_size : ℕ
kstack0_size = 8192

abbrev pub max_tss_cpus : ℕ
max_tss_cpus = 4

abbrev pub sizeof_tss : ℕ
sizeof_tss = 104

abbrev pub sizeof_gdt : ℕ
sizeof_gdt = (5 + 2 * max_tss_cpus) * 8

abbrev pub sel_kcode : ℕ
sel_kcode = 0x08

abbrev pub sel_kdata : ℕ
sel_kdata = 0x10

abbrev pub sel_tss_base : ℕ
sel_tss_base = 0x28

-- The static variables, with the TSS of each CPU as its bytes and the addresses that the linker
-- gives, and the registers of the CPU that runs the code: GDTR, CS, the five data segments, TR.
pub record Gdt64 : Type 0 where
  pub gdt : ℕ → ℕ
  pub tss : ℕ → ℕ → ℕ
  pub gdt_address : ℕ
  pub tss_address : ℕ
  pub kstack0_address : ℕ
  pub gdt_ptr : ℕ × ℕ
  pub gdtr : ℕ × ℕ
  pub cs : ℕ
  pub data_segments : ℕ
  pub tr : ℕ

-- A number of `size` bytes, stored at offset `a`.
unfoldable pub store_bytes : ℕ → ℕ → ℕ → (ℕ → ℕ) → ℕ → ℕ
store_bytes size a v m j = if leb a j && ltb j (a + size) then v / 256 ^ (j - a) % 256 else m j

-- The first `n` rounds of the loop that clears a TSS.
unfoldable pub clear_tss : ℕ → (ℕ → ℕ) → ℕ → ℕ
unfolding store_bytes
clear_tss zero t = t
clear_tss (suc n) t = store_bytes 8 (n * 8) 0 (clear_tss n t)

-- The two slots of a TSS descriptor.
unfoldable pub tss_descriptor_low : ℕ → ℕ → ℕ
tss_descriptor_low base limit =
    bit_or
      (bit_or (bit_or (bit_or (limit % 2 ^ 16) (base % 2 ^ 24 * 2 ^ 16)) (0x89 * 2 ^ 40))
        (limit / 2 ^ 16 % 2 ^ 4 * 2 ^ 48))
      (base / 2 ^ 24 % 2 ^ 8 * 2 ^ 56)

unfoldable pub tss_descriptor_high : ℕ → ℕ
tss_descriptor_high base = base / 2 ^ 32 % 2 ^ 32

-- The callers pass `get_cpu_index()`, or 0, so the index is not negative.
unfoldable pub gdt_setup_cpu_tss : ℕ → Gdt64 → Gdt64
unfolding store_bytes clear_tss tss_descriptor_low tss_descriptor_high
gdt_setup_cpu_tss cpu_idx s =
    if leb max_tss_cpus cpu_idx
    then s
    else let t1 = clear_tss (sizeof_tss / 8) (s.tss cpu_idx) in
      let t2 = store_bytes 8 4 (s.kstack0_address + cpu_idx * kstack0_size + kstack0_size) t1 in
      let t3 = store_bytes 2 102 sizeof_tss t2 in
      let base = s.tss_address + cpu_idx * sizeof_tss in
      let limit = sizeof_tss - 1 in
      let slot = 5 + cpu_idx * 2 in
      record s {
        tss = update s.tss cpu_idx t3;
        gdt =
            update (update s.gdt slot (tss_descriptor_low base limit)) (slot + 1)
              (tss_descriptor_high base);
        tr = (sel_tss_base + cpu_idx * 0x10) % 2 ^ 16;
      }

abbrev pub kcode : ℕ
kcode = bit_or (bit_or (bit_or (2 ^ 43) (2 ^ 44)) (2 ^ 47)) (2 ^ 53)

abbrev pub kdata : ℕ
kdata = bit_or (bit_or (2 ^ 44) (2 ^ 47)) (2 ^ 41)

abbrev pub ucode : ℕ
ucode = bit_or kcode (3 * 2 ^ 45)

abbrev pub udata : ℕ
udata = bit_or kdata (3 * 2 ^ 45)

unfoldable pub gdt_init : Gdt64 → Gdt64
unfolding gdt_setup_cpu_tss
gdt_init s =
    let g1 = update (update s.gdt 0 0) 1 kcode in
    let g2 = update (update (update g1 2 kdata) 3 ucode) 4 udata in
    let ptr : ℕ × ℕ = (sizeof_gdt - 1, s.gdt_address) in
    gdt_setup_cpu_tss 0
      (record s { gdt = g2; gdt_ptr = ptr; gdtr = ptr; data_segments = sel_kdata; cs = sel_kcode })

unfoldable pub gdt_get_tss_rsp0 : ℕ → Gdt64 → ℕ
gdt_get_tss_rsp0 cpu_idx s =
    if leb max_tss_cpus cpu_idx
    then 0
    else let t = s.tss cpu_idx in
      t 4
      + t 5 * 2 ^ 8
      + t 6 * 2 ^ 16
      + t 7 * 2 ^ 24
      + t 8 * 2 ^ 32
      + t 9 * 2 ^ 40
      + t 10 * 2 ^ 48
      + t 11 * 2 ^ 56
