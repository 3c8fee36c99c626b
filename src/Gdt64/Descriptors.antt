-- ===== src/Gdt64/Descriptors.antt =====
-- gdt64.c: what the processor reads in a descriptor.
use neka_kernel.Base.{ℕ, ◌+◌, ◌*◌, ◌/◌, ◌%◌, ◌^◌, ◌<◌, ◌≡◌, arith, bit_or_below}
use neka_kernel.Gdt64.{tss_descriptor_low, tss_descriptor_high}

-- The fields of a descriptor, as the architecture lays them out.
abbrev pub base_of : ℕ → ℕ → ℕ
base_of low high = low / 2 ^ 16 % 2 ^ 24 + low / 2 ^ 56 * 2 ^ 24 + high % 2 ^ 32 * 2 ^ 32

abbrev pub limit_of : ℕ → ℕ
limit_of low = low % 2 ^ 16 + low / 2 ^ 48 % 2 ^ 4 * 2 ^ 16

-- Bits 40 to 47: an available 64-bit TSS that is present has 0x89.
abbrev pub access_of : ℕ → ℕ
access_of low = low / 2 ^ 40 % 2 ^ 8

-- The fields share no bit.
descriptor_sum :
    (base limit : ℕ)
    → base < 2 ^ 64
    → limit < 2 ^ 20
    → tss_descriptor_low base limit
      ≡ limit % 2 ^ 16
        + base % 2 ^ 24 * 2 ^ 16
        + 0x89 * 2 ^ 40
        + limit / 2 ^ 16 % 2 ^ 4 * 2 ^ 48
        + base / 2 ^ 24 % 2 ^ 8 * 2 ^ 56
unfolding tss_descriptor_low
descriptor_sum base limit hb hl =
    let a1 =
      bit_or_below 16 (limit % 2 ^ 16) (base % 2 ^ 24 * 2 ^ 16) (omega arith) (omega arith) in
    let s1 = limit % 2 ^ 16 + base % 2 ^ 24 * 2 ^ 16 in
    let a2 = bit_or_below 40 s1 (0x89 * 2 ^ 40) (omega arith) (omega arith) in
    let s2 = s1 + 0x89 * 2 ^ 40 in
    let a3 = bit_or_below 48 s2 (limit / 2 ^ 16 % 2 ^ 4 * 2 ^ 48) (omega arith) (omega arith) in
    let s3 = s2 + limit / 2 ^ 16 % 2 ^ 4 * 2 ^ 48 in
    let a4 = bit_or_below 56 s3 (base / 2 ^ 24 % 2 ^ 8 * 2 ^ 56) (omega arith) (omega arith) in
    rw (a1, a2, a3) a4

-- A TSS descriptor reads back as the base, the limit and the type that it was built from.
pub tss_descriptor_reads :
    (base limit : ℕ)
    → base < 2 ^ 64
    → limit < 2 ^ 20
    → (base_of (tss_descriptor_low base limit) (tss_descriptor_high base) ≡ base)
      × (limit_of (tss_descriptor_low base limit) ≡ limit)
      × (access_of (tss_descriptor_low base limit) ≡ 0x89)
unfolding tss_descriptor_high
tss_descriptor_reads base limit hb hl =
    rw (descriptor_sum base limit hb hl) (omega arith, omega arith, omega arith)
