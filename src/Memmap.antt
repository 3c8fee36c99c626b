-- ===== src/Memmap.antt =====
-- memmap.c: the list of usable physical regions, and the allocator of page frames over it.
mod Regions
mod Entry
mod Filling
pub mod Rounds
pub mod Frames
pub mod Aligned
pub mod Past
mod Tests
use neka_kernel.Base.{
  ℕ, zero, suc, ◌+◌, ◌-◌, ◌*◌, ◌/◌, ◌%◌, ◌^◌, Bool, true, false, ◌&&◌, Option, none, some, ltb, leb,
  ◌==◌, if◌then◌else◌, update,
}

abbrev pub max_regions : ℕ
max_regions = 64

abbrev pub panic_memmap_oom : ℕ
panic_memmap_oom = 1

pub record Region : Type 0 where
  pub base : ℕ
  pub length : ℕ

-- The static variables; `regions` is a function of the index.
pub record Memmap : Type 0 where
  pub regions : ℕ → Region
  pub region_count : ℕ
  pub map_active : Bool
  pub reserve_start : ℕ
  pub reserve_end : ℕ
  pub cur_region : ℕ
  pub cur_offset : ℕ

unfoldable pub add_region : ℕ → ℕ → Memmap → Memmap
add_region base length m = if leb max_regions m.region_count then m else record m {
  regions = update m.regions m.region_count (record { base = base; length = length });
  region_count = m.region_count + 1;
}

-- The records that the boot loaders leave in memory. A `multiboot_mmap_entry_t` is read at an
-- address by `entry`, and an `efi_mem_descriptor_t` by `descriptor`.
pub record MmapEntry : Type 0 where
  pub size : ℕ
  pub addr : ℕ
  pub len : ℕ
  pub type : ℕ

pub record EfiDescriptor : Type 0 where
  pub type : ℕ
  pub phys_start : ℕ
  pub num_pages : ℕ

pub record MultibootInfo : Type 0 where
  pub flags : ℕ
  pub mmap_length : ℕ
  pub mmap_addr : ℕ

abbrev pub multiboot_mem_available : ℕ
multiboot_mem_available = 1

abbrev pub efi_conventional_memory : ℕ
efi_conventional_memory = 7

-- The loop of `memmap_parse_multiboot`, with fuel: `none` means that it ran out.
unfoldable pub multiboot_loop : (ℕ → MmapEntry) → ℕ → ℕ → ℕ → Memmap → Option Memmap
multiboot_loop entry zero ptr end m = none
multiboot_loop entry (suc fuel) ptr end m =
    let e = entry ptr in
    let m1 = if e.type == multiboot_mem_available then add_region e.addr e.len m else m in
    let rest = multiboot_loop entry fuel ((ptr + (e.size + 4) % 2 ^ 64) % 2 ^ 64) end m1 in
    if ltb ptr end then rest else some m

-- `flags & (1u << 6)` is bit 6 of the flags.
unfoldable pub memmap_parse_multiboot :
    (ℕ → MultibootInfo) → (ℕ → MmapEntry) → ℕ → ℕ → Memmap → Option Memmap
unfolding multiboot_loop
memmap_parse_multiboot info entry fuel mbi_addr m =
    if mbi_addr == 0
    then some m
    else let i = info mbi_addr in
      if i.flags / 2 ^ 6 % 2 == 0
      then some m
      else multiboot_loop entry fuel i.mmap_addr ((i.mmap_addr + i.mmap_length) % 2 ^ 32) m

-- The loop of `memmap_parse_uefi` from an offset on.
unfoldable pub uefi_loop : (ℕ → EfiDescriptor) → ℕ → ℕ → ℕ → ℕ → Memmap → Option Memmap
uefi_loop descriptor zero offset map_size descriptor_size m = none
uefi_loop descriptor (suc fuel) offset map_size descriptor_size m =
    let d = descriptor offset in
    let m1 =
      if d.type == efi_conventional_memory
      then add_region d.phys_start ((d.num_pages * 4096) % 2 ^ 64) m
      else m in
    let rest =
      uefi_loop descriptor fuel ((offset + descriptor_size) % 2 ^ 64) map_size descriptor_size m1 in
    if ltb offset map_size then rest else some m

unfoldable pub memmap_parse_uefi : (ℕ → EfiDescriptor) → ℕ → ℕ → ℕ → Memmap → Option Memmap
unfolding uefi_loop
memmap_parse_uefi descriptor fuel map_size descriptor_size m =
    uefi_loop descriptor fuel 0 map_size descriptor_size m

-- The loop of `memmap_region_is_safe` over the last `n` regions from index `i` on.
unfoldable pub safe_from : Memmap → ℕ → ℕ → ℕ → ℕ → Bool
safe_from m addr length i zero = false
safe_from m addr length i (suc n) =
    let r = m.regions i in
    if leb r.base addr && leb ((addr + length) % 2 ^ 64) ((r.base + r.length) % 2 ^ 64)
    then true
    else safe_from m addr length (i + 1) n

unfoldable pub memmap_region_is_safe : ℕ → ℕ → Memmap → Bool
unfolding safe_from
memmap_region_is_safe addr length m = safe_from m addr length 0 m.region_count

unfoldable pub memmap_activate : ℕ → ℕ → Memmap → Memmap
memmap_activate reserved_lo reserved_hi m = record m {
  reserve_start = reserved_lo;
  reserve_end = reserved_hi;
  cur_region = 0;
  cur_offset = 0;
  map_active = true;
}

-- A frame, the panic when the regions run out, or (with too little fuel) no answer.
pub data Frame : Type 0 where
  frame : ℕ → Frame
  panics : ℕ → Frame

-- `(base + 0xFFF) & ~0xFFF`
abbrev pub align_page : ℕ → ℕ
align_page base = (base + 0xfff) % 2 ^ 64 / 4096 * 4096

-- One round of the loop of `memmap_alloc_frame` on the current region: the next offset and the
-- address to return, or `none` to go on with the next region.
pub data Round : Type 0 where
  next_region : Round
  skip_to : ℕ → Round
  found : ℕ → Round

unfoldable pub alloc_round : Memmap → Round
alloc_round m =
    let r = m.regions m.cur_region in
    let base_aligned = align_page r.base in
    let addr = (base_aligned + m.cur_offset) % 2 ^ 64 in
    let region_end = (r.base + r.length) % 2 ^ 64 in
    if leb region_end addr
    then Round.next_region
    else if ltb addr 0x10_0000
    then Round.skip_to (if ltb base_aligned 0x10_0000 then 0x10_0000 - base_aligned else 0)
    else if ltb addr m.reserve_end && ltb m.reserve_start ((addr + 4096) % 2 ^ 64)
    then Round.skip_to (
        if ltb base_aligned m.reserve_end
        then m.reserve_end - base_aligned
        else (m.cur_offset + 4096) % 2 ^ 64)
    else Round.found addr

unfoldable pub memmap_alloc_frame : ℕ → Memmap → Option (Frame × Memmap)
memmap_alloc_frame zero m = none
memmap_alloc_frame (suc fuel) m = elim (ltb m.cur_region m.region_count) [
  | false ↦ some (Frame.panics panic_memmap_oom, m)
  | true ↦ elim (alloc_round m) [
    | next_region ↦
        memmap_alloc_frame fuel (record m { cur_region = m.cur_region + 1; cur_offset = 0 })
    | skip_to offset ↦ memmap_alloc_frame fuel (record m { cur_offset = offset })
    | found addr ↦ some (Frame.frame addr, record m { cur_offset = (m.cur_offset + 4096) % 2 ^ 64 })
  ]
]
