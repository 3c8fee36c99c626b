-- ===== src/Memmap/Tests.antt =====
-- memmap.c: the theorems at a small memory map.
use neka_kernel.Base.{
  ℕ, ◌+◌, ◌*◌, ◌<◌, ◌≤◌, ◌≡◌, refl, arith, true, false, none, some, ◌==◌, if◌then◌else◌,
}
use neka_kernel.Memmap.{
  Region, Memmap, EfiDescriptor, Frame, memmap_alloc_frame, memmap_parse_uefi, alloc_round,
}
use neka_kernel.Memmap.Rounds.{region_end, IsSane, IsFrame, Result}
use neka_kernel.Memmap.Frames.{IsAscending, alloc_frame_total, frames_ascend}
use neka_kernel.Memmap.Entry.{IsFilled}
use neka_kernel.Memmap.Filling.{parse_uefi_correct, parse_uefi_stuck}

-- One and a half pages from 1 MB on, and four pages from 2 MB on, the first of which is reserved.
abbrev two_regions : ℕ → Region
two_regions i =
    if i == 0
    then record { base = 0x10_0000; length = 0x1800 }
    else record { base = 0x20_0000; length = 0x4000 }

abbrev booted : Memmap
booted = record {
  regions = two_regions;
  region_count = 2;
  map_active = true;
  reserve_start = 0x20_0000;
  reserve_end = 0x20_1000;
  cur_region = 0;
  cur_offset = 0;
}

abbrev after_first : Memmap
after_first = record booted { cur_offset = 0x1000 }

booted-IsSane : IsSane booted
booted-IsSane = record {
  fits = λ i l. ground arith;
  reserved = omega arith;
  placed = λ l. omega arith;
}

after_first-IsSane : IsSane after_first
after_first-IsSane = record {
  fits = λ i l. ground arith;
  reserved = omega arith;
  placed = λ l. omega arith;
}

booted-IsAscending : IsAscending booted
booted-IsAscending i j l h = ground arith

first-IsFrame : IsFrame booted 0x10_0000 after_first
first-IsFrame = record {
  same = record {
    regions = refl;
    region_count = refl;
    reserve_start = refl;
    reserve_end = refl;
    map_active = refl;
  };
  sane = after_first-IsSane;
  at = omega arith;
  in_region = omega arith;
  high = omega arith;
  clear = ground arith;
  forward = λ e. omega arith;
  behind = omega arith;
}

second_frame :
    memmap_alloc_frame 7 after_first
    ≡ some (Frame.frame 0x10_1000, record booted { cur_offset = 0x2000 })
unfolding memmap_alloc_frame alloc_round
second_frame = refl

third_frame :
    memmap_alloc_frame 7 (record booted { cur_offset = 0x2000 })
    ≡ some (Frame.frame 0x20_1000, record booted { cur_region = 1; cur_offset = 0x2000 })
unfolding memmap_alloc_frame alloc_round
third_frame = refl

alloc_frame_total_example :
    (r : Frame × Memmap) × (memmap_alloc_frame 7 booted ≡ some r) × Result booted r
alloc_frame_total_example = alloc_frame_total 7 booted booted-IsSane (omega arith)

frames_ascend_example :
    (0x10_0000 < 0x10_1000)
    × (0x10_0000 + 4096 ≤ region_end after_first → 0x10_0000 + 4096 ≤ 0x10_1000)
frames_ascend_example =
    frames_ascend 7 booted after_first (record booted { cur_offset = 0x2000 }) 0x10_0000 0x10_1000
      booted-IsAscending first-IsFrame second_frame (omega arith)

-- A map of three descriptors of 48 bytes, the second of them not usable.
abbrev firmware_map : ℕ → EfiDescriptor
firmware_map o =
    if o == 48
    then record { type = 2; phys_start = 0x8000; num_pages = 8 }
    else record { type = 7; phys_start = 0x10_0000 + 0x1000 * o; num_pages = 16 }

abbrev empty_table : Memmap
empty_table = record booted { region_count = 0; map_active = false }

parse_uefi_correct_example :
    (m' : Memmap) × (memmap_parse_uefi firmware_map 145 144 48 empty_table ≡ some m')
    × IsFilled firmware_map 48 0 144 empty_table m'
parse_uefi_correct_example =
    parse_uefi_correct firmware_map 145 144 48 empty_table (omega arith) (omega arith) (omega arith)

parse_uefi_stuck_example : memmap_parse_uefi firmware_map 10 144 0 empty_table ≡ none
parse_uefi_stuck_example = parse_uefi_stuck firmware_map 10 144 empty_table (omega arith)
