-- ===== src/Paging64/Samples.antt =====
-- paging64.c: a machine that has just been started, and one with the kernel's map, for the tests.
use neka_kernel.Base.{
  ℕ, ◌+◌, ◌*◌, ◌^◌, inl, inr, refl, arith, false, ◌==◌, if◌then◌else◌, Bool-cases, ◌≡◌, ◌⊎◌, ◌∙◌,
  sym, ◌%◌,
}
use neka_kernel.Memmap.{Memmap}
use neka_kernel.Paging64.{Paging64, Page}
use neka_kernel.Paging64.Supply.{IsSound}
use neka_kernel.Paging64.Boot.{entry-IsLeaf}
use neka_kernel.Paging64.Walk.{kernel-Points}
use neka_kernel.Paging64.Kernel.{IsKernelMap, IsLeaf}
use neka_kernel.Paging64.Directories.{IsApart}

abbrev pub no_map : Memmap
no_map = record {
  regions = λ i. record { base = 0; length = 0 };
  region_count = 0;
  map_active = false;
  reserve_start = 0;
  reserve_end = 0;
  cur_region = 0;
  cur_offset = 0;
}

-- Memory is full of rubbish, and all frames of the pool are left.
abbrev pub started : Paging64
started = record {
  mem = λ page i. 0xaaaa;
  frame_pool = 0x10_0000;
  next_frame = 0;
  kernel_pml4 = 0;
  kernel_pdpt = 0;
  memmap = no_map;
  cr3 = 0;
}

pub started-IsSound : IsSound 9 started
started-IsSound = record {
  pool_aligned = refl;
  pool_fits = omega arith;
  counted = omega arith;
  active = λ e. absurd (cc e);
}

-- The kernel's map in the first three frames of the pool, with one directory of 2 MB pages.
abbrev pub tables : ℕ → Page
tables page i =
    if page == 0x10_0000
    then (if i == 0 then 0x10_1003 else 0)
    else if page == 0x10_1000
    then (if i == 0 then 0x10_2003 else 0)
    else if page == 0x10_2000
    then i * 2 ^ 21 + 0x83
    else 0xaaaa

abbrev pub with_map : Paging64
with_map = record started {
  mem = tables;
  next_frame = 3;
  kernel_pml4 = 0x10_0000;
  kernel_pdpt = 0x10_1000;
  cr3 = 0x10_0000;
}

pub with_map-IsSound : IsSound 9 with_map
with_map-IsSound = record {
  pool_aligned = refl;
  pool_fits = omega arith;
  counted = omega arith;
  active = λ e. absurd (cc e);
}

pub with_map-IsKernelMap : IsKernelMap with_map
with_map-IsKernelMap = record {
  pml4_taken = (refl, inl (omega arith));
  pdpt_taken = (refl, inl (omega arith));
  root = kernel-Points 0x10_1000 refl;
  tables = λ i h there. elim (Bool-cases (i == 0)) [
    | inl e ↦ rw e (refl, inl (omega arith))
    | inr e ↦ absurd (ground arith)
  ];
  leaves = λ i j h k there. elim (Bool-cases (i == 0)) [
    | inl e ↦ rw e (entry-IsLeaf j)
    | inr e ↦ absurd (ground arith)
  ];
}

-- The kernel's three tables are different pages.
pub with_map-IsApart : IsApart with_map
with_map-IsApart = record {
  top = λ e. absurd (omega arith);
  below = λ i h there. elim (Bool-cases (i == 0)) [
    | inl e ↦ rw e ((λ q. absurd (omega arith)), (λ q. absurd (omega arith)))
    | inr e ↦ absurd (ground arith)
  ];
  distinct = λ i j hi hj d there1 there2. absurd (ground arith);
}

-- The map after the local APIC has got its page, in a directory for the fourth gigabyte.
abbrev pub device_tables : ℕ → Page
device_tables page i =
    if page == 0x10_0000
    then (if i == 0 then 0x10_1003 else 0)
    else if page == 0x10_1000
    then (if i == 0 then 0x10_2003 else if i == 3 then 0x10_3003 else 0)
    else if page == 0x10_2000
    then i * 2 ^ 21 + 0x83
    else if page == 0x10_3000
    then (if i == 0x1f7 then 0xfee0_0093 else 0)
    else 0xaaaa

abbrev pub with_device : Paging64
with_device = record with_map { mem = device_tables; next_frame = 4 }

pub with_device-IsSound : IsSound 9 with_device
with_device-IsSound = record {
  pool_aligned = refl;
  pool_fits = omega arith;
  counted = omega arith;
  active = λ e. absurd (cc e);
}

device_entry : (j : ℕ) → IsLeaf (if j == 0x1f7 then 0xfee0_0093 else 0)
device_entry j = elim (Bool-cases (j == 0x1f7)) [
  | inl e ↦ rw e (inr (refl, refl, refl))
  | inr e ↦ rw e (inl refl)
]

-- Two entries of the PDPT are there.
present_entries : (i : ℕ) → (device_tables 0x10_1000 i % 2 == 0) ≡ false → (i ≡ 0) ⊎ (i ≡ 3)
present_entries i there = ground arith

pub with_device-IsKernelMap : IsKernelMap with_device
with_device-IsKernelMap = record {
  pml4_taken = (refl, inl (omega arith));
  pdpt_taken = (refl, inl (omega arith));
  root = kernel-Points 0x10_1000 refl;
  tables = λ i h there. elim (present_entries i there) [
    | inl e ↦ rw e (refl, inl (omega arith))
    | inr e ↦ rw e (refl, inl (omega arith))
  ];
  leaves = λ i j h k there. elim (present_entries i there) [
    | inl e ↦ rw e (entry-IsLeaf j)
    | inr e ↦ rw e (device_entry j)
  ];
}

pub with_device-IsApart : IsApart with_device
with_device-IsApart = record {
  top = λ e. absurd (omega arith);
  below = λ i h there. elim (present_entries i there) [
    | inl e ↦ rw e ((λ q. absurd (omega arith)), (λ q. absurd (omega arith)))
    | inr e ↦ rw e ((λ q. absurd (omega arith)), (λ q. absurd (omega arith)))
  ];
  distinct = λ i j hi hj d there1 there2. elim (present_entries i there1) [
    | inl e ↦ elim (present_entries j there2) [
      | inl f ↦ absurd (d (e ∙ sym f))
      | inr f ↦ rw (e, f) (λ q. absurd (omega arith))
    ]
    | inr e ↦ elim (present_entries j there2) [
      | inl f ↦ rw (e, f) (λ q. absurd (omega arith))
      | inr f ↦ absurd (d (e ∙ sym f))
    ]
  ];
}
