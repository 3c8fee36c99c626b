-- ===== src/Memmap/Rounds.antt =====
-- memmap.c: one round of the frame allocator, and what a call promises.
use neka_kernel.Base.{
  ℕ, ◌+◌, ◌-◌, ◌*◌, ◌%◌, ◌^◌, ◌<◌, ◌≤◌, ◌≡◌, ◌⊎◌, refl, arith, ltb, if◌then◌else◌,
}
use neka_kernel.Memmap.{Memmap, Frame, Round, align_page, alloc_round, panic_memmap_oom}

-- Where the cursor stands, before any wrap.
abbrev pub cursor : Memmap → ℕ
cursor m = align_page (m.regions m.cur_region).base + m.cur_offset

abbrev pub region_end : Memmap → ℕ
region_end m = (m.regions m.cur_region).base + (m.regions m.cur_region).length

-- No region, nor the reserved image, reaches into the last two pages of the address space, and the
-- cursor has not either.
pub record IsSane (m : Memmap) : Type 0 where
  pub fits :
      (i : ℕ) → i < m.region_count → (m.regions i).base + (m.regions i).length + 0x2000 < 2 ^ 64
  pub reserved : m.reserve_end + 0x1000 < 2 ^ 64
  pub placed : m.cur_region < m.region_count → cursor m + 0x1000 < 2 ^ 64

-- What one round does.
abbrev pub Means : Memmap → Round → Type 0
Means m Round.next_region = region_end m ≤ cursor m
Means m (Round.skip_to o) =
    (cursor m < cursor (record m { cur_offset = o }))
    × (cursor (record m { cur_offset = o }) + 0x1000 < 2 ^ 64)
    × (((cursor m < 0x10_0000) × (cursor (record m { cur_offset = o }) ≡ 0x10_0000))
        ⊎ ((0x10_0000 ≤ cursor m)
            × (cursor m < m.reserve_end)
            × (cursor (record m { cur_offset = o }) ≡ m.reserve_end)))
Means m (Round.found a) =
    (a ≡ cursor m)
    × (cursor m < region_end m)
    × (0x10_0000 ≤ cursor m)
    × ((m.reserve_end ≤ cursor m) ⊎ (cursor m + 4096 ≤ m.reserve_start))

pub alloc_round_lem :
    (m : Memmap) → IsSane m → m.cur_region < m.region_count → Means m (alloc_round m)
unfolding alloc_round
alloc_round_lem m v lt = ground (arith, v.fits m.cur_region lt, v.placed lt)

-- What a call of the allocator leaves: the tables as they were, and a panic only behind the last
-- region. A frame starts in the region that the cursor then stands in, from 1 MB on, clear of the
-- reserved image, not before the old cursor in the same region, and the cursor moves behind it.
pub record Same (m m' : Memmap) : Type 0 where
  pub regions : m'.regions ≡ m.regions
  pub region_count : m'.region_count ≡ m.region_count
  pub reserve_start : m'.reserve_start ≡ m.reserve_start
  pub reserve_end : m'.reserve_end ≡ m.reserve_end
  pub map_active : m'.map_active ≡ m.map_active

pub record IsFrame (m : Memmap) (a : ℕ) (m' : Memmap) : Type 0 where
  pub same : Same m m'
  pub sane : IsSane m'
  pub at : (m.cur_region ≤ m'.cur_region) × (m'.cur_region < m.region_count)
  pub in_region : (align_page (m'.regions m'.cur_region).base ≤ a) × (a < region_end m')
  pub high : 0x10_0000 ≤ a
  pub clear : (m.reserve_end ≤ a) ⊎ (a + 4096 ≤ m.reserve_start)
  pub forward : m'.cur_region ≡ m.cur_region → cursor m ≤ a
  pub behind : cursor m' ≡ a + 4096

abbrev pub Result : Memmap → Frame × Memmap → Type 0
Result m (Frame.frame a, m') = IsFrame m a m'
Result m (Frame.panics code, m') =
    (code ≡ panic_memmap_oom) × (m.region_count ≤ m'.cur_region) × Same m m'

-- The rounds that a call may still need.
abbrev stage : Memmap → ℕ
stage m = if ltb (cursor m) 0x10_0000 then 3 else if ltb (cursor m) m.reserve_end then 2 else 1

abbrev pub rank : Memmap → ℕ
rank m =
    if ltb m.cur_region m.region_count then 3 * (m.region_count - m.cur_region - 1) + stage m else 0

-- The way on from a round that hands nothing out.
module _ (m : Memmap) (v : IsSane m) (lt : m.cur_region < m.region_count) where
  abbrev next_state : Memmap
  next_state = record m { cur_region = m.cur_region + 1; cur_offset = 0 }

  pub next-IsSane : IsSane next_state
  next-IsSane = record {
    fits = v.fits;
    reserved = v.reserved;
    placed = λ more. omega (arith, v.fits (m.cur_region + 1) more);
  }

  pub next-rank : rank next_state < rank m
  next-rank = ground arith

  pub next-Result : (r : Frame × Memmap) → Result next_state r → Result m r
  next-Result (Frame.frame a, m') h = record {
    same = record {
      regions = h.same.regions;
      region_count = h.same.region_count;
      reserve_start = h.same.reserve_start;
      reserve_end = h.same.reserve_end;
      map_active = h.same.map_active;
    };
    sane = h.sane;
    at = omega arith;
    in_region = h.in_region;
    high = h.high;
    clear = h.clear;
    forward = λ e. absurd (omega arith);
    behind = h.behind;
  }
  next-Result (Frame.panics c, m') h = ground arith

  module _ (o : ℕ) (s : Means m (Round.skip_to o)) where
    abbrev skip_state : Memmap
    skip_state = record m { cur_offset = o }

    pub skip-IsSane : IsSane skip_state
    skip-IsSane = record { fits = v.fits; reserved = v.reserved; placed = λ more. s.1 }

    pub skip-rank : rank skip_state < rank m
    skip-rank = ground arith

    pub skip-Result : (r : Frame × Memmap) → Result skip_state r → Result m r
    skip-Result (Frame.frame a, m') h = record {
      same = record {
        regions = h.same.regions;
        region_count = h.same.region_count;
        reserve_start = h.same.reserve_start;
        reserve_end = h.same.reserve_end;
        map_active = h.same.map_active;
      };
      sane = h.sane;
      at = h.at;
      in_region = h.in_region;
      high = h.high;
      clear = h.clear;
      forward = λ e. omega (arith, h.forward e);
      behind = h.behind;
    }
    skip-Result (Frame.panics c, m') h = ground arith

  abbrev pub found_state : Memmap
  found_state = record m { cur_offset = (m.cur_offset + 4096) % 2 ^ 64 }

  pub found-Result : (a : ℕ) → Means m (Round.found a) → Result m (Frame.frame a, found_state)
  found-Result a s = record {
    same = record {
      regions = refl;
      region_count = refl;
      reserve_start = refl;
      reserve_end = refl;
      map_active = refl;
    };
    sane = record {
      fits = v.fits;
      reserved = v.reserved;
      placed = λ more. omega (arith, v.fits m.cur_region lt);
    };
    at = omega arith;
    in_region = omega arith;
    high = omega arith;
    clear = ground arith;
    forward = λ e. omega arith;
    behind = omega (arith, v.placed lt);
  }
