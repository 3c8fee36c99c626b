-- ===== src/Memmap/Past.antt =====
-- memmap.c: a frame that was handed out is not handed out again, however many calls lie between.
use neka_kernel.Base.{
  ℕ, ◌+◌, ◌<◌, ◌≤◌, ◌≡◌, ◌≢◌, inl, inr, ap, arith, ◌==◌, Bool-cases, ==→eq, ==→ne,
}
use neka_kernel.Memmap.{Region, Memmap}
use neka_kernel.Memmap.Rounds.{cursor, IsFrame}
use neka_kernel.Memmap.Frames.{IsAscending}

abbrev end_of : (ℕ → Region) → ℕ → ℕ
end_of regions i = (regions i).base + (regions i).length

-- An address inside a region that the allocator has left, or behind the cursor in its region.
pub record IsPast (m : Memmap) (u : ℕ) : Type 0 where
  pub region : ℕ
  pub reached : region ≤ m.cur_region
  pub listed : region < m.region_count
  pub inside : u < end_of m.regions region
  pub behind : region ≡ m.cur_region → u < cursor m

module _ (m m' : Memmap) (a : ℕ) (up : IsAscending m) (f : IsFrame m a m') where
  same_end : (i : ℕ) → end_of m'.regions i ≡ end_of m.regions i
  same_end i = ap (λ (r : ℕ → Region). end_of r i) f.same.regions

  same_base : (i : ℕ) → (m'.regions i).base ≡ (m.regions i).base
  same_base i = ap (λ (r : ℕ → Region). (r i).base) f.same.regions

  past-lt : (u : ℕ) → IsPast m u → u < a
  past-lt u p = elim (Bool-cases (p.region == m'.cur_region)) [
    | inl here ↦
        let e = ==→eq _ _ here in
        let stays : m'.cur_region ≡ m.cur_region = omega (arith, f.at, p.reached) in
        omega (arith, p.behind (omega arith), f.forward stays)
    | inr left ↦
        let less : p.region < m'.cur_region = omega (arith, ==→ne _ _ left, f.at, p.reached) in
        let gap = up p.region m'.cur_region less (omega (arith, f.at)) in
        let fits = f.sane.fits m'.cur_region (omega (arith, f.at, f.same.region_count)) in
        omega (arith, p.inside, f.in_region, same_base m'.cur_region)
  ]

  IsPast-step : (u : ℕ) → IsPast m u → IsPast m' u
  IsPast-step u p = record {
    region = p.region;
    reached = omega (arith, p.reached, f.at);
    listed = omega (arith, p.listed, f.same.region_count);
    inside = omega (arith, p.inside, same_end p.region);
    behind = λ e. omega (arith, past-lt u p, f.behind);
  }

  IsPast-new : IsPast m' a
  IsPast-new = record {
    region = m'.cur_region;
    reached = omega arith;
    listed = omega (arith, f.at, f.same.region_count);
    inside = f.in_region.1;
    behind = λ e. omega (arith, f.behind);
  }

  pub still-IsAscending : IsAscending m'
  still-IsAscending i j l h =
      omega (arith, up i j l (omega (arith, f.same.region_count)), same_end i, same_base j)

  -- The next frame is new, and what was handed out stays so.
  pub later_frame : (u : ℕ) → IsPast m u → (u ≢ a) × IsPast m' u
  later_frame u p = (λ e. absurd (omega (arith, past-lt u p)), IsPast-step u p)

  pub new_frame : IsPast m' a
  new_frame = IsPast-new
