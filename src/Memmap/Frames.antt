-- ===== src/Memmap/Frames.antt =====
-- memmap.c: the page frames that the allocator hands out.
use neka_kernel.Base.{
  ℕ, zero, suc, ◌+◌, ◌*◌, ◌%◌, ◌^◌, ◌<◌, ◌≤◌, ◌≡◌, ◌⊎◌, inl, inr, refl, ap, ◌∙◌, sym, arith, true,
  false, some, ltb, ◌==◌, Bool-cases, ltb→lt, ltb→le, ==→eq, ==→ne,
}
use mathlib.Core.Path.{subst}
use mathlib.Core.Option.{some-injective}
use neka_kernel.Memmap.{
  Region, Memmap, Frame, Round, alloc_round, memmap_alloc_frame, panic_memmap_oom,
}
use neka_kernel.Memmap.Rounds.{
  region_end, IsSane, IsFrame, Result, Means, rank, alloc_round_lem, next-IsSane, next-rank,
  next-Result, skip-IsSane, skip-rank, skip-Result, found_state, found-Result,
}

-- The four ways through a round of the loop.
module _ (fuel : ℕ) (m : Memmap) where
  pub loop_done :
      ltb m.cur_region m.region_count ≡ false
      → memmap_alloc_frame (suc fuel) m ≡ some (Frame.panics panic_memmap_oom, m)
  unfolding memmap_alloc_frame
  loop_done h = ground arith

  module _ (more : ltb m.cur_region m.region_count ≡ true) where
    pub loop_next :
        alloc_round m ≡ Round.next_region
        → memmap_alloc_frame (suc fuel) m
          ≡ memmap_alloc_frame fuel (record m { cur_region = m.cur_region + 1; cur_offset = 0 })
    unfolding memmap_alloc_frame
    loop_next e = ground arith

    pub loop_skip :
        (o : ℕ)
        → alloc_round m ≡ Round.skip_to o
        → memmap_alloc_frame (suc fuel) m ≡ memmap_alloc_frame fuel (record m { cur_offset = o })
    unfolding memmap_alloc_frame
    loop_skip o e = ground arith

    pub loop_found :
        (a : ℕ)
        → alloc_round m ≡ Round.found a
        → memmap_alloc_frame (suc fuel) m
          ≡ some (Frame.frame a, record m { cur_offset = (m.cur_offset + 4096) % 2 ^ 64 })
    unfolding memmap_alloc_frame
    loop_found a e = ground arith

pub Round-cases :
    (r : Round)
    → (r ≡ Round.next_region)
      ⊎ (((o : ℕ) × (r ≡ Round.skip_to o)) ⊎ ((a : ℕ) × (r ≡ Round.found a)))
Round-cases Round.next_region = inl refl
Round-cases (Round.skip_to o) = inr (inl (o, refl))
Round-cases (Round.found a) = inr (inr (a, refl))

abbrev Answers : ℕ → Memmap → Type 0
Answers fuel m = (r : Frame × Memmap) × (memmap_alloc_frame fuel m ≡ some r) × Result m r

alloc_by_rank : (fuel : ℕ) (m : Memmap) → IsSane m → rank m < fuel → Answers fuel m
alloc_by_rank zero m v h = absurd (omega arith)
alloc_by_rank (suc fuel) m v h = elim (Bool-cases (ltb m.cur_region m.region_count)) [
  | inl more ↦
      let lt = ltb→lt _ _ more in
      let means = alloc_round_lem m v lt in
      elim (Round-cases (alloc_round m)) [
        | inl e ↦
            let r =
              alloc_by_rank fuel (record m { cur_region = m.cur_region + 1; cur_offset = 0 })
                (next-IsSane m v lt) (omega (arith, next-rank m v lt)) in
            (r.0, loop_next fuel m more e ∙ r.1, next-Result m v lt r.0 r.2)
        | inr (inl (o, e)) ↦
            let s = subst (Means m) e means in
            let r =
              alloc_by_rank fuel (record m { cur_offset = o }) (skip-IsSane m v lt o s)
                (omega (arith, skip-rank m v lt o s)) in
            (r.0, loop_skip fuel m more o e ∙ r.1, skip-Result m v lt o s r.0 r.2)
        | inr (inr (a, e)) ↦ (
          (Frame.frame a, found_state m v lt),
          loop_found fuel m more a e,
          found-Result m v lt a (subst (Means m) e means),
        )
      ]
  | inr done ↦ (
    (Frame.panics panic_memmap_oom, m),
    loop_done fuel m done,
    (
      refl,
      ltb→le _ _ done,
      record {
        regions = refl;
        region_count = refl;
        reserve_start = refl;
        reserve_end = refl;
        map_active = refl;
      },
    ),
  )
]

-- On sane tables the allocator ends, within three rounds for each region and one more: with a frame
-- that starts in a region of the table, from 1 MB on and clear of the reserved image, not before
-- the cursor, which moves behind it; or with a panic, when the cursor is behind the last region.
-- The tables stay as they are.
pub alloc_frame_total :
    (fuel : ℕ) (m : Memmap)
    → IsSane m
    → 3 * m.region_count < fuel
    → (r : Frame × Memmap) × (memmap_alloc_frame fuel m ≡ some r) × Result m r
alloc_frame_total fuel m v h = alloc_by_rank fuel m v (ground arith)

-- The regions stand in ascending order and do not overlap, as the boot loaders give them.
abbrev pub IsAscending : Memmap → Type 0
IsAscending m =
    (i j : ℕ)
    → i < j
    → j < m.region_count
    → (m.regions i).base + (m.regions i).length ≤ (m.regions j).base

-- Over sane, ascending regions a later frame never overlaps an earlier one if the earlier ends
-- within its region, and always starts behind its start.
pub frames_ascend :
    (fuel : ℕ) (m m' m'' : Memmap) (a b : ℕ)
    → IsAscending m
    → IsFrame m a m'
    → memmap_alloc_frame fuel m' ≡ some (Frame.frame b, m'')
    → 3 * m.region_count < fuel
    → (a < b) × (a + 4096 ≤ region_end m' → a + 4096 ≤ b)
frames_ascend fuel m m' m'' a b up first second h =
    let r = alloc_frame_total fuel m' first.sane (omega (arith, first.same.region_count)) in
    let got : IsFrame m' b m'' =
      subst (Result m') (sym (some-injective _ _ (sym second ∙ r.1))) r.2 in
    elim (Bool-cases (m''.cur_region == m'.cur_region)) [
      | inl here ↦ let f = got.forward (==→eq _ _ here) in (omega arith, λ inside. omega arith)
      | inr there ↦
          let further : m'.cur_region < m''.cur_region = omega (arith, ==→ne _ _ there, got.at) in
          let gap =
            up m'.cur_region m''.cur_region further
              (omega (arith, got.at, first.same.region_count)) in
          let end : region_end m'
              ≡ (m.regions m'.cur_region).base + (m.regions m'.cur_region).length =
            ap (λ (f : ℕ → Region). (f m'.cur_region).base + (f m'.cur_region).length)
              first.same.regions in
          let begin : (m''.regions m''.cur_region).base ≡ (m.regions m''.cur_region).base =
            ap (λ (f : ℕ → Region). (f m''.cur_region).base)
              (got.same.regions ∙ first.same.regions) in
          let sane = got.sane.fits m''.cur_region (omega (arith, got.at, got.same.region_count)) in
          (omega (arith, got.in_region), λ inside. omega (arith, got.in_region))
    ]
