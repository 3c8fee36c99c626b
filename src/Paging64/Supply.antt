-- ===== src/Paging64/Supply.antt =====
-- paging64.c: every frame that `alloc_frame` returns is new, aligned and cleared.
use neka_kernel.Base.{
  ℕ, zero, suc, ◌+◌, ◌*◌, ◌%◌, ◌^◌, ◌<◌, ◌≤◌, ◌≡◌, ◌≢◌, ◌⊎◌, inl, inr, refl, ap, ◌∙◌, sym, arith,
  true, false, some, leb, leb→lt, lt→ltb, ◌==◌, Bool-cases, update, update_self, update_ne, ==→ne,
}
use neka_kernel.Memmap.{Memmap, Frame, memmap_alloc_frame}
use neka_kernel.Memmap.Rounds.{IsSane, Same, Result}
use neka_kernel.Memmap.Frames.{IsAscending, alloc_frame_total}
use neka_kernel.Memmap.Aligned.{IsAligned, alloc_frame-Aligned}
use neka_kernel.Memmap.Past.{IsPast, still-IsAscending, later_frame, new_frame}
use neka_kernel.Paging64.{
  Paging64, Page, Run, ok, pick_frame, alloc_frame, clear_page, pool_frames, reach_frame,
  identity_end,
}
use neka_kernel.Paging64.Outcomes.{Ends}

-- The frame pool lies at a multiple of 4096 in the first gigabyte, which the identity map covers. Once
-- the memory map is active it is sane, ascending and aligned, its regions lie there too, its reserved
-- range covers the pool, and there is fuel for it.
pub record IsActive (fuel : ℕ) (s : Paging64) : Type 0 where
  pub sane : IsSane s.memmap
  pub ascending : IsAscending s.memmap
  pub aligned : IsAligned s.memmap
  pub low :
      (i : ℕ)
      → i < s.memmap.region_count
      → (s.memmap.regions i).base + (s.memmap.regions i).length ≤ identity_end
  pub fuelled : 3 * s.memmap.region_count < fuel
  pub covered :
      (s.memmap.reserve_start ≤ s.frame_pool)
      × (s.frame_pool + pool_frames * 4096 ≤ s.memmap.reserve_end)

pub record IsSound (fuel : ℕ) (s : Paging64) : Type 0 where
  pub pool_aligned : s.frame_pool % 4096 ≡ 0
  pub pool_fits : s.frame_pool + pool_frames * 4096 ≤ identity_end
  pub counted : s.next_frame ≤ pool_frames
  pub active : s.memmap.map_active ≡ true → IsActive fuel s

-- A frame that was handed out, of the pool or of the memory map.
abbrev pub IsTaken : Paging64 → ℕ → Type 0
IsTaken s u =
    (u % 4096 ≡ 0)
    × (((s.frame_pool ≤ u) × (u < s.frame_pool + s.next_frame * 4096))
        ⊎ ((s.memmap.map_active ≡ true) × IsPast s.memmap u))

-- The pool stays where it is, and the memory map is not touched before it is active.
abbrev pub SameSupply : Paging64 → Paging64 → Type 0
SameSupply s s' =
    (s'.frame_pool ≡ s.frame_pool) × (s.memmap.map_active ≡ false → s'.memmap ≡ s.memmap)

pub SameSupply-trans : (s s1 s2 : Paging64) → SameSupply s s1 → SameSupply s1 s2 → SameSupply s s2
SameSupply-trans s s1 s2 a b =
    (b.0 ∙ a.0, λ idle. b.1 (ap (λ (m : Memmap). m.map_active) (a.1 idle) ∙ idle) ∙ a.1 idle)

-- What `alloc_frame` leaves: a new frame, and the rest as it was.
pub record IsAllocated (fuel : ℕ) (s : Paging64) (a : ℕ) (s' : Paging64) : Type 0 where
  pub sound : IsSound fuel s'
  pub aligned : a % 4096 ≡ 0
  pub fits : a < 2 ^ 64
  pub new : (u : ℕ) → IsTaken s u → (u ≢ a) × IsTaken s' u
  pub taken : IsTaken s' a
  pub cleared : (i : ℕ) → i < 512 → s'.mem a i ≡ 0
  pub kept : (u : ℕ) → u ≢ a → s'.mem u ≡ s.mem u
  pub kernel_pml4 : s'.kernel_pml4 ≡ s.kernel_pml4
  pub kernel_pdpt : s'.kernel_pdpt ≡ s.kernel_pdpt
  pub cr3 : s'.cr3 ≡ s.cr3
  pub supply : SameSupply s s'

pub clear_page_lem : (n : ℕ) (page : Page) (i : ℕ) → i < n → clear_page n page i ≡ 0
unfolding clear_page
clear_page_lem zero page i h = absurd (omega arith)
clear_page_lem (suc n) page i h = elim (Bool-cases (n == i)) [
  | inl e ↦ rw e
  | inr e ↦ rw e (clear_page_lem n page i (omega (arith, ==→ne _ _ e)))
]

-- The page of the new frame, and any other.
cleared_page : (mem : ℕ → Page) (a i : ℕ) → i < 512 → update mem a (clear_page 512 (mem a)) a i ≡ 0
cleared_page mem a i l =
    ap (λ (p : Page). p i) (update_self mem a (clear_page 512 (mem a)))
    ∙ clear_page_lem 512 (mem a) i l

kept_page : (mem : ℕ → Page) (a u : ℕ) → u ≢ a → update mem a (clear_page 512 (mem a)) u ≡ mem u
kept_page mem a u d = update_ne mem a u _ (λ e. d (sym e))

module _ (fuel : ℕ) (s : Paging64) (v : IsSound fuel s) where
  still_low :
      (m' : Memmap)
      → Same s.memmap m'
      → ((i : ℕ)
          → i < s.memmap.region_count
          → (s.memmap.regions i).base + (s.memmap.regions i).length ≤ identity_end)
      → (i : ℕ) → i < m'.region_count
      → (m'.regions i).base + (m'.regions i).length ≤ identity_end
  still_low m' same low i l = rw same.regions (low i (omega (arith, same.region_count)))

  -- The pool.
  from_pool : s.memmap.map_active ≡ false → Ends (IsAllocated fuel s) (alloc_frame fuel s)
  unfolding alloc_frame pick_frame reach_frame
  from_pool idle = elim (Bool-cases (leb pool_frames s.next_frame)) [
    | inl full ↦ rw (idle, full) (inl refl)
    | inr room ↦
        let l = leb→lt _ _ room in
        let reachable =
          lt→ltb (s.frame_pool + s.next_frame * 4096) identity_end (omega (arith, v.pool_fits)) in
        rw (idle, room, reachable)
          (record {
            sound = record {
              pool_aligned = v.pool_aligned;
              pool_fits = v.pool_fits;
              counted = omega arith;
              active = λ e. absurd (cc e);
            };
            aligned = omega (arith, v.pool_aligned);
            fits = omega (arith, v.pool_fits);
            new = λ u t. elim t.1 [
              | inl p ↦ (λ e. absurd (omega arith), (t.0, inl (omega arith)))
              | inr (w, p) ↦ absurd (cc w)
            ];
            taken = (omega (arith, v.pool_aligned), inl (omega arith));
            cleared = cleared_page s.mem _;
            kept = kept_page s.mem _;
            kernel_pml4 = refl;
            kernel_pdpt = refl;
            cr3 = refl;
            supply = (refl, λ e. refl);
          })
  ]

  -- The memory map.
  abbrev mapped : ℕ → Memmap → Paging64
  mapped a m' = record s { memmap = m'; mem = update s.mem a (clear_page 512 (s.mem a)) }

  map_frame :
      (a : ℕ) (m' : Memmap)
      → s.memmap.map_active ≡ true
      → memmap_alloc_frame fuel s.memmap ≡ some (Frame.frame a, m')
      → a < identity_end
      → alloc_frame fuel s ≡ ok a (mapped a m')
  unfolding alloc_frame pick_frame reach_frame
  map_frame a m' on e low = simp (on, e, lt→ltb a identity_end low)

  map_panics :
      (c : ℕ) (m' : Memmap)
      → s.memmap.map_active ≡ true
      → memmap_alloc_frame fuel s.memmap ≡ some (Frame.panics c, m')
      → alloc_frame fuel s ≡ Run.panics c
  unfolding alloc_frame pick_frame reach_frame
  map_panics c m' on e = simp (on, e)

  from_map_case :
      (r : Frame × Memmap)
      → IsActive fuel s
      → s.memmap.map_active ≡ true
      → memmap_alloc_frame fuel s.memmap ≡ some r
      → Result s.memmap r
      → Ends (IsAllocated fuel s) (alloc_frame fuel s)
  from_map_case (Frame.panics c, m') w on e h = rw (map_panics c m' on e) (inr h.0)
  from_map_case (Frame.frame a, m') w on e h =
      let al = alloc_frame-Aligned fuel s.memmap (Frame.frame a, m') w.aligned e in
      let reachable : a < identity_end = omega (
        arith,
        h.in_region,
        still_low m' h.same w.low m'.cur_region (omega (arith, h.at, h.same.region_count)),
      ) in
      rw (map_frame a m' on e reachable) (record {
        sound = record {
          pool_aligned = v.pool_aligned;
          pool_fits = v.pool_fits;
          counted = v.counted;
          active = λ q. record {
            sane = h.sane;
            ascending = still-IsAscending s.memmap m' a w.ascending h;
            aligned = al.1;
            low = still_low m' h.same w.low;
            fuelled = omega (arith, w.fuelled, h.same.region_count);
            covered = omega (arith, w.covered, h.same.reserve_start, h.same.reserve_end);
          };
        };
        aligned = al.0;
        fits = omega (
          arith,
          h.in_region,
          h.sane.fits m'.cur_region (omega (arith, h.at, h.same.region_count)),
        );
        new = λ u t. elim t.1 [
          | inl p ↦ (λ q. absurd (ground (arith, v.counted, w.covered, h.clear)), (t.0, inl p))
          | inr (_, p) ↦
              let next = later_frame s.memmap m' a w.ascending h u p in
              (next.0, (t.0, inr (h.same.map_active ∙ on, next.1)))
        ];
        taken = (al.0, inr (h.same.map_active ∙ on, new_frame s.memmap m' a w.ascending h));
        cleared = cleared_page s.mem a;
        kept = kept_page s.mem a;
        kernel_pml4 = refl;
        kernel_pdpt = refl;
        cr3 = refl;
        supply = (refl, λ e. absurd (cc (e, on)));
      })

  from_map : s.memmap.map_active ≡ true → Ends (IsAllocated fuel s) (alloc_frame fuel s)
  from_map on =
      let w = v.active on in
      let r = alloc_frame_total fuel s.memmap w.sane w.fuelled in from_map_case r.0 w on r.1 r.2

-- `alloc_frame` on a sound state ends with a frame that is new, aligned and cleared, or panics.
pub alloc_frame_lem :
    (fuel : ℕ) (s : Paging64) → IsSound fuel s → Ends (IsAllocated fuel s) (alloc_frame fuel s)
alloc_frame_lem fuel s v = elim (Bool-cases s.memmap.map_active) [
  | inl on ↦ from_map fuel s v on
  | inr off ↦ from_pool fuel s v off
]

-- Writes to memory do not concern the allocator.
pub IsSound-mem :
    (fuel : ℕ) (s : Paging64) (mem : ℕ → Page)
    → IsSound fuel s
    → IsSound fuel (record s { mem = mem })
IsSound-mem fuel s mem v = record {
  pool_aligned = v.pool_aligned;
  pool_fits = v.pool_fits;
  counted = v.counted;
  active = λ e. record {
    sane = (v.active e).sane;
    ascending = (v.active e).ascending;
    aligned = (v.active e).aligned;
    low = (v.active e).low;
    fuelled = (v.active e).fuelled;
    covered = (v.active e).covered;
  };
}

-- The page of another frame, and the new one.
pub page_kept :
    (fuel : ℕ) (s : Paging64) (f : ℕ) (s' : Paging64)
    → IsAllocated fuel s f s'
    → (u : ℕ) → u ≢ f
    → s'.mem u ≡ s.mem u
page_kept fuel s f s' a u d = a.kept u d

pub page_cleared :
    (fuel : ℕ) (s : Paging64) (f : ℕ) (s' : Paging64)
    → IsAllocated fuel s f s'
    → (i : ℕ) → i < 512
    → s'.mem f i ≡ 0
page_cleared fuel s f s' a i l = a.cleared i l

-- Nor do the tables that the kernel and the processor use.
pub IsSound-tables :
    (fuel : ℕ) (s : Paging64) (mem : ℕ → Page) (pml4 pdpt cr3 : ℕ)
    → IsSound fuel s
    → IsSound fuel (record s { mem = mem; kernel_pml4 = pml4; kernel_pdpt = pdpt; cr3 = cr3 })
IsSound-tables fuel s mem pml4 pdpt cr3 v = record {
  pool_aligned = v.pool_aligned;
  pool_fits = v.pool_fits;
  counted = v.counted;
  active = λ e. record {
    sane = (v.active e).sane;
    ascending = (v.active e).ascending;
    aligned = (v.active e).aligned;
    low = (v.active e).low;
    fuelled = (v.active e).fuelled;
    covered = (v.active e).covered;
  };
}
