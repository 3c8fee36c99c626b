-- ===== src/Paging64/Boot.antt =====
-- paging64.c: the kernel's map after `paging_init_kernel_map`.
use neka_kernel.Base.{
  ℕ, zero, suc, ◌+◌, ◌*◌, ◌/◌, ◌%◌, ◌^◌, ◌<◌, ◌≡◌, ◌≢◌, inl, inr, refl, ap, ◌∙◌, sym, arith, bit_or,
  bit_or_above, Bool, true, false, ◌&&◌, some, ◌==◌, Bool-cases, ==→eq, ==→ne, update, update_self,
  update_ne,
}
use mathlib.Core.Path.{subst}
use neka_kernel.Paging64.{Paging64, Page, fill_pd, paging_init_kernel_map}
use neka_kernel.Paging64.Outcomes.{Ends, Ends-bind}
use neka_kernel.Paging64.Supply.{
  IsSound, IsSound-tables, IsTaken, IsAllocated, SameSupply, SameSupply-trans, alloc_frame_lem,
  page_kept, page_cleared,
}
use neka_kernel.Paging64.Walk.{
  frame_of, is_user, walk_pd, translate, Points, kernel-Points, walk_down,
}
use neka_kernel.Paging64.Kernel.{IsKernelMap, IsLeaf}
use neka_kernel.Paging64.Directories.{IsApart}
use neka_kernel.Paging64.Tables.{put, put_self, put_slot, put_page}

fill_last : (n : ℕ) (pd : Page) → fill_pd (suc n) pd n ≡ n * 2 ^ 21 + 0x83
unfolding fill_pd
fill_last n pd =
    update_self (fill_pd n pd) n _ ∙ bit_or_above 21 (n * 2 ^ 21) 0x83 (omega arith) (omega arith)

-- Every entry is the 2 MB page of its own number.
fill_pd_lem : (n : ℕ) (pd : Page) (i : ℕ) → i < n → fill_pd n pd i ≡ i * 2 ^ 21 + 0x83
unfolding fill_pd
fill_pd_lem zero pd i h = absurd (omega arith)
fill_pd_lem (suc n) pd i h = elim (Bool-cases (n == i)) [
  | inl here ↦
      subst (λ j. fill_pd (suc n) pd j ≡ j * 2 ^ 21 + 0x83) (==→eq _ _ here) (fill_last n pd)
  | inr below ↦
      update_ne (fill_pd n pd) n i _ (==→ne _ _ below)
      ∙ fill_pd_lem n pd i (omega (arith, ==→ne _ _ below))
]

pub entry-IsLeaf : (i : ℕ) → IsLeaf (i * 2 ^ 21 + 0x83)
entry-IsLeaf i = inr (ground arith, ground arith, ground arith)

-- The walk through a directory of such entries ends where it began.
walk_identity :
    (mem : ℕ → Page) (pd va : ℕ) (user : Bool)
    → va < 2 ^ 30
    → ((i : ℕ) → i < 512 → mem pd i ≡ i * 2 ^ 21 + 0x83)
    → walk_pd mem pd va user ≡ some (va, user && false)
walk_identity mem pd va user small h =
    let i = va / 2 ^ 21 in
    let at : va / 2 ^ 21 % 512 ≡ i = omega arith in
    let e : mem pd (va / 2 ^ 21 % 512) ≡ i * 2 ^ 21 + 0x83 = rw at (h i (omega arith)) in
    let present : ((i * 2 ^ 21 + 0x83) % 2 == 0) ≡ false = ground arith in
    let large : ((i * 2 ^ 21 + 0x83) / 128 % 2 == 1) ≡ true = ground arith in
    let valid : ((i * 2 ^ 21 + 0x83) / 2 ^ 13 % 2 ^ 8 == 0) ≡ true = ground arith in
    let hidden : is_user (i * 2 ^ 21 + 0x83) ≡ false = ground arith in
    let pa : (i * 2 ^ 21 + 0x83) / 2 ^ 21 * 2 ^ 21 + va % 2 ^ 21 ≡ va = omega arith in
    rw (e, present, large, valid, hidden, pa)

-- The kernel's map after boot: the first gigabyte is mapped to itself and not for user code, the
-- processor uses the map, and no page outside of the three new tables has changed.
pub record IsBooted (fuel : ℕ) (s s' : Paging64) : Type 0 where
  pub sound : IsSound fuel s'
  pub kernel : IsKernelMap s'
  pub loaded : s'.cr3 ≡ s'.kernel_pml4
  pub identity : (va : ℕ) → va < 2 ^ 30 → translate s'.mem s'.cr3 va ≡ some (va, false)
  pub keeps : (u : ℕ) → IsTaken s u → (s'.mem u ≡ s.mem u) × IsTaken s' u
  -- The tables are three pages, and only the first gigabyte has an entry.
  pub apart : IsApart s'
  pub empty : (k : ℕ) → k < 512 → 0 ≢ k → (s'.mem s'.kernel_pdpt k % 2 == 0) ≡ true
  pub fits : s'.kernel_pml4 < 2 ^ 64
  pub supply : SameSupply s s'

module _ (fuel : ℕ) (s s1 s2 s3 : Paging64) (f1 f2 f3 : ℕ) (a1 : IsAllocated fuel s f1 s1)
    (a2 : IsAllocated fuel s1 f2 s2) (a3 : IsAllocated fuel s2 f3 s3) where
  abbrev mem1 : ℕ → Page
  mem1 = update s3.mem f3 (fill_pd 512 (s3.mem f3))

  abbrev mem2 : ℕ → Page
  mem2 = put mem1 f2 0 (bit_or f3 3)

  abbrev mem3 : ℕ → Page
  mem3 = put mem2 f1 0 (bit_or f2 3)

  abbrev booted : Paging64
  booted = record s3 { mem = mem3; kernel_pml4 = f1; kernel_pdpt = f2; cr3 = f1 }

  d12 : f1 ≢ f2
  d12 = (a2.new f1 a1.taken).0

  d13 : f1 ≢ f3
  d13 = (a3.new f1 (a2.new f1 a1.taken).1).0

  d23 : f2 ≢ f3
  d23 = (a3.new f2 a2.taken).0

  root_entry : mem3 f1 0 ≡ bit_or f2 3
  root_entry = put_self mem2 f1 0 _

  first_entry : mem3 f2 0 ≡ bit_or f3 3
  first_entry = ap (λ (p : Page). p 0) (put_page mem2 f1 0 _ f2 d12) ∙ put_self mem1 f2 0 _

  no_entry : (i : ℕ) → i < 512 → 0 ≢ i → mem3 f2 i ≡ 0
  no_entry i h d =
      ap (λ (p : Page). p i) (put_page mem2 f1 0 _ f2 d12)
      ∙ put_slot mem1 f2 0 _ i d
      ∙ ap (λ (p : Page). p i)
          (update_ne s3.mem f3 f2 _ (λ e. d23 (sym e)) ∙ page_kept fuel s2 f3 s3 a3 f2 d23)
      ∙ page_cleared fuel s1 f2 s2 a2 i h

  leaf : (i : ℕ) → i < 512 → mem3 f3 i ≡ i * 2 ^ 21 + 0x83
  leaf i h =
      ap (λ (p : Page). p i)
        (put_page mem2 f1 0 _ f3 d13 ∙ put_page mem1 f2 0 _ f3 d23 ∙ update_self s3.mem f3 _)
      ∙ fill_pd_lem 512 (s3.mem f3) i h

  first-Points : Points (mem3 f2 0) f3 false
  first-Points = rw first_entry (kernel-Points f3 a3.aligned)

  root-Points : Points (mem3 f1 0) f2 false
  root-Points = rw root_entry (kernel-Points f2 a2.aligned)

  only_first : (i : ℕ) → i < 512 → (mem3 f2 i % 2 == 0) ≡ false → 0 ≡ i
  only_first i h there = elim (Bool-cases (0 == i)) [
    | inl e ↦ ==→eq _ _ e
    | inr e ↦ absurd (ground (arith, no_entry i h (==→ne _ _ e)))
  ]

  booted-IsKernelMap : IsKernelMap booted
  booted-IsKernelMap = record {
    pml4_taken = (a3.new f1 (a2.new f1 a1.taken).1).1;
    pdpt_taken = (a3.new f2 a2.taken).1;
    root = root-Points;
    tables = λ i h there.
        subst (λ j. IsTaken booted (frame_of (mem3 f2 j))) (only_first i h there)
          (rw first-Points.target a3.taken);
    leaves = λ i j h k there.
        subst (λ n. IsLeaf (mem3 (frame_of (mem3 f2 n)) j)) (only_first i h there)
          (rw (first-Points.target, leaf j k) (entry-IsLeaf j));
  }

  booted_identity : (va : ℕ) → va < 2 ^ 30 → translate mem3 f1 va ≡ some (va, false)
  booted_identity va small =
      let r4 : va / 2 ^ 39 % 512 ≡ 0 = omega arith in
      let r3 : va / 2 ^ 30 % 512 ≡ 0 = omega arith in
      walk_down mem3 va f1 f2 false (rw r4 root-Points)
      ∙ rw (r3, first-Points.present, first-Points.target)
          (walk_identity mem3 f3 va (false && is_user (mem3 f2 0)) small leaf)

  booted-Keeps : (u : ℕ) → IsTaken s u → (mem3 u ≡ s.mem u) × IsTaken booted u
  booted-Keeps u t =
      let o1 = a1.new u t in
      let o2 = a2.new u o1.1 in
      let o3 = a3.new u o2.1 in
      (
        put_page mem2 f1 0 _ u (λ e. o1.0 (sym e))
            ∙ put_page mem1 f2 0 _ u (λ e. o2.0 (sym e))
            ∙ update_ne s3.mem f3 u _ (λ e. o3.0 (sym e))
            ∙ page_kept fuel s2 f3 s3 a3 u o3.0
            ∙ page_kept fuel s1 f2 s2 a2 u o2.0
            ∙ page_kept fuel s f1 s1 a1 u o1.0,
        o3.1,
      )

  booted-IsApart : IsApart booted
  booted-IsApart = record {
    top = d12;
    below = λ i h there.
        subst (λ j. (frame_of (mem3 f2 j) ≢ f1) × (frame_of (mem3 f2 j) ≢ f2))
          (only_first i h there) (rw first-Points.target (λ e. d13 (sym e), λ e. d23 (sym e)));
    distinct = λ i j h k d x y. absurd (d (sym (only_first i h x) ∙ only_first j k y));
  }

  booted-IsBooted : IsBooted fuel s booted
  booted-IsBooted = record {
    sound = IsSound-tables fuel s3 mem3 f1 f2 f1 a3.sound;
    kernel = booted-IsKernelMap;
    loaded = refl;
    identity = booted_identity;
    keeps = booted-Keeps;
    apart = booted-IsApart;
    empty = λ k h d. rw (no_entry k h d);
    fits = a1.fits;
    supply =
        SameSupply-trans s s1 booted a1.supply (SameSupply-trans s1 s2 booted a2.supply a3.supply);
  }

-- On a sound state `paging_init_kernel_map` ends with the kernel's map loaded, or panics for want of
-- frames. The map sends the first gigabyte to itself, and not for user code. Frames that were in use
-- keep their contents.
pub init_kernel_map_lem :
    (fuel : ℕ) (s : Paging64)
    → IsSound fuel s
    → Ends (λ u. IsBooted fuel s) (paging_init_kernel_map fuel s)
unfolding paging_init_kernel_map
init_kernel_map_lem fuel s sound =
    Ends-bind (IsAllocated fuel s) (λ u. IsBooted fuel s) _ _ (alloc_frame_lem fuel s sound)
      (λ f1 s1 a1.
        Ends-bind (IsAllocated fuel s1) (λ u. IsBooted fuel s) _ _
          (alloc_frame_lem fuel s1 a1.sound)
          (λ f2 s2 a2.
            Ends-bind (IsAllocated fuel s2) (λ u. IsBooted fuel s) _ _
              (alloc_frame_lem fuel s2 a2.sound)
              (λ f3 s3 a3. booted-IsBooted fuel s s1 s2 s3 f1 f2 f3 a1 a2 a3)))
