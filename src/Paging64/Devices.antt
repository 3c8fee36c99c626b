-- ===== src/Paging64/Devices.antt =====
-- paging64.c: a slot of the kernel's directories, found or made and then written.
use neka_kernel.Base.{
  ℕ, ◌+◌, ◌/◌, ◌%◌, ◌^◌, ◌<◌, ◌≡◌, ◌≢◌, ◌⊎◌, inl, inr, refl, ap, sym, arith, bit_or, bit_or_above,
  true, false, ◌==◌, Bool-cases, ==→eq, ==→ne,
}
use mathlib.Core.Path.{subst}
use neka_kernel.Paging64.{
  Paging64, Page, Run, ok, create_entry, get_or_create_next_level, alloc_frame,
}
use neka_kernel.Paging64.Outcomes.{Ends}
use neka_kernel.Paging64.Supply.{IsSound, IsSound-mem, IsAllocated, alloc_frame_lem}
use neka_kernel.Paging64.Walk.{frame_of, Points}
use neka_kernel.Paging64.Kernel.{IsKernelMap, IsLeaf}
use neka_kernel.Paging64.Tables.{put, put_self, put_slot, put_page}
use neka_kernel.Paging64.Directories.{
  IsApart, IsExtended, IsLevel, kernel_walk, walk-same, grown, grown-IsLevel,
}

-- The loads around `create_entry` see the entry that is there, or the new one.
level_there :
    (fuel : ℕ) (s : Paging64) (i : ℕ)
    → (s.mem s.kernel_pdpt i % 2 == 0) ≡ false
    → get_or_create_next_level fuel s.kernel_pdpt i 3 s ≡ ok (frame_of (s.mem s.kernel_pdpt i)) s
unfolding get_or_create_next_level create_entry
level_there fuel s i there = rw (there, create_entry)

level_new :
    (fuel : ℕ) (s s1 : Paging64) (a i : ℕ)
    → (s.mem s.kernel_pdpt i % 2 == 0) ≡ true
    → alloc_frame fuel s ≡ ok a s1
    → let s2 = record s1 { mem = put s1.mem s.kernel_pdpt i (bit_or a 3) } in
      get_or_create_next_level fuel s.kernel_pdpt i 3 s ≡ ok (frame_of (s2.mem s.kernel_pdpt i)) s2
unfolding get_or_create_next_level create_entry
level_new fuel s s1 a i gone e = rw (gone, e, create_entry)

level_panics :
    (fuel : ℕ) (s : Paging64) (c i : ℕ)
    → (s.mem s.kernel_pdpt i % 2 == 0) ≡ true
    → alloc_frame fuel s ≡ Run.panics c
    → get_or_create_next_level fuel s.kernel_pdpt i 3 s ≡ Run.panics c
unfolding get_or_create_next_level create_entry
level_panics fuel s c i gone e = rw (gone, e, create_entry)

module _ (fuel : ℕ) (s : Paging64) (i : ℕ) (sound : IsSound fuel s) (v : IsKernelMap s)
    (w : IsApart s) (in_range : i < 512) where
  present-IsLevel :
      (s.mem s.kernel_pdpt i % 2 == 0) ≡ false
      → IsLevel fuel s i (frame_of (s.mem s.kernel_pdpt i)) s
  present-IsLevel there = record {
    extended = record {
      sound = sound;
      kernel = v;
      apart = w;
      same_pml4 = refl;
      same_pdpt = refl;
      same_cr3 = refl;
      supply = (refl, λ e. refl);
    };
    present = there;
    target = refl;
    others = λ k d. refl;
    walks = λ va. refl;
  }

  new-IsLevel :
      (s1 : Paging64) (a : ℕ)
      → (s.mem s.kernel_pdpt i % 2 == 0) ≡ true
      → IsAllocated fuel s a s1
      → let s2 = record s1 { mem = put s1.mem s.kernel_pdpt i (bit_or a 3) } in
        IsLevel fuel s i (frame_of (s2.mem s.kernel_pdpt i)) s2
  new-IsLevel s1 a gone h =
      let s2 : Paging64 = record s1 { mem = put s1.mem s.kernel_pdpt i (bit_or a 3) } in
      let next = grown fuel s s1 a i v w h in_range gone in
      let same : next ≡ s2 = λ j. record s2 {
        kernel_pml4 = sym h.kernel_pml4 j;
        kernel_pdpt = sym h.kernel_pdpt j;
        cr3 = sym h.cr3 j;
      } in
      let level = grown-IsLevel fuel s s1 a i v w h in_range gone in
      subst (λ (p : ℕ). IsLevel fuel s i p s2) (sym level.target)
        (subst (IsLevel fuel s i a) same level)

  IsLevel-case :
      (r : Run ℕ)
      → (s.mem s.kernel_pdpt i % 2 == 0) ≡ true
      → alloc_frame fuel s ≡ r
      → Ends (IsAllocated fuel s) r
      → Ends (IsLevel fuel s i) (get_or_create_next_level fuel s.kernel_pdpt i 3 s)
  IsLevel-case (ok a s1) gone e h = rw (level_new fuel s s1 a i gone e) (new-IsLevel s1 a gone h)
  IsLevel-case (Run.panics c) gone e h = rw (level_panics fuel s c i gone e) h
  IsLevel-case Run.faults gone e h = elim h [ ]
  IsLevel-case Run.out_of_fuel gone e h = elim h [ ]

  pub level_lem : Ends (IsLevel fuel s i) (get_or_create_next_level fuel s.kernel_pdpt i 3 s)
  level_lem = elim (Bool-cases (s.mem s.kernel_pdpt i % 2 == 0)) [
    | inl gone ↦ IsLevel-case (alloc_frame fuel s) gone refl (alloc_frame_lem fuel s sound)
    | inr there ↦ rw (level_there fuel s i there) (present-IsLevel there)
  ]

-- `pa | 0x93`: present, writable, not cached, 2 MB, and not for user code.
pub device-IsLeaf : (pa : ℕ) → pa % 2 ^ 21 ≡ 0 → IsLeaf (bit_or pa 0x93)
device-IsLeaf pa h =
    let e : bit_or pa 0x93 ≡ pa + 0x93 = bit_or_above 12 pa 0x93 (omega arith) (omega arith) in
    rw e (inr (ground arith, ground arith, ground arith))

-- A slot of a directory written with a leaf.
module _ (fuel : ℕ) (s : Paging64) (i j e : ℕ) (sound : IsSound fuel s) (v : IsKernelMap s)
    (w : IsApart s) (i_range : i < 512) (there : (s.mem s.kernel_pdpt i % 2 == 0) ≡ false)
    (leaf : IsLeaf e) where
  abbrev pub pd : ℕ
  pd = frame_of (s.mem s.kernel_pdpt i)

  abbrev pub written : Paging64
  written = record s { mem = put s.mem pd j e }

  pub same_entries : (k : ℕ) → written.mem s.kernel_pdpt k ≡ s.mem s.kernel_pdpt k
  same_entries k =
      ap (λ (p : Page). p k) (put_page s.mem pd j e s.kernel_pdpt (w.below i i_range there).1)

  -- Every other slot of every directory stays.
  same_slot :
      (k l : ℕ)
      → k < 512
      → (s.mem s.kernel_pdpt k % 2 == 0) ≡ false
      → (i ≢ k) ⊎ (j ≢ l)
      → written.mem (frame_of (s.mem s.kernel_pdpt k)) l
        ≡ s.mem (frame_of (s.mem s.kernel_pdpt k)) l
  same_slot k l n here (inl d) =
      ap (λ (p : Page). p l) (put_page s.mem pd j e _ (w.distinct i k i_range n d there here))
  same_slot k l n here (inr d) = elim (Bool-cases (i == k)) [
    | inl q ↦
        subst
          (λ (m : ℕ).
            written.mem (frame_of (s.mem s.kernel_pdpt m)) l
            ≡ s.mem (frame_of (s.mem s.kernel_pdpt m)) l)
          (==→eq _ _ q) (put_slot s.mem pd j e l d)
    | inr q ↦
        ap (λ (p : Page). p l)
          (put_page s.mem pd j e _ (w.distinct i k i_range n (==→ne _ _ q) there here))
  ]

  written-IsLeaf :
      (k l : ℕ)
      → k < 512
      → l < 512
      → (s.mem s.kernel_pdpt k % 2 == 0) ≡ false
      → IsLeaf (written.mem (frame_of (s.mem s.kernel_pdpt k)) l)
  written-IsLeaf k l n m here = elim (Bool-cases (i == k)) [
    | inl q ↦ elim (Bool-cases (j == l)) [
      | inl r ↦
          subst (λ (x : ℕ). IsLeaf (written.mem (frame_of (s.mem s.kernel_pdpt x)) l)) (==→eq _ _ q)
            (subst (λ (x : ℕ). IsLeaf (written.mem pd x)) (==→eq _ _ r)
              (subst IsLeaf (sym (put_self s.mem pd j e)) leaf))
      | inr r ↦
          subst IsLeaf (sym (same_slot k l n here (inr (==→ne _ _ r)))) (v.leaves k l n m here)
    ]
    | inr q ↦ subst IsLeaf (sym (same_slot k l n here (inl (==→ne _ _ q)))) (v.leaves k l n m here)
  ]

  pub written-IsExtended : IsExtended fuel s written
  written-IsExtended = record {
    sound = IsSound-mem fuel s written.mem sound;
    kernel = record {
      pml4_taken = v.pml4_taken;
      pdpt_taken = v.pdpt_taken;
      root =
          subst (λ (p : Page). Points (p 0) s.kernel_pdpt false)
            (sym (put_page s.mem pd j e s.kernel_pml4 (w.below i i_range there).0)) v.root;
      tables = λ k n. rw (same_entries k) (v.tables k n);
      leaves = λ k l n m. rw (same_entries k) (written-IsLeaf k l n m);
    };
    apart = record {
      top = w.top;
      below = λ k n. rw (same_entries k) (w.below k n);
      distinct = λ k l n m d. rw (same_entries k, same_entries l) (w.distinct k l n m d);
    };
    same_pml4 = refl;
    same_pdpt = refl;
    same_cr3 = refl;
    supply = (refl, λ e. refl);
  }

  pub written_walks :
      (va : ℕ)
      → (i ≢ va / 2 ^ 30 % 512) ⊎ (j ≢ va / 2 ^ 21 % 512)
      → kernel_walk written va ≡ kernel_walk s va
  written_walks va d =
      walk-same s written va v (same_entries _, λ here. same_slot _ _ (omega arith) here d)
