-- ===== src/Paging64/Private.antt =====
-- paging64.c: what `create_address_space` promises.
use neka_kernel.Base.{
  ℕ, ◌/◌, ◌%◌, ◌^◌, ◌<◌, ◌≡◌, ◌≢◌, ap, ◌∙◌, sym, arith, Bool, false, ◌==◌, if◌then◌else◌,
}
use neka_kernel.Paging64.{Paging64, Page, create_address_space}
use neka_kernel.Paging64.Outcomes.{Ends, Ends-bind}
use neka_kernel.Paging64.Supply.{
  IsSound, IsSound-mem, IsTaken, IsAllocated, alloc_frame_lem, page_kept, page_cleared,
}
use neka_kernel.Paging64.Walk.{translate, kernel-Points, walk_down}
use neka_kernel.Paging64.Kernel.{IsKernelMap, Keeps, IsKernelMap-keep, shared_walk}
use neka_kernel.Paging64.Spaces.{IsSpace, m5, at_f1, at_f2, at_f3, at_f4, shared, other}

-- The new address space has a private frame behind `demo_va`, and elsewhere, below 512 GB, what the
-- kernel's map has; frames that were handed out before are not touched.
pub record IsMade (fuel : ℕ) (s : Paging64) (cr3 : ℕ) (s' : Paging64) : Type 0 where
  pub sound : IsSound fuel s'
  pub kernel : IsKernelMap s'
  pub same_pml4 : s'.kernel_pml4 ≡ s.kernel_pml4
  pub same_pdpt : s'.kernel_pdpt ≡ s.kernel_pdpt
  pub keeps : Keeps s s'
  pub pdpt : ℕ
  pub pd : ℕ
  pub pt : ℕ
  pub frame : ℕ
  pub space : IsSpace s' cr3 pdpt pd pt frame
  pub fresh : (u : ℕ) → IsTaken s u → (u ≢ cr3) × (u ≢ pdpt) × (u ≢ pd) × (u ≢ pt) × (u ≢ frame)
  pub kernel_part :
      (va : ℕ)
      → va < 2 ^ 39
      → va / 2 ^ 30 ≢ 1
      → translate s'.mem cr3 va ≡ translate s.mem s.kernel_pml4 va

module _ (fuel : ℕ) (s s1 s2 s3 s4 s5 : Paging64) (f1 f2 f3 f4 f5 : ℕ) (v : IsKernelMap s)
    (a1 : IsAllocated fuel s f1 s1) (a2 : IsAllocated fuel s1 f2 s2)
    (a3 : IsAllocated fuel s2 f3 s3) (a4 : IsAllocated fuel s3 f4 s4)
    (a5 : IsAllocated fuel s4 f5 s5) where
  new_pdpt_same : s5.kernel_pdpt ≡ s.kernel_pdpt
  new_pdpt_same = a5.kernel_pdpt ∙ a4.kernel_pdpt ∙ a3.kernel_pdpt ∙ a2.kernel_pdpt ∙ a1.kernel_pdpt

  new_pml4_same : s5.kernel_pml4 ≡ s.kernel_pml4
  new_pml4_same = a5.kernel_pml4 ∙ a4.kernel_pml4 ∙ a3.kernel_pml4 ∙ a2.kernel_pml4 ∙ a1.kernel_pml4

  -- Frames of before, and the first four, in the last state.
  abbrev result : Paging64
  result = record s5 { mem = m5 s5.mem f1 f2 f3 f4 f5 (s5.mem s5.kernel_pdpt) }

  t1 : IsTaken s2 f1
  t1 = (a2.new f1 a1.taken).1

  t1' : IsTaken s4 f1
  t1' = (a4.new f1 (a3.new f1 t1).1).1

  t2 : IsTaken s4 f2
  t2 = (a4.new f2 (a3.new f2 a2.taken).1).1

  t3 : IsTaken s4 f3
  t3 = (a4.new f3 a3.taken).1

  d12 : f1 ≢ f2
  d12 = (a2.new f1 a1.taken).0

  d13 : f1 ≢ f3
  d13 = (a3.new f1 t1).0

  d14 : f1 ≢ f4
  d14 = (a4.new f1 (a3.new f1 t1).1).0

  d23 : f2 ≢ f3
  d23 = (a3.new f2 a2.taken).0

  d24 : f2 ≢ f4
  d24 = (a4.new f2 (a3.new f2 a2.taken).1).0

  d34 : f3 ≢ f4
  d34 = (a4.new f3 a3.taken).0

  -- A frame of before is none of the five, and its page stays.
  module _ (u : ℕ) (t : IsTaken s u) where
    o1 : (u ≢ f1) × IsTaken s1 u
    o1 = a1.new u t

    o2 : (u ≢ f2) × IsTaken s2 u
    o2 = a2.new u o1.1

    o3 : (u ≢ f3) × IsTaken s3 u
    o3 = a3.new u o2.1

    o4 : (u ≢ f4) × IsTaken s4 u
    o4 = a4.new u o3.1

    o5 : (u ≢ f5) × IsTaken s5 u
    o5 = a5.new u o4.1

    kept_mem : s5.mem u ≡ s.mem u
    kept_mem =
        page_kept fuel s4 f5 s5 a5 u o5.0
        ∙ page_kept fuel s3 f4 s4 a4 u o4.0
        ∙ page_kept fuel s2 f3 s3 a3 u o3.0
        ∙ page_kept fuel s1 f2 s2 a2 u o2.0
        ∙ page_kept fuel s f1 s1 a1 u o1.0

  result-Keeps : Keeps s result
  result-Keeps u t = (
    other s5.mem f1 f2 f3 f4 f5 (s5.mem s5.kernel_pdpt) d12 d13 d14 d23 d24 d34 u
          (λ e. (o1 u t).0 (sym e)) (λ e. (o2 u t).0 (sym e)) (λ e. (o3 u t).0 (sym e))
          (λ e. (o4 u t).0 (sym e))
        ∙ kept_mem u t,
    (o5 u t).1,
  )

  result-IsSpace : IsSpace result f1 f2 f3 f4 f5
  result-IsSpace =
      let k = s5.mem s5.kernel_pdpt in
      record {
        at_pml4 =
            rw (at_f1 s5.mem f1 f2 f3 f4 f5 k d12 d13 d14 d23 d24 d34)
              (kernel-Points f2 a2.aligned);
        at_pdpt =
            rw (at_f2 s5.mem f1 f2 f3 f4 f5 k d12 d13 d14 d23 d24 d34)
              (kernel-Points f3 a3.aligned);
        at_pd =
            rw (at_f3 s5.mem f1 f2 f3 f4 f5 k d12 d13 d14 d23 d24 d34)
              (kernel-Points f4 a4.aligned);
        at_pt =
            rw (at_f4 s5.mem f1 f2 f3 f4 f5 k d12 d13 d14 d23 d24 d34)
              (kernel-Points f5 a5.aligned);
        taken = (
          (a5.new f1 t1').1,
          (a5.new f2 t2).1,
          (a5.new f3 t3).1,
          (a5.new f4 a4.taken).1,
          a5.taken,
        );
        apart = (
          λ e. (a5.new f1 t1').0 (sym e),
          λ e. (a5.new f2 t2).0 (sym e),
          λ e. (a5.new f3 t3).0 (sym e),
          λ e. (a5.new f4 a4.taken).0 (sym e),
        );
      }

  result-IsKernelMap : IsKernelMap result
  result-IsKernelMap = IsKernelMap-keep s result v result-Keeps new_pml4_same new_pdpt_same

  -- The new table has the kernel's entries, and zeros where that has none.
  own_entry :
      (i : ℕ)
      → i < 512
      → 1 ≢ i
      → result.mem f2 i ≡ (if s.mem s.kernel_pdpt i % 2 == 0 then 0 else s.mem s.kernel_pdpt i)
  own_entry i l d =
      shared s5.mem f1 f2 f3 f4 f5 (s5.mem s5.kernel_pdpt) d12 d13 d14 d23 d24 d34 i l d
      ∙ ap (λ (z : ℕ). if s5.mem s5.kernel_pdpt i % 2 == 0 then z else s5.mem s5.kernel_pdpt i)
          zero_entry
      ∙ ap (λ (p : Page). if p i % 2 == 0 then 0 else p i) kernel_page
    where
      kernel_page : s5.mem s5.kernel_pdpt ≡ s.mem s.kernel_pdpt
      kernel_page = ap s5.mem new_pdpt_same ∙ kept_mem s.kernel_pdpt v.pdpt_taken

      zero_entry : s5.mem f2 i ≡ 0
      zero_entry =
          ap (λ (p : Page). p i)
            (page_kept fuel s4 f5 s5 a5 f2 (a5.new f2 t2).0
              ∙ page_kept fuel s3 f4 s4 a4 f2 d24
              ∙ page_kept fuel s2 f3 s3 a3 f2 d23)
          ∙ page_cleared fuel s1 f2 s2 a2 i l

  result_kernel_part :
      (va : ℕ)
      → va < 2 ^ 39
      → va / 2 ^ 30 ≢ 1
      → translate result.mem f1 va ≡ translate s.mem s.kernel_pml4 va
  result_kernel_part va small d =
      let low : va / 2 ^ 30 < 512 = omega arith in
      let root : va / 2 ^ 39 % 512 ≡ 0 = omega arith in
      let own = own_entry (va / 2 ^ 30) low (λ e. d (sym e)) in
      walk_down result.mem va f1 f2 false (rw root result-IsSpace.at_pml4)
      ∙ shared_walk s result v result-Keeps f2 va low
          (λ e. own ∙ ap (λ (b : Bool). if b then 0 else s.mem s.kernel_pdpt (va / 2 ^ 30)) e)
          (λ e. rw (own, e)) false
      ∙ sym (walk_down s.mem va s.kernel_pml4 s.kernel_pdpt false (rw root v.root))

  result-IsMade : IsMade fuel s f1 result
  result-IsMade = record {
    sound = IsSound-mem fuel s5 result.mem a5.sound;
    kernel = result-IsKernelMap;
    same_pml4 = new_pml4_same;
    same_pdpt = new_pdpt_same;
    keeps = result-Keeps;
    pdpt = f2;
    pd = f3;
    pt = f4;
    frame = f5;
    space = result-IsSpace;
    fresh = λ u t. ((o1 u t).0, (o2 u t).0, (o3 u t).0, (o4 u t).0, (o5 u t).0);
    kernel_part = result_kernel_part;
  }

-- On a sound state with the kernel's map, `create_address_space` ends with a new address space, or
-- panics for want of frames. The space has a private frame behind `demo_va`, which was not in use
-- before; below 512 GB and outside the second gigabyte it translates as the kernel's map; and no
-- frame that was in use changes.
pub create_address_space_lem :
    (fuel : ℕ) (s : Paging64)
    → IsSound fuel s
    → IsKernelMap s
    → Ends (IsMade fuel s) (create_address_space fuel s)
unfolding create_address_space
create_address_space_lem fuel s sound v =
    Ends-bind (IsAllocated fuel s) (IsMade fuel s) _ _ (alloc_frame_lem fuel s sound) (λ f1 s1 a1.
      Ends-bind (IsAllocated fuel s1) (IsMade fuel s) _ _ (alloc_frame_lem fuel s1 a1.sound)
        (λ f2 s2 a2.
          Ends-bind (IsAllocated fuel s2) (IsMade fuel s) _ _ (alloc_frame_lem fuel s2 a2.sound)
            (λ f3 s3 a3.
              Ends-bind (IsAllocated fuel s3) (IsMade fuel s) _ _ (alloc_frame_lem fuel s3 a3.sound)
                (λ f4 s4 a4.
                  Ends-bind (IsAllocated fuel s4) (IsMade fuel s) _ _
                    (alloc_frame_lem fuel s4 a4.sound)
                    (λ f5 s5 a5.
                      result-IsMade fuel s s1 s2 s3 s4 s5 f1 f2 f3 f4 f5 v a1 a2 a3 a4 a5)))))
