-- ===== src/Paging64/Program.antt =====
-- paging64.c: a process before its pages are mapped: its own tables, and its code in a frame.
use neka_kernel.Base.{
  ℕ, ◌%◌, ◌<◌, ◌≡◌, ◌≢◌, inl, inr, ap, ◌∙◌, sym, fun_ext, arith, bit_or, true, ◌==◌, if◌then◌else◌,
  Bool-cases, ==→eq, update, update_self, update_ne,
}
use mathlib.Core.Path.{subst}
use neka_kernel.Paging64.{Paging64, Page, inherit_kernel_pdpt, user_program, copy_bytes}
use neka_kernel.Paging64.Supply.{
  IsSound, IsSound-mem, IsTaken, IsAllocated, page_kept, page_cleared,
}
use neka_kernel.Paging64.Walk.{Points, user-Points}
use neka_kernel.Paging64.Kernel.{Keeps}
use neka_kernel.Paging64.Tables.{put, put_self, put_page, inherit_lem}

-- The 14 bytes of `user_program`, as two slots.
abbrev pub code0 : ℕ
code0 = 0x0058_bf00_0000_01b8

abbrev pub code1 : ℕ
code1 = 0xfceb_80cd_0000

as_zeros : (page : Page) → page 0 ≡ 0 → page 1 ≡ 0 → page ≡ update (update page 0 0) 1 0
as_zeros page e0 e1 = fun_ext (λ i. elim (Bool-cases (1 == i)) [
  | inl q ↦ rw q (ap page (sym (==→eq _ _ q)) ∙ e1)
  | inr q ↦ rw q (elim (Bool-cases (0 == i)) [
    | inl r ↦ rw r (ap page (sym (==→eq _ _ r)) ∙ e0)
    | inr r ↦ rw r
  ])
])

-- On a cleared page the copy leaves the program.
copy_program :
    (page : Page)
    → page 0 ≡ 0
    → page 1 ≡ 0
    → (copy_bytes user_program 0 page 0 ≡ code0) × (copy_bytes user_program 0 page 1 ≡ code1)
unfolding copy_bytes
copy_program page e0 e1 = (
  ap (λ (p : Page). copy_bytes user_program 0 p 0) (as_zeros page e0 e1),
  ap (λ (p : Page). copy_bytes user_program 0 p 1) (as_zeros page e0 e1),
)

pub record IsLoaded (fuel : ℕ) (s : Paging64) (pml4 pdpt code stack : ℕ) (s' : Paging64)
    : Type 0 where
  pub sound : IsSound fuel s'
  pub root : Points (s'.mem pml4 0) pdpt true
  pub entries :
      (i : ℕ)
      → i < 512
      → s'.mem pdpt i ≡ (if s.mem s.kernel_pdpt i % 2 == 0 then 0 else s.mem s.kernel_pdpt i)
  pub program : (s'.mem code 0 ≡ code0) × (s'.mem code 1 ≡ code1)
  pub taken : IsTaken s' pml4 × IsTaken s' pdpt × IsTaken s' code × IsTaken s' stack
  pub apart : (pml4 ≢ pdpt) × (code ≢ pdpt) × (code ≢ stack)
  pub aligned : (code % 4096 ≡ 0) × (stack % 4096 ≡ 0)
  pub keeps : Keeps s s'
  pub fresh : (u : ℕ) → IsTaken s u → (u ≢ pml4) × (u ≢ pdpt) × (u ≢ code) × (u ≢ stack)
  pub same_pml4 : s'.kernel_pml4 ≡ s.kernel_pml4
  pub same_pdpt : s'.kernel_pdpt ≡ s.kernel_pdpt

-- The writes between the allocations.
abbrev pub with_tables : Paging64 → ℕ → ℕ → Paging64
with_tables s pml4 pdpt = record s {
  mem =
      put (update s.mem pdpt (inherit_kernel_pdpt 512 (s.mem s.kernel_pdpt) (s.mem pdpt))) pml4 0
        (bit_or pdpt 7);
}

abbrev pub with_code : Paging64 → ℕ → Paging64
with_code s code = record s { mem = update s.mem code (copy_bytes user_program 0 (s.mem code)) }

module _ (fuel : ℕ) (s s1 s2 s3 s4 : Paging64) (f1 f2 f3 f4 : ℕ) (k : IsTaken s s.kernel_pdpt)
    (a1 : IsAllocated fuel s f1 s1) (a2 : IsAllocated fuel s1 f2 s2)
    (a3 : IsAllocated fuel (with_tables s2 f1 f2) f3 s3) (a4 : IsAllocated fuel s3 f4 s4) where
  abbrev r2 : Paging64
  r2 = with_tables s2 f1 f2

  abbrev r4 : Paging64
  r4 = with_code s4 f3

  f1_taken : IsTaken s2 f1
  f1_taken = (a2.new f1 a1.taken).1

  f1_f2 : f1 ≢ f2
  f1_f2 = (a2.new f1 a1.taken).0

  f1_f3 : (f1 ≢ f3) × IsTaken s3 f1
  f1_f3 = a3.new f1 f1_taken

  f2_f3 : (f2 ≢ f3) × IsTaken s3 f2
  f2_f3 = a3.new f2 a2.taken

  f3_f4 : f3 ≢ f4
  f3_f4 = (a4.new f3 a3.taken).0

  -- A page that neither allocation behind the tables gives out, nor the copy changes.
  late_page : (u : ℕ) → IsTaken r2 u → r4.mem u ≡ r2.mem u
  late_page u t =
      let o3 = a3.new u t in
      let o4 = a4.new u o3.1 in
      update_ne s4.mem f3 u _ (λ e. o3.0 (sym e))
      ∙ page_kept fuel s3 f4 s4 a4 u o4.0
      ∙ page_kept fuel r2 f3 s3 a3 u o3.0

  loaded_fresh : (u : ℕ) → IsTaken s u → (u ≢ f1) × (u ≢ f2) × (u ≢ f3) × (u ≢ f4)
  loaded_fresh u t =
      let o1 = a1.new u t in
      let o2 = a2.new u o1.1 in let o3 = a3.new u o2.1 in (o1.0, o2.0, o3.0, (a4.new u o3.1).0)

  early_page : (u : ℕ) → IsTaken s u → s2.mem u ≡ s.mem u
  early_page u t =
      let o1 = a1.new u t in
      page_kept fuel s1 f2 s2 a2 u (a2.new u o1.1).0 ∙ page_kept fuel s f1 s1 a1 u o1.0

  loaded-Keeps : Keeps s r4
  loaded-Keeps u t =
      let o1 = a1.new u t in
      let o2 = a2.new u o1.1 in
      (
        late_page u o2.1
            ∙ put_page
                (update s2.mem f2 (inherit_kernel_pdpt 512 (s2.mem s2.kernel_pdpt) (s2.mem f2))) f1
                0 (bit_or f2 7) u (λ e. o1.0 (sym e))
            ∙ update_ne s2.mem f2 u _ (λ e. o2.0 (sym e))
            ∙ early_page u t,
        (a4.new u (a3.new u o2.1).1).1,
      )

  loaded_entries :
      (i : ℕ)
      → i < 512
      → r4.mem f2 i ≡ (if s.mem s.kernel_pdpt i % 2 == 0 then 0 else s.mem s.kernel_pdpt i)
  loaded_entries i h =
      ap (λ (p : Page). p i)
        (late_page f2 a2.taken
          ∙ put_page
              (update s2.mem f2 (inherit_kernel_pdpt 512 (s2.mem s2.kernel_pdpt) (s2.mem f2))) f1 0
              (bit_or f2 7) f2 f1_f2
          ∙ update_self s2.mem f2 _)
      ∙ inherit_lem (s2.mem s2.kernel_pdpt) (s2.mem f2) 512 i h
      ∙ ap (λ (z : ℕ). if s2.mem s2.kernel_pdpt i % 2 == 0 then z else s2.mem s2.kernel_pdpt i)
          (page_cleared fuel s1 f2 s2 a2 i h)
      ∙ ap (λ (p : Page). if p i % 2 == 0 then 0 else p i)
          (ap s2.mem (a2.kernel_pdpt ∙ a1.kernel_pdpt) ∙ early_page s.kernel_pdpt k)

  cleared_code : (i : ℕ) → i < 512 → s4.mem f3 i ≡ 0
  cleared_code i h =
      ap (λ (p : Page). p i) (page_kept fuel s3 f4 s4 a4 f3 f3_f4)
      ∙ page_cleared fuel r2 f3 s3 a3 i h

  pub create-IsLoaded : IsLoaded fuel s f1 f2 f3 f4 r4
  create-IsLoaded =
      let c =
        copy_program (s4.mem f3) (cleared_code 0 (omega arith)) (cleared_code 1 (omega arith)) in
      record {
        sound = IsSound-mem fuel s4 r4.mem a4.sound;
        root =
            subst (λ (p : Page). Points (p 0) f2 true) (sym (late_page f1 f1_taken))
              (rw
                (put_self
                  (update s2.mem f2 (inherit_kernel_pdpt 512 (s2.mem s2.kernel_pdpt) (s2.mem f2)))
                  f1 0 (bit_or f2 7))
                (user-Points f2 a2.aligned));
        entries = loaded_entries;
        program = (
          ap (λ (p : Page). p 0) (update_self s4.mem f3 _) ∙ c.0,
          ap (λ (p : Page). p 1) (update_self s4.mem f3 _) ∙ c.1,
        );
        taken = ((a4.new f1 f1_f3.1).1, (a4.new f2 f2_f3.1).1, (a4.new f3 a3.taken).1, a4.taken);
        apart = (f1_f2, λ e. f2_f3.0 (sym e), f3_f4);
        aligned = (a3.aligned, a4.aligned);
        keeps = loaded-Keeps;
        fresh = loaded_fresh;
        same_pml4 = a4.kernel_pml4 ∙ a3.kernel_pml4 ∙ a2.kernel_pml4 ∙ a1.kernel_pml4;
        same_pdpt = a4.kernel_pdpt ∙ a3.kernel_pdpt ∙ a2.kernel_pdpt ∙ a1.kernel_pdpt;
      }
