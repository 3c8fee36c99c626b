-- ===== src/Paging64/User.antt =====
-- paging64.c: what a process that `create_user_process` makes can reach.
use neka_kernel.Base.{
  ℕ, ◌+◌, ◌/◌, ◌%◌, ◌^◌, ◌<◌, ◌≡◌, ◌≢◌, ap, ◌∙◌, sym, arith, bit_or, Bool, true, false, some, ◌==◌,
  if◌then◌else◌,
}
use mathlib.Core.Path.{subst}
use neka_kernel.Paging64.{
  Paging64, Page, ok, and_then, ◌>>=◌, map_user_page, user_code_va, user_stack_page_va,
  create_user_process,
}
use neka_kernel.Paging64.Outcomes.{Ends, Ends-bind}
use neka_kernel.Paging64.Supply.{IsSound, IsSound-mem, IsTaken, IsAllocated, alloc_frame_lem}
use neka_kernel.Paging64.Walk.{translate, Points, user-Points, walk_down, walk_page}
use neka_kernel.Paging64.Kernel.{IsKernelMap, Keeps, IsKernelMap-keep, shared_walk, kernel_hides}
use neka_kernel.Paging64.Tables.{put, put_self, put_slot, put_page}
use neka_kernel.Paging64.Levels.{IsMapped}
use neka_kernel.Paging64.Process.{HasIndexes, map_more, map_new}
use neka_kernel.Paging64.Program.{IsLoaded, code0, code1, create-IsLoaded, with_tables, with_code}

-- The process has a page with its program, and one for its stack, both for user code and in frames
-- that were not in use before. Elsewhere below 512 GB, outside of the second gigabyte, it has the
-- kernel's map, which is not for user code. Frames that were in use keep their contents.
pub record IsProcess (fuel : ℕ) (s : Paging64) (cr3 : ℕ) (s' : Paging64) : Type 0 where
  pub sound : IsSound fuel s'
  pub kernel : IsKernelMap s'
  pub same_pml4 : s'.kernel_pml4 ≡ s.kernel_pml4
  pub keeps : Keeps s s'
  pub code : ℕ
  pub stack : ℕ
  pub runs :
      (off : ℕ) → off < 4096 → translate s'.mem cr3 (user_code_va + off) ≡ some (code + off, true)
  pub program : (s'.mem code 0 ≡ code0) × (s'.mem code 1 ≡ code1)
  pub has_stack :
      (off : ℕ)
      → off < 4096
      → translate s'.mem cr3 (user_stack_page_va + off) ≡ some (stack + off, true)
  pub apart : code ≢ stack
  pub fresh : (u : ℕ) → IsTaken s u → (u ≢ cr3) × (u ≢ code) × (u ≢ stack)
  pub kernel_part :
      (va : ℕ)
      → va < 2 ^ 39
      → va / 2 ^ 30 ≢ 1
      → translate s'.mem cr3 va ≡ translate s.mem s.kernel_pml4 va

code-HasIndexes : (off : ℕ) → off < 4096 → HasIndexes (user_code_va + off) 128 0
code-HasIndexes off h = record {
  root = omega arith;
  second = omega arith;
  directory = omega arith;
  table = omega arith;
}

stack-HasIndexes : (off : ℕ) → off < 4096 → HasIndexes (user_stack_page_va + off) 128 1
stack-HasIndexes off h = record {
  root = omega arith;
  second = omega arith;
  directory = omega arith;
  table = omega arith;
}

module _ (fuel : ℕ) (s sa sb : Paging64) (pml4 pdpt code stack : ℕ) (v : IsKernelMap s)
    (a : IsLoaded fuel s pml4 pdpt code stack sa) (b : IsMapped fuel sa pdpt 128 0 code sb) where
  abbrev done : Paging64
  done = record sb { mem = put sb.mem b.pt 1 (bit_or stack 7) }

  -- A page in use before the mapping, apart from the PDPT.
  mapped_page : (u : ℕ) → IsTaken sa u → u ≢ pdpt → done.mem u ≡ sa.mem u
  mapped_page u t d =
      put_page sb.mem b.pt 1 (bit_or stack 7) u (λ e. (b.still u t).1 (sym e)) ∙ b.keeps u t d

  done_pdpt : done.mem pdpt ≡ sb.mem pdpt
  done_pdpt = put_page sb.mem b.pt 1 (bit_or stack 7) pdpt (λ e. (b.still pdpt a.taken.1).1 (sym e))

  at_root : Points (done.mem pml4 0) pdpt true
  at_root =
      subst (λ (p : Page). Points (p 0) pdpt true) (sym (mapped_page pml4 a.taken.0 a.apart.0))
        a.root

  at_second : Points (done.mem pdpt 1) b.pd true
  at_second = subst (λ (p : Page). Points (p 1) b.pd true) (sym done_pdpt) b.at_pdpt

  at_directory : Points (done.mem b.pd 128) b.pt true
  at_directory =
      subst (λ (p : Page). Points (p 128) b.pt true)
        (sym (put_page sb.mem b.pt 1 (bit_or stack 7) b.pd (λ e. b.apart (sym e)))) b.at_pd

  at_code : Points (done.mem b.pt 0) code true
  at_code =
      let e = put_slot sb.mem b.pt 1 (bit_or stack 7) 0 (λ q. absurd (omega arith)) ∙ b.at_pt in
      rw e (user-Points code a.aligned.0)

  at_stack : Points (done.mem b.pt 1) stack true
  at_stack = rw (put_self sb.mem b.pt 1 (bit_or stack 7)) (user-Points stack a.aligned.1)

  reach :
      (va p frame : ℕ)
      → HasIndexes va 128 p
      → Points (done.mem b.pt p) frame true
      → translate done.mem pml4 va ≡ some (frame + va % 4096, true)
  reach va p frame x e1 =
      walk_page done.mem va pml4 pdpt b.pd b.pt frame true (rw x.root at_root)
        (rw x.second at_second) (rw x.directory at_directory) (rw x.table e1)

  done-Keeps : Keeps s done
  done-Keeps u t =
      let o = a.keeps u t in (mapped_page u o.1 (a.fresh u t).1 ∙ o.0, (b.still u o.1).2)

  own_entry :
      (i : ℕ)
      → i < 512
      → 1 ≢ i
      → done.mem pdpt i ≡ (if s.mem s.kernel_pdpt i % 2 == 0 then 0 else s.mem s.kernel_pdpt i)
  own_entry i h d = ap (λ (p : Page). p i) done_pdpt ∙ b.slots i d ∙ a.entries i h

  process_kernel_part :
      (va : ℕ)
      → va < 2 ^ 39
      → va / 2 ^ 30 ≢ 1
      → translate done.mem pml4 va ≡ translate s.mem s.kernel_pml4 va
  process_kernel_part va small d =
      let low : va / 2 ^ 30 < 512 = omega arith in
      let root : va / 2 ^ 39 % 512 ≡ 0 = omega arith in
      let own = own_entry (va / 2 ^ 30) low (λ e. d (sym e)) in
      walk_down done.mem va pml4 pdpt true (rw root at_root)
      ∙ shared_walk s done v done-Keeps pdpt va low
          (λ e. own ∙ ap (λ (c : Bool). if c then 0 else s.mem s.kernel_pdpt (va / 2 ^ 30)) e)
          (λ e. rw (own, e)) true
      ∙ kernel_hides s va v low
      ∙ sym (walk_down s.mem va s.kernel_pml4 s.kernel_pdpt false (rw root v.root))

  done-IsProcess : IsProcess fuel s pml4 done
  done-IsProcess = record {
    sound = IsSound-mem fuel sb done.mem b.sound;
    kernel =
        IsKernelMap-keep s done v done-Keeps (b.same_pml4 ∙ a.same_pml4)
          (b.same_pdpt ∙ a.same_pdpt);
    same_pml4 = b.same_pml4 ∙ a.same_pml4;
    keeps = done-Keeps;
    code = code;
    stack = stack;
    runs = λ off h.
        let low : (user_code_va + off) % 4096 ≡ off = omega arith in
        reach (user_code_va + off) 0 code (code-HasIndexes off h) at_code
        ∙ ap (λ (l : ℕ). some (code + l, true)) low;
    program =
        let e = mapped_page code a.taken.2 a.apart.1 in
        (ap (λ (p : Page). p 0) e ∙ a.program.0, ap (λ (p : Page). p 1) e ∙ a.program.1);
    has_stack = λ off h.
        let low : (user_stack_page_va + off) % 4096 ≡ off = omega arith in
        reach (user_stack_page_va + off) 1 stack (stack-HasIndexes off h) at_stack
        ∙ ap (λ (l : ℕ). some (stack + l, true)) low;
    apart = a.apart.2;
    fresh = λ u t. let o = a.fresh u t in (o.0, o.2, o.3);
    kernel_part = process_kernel_part;
  }

-- The two mappings, behind the copy of the code.
map_both :
    (fuel : ℕ) (s sa : Paging64) (pml4 pdpt code stack : ℕ) (v : IsKernelMap s)
    → (s.mem s.kernel_pdpt 1 % 2 == 0) ≡ true
    → IsLoaded fuel s pml4 pdpt code stack sa
    → Ends (IsProcess fuel s) (
        and_then
          (map_user_page fuel pml4 user_code_va code sa)
          (λ u. map_user_page fuel pml4 user_stack_page_va stack >>= (λ u s'. ok pml4 s')))
map_both fuel s sa pml4 pdpt code stack v gone a =
    let no_second : (sa.mem pdpt 1 % 2 == 0) ≡ true =
      let e =
        a.entries 1 (omega arith)
        ∙ ap (λ (c : Bool). if c then 0 else s.mem s.kernel_pdpt 1) gone in
      rw e in
    Ends-bind (λ u. IsMapped fuel sa pdpt 128 0 code) (IsProcess fuel s) _ _
      (map_new fuel pml4 pdpt user_code_va 128 0 code sa (code-HasIndexes 0 (omega arith)) a.root
        a.sound a.taken.1 no_second (omega arith))
      (λ u sb b.
        let root =
          subst (λ (p : Page). Points (p 0) pdpt true) (sym (b.keeps pml4 a.taken.0 a.apart.0))
            a.root in
        let more =
          map_more fuel pml4 pdpt user_stack_page_va 128 1 stack sb
            (stack-HasIndexes 0 (omega arith)) root b.pd b.pt b.at_pdpt b.at_pd in
        rw more (done-IsProcess fuel s sa sb pml4 pdpt code stack v a b))

-- On a sound state with the kernel's map, which has nothing in the second gigabyte,
-- `create_user_process` ends with a process, or panics for want of frames.
pub create_user_process_lem :
    (fuel : ℕ) (s : Paging64)
    → IsSound fuel s
    → IsKernelMap s
    → (s.mem s.kernel_pdpt 1 % 2 == 0) ≡ true
    → Ends (IsProcess fuel s) (create_user_process fuel s)
unfolding create_user_process
create_user_process_lem fuel s sound v gone =
    Ends-bind (IsAllocated fuel s) (IsProcess fuel s) _ _ (alloc_frame_lem fuel s sound)
      (λ f1 s1 a1.
        Ends-bind (IsAllocated fuel s1) (IsProcess fuel s) _ _ (alloc_frame_lem fuel s1 a1.sound)
          (λ f2 s2 a2.
            let r2 = with_tables s2 f1 f2 in
            Ends-bind (IsAllocated fuel r2) (IsProcess fuel s) _ _
              (alloc_frame_lem fuel r2 (IsSound-mem fuel s2 r2.mem a2.sound))
              (λ f3 s3 a3.
                Ends-bind (IsAllocated fuel s3) (IsProcess fuel s) _ _
                  (alloc_frame_lem fuel s3 a3.sound)
                  (λ f4 s4 a4.
                    map_both fuel s (with_code s4 f3) f1 f2 f3 f4 v gone
                      (create-IsLoaded fuel s s1 s2 s3 s4 f1 f2 f3 f4 v.pdpt_taken a1 a2 a3 a4)))))
