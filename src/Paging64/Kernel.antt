-- ===== src/Paging64/Kernel.antt =====
-- paging64.c: the kernel's tables, which every address space shares.
use neka_kernel.Base.{
  ℕ, ◌/◌, ◌%◌, ◌^◌, ◌<◌, ◌≡◌, ◌⊎◌, inl, inr, ap, ◌∙◌, sym, arith, Bool, true, false, ◌==◌,
  Bool-cases, refl, ◌&&◌,
}
use mathlib.Core.Path.{subst}
use neka_kernel.Paging64.{Paging64, Page}
use neka_kernel.Paging64.Supply.{IsTaken}
use neka_kernel.Paging64.Walk.{frame_of, is_user, walk_pd, walk_pdpt, Points}

-- An entry of a page directory of the kernel: not present, or 2 MB and not for user code.
abbrev pub IsLeaf : ℕ → Type 0
IsLeaf e =
    ((e % 2 == 0) ≡ true)
    ⊎ (((e % 2 == 0) ≡ false) × ((e / 128 % 2 == 1) ≡ true) × (is_user e ≡ false))

-- The kernel's tables are frames that were handed out, and its directories hold leaves.
pub record IsKernelMap (s : Paging64) : Type 0 where
  pub pml4_taken : IsTaken s s.kernel_pml4
  pub pdpt_taken : IsTaken s s.kernel_pdpt
  pub root : Points (s.mem s.kernel_pml4 0) s.kernel_pdpt false
  pub tables :
      (i : ℕ)
      → i < 512
      → (s.mem s.kernel_pdpt i % 2 == 0) ≡ false
      → IsTaken s (frame_of (s.mem s.kernel_pdpt i))
  pub leaves :
      (i j : ℕ)
      → i < 512
      → j < 512
      → (s.mem s.kernel_pdpt i % 2 == 0) ≡ false
      → IsLeaf (s.mem (frame_of (s.mem s.kernel_pdpt i)) j)

-- What is taken stays taken, and its pages do not change.
abbrev pub Keeps : Paging64 → Paging64 → Type 0
Keeps s s' = (u : ℕ) → IsTaken s u → (s'.mem u ≡ s.mem u) × IsTaken s' u

-- One directory of leaves on which two memories agree.
pub walk_pd-same :
    (mem mem' : ℕ → Page) (pd va : ℕ) (user : Bool)
    → mem' pd ≡ mem pd
    → IsLeaf (mem pd (va / 2 ^ 21 % 512))
    → walk_pd mem' pd va user ≡ walk_pd mem pd va user
walk_pd-same mem mem' pd va user e (inl gone) =
    let gone' : (mem' pd (va / 2 ^ 21 % 512) % 2 == 0) ≡ true =
      subst (λ (p : Page). (p (va / 2 ^ 21 % 512) % 2 == 0) ≡ true) (sym e) gone in
    rw (gone, gone')
walk_pd-same mem mem' pd va user e (inr (there, large, hidden)) = rw (e, there, large)

module _ (s s' : Paging64) (v : IsKernelMap s) (keep : Keeps s s') where
  module _ (same4 : s'.kernel_pml4 ≡ s.kernel_pml4) (same3 : s'.kernel_pdpt ≡ s.kernel_pdpt) where
    abbrev entry : ℕ → ℕ
    entry i = s.mem s.kernel_pdpt i

    entry_same : (i : ℕ) → s'.mem s'.kernel_pdpt i ≡ entry i
    entry_same i =
        ap (λ (p : ℕ). s'.mem p i) same3
        ∙ ap (λ (p : Page). p i) (keep s.kernel_pdpt v.pdpt_taken).0

    pub IsKernelMap-keep : IsKernelMap s'
    IsKernelMap-keep = record {
      pml4_taken = rw same4 (keep s.kernel_pml4 v.pml4_taken).1;
      pdpt_taken = rw same3 (keep s.kernel_pdpt v.pdpt_taken).1;
      root =
          rw (same4, same3)
            (subst (λ (p : Page). Points (p 0) s.kernel_pdpt false)
              (sym (keep s.kernel_pml4 v.pml4_taken).0) v.root);
      tables = λ i l. rw (entry_same i) (λ h. (keep (frame_of (entry i)) (v.tables i l h)).1);
      leaves = λ i j l k. rw (entry_same i) (λ h.
          subst (λ (p : Page). IsLeaf (p j)) (sym (keep (frame_of (entry i)) (v.tables i l h)).0)
            (v.leaves i j l k h));
    }

  -- A table whose entry is the kernel's, or not present where the kernel's is not, leads there.
  pub shared_walk :
      (pdpt va : ℕ)
      → va / 2 ^ 30 < 512
      → ((s.mem s.kernel_pdpt (va / 2 ^ 30) % 2 == 0) ≡ false
          → s'.mem pdpt (va / 2 ^ 30) ≡ s.mem s.kernel_pdpt (va / 2 ^ 30))
      → ((s.mem s.kernel_pdpt (va / 2 ^ 30) % 2 == 0) ≡ true
          → (s'.mem pdpt (va / 2 ^ 30) % 2 == 0) ≡ true)
      → (user : Bool) → walk_pdpt s'.mem pdpt va user ≡ walk_pdpt s.mem s.kernel_pdpt va user
  shared_walk pdpt va low same gone user =
      let i : va / 2 ^ 30 % 512 ≡ va / 2 ^ 30 = omega arith in
      elim (Bool-cases (s.mem s.kernel_pdpt (va / 2 ^ 30) % 2 == 0)) [
        | inl e ↦ rw (i, e, gone e)
        | inr e ↦
            rw (i, same e, e)
              (walk_pd-same s.mem s'.mem (frame_of (s.mem s.kernel_pdpt (va / 2 ^ 30))) va _
                (keep _ (v.tables (va / 2 ^ 30) low e)).0
                (v.leaves (va / 2 ^ 30) (va / 2 ^ 21 % 512) low (omega arith) e))
      ]

-- The leaves of the kernel hide behind entries that allow user code.
leaf_hides :
    (mem : ℕ → Page) (pd va : ℕ) (u w : Bool)
    → IsLeaf (mem pd (va / 2 ^ 21 % 512))
    → walk_pd mem pd va u ≡ walk_pd mem pd va w
leaf_hides mem pd va u w (inl gone) = rw gone
leaf_hides mem pd va true true (inr (there, large, hidden)) = refl
leaf_hides mem pd va false true (inr (there, large, hidden)) = rw (there, large, hidden)
leaf_hides mem pd va true false (inr (there, large, hidden)) = rw (there, large, hidden)
leaf_hides mem pd va false false (inr (there, large, hidden)) = refl

pub kernel_hides :
    (s : Paging64) (va : ℕ)
    → IsKernelMap s
    → va / 2 ^ 30 < 512
    → walk_pdpt s.mem s.kernel_pdpt va true ≡ walk_pdpt s.mem s.kernel_pdpt va false
kernel_hides s va v low =
    let i : va / 2 ^ 30 % 512 ≡ va / 2 ^ 30 = omega arith in
    elim (Bool-cases (s.mem s.kernel_pdpt (va / 2 ^ 30) % 2 == 0)) [
      | inl e ↦ rw (i, e)
      | inr e ↦
          rw (i, e)
            (leaf_hides s.mem (frame_of (s.mem s.kernel_pdpt (va / 2 ^ 30))) va
              (true && is_user (s.mem s.kernel_pdpt (va / 2 ^ 30)))
              (false && is_user (s.mem s.kernel_pdpt (va / 2 ^ 30)))
              (v.leaves (va / 2 ^ 30) (va / 2 ^ 21 % 512) low (omega arith) e))
    ]
