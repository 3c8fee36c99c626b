-- ===== src/Paging64/Directories.antt =====
-- paging64.c: a directory that `get_or_create_next_level` adds to the kernel's map.
use neka_kernel.Base.{
  ℕ, ◌/◌, ◌%◌, ◌^◌, ◌<◌, ◌≡◌, ◌≢◌, inl, inr, refl, ap, ◌∙◌, sym, arith, bit_or, Bool, true, false,
  ◌&&◌, Option, ◌==◌, Bool-cases, ==→eq, ==→ne,
}
use mathlib.Core.Path.{subst}
use neka_kernel.Paging64.{Paging64, Page}
use neka_kernel.Paging64.Supply.{
  IsSound, IsSound-tables, IsTaken, IsAllocated, SameSupply, page_kept, page_cleared,
}
use neka_kernel.Paging64.Walk.{frame_of, is_user, walk_pd, walk_pdpt, Points, kernel-Points}
use neka_kernel.Paging64.Kernel.{IsKernelMap, IsLeaf}
use neka_kernel.Paging64.Tables.{put, put_self, put_slot, put_page}

-- The two top tables of the kernel and its directories are different pages.
pub record IsApart (s : Paging64) : Type 0 where
  pub top : s.kernel_pml4 ≢ s.kernel_pdpt
  pub below :
      (i : ℕ)
      → i < 512
      → (s.mem s.kernel_pdpt i % 2 == 0) ≡ false
      → (frame_of (s.mem s.kernel_pdpt i) ≢ s.kernel_pml4)
        × (frame_of (s.mem s.kernel_pdpt i) ≢ s.kernel_pdpt)
  pub distinct :
      (i j : ℕ)
      → i < 512
      → j < 512
      → i ≢ j
      → (s.mem s.kernel_pdpt i % 2 == 0) ≡ false
      → (s.mem s.kernel_pdpt j % 2 == 0) ≡ false
      → frame_of (s.mem s.kernel_pdpt i) ≢ frame_of (s.mem s.kernel_pdpt j)

-- The walk from the kernel's PDPT on.
abbrev pub kernel_walk : Paging64 → ℕ → Option (ℕ × Bool)
kernel_walk s va = walk_pdpt s.mem s.kernel_pdpt va false

-- A leaf is read through its slot alone.
walk_pd-slot :
    (mem mem' : ℕ → Page) (pd va : ℕ) (user : Bool)
    → mem' pd (va / 2 ^ 21 % 512) ≡ mem pd (va / 2 ^ 21 % 512)
    → IsLeaf (mem pd (va / 2 ^ 21 % 512))
    → walk_pd mem' pd va user ≡ walk_pd mem pd va user
walk_pd-slot mem mem' pd va user e (inl gone) = rw (e, gone)
walk_pd-slot mem mem' pd va user e (inr (there, large, hidden)) = rw (e, there, large)

-- The walk of an address depends on one entry and one slot.
pub walk-same :
    (s s' : Paging64) (va : ℕ)
    → IsKernelMap s
    → (let i = va / 2 ^ 30 % 512 in
        (s'.mem s'.kernel_pdpt i ≡ s.mem s.kernel_pdpt i)
        × ((s.mem s.kernel_pdpt i % 2 == 0) ≡ false
            → let pd = frame_of (s.mem s.kernel_pdpt i) in
              s'.mem pd (va / 2 ^ 21 % 512) ≡ s.mem pd (va / 2 ^ 21 % 512)))
    → kernel_walk s' va ≡ kernel_walk s va
walk-same s s' va v (same, slot) =
    elim (Bool-cases (s.mem s.kernel_pdpt (va / 2 ^ 30 % 512) % 2 == 0)) [
      | inl e ↦ rw (same, e)
      | inr e ↦
          rw (same, e)
            (walk_pd-slot s.mem s'.mem (frame_of (s.mem s.kernel_pdpt (va / 2 ^ 30 % 512))) va
              (false && is_user (s.mem s.kernel_pdpt (va / 2 ^ 30 % 512))) (slot e)
              (v.leaves (va / 2 ^ 30 % 512) (va / 2 ^ 21 % 512) (omega arith) (omega arith) e))
    ]

-- What stays when a directory is made, or a slot of one written.
pub record IsExtended (fuel : ℕ) (s s' : Paging64) : Type 0 where
  pub sound : IsSound fuel s'
  pub kernel : IsKernelMap s'
  pub apart : IsApart s'
  pub same_pml4 : s'.kernel_pml4 ≡ s.kernel_pml4
  pub same_pdpt : s'.kernel_pdpt ≡ s.kernel_pdpt
  pub same_cr3 : s'.cr3 ≡ s.cr3
  pub supply : SameSupply s s'

-- `get_or_create_next_level` on the kernel's PDPT: the directory of entry `i`, old or new.
pub record IsLevel (fuel : ℕ) (s : Paging64) (i pd : ℕ) (s' : Paging64) : Type 0 where
  pub extended : IsExtended fuel s s'
  pub present : (s'.mem s'.kernel_pdpt i % 2 == 0) ≡ false
  pub target : frame_of (s'.mem s'.kernel_pdpt i) ≡ pd
  pub others : (k : ℕ) → i ≢ k → s'.mem s'.kernel_pdpt k ≡ s.mem s.kernel_pdpt k
  pub walks : (va : ℕ) → kernel_walk s' va ≡ kernel_walk s va

-- The entry was not there: a new frame `a`, and the entry that points to it.
module _ (fuel : ℕ) (s s1 : Paging64) (a i : ℕ) (v : IsKernelMap s) (w : IsApart s)
    (h : IsAllocated fuel s a s1) (in_range : i < 512)
    (gone : (s.mem s.kernel_pdpt i % 2 == 0) ≡ true) where
  abbrev pub grown : Paging64
  grown = record s1 {
    mem = put s1.mem s.kernel_pdpt i (bit_or a 3);
    kernel_pml4 = s.kernel_pml4;
    kernel_pdpt = s.kernel_pdpt;
    cr3 = s.cr3;
  }

  new_pdpt : s.kernel_pdpt ≢ a
  new_pdpt = (h.new s.kernel_pdpt v.pdpt_taken).0

  entry-Points : Points (grown.mem s.kernel_pdpt i) a false
  entry-Points = rw (put_self s1.mem s.kernel_pdpt i (bit_or a 3)) (kernel-Points a h.aligned)

  old_entry : (k : ℕ) → i ≢ k → grown.mem s.kernel_pdpt k ≡ s.mem s.kernel_pdpt k
  old_entry k d =
      put_slot s1.mem s.kernel_pdpt i _ k d
      ∙ ap (λ (p : Page). p k) (page_kept fuel s a s1 h s.kernel_pdpt new_pdpt)

  old_page : (u : ℕ) → IsTaken s u → s.kernel_pdpt ≢ u → grown.mem u ≡ s.mem u
  old_page u t d = put_page s1.mem s.kernel_pdpt i _ u d ∙ page_kept fuel s a s1 h u (h.new u t).0

  new_slot : (l : ℕ) → l < 512 → grown.mem a l ≡ 0
  new_slot l n =
      ap (λ (p : Page). p l) (put_page s1.mem s.kernel_pdpt i _ a new_pdpt)
      ∙ page_cleared fuel s a s1 h l n

  -- By the number of the entry: the new one, or one of before.
  by_entry :
      (P : ℕ → ℕ → Type 0)
      → P i (grown.mem s.kernel_pdpt i)
      → ((k : ℕ) → i ≢ k → P k (s.mem s.kernel_pdpt k))
      → (k : ℕ) → P k (grown.mem s.kernel_pdpt k)
  by_entry P new old k = elim (Bool-cases (i == k)) [
    | inl e ↦ subst (λ (n : ℕ). P n (grown.mem s.kernel_pdpt n)) (==→eq _ _ e) new
    | inr e ↦ subst (P k) (sym (old_entry k (==→ne _ _ e))) (old k (==→ne _ _ e))
  ]

  grown-IsKernelMap : IsKernelMap grown
  grown-IsKernelMap = record {
    pml4_taken = (h.new s.kernel_pml4 v.pml4_taken).1;
    pdpt_taken = (h.new s.kernel_pdpt v.pdpt_taken).1;
    root =
        subst (λ (p : Page). Points (p 0) s.kernel_pdpt false)
          (sym (old_page s.kernel_pml4 v.pml4_taken (λ e. w.top (sym e)))) v.root;
    tables =
        by_entry (λ k e. k < 512 → (e % 2 == 0) ≡ false → IsTaken grown (frame_of e))
          (λ l there. rw entry-Points.target h.taken)
          (λ k d l there. (h.new (frame_of (s.mem s.kernel_pdpt k)) (v.tables k l there)).1);
    leaves = λ k l n m there. leaf k n l m there;
  }
    where
      leaf :
          (k : ℕ)
          → k < 512
          → (l : ℕ) → l < 512
          → (grown.mem s.kernel_pdpt k % 2 == 0) ≡ false
          → IsLeaf (grown.mem (frame_of (grown.mem s.kernel_pdpt k)) l)
      leaf =
          by_entry
            (λ k e.
              k < 512
              → (l : ℕ) → l < 512
              → (e % 2 == 0) ≡ false
              → IsLeaf (grown.mem (frame_of e) l))
            (λ n l m there. rw (entry-Points.target, new_slot l m) (inl refl))
            (λ k d n l m there.
              subst (λ (p : Page). IsLeaf (p l))
                (sym (
                  old_page (frame_of (s.mem s.kernel_pdpt k)) (v.tables k n there)
                    (λ e. (w.below k n there).1 (sym e))))
                (v.leaves k l n m there))

  grown-IsApart : IsApart grown
  grown-IsApart = record {
    top = w.top;
    below =
        by_entry
          (λ k e.
            k < 512
            → (e % 2 == 0) ≡ false
            → (frame_of e ≢ s.kernel_pml4) × (frame_of e ≢ s.kernel_pdpt))
          (λ n there.
            rw entry-Points.target
              (λ e. (h.new s.kernel_pml4 v.pml4_taken).0 (sym e), λ e. new_pdpt (sym e)))
          (λ k d n there. w.below k n there);
    distinct = λ k l n m d x y. apart_entries k l n m d x y;
  }
    where
      old_new :
          (k : ℕ)
          → k < 512
          → (s.mem s.kernel_pdpt k % 2 == 0) ≡ false
          → frame_of (s.mem s.kernel_pdpt k) ≢ a
      old_new k n there = (h.new (frame_of (s.mem s.kernel_pdpt k)) (v.tables k n there)).0

      apart_entries :
          (k l : ℕ)
          → k < 512
          → l < 512
          → k ≢ l
          → (grown.mem s.kernel_pdpt k % 2 == 0) ≡ false
          → (grown.mem s.kernel_pdpt l % 2 == 0) ≡ false
          → frame_of (grown.mem s.kernel_pdpt k) ≢ frame_of (grown.mem s.kernel_pdpt l)
      apart_entries k l n m d =
          by_entry
            (λ k e.
              k < 512
              → k ≢ l
              → (e % 2 == 0) ≡ false
              → (grown.mem s.kernel_pdpt l % 2 == 0) ≡ false
              → frame_of e ≢ frame_of (grown.mem s.kernel_pdpt l))
            (λ _ d1 _.
              by_entry
                (λ l e.
                  l < 512
                  → i ≢ l
                  → (e % 2 == 0) ≡ false
                  → frame_of (grown.mem s.kernel_pdpt i) ≢ frame_of e)
                (λ _ d2 _. absurd (d2 refl))
                (λ l2 _ m2 _ there. rw entry-Points.target (λ e. old_new l2 m2 there (sym e))) l m
                d1)
            (λ k2 e2 n2 d1 there.
              by_entry
                (λ l e.
                  l < 512
                  → k2 ≢ l
                  → (e % 2 == 0) ≡ false
                  → frame_of (s.mem s.kernel_pdpt k2) ≢ frame_of e)
                (λ _ d2 _. rw entry-Points.target (old_new k2 n2 there))
                (λ l2 _ m2 d2 there2. w.distinct k2 l2 n2 m2 d2 there there2) l m d1)
            k n d

  grown_walks : (va : ℕ) → kernel_walk grown va ≡ kernel_walk s va
  grown_walks va = elim (Bool-cases (i == va / 2 ^ 30 % 512)) [
    | inl e ↦
        let at : i ≡ va / 2 ^ 30 % 512 = ==→eq _ _ e in
        let before : (s.mem s.kernel_pdpt (va / 2 ^ 30 % 512) % 2 == 0) ≡ true = rw (sym at) gone in
        let points : Points (grown.mem s.kernel_pdpt (va / 2 ^ 30 % 512)) a false =
          rw (sym at) entry-Points in
        rw (points.present, points.target, new_slot (va / 2 ^ 21 % 512) (omega arith), before)
    | inr e ↦
        let d = ==→ne _ _ e in
        walk-same s grown va v (
          old_entry (va / 2 ^ 30 % 512) d,
          λ there.
              let k = va / 2 ^ 30 % 512 in
              ap (λ (p : Page). p (va / 2 ^ 21 % 512))
                (old_page (frame_of (s.mem s.kernel_pdpt k)) (v.tables k (omega arith) there)
                  (λ q. (w.below k (omega arith) there).1 (sym q))),
        )
  ]

  pub grown-IsLevel : IsLevel fuel s i a grown
  grown-IsLevel = record {
    extended = record {
      sound = IsSound-tables fuel s1 grown.mem s.kernel_pml4 s.kernel_pdpt s.cr3 h.sound;
      kernel = grown-IsKernelMap;
      apart = grown-IsApart;
      same_pml4 = refl;
      same_pdpt = refl;
      same_cr3 = refl;
      supply = h.supply;
    };
    present = entry-Points.present;
    target = entry-Points.target;
    others = old_entry;
    walks = grown_walks;
  }
