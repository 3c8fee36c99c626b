-- ===== src/Paging64/Spaces.antt =====
-- paging64.c: the address space that `create_address_space` builds for a thread.
use neka_kernel.Base.{
  ℕ, ◌+◌, ◌/◌, ◌%◌, ◌^◌, ◌<◌, ◌≡◌, ◌≢◌, ap, ◌∙◌, sym, arith, bit_or, false, some, ◌==◌,
  if◌then◌else◌, update, update_self, update_ne,
}
use mathlib.Core.Path.{subst}
use neka_kernel.Paging64.{Paging64, Page, inherit_kernel_pdpt, demo_va}
use neka_kernel.Paging64.Supply.{IsTaken}
use neka_kernel.Paging64.Walk.{translate, Points, walk_page}
use neka_kernel.Paging64.Tables.{put, put_self, put_slot, put_page, inherit_lem}

-- The four tables of a private page, under the entry of `demo_va`, with the private frame.
pub record IsSpace (s : Paging64) (cr3 pdpt pd pt frame : ℕ) : Type 0 where
  pub at_pml4 : Points (s.mem cr3 0) pdpt false
  pub at_pdpt : Points (s.mem pdpt 1) pd false
  pub at_pd : Points (s.mem pd 0) pt false
  pub at_pt : Points (s.mem pt 0) frame false
  pub taken : IsTaken s cr3 × IsTaken s pdpt × IsTaken s pd × IsTaken s pt × IsTaken s frame
  pub apart : (frame ≢ cr3) × (frame ≢ pdpt) × (frame ≢ pd) × (frame ≢ pt)

module _ (s : Paging64) (cr3 pdpt pd pt frame : ℕ) (v : IsSpace s cr3 pdpt pd pt frame) where
  -- The private page.
  pub space-demo :
      (off : ℕ) → off < 4096 → translate s.mem cr3 (demo_va + off) ≡ some (frame + off, false)
  space-demo off h =
      let i4 : (demo_va + off) / 2 ^ 39 % 512 ≡ 0 = omega arith in
      let i3 : (demo_va + off) / 2 ^ 30 % 512 ≡ 1 = omega arith in
      let i2 : (demo_va + off) / 2 ^ 21 % 512 ≡ 0 = omega arith in
      let i1 : (demo_va + off) / 2 ^ 12 % 512 ≡ 0 = omega arith in
      let low : (demo_va + off) % 4096 ≡ off = omega arith in
      walk_page s.mem (demo_va + off) cr3 pdpt pd pt frame false (rw i4 v.at_pml4) (rw i3 v.at_pdpt)
        (rw i2 v.at_pd) (rw i1 v.at_pt)
      ∙ ap (λ (l : ℕ). some (frame + l, false)) low

  -- It stays when none of the pages changes.
  pub IsSpace-keep :
      (s' : Paging64)
      → ((u : ℕ) → IsTaken s u → (s'.mem u ≡ s.mem u) × IsTaken s' u)
      → IsSpace s' cr3 pdpt pd pt frame
  IsSpace-keep s' keep =
      let at = λ (u i e : ℕ) (t : IsTaken s u) (b : Points (s.mem u i) e false).
        subst (λ (p : Page). Points (p i) e false) (sym (keep u t).0) b in
      record {
        at_pml4 = at cr3 0 pdpt v.taken.0 v.at_pml4;
        at_pdpt = at pdpt 1 pd v.taken.1 v.at_pdpt;
        at_pd = at pd 0 pt v.taken.2 v.at_pd;
        at_pt = at pt 0 frame v.taken.3 v.at_pt;
        taken = (
          (keep cr3 v.taken.0).1,
          (keep pdpt v.taken.1).1,
          (keep pd v.taken.2).1,
          (keep pt v.taken.3).1,
          (keep frame v.taken.4).1,
        );
        apart = v.apart;
      }

  -- Nor does a write to a page that is none of its tables.
  pub IsSpace-put :
      (w i x : ℕ)
      → w ≢ cr3
      → w ≢ pdpt
      → w ≢ pd
      → w ≢ pt
      → IsSpace (record s { mem = put s.mem w i x }) cr3 pdpt pd pt frame
  IsSpace-put w i x d4 d3 d2 d1 = record {
    at_pml4 = rw (put_page s.mem w i x cr3 d4) v.at_pml4;
    at_pdpt = rw (put_page s.mem w i x pdpt d3) v.at_pdpt;
    at_pd = rw (put_page s.mem w i x pd d2) v.at_pd;
    at_pt = rw (put_page s.mem w i x pt d1) v.at_pt;
    taken = v.taken;
    apart = v.apart;
  }

-- The writes of `create_address_space` behind its allocations.
module _ (mem : ℕ → Page) (f1 f2 f3 f4 f5 : ℕ) (k : Page) where
  abbrev m1 : ℕ → Page
  m1 = update mem f2 (inherit_kernel_pdpt 512 k (mem f2))

  abbrev m2 : ℕ → Page
  m2 = put m1 f4 0 (bit_or f5 3)

  abbrev m3 : ℕ → Page
  m3 = put m2 f3 0 (bit_or f4 3)

  abbrev m4 : ℕ → Page
  m4 = put m3 f2 1 (bit_or f3 3)

  abbrev pub m5 : ℕ → Page
  m5 = put m4 f1 0 (bit_or f2 3)

  module _ (d12 : f1 ≢ f2) (d13 : f1 ≢ f3) (d14 : f1 ≢ f4) (d23 : f2 ≢ f3) (d24 : f2 ≢ f4)
      (d34 : f3 ≢ f4) where
    pub at_f1 : m5 f1 0 ≡ bit_or f2 3
    at_f1 = put_self m4 f1 0 _

    pub at_f2 : m5 f2 1 ≡ bit_or f3 3
    at_f2 = ap (λ (p : Page). p 1) (put_page m4 f1 0 _ f2 d12) ∙ put_self m3 f2 1 _

    pub at_f3 : m5 f3 0 ≡ bit_or f4 3
    at_f3 =
        ap (λ (p : Page). p 0) (put_page m4 f1 0 _ f3 d13 ∙ put_page m3 f2 1 _ f3 d23)
        ∙ put_self m2 f3 0 _

    pub at_f4 : m5 f4 0 ≡ bit_or f5 3
    at_f4 =
        ap (λ (p : Page). p 0)
          (put_page m4 f1 0 _ f4 d14 ∙ put_page m3 f2 1 _ f4 d24 ∙ put_page m2 f3 0 _ f4 d34)
        ∙ put_self m1 f4 0 _

    pub shared : (i : ℕ) → i < 512 → 1 ≢ i → m5 f2 i ≡ (if k i % 2 == 0 then mem f2 i else k i)
    shared i h d =
        ap (λ (p : Page). p i) (put_page m4 f1 0 _ f2 d12)
        ∙ put_slot m3 f2 1 _ i d
        ∙ ap (λ (p : Page). p i)
            (put_page m2 f3 0 _ f2 (λ e. d23 (sym e))
              ∙ put_page m1 f4 0 _ f2 (λ e. d24 (sym e))
              ∙ update_self mem f2 _)
        ∙ inherit_lem k (mem f2) 512 i h

    pub other : (u : ℕ) → f1 ≢ u → f2 ≢ u → f3 ≢ u → f4 ≢ u → m5 u ≡ mem u
    other u d1 d2 d3 d4 =
        put_page m4 f1 0 _ u d1
        ∙ put_page m3 f2 1 _ u d2
        ∙ put_page m2 f3 0 _ u d3
        ∙ put_page m1 f4 0 _ u d4
        ∙ update_ne mem f2 u _ d2
