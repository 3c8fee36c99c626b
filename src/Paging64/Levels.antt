-- ===== src/Paging64/Levels.antt =====
-- paging64.c: the tables that `map_user_page` finds or makes on its way down.
use neka_kernel.Base.{ℕ, ◌%◌, ◌<◌, ◌≡◌, ◌≢◌, refl, ap, ◌∙◌, sym, bit_or, Bool, true, ◌==◌}
use mathlib.Core.Path.{subst}
use neka_kernel.Paging64.{Paging64, Page, ok, create_entry, get_or_create_next_level}
use neka_kernel.Paging64.Outcomes.{Ends, Ends-bind}
use neka_kernel.Paging64.Supply.{
  IsSound, IsSound-mem, IsTaken, IsAllocated, alloc_frame_lem, page_kept, page_cleared,
}
use neka_kernel.Paging64.Walk.{frame_of, Points, user-Points}
use neka_kernel.Paging64.Tables.{put, put_self, put_slot, put_page}

-- An entry that is there is used.
pub next_level_present :
    (fuel table idx flags frame : ℕ) (user : Bool) (s : Paging64)
    → Points (s.mem table idx) frame user
    → get_or_create_next_level fuel table idx flags s ≡ ok frame s
unfolding get_or_create_next_level create_entry
next_level_present fuel table idx flags frame user s e =
    rw e.present (ap (λ (f : ℕ). ok f s) e.target)

-- One that is missing gets a new frame.
pub record IsGrown (fuel : ℕ) (s : Paging64) (table idx frame : ℕ) (s' : Paging64) : Type 0 where
  pub before : Paging64
  pub allocated : IsAllocated fuel s frame before
  pub after : s' ≡ record before { mem = put before.mem table idx (bit_or frame 7) }

grown_entry :
    (fuel : ℕ) (s : Paging64) (table idx frame : ℕ) (s' : Paging64)
    → IsGrown fuel s table idx frame s'
    → frame_of (s'.mem table idx) ≡ frame
grown_entry fuel s table idx frame s' g =
    ap (λ (z : Paging64). frame_of (z.mem table idx)) g.after
    ∙ ap frame_of (put_self g.before.mem table idx (bit_or frame 7))
    ∙ (user-Points frame g.allocated.aligned).target

pub next_level_missing :
    (fuel table idx : ℕ) (s : Paging64)
    → IsSound fuel s
    → (s.mem table idx % 2 == 0) ≡ true
    → Ends (IsGrown fuel s table idx) (get_or_create_next_level fuel table idx 7 s)
unfolding get_or_create_next_level create_entry
next_level_missing fuel table idx s sound e = rw e (
    Ends-bind (λ u s'. (frame : ℕ) × IsGrown fuel s table idx frame s') (IsGrown fuel s table idx) _
      _
      (Ends-bind (IsAllocated fuel s) (λ u s'. (frame : ℕ) × IsGrown fuel s table idx frame s') _ _
        (alloc_frame_lem fuel s sound)
        (λ frame before a. (frame, record { before = before; allocated = a; after = refl })))
      (λ u s' g.
        subst (λ f. IsGrown fuel s table idx f s') (sym (grown_entry fuel s table idx g.0 s' g.1))
          g.1))

-- The first page of a process: a directory and a table are new, and entry 1 of the PDPT leads to them.
pub record IsMapped (fuel : ℕ) (s : Paging64) (pdpt d p frame : ℕ) (s' : Paging64) : Type 0 where
  pub sound : IsSound fuel s'
  pub pd : ℕ
  pub pt : ℕ
  pub at_pdpt : Points (s'.mem pdpt 1) pd true
  pub at_pd : Points (s'.mem pd d) pt true
  pub at_pt : s'.mem pt p ≡ bit_or frame 7
  pub slots : (j : ℕ) → 1 ≢ j → s'.mem pdpt j ≡ s.mem pdpt j
  pub keeps : (u : ℕ) → IsTaken s u → u ≢ pdpt → s'.mem u ≡ s.mem u
  pub still : (u : ℕ) → IsTaken s u → (u ≢ pd) × (u ≢ pt) × IsTaken s' u
  pub taken : IsTaken s' pd × IsTaken s' pt
  pub apart : pd ≢ pt
  pub same_pml4 : s'.kernel_pml4 ≡ s.kernel_pml4
  pub same_pdpt : s'.kernel_pdpt ≡ s.kernel_pdpt

-- A new directory is empty, also behind the entry that leads to it.
pub new_pd_empty :
    (fuel : ℕ) (s s1 : Paging64) (pdpt d pd : ℕ)
    → IsTaken s pdpt
    → d < 512
    → IsAllocated fuel s pd s1
    → (put s1.mem pdpt 1 (bit_or pd 7) pd d % 2 == 0) ≡ true
new_pd_empty fuel s s1 pdpt d pd t small a1 =
    let e : put s1.mem pdpt 1 (bit_or pd 7) pd d ≡ 0 =
      ap (λ (q : Page). q d) (put_page s1.mem pdpt 1 _ pd (a1.new pdpt t).0)
      ∙ page_cleared fuel s pd s1 a1 d small in
    rw e

module _ (fuel : ℕ) (s s1 s2 : Paging64) (pdpt d p frame pd pt : ℕ) (t : IsTaken s pdpt)
    (a1 : IsAllocated fuel s pd s1)
    (a2 : IsAllocated fuel (record s1 { mem = put s1.mem pdpt 1 (bit_or pd 7) }) pt s2) where
  abbrev linked : ℕ → Page
  linked = put s1.mem pdpt 1 (bit_or pd 7)

  abbrev below : ℕ → Page
  below = put s2.mem pd d (bit_or pt 7)

  abbrev final : ℕ → Page
  final = put below pt p (bit_or frame 7)

  pdpt_pd : pdpt ≢ pd
  pdpt_pd = (a1.new pdpt t).0

  pdpt_pt : pdpt ≢ pt
  pdpt_pt = (a2.new pdpt (a1.new pdpt t).1).0

  pd_pt : pd ≢ pt
  pd_pt = (a2.new pd a1.taken).0

  final_pdpt : final pdpt ≡ linked pdpt
  final_pdpt =
      put_page below pt p _ pdpt (λ e. pdpt_pt (sym e))
      ∙ put_page s2.mem pd d _ pdpt (λ e. pdpt_pd (sym e))
      ∙ page_kept fuel (record s1 { mem = linked }) pt s2 a2 pdpt pdpt_pt

  final_pd : final pd d ≡ bit_or pt 7
  final_pd =
      ap (λ (q : Page). q d) (put_page below pt p _ pd (λ e. pd_pt (sym e)))
      ∙ put_self s2.mem pd d _

  pub map_new-IsMapped : IsMapped fuel s pdpt d p frame (record s2 { mem = final })
  map_new-IsMapped = record {
    sound = IsSound-mem fuel s2 final a2.sound;
    pd = pd;
    pt = pt;
    at_pdpt =
        subst (λ (q : Page). Points (q 1) pd true) (sym final_pdpt)
          (rw (put_self s1.mem pdpt 1 (bit_or pd 7)) (user-Points pd a1.aligned));
    at_pd = rw final_pd (user-Points pt a2.aligned);
    at_pt = put_self below pt p _;
    slots = λ j e.
        ap (λ (q : Page). q j) final_pdpt
        ∙ put_slot s1.mem pdpt 1 _ j e
        ∙ ap (λ (q : Page). q j) (page_kept fuel s pd s1 a1 pdpt pdpt_pd);
    keeps = λ u h e.
        let o1 = a1.new u h in
        let o2 = a2.new u o1.1 in
        put_page below pt p _ u (λ q. o2.0 (sym q))
        ∙ put_page s2.mem pd d _ u (λ q. o1.0 (sym q))
        ∙ page_kept fuel (record s1 { mem = linked }) pt s2 a2 u o2.0
        ∙ put_page s1.mem pdpt 1 _ u (λ q. e (sym q))
        ∙ page_kept fuel s pd s1 a1 u o1.0;
    still = λ u h. let o1 = a1.new u h in let o2 = a2.new u o1.1 in (o1.0, o2.0, o2.1);
    taken = ((a2.new pd a1.taken).1, a2.taken);
    apart = pd_pt;
    same_pml4 = a2.kernel_pml4 ∙ a1.kernel_pml4;
    same_pdpt = a2.kernel_pdpt ∙ a1.kernel_pdpt;
  }
