-- ===== src/Main64/Views.antt =====
-- paging64.c as the demonstration threads use it: two address spaces whose private frames are apart.
use neka_kernel.Base.{
  ℕ, ◌+◌, ◌*◌, ◌/◌, ◌%◌, ◌^◌, ◌<◌, ◌≡◌, ◌≢◌, arith, some, sym, update, update_self, update_ne, ◌-◌,
}
use neka_kernel.Paging64.{Paging64, Page, demo_va, set_byte}
use neka_kernel.Paging64.Spaces.{IsSpace, space-demo, IsSpace-put, IsSpace-keep}
use neka_kernel.Paging64.Private.{IsMade}
use neka_kernel.Main64.Demo.{store_char, load_char, get_byte}

-- The frame `p` of another space is none of this space's tables.
abbrev Clear : ℕ → ℕ → ℕ → ℕ → ℕ → Type 0
Clear p cr3 pdpt pd pt = (p ≢ cr3) × (p ≢ pdpt) × (p ≢ pd) × (p ≢ pt)

pub record IsPair (s : Paging64) (c1 c2 p1 p2 : ℕ) : Type 0 where
  pub pdpt1 : ℕ
  pub pd1 : ℕ
  pub pt1 : ℕ
  pub pdpt2 : ℕ
  pub pd2 : ℕ
  pub pt2 : ℕ
  pub space1 : IsSpace s c1 pdpt1 pd1 pt1 p1
  pub space2 : IsSpace s c2 pdpt2 pd2 pt2 p2
  pub clear1 : Clear p2 c1 pdpt1 pd1 pt1
  pub clear2 : Clear p1 c2 pdpt2 pd2 pt2
  pub differ : p1 ≢ p2

pub IsPair-swap : (s : Paging64) (c1 c2 p1 p2 : ℕ) → IsPair s c1 c2 p1 p2 → IsPair s c2 c1 p2 p1
IsPair-swap s c1 c2 p1 p2 v = record {
  pdpt1 = v.pdpt2;
  pd1 = v.pd2;
  pt1 = v.pt2;
  pdpt2 = v.pdpt1;
  pd2 = v.pd1;
  pt2 = v.pt1;
  space1 = v.space2;
  space2 = v.space1;
  clear1 = v.clear2;
  clear2 = v.clear1;
  differ = λ e. v.differ (sym e);
}

-- Two spaces that `create_address_space` made one after the other.
pub made-IsPair :
    (fuel : ℕ) (s s1 s2 : Paging64) (c1 c2 : ℕ) (h1 : IsMade fuel s c1 s1)
    (h2 : IsMade fuel s1 c2 s2)
    → IsPair s2 c1 c2 h1.frame h2.frame
made-IsPair fuel s s1 s2 c1 c2 h1 h2 =
    let t = h1.space.taken in
    let own = h2.fresh h1.frame t.4 in
    record {
      pdpt1 = h1.pdpt;
      pd1 = h1.pd;
      pt1 = h1.pt;
      pdpt2 = h2.pdpt;
      pd2 = h2.pd;
      pt2 = h2.pt;
      space1 = IsSpace-keep s1 c1 h1.pdpt h1.pd h1.pt h1.frame h1.space s2 h2.keeps;
      space2 = h2.space;
      clear1 = (
        λ e. (h2.fresh c1 t.0).4 (sym e),
        λ e. (h2.fresh h1.pdpt t.1).4 (sym e),
        λ e. (h2.fresh h1.pd t.2).4 (sym e),
        λ e. (h2.fresh h1.pt t.3).4 (sym e),
      );
      clear2 = (own.0, own.1, own.2, own.3);
      differ = own.4;
    }

module _ (s : Paging64) (c1 c2 p1 p2 : ℕ) (v : IsPair s c1 c2 p1 p2) where
  -- The memory after a write to the first frame, at one of the first four bytes.
  abbrev pub signed : ℕ → ℕ → ℕ → Page
  signed i b = update s.mem p1 (set_byte (s.mem p1) i b)

  pub signed-IsPair : (i b : ℕ) → IsPair (record s { mem = signed i b }) c1 c2 p1 p2
  unfolding set_byte
  signed-IsPair i b =
      let unit = 256 ^ (i % 8) in
      let old = s.mem p1 (i / 8) in
      let x = old - old / unit % 256 * unit + b * unit in
      let a = v.space1.apart in
      record {
        pdpt1 = v.pdpt1;
        pd1 = v.pd1;
        pt1 = v.pt1;
        pdpt2 = v.pdpt2;
        pd2 = v.pd2;
        pt2 = v.pt2;
        space1 = IsSpace-put s c1 v.pdpt1 v.pd1 v.pt1 p1 v.space1 p1 (i / 8) x a.0 a.1 a.2 a.3;
        space2 =
            IsSpace-put s c2 v.pdpt2 v.pd2 v.pt2 p2 v.space2 p1 (i / 8) x v.clear2.0 v.clear2.1
              v.clear2.2 v.clear2.3;
        clear1 = v.clear1;
        clear2 = v.clear2;
        differ = v.differ;
      }

  pub other_frame : (i b : ℕ) → signed i b p2 ≡ s.mem p2
  other_frame i b = update_ne s.mem p1 p2 _ v.differ

  pub own_frame : (i b : ℕ) → signed i b p1 ≡ set_byte (s.mem p1) i b
  own_frame i b = update_self s.mem p1 _

  frame_of_demo : (i : ℕ) → i < 4 → ((p1 + i) / 4096 * 4096 ≡ p1) × ((p1 + i) % 4096 ≡ i)
  frame_of_demo i h = omega (arith, v.space1.taken.4.0)

  pub store_char_lem : (i b : ℕ) → i < 4 → store_char c1 (demo_va + i) b s.mem ≡ some (signed i b)
  unfolding store_char
  store_char_lem i b h =
      let at = space-demo s c1 v.pdpt1 v.pd1 v.pt1 p1 v.space1 i (omega arith) in
      let e = frame_of_demo i h in rw (at, e.0, e.1, store_char)

  pub load_char_lem :
      (i : ℕ) → i < 4 → load_char c1 (demo_va + i) s.mem ≡ some (get_byte (s.mem p1) i)
  unfolding load_char
  load_char_lem i h =
      let at = space-demo s c1 v.pdpt1 v.pd1 v.pt1 p1 v.space1 i (omega arith) in
      let e = frame_of_demo i h in rw (at, e.0, e.1, load_char)
