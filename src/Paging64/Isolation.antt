-- ===== src/Paging64/Isolation.antt =====
-- paging64.c: the isolation of two address spaces.
use neka_kernel.Base.{ℕ, ◌+◌, ◌<◌, ◌≡◌, ◌≢◌, ◌⊎◌, inl, inr, sym, false, some}
use neka_kernel.Paging64.{Paging64, Page, demo_va, create_address_space}
use neka_kernel.Paging64.Private.{IsMade, create_address_space_lem}
use neka_kernel.Paging64.Outcomes.{Ends, Ends-map}
use neka_kernel.Paging64.Supply.{IsSound}
use neka_kernel.Paging64.Walk.{translate}
use neka_kernel.Paging64.Kernel.{IsKernelMap}
use neka_kernel.Paging64.Tables.{put, put_page}
use neka_kernel.Paging64.Spaces.{IsSpace, space-demo, IsSpace-put, IsSpace-keep}

-- Two spaces on one memory: their private frames differ, and a write to one of these frames leaves
-- the translation of `demo_va` in both spaces, and the other frame, as they were.
pub record IsPrivate (mem : ℕ → Page) (c1 c2 p1 p2 : ℕ) : Type 0 where
  pub differ : p1 ≢ p2
  pub stays :
      (w i x off : ℕ)
      → (w ≡ p1) ⊎ (w ≡ p2)
      → off < 4096
      → (translate (put mem w i x) c1 (demo_va + off) ≡ some (p1 + off, false))
        × (translate (put mem w i x) c2 (demo_va + off) ≡ some (p2 + off, false))
  pub separate : (i x : ℕ) → (put mem p1 i x p2 ≡ mem p2) × (put mem p2 i x p1 ≡ mem p1)

-- A write outside of a space's tables.
space-put :
    (s : Paging64) (cr3 pdpt pd pt frame w i x off : ℕ)
    → IsSpace s cr3 pdpt pd pt frame
    → w ≢ cr3
    → w ≢ pdpt
    → w ≢ pd
    → w ≢ pt
    → off < 4096
    → translate (put s.mem w i x) cr3 (demo_va + off) ≡ some (frame + off, false)
space-put s cr3 pdpt pd pt frame w i x off v d4 d3 d2 d1 h =
    space-demo (record s { mem = put s.mem w i x }) cr3 pdpt pd pt frame
      (IsSpace-put s cr3 pdpt pd pt frame v w i x d4 d3 d2 d1) off h

isolated :
    (fuel : ℕ) (s s1 s2 : Paging64) (c1 c2 : ℕ) (h1 : IsMade fuel s c1 s1)
    (h2 : IsMade fuel s1 c2 s2)
    → IsPrivate s2.mem c1 c2 h1.frame h2.frame
isolated fuel s s1 s2 c1 c2 h1 h2 =
    let v1 = IsSpace-keep s1 c1 h1.pdpt h1.pd h1.pt h1.frame h1.space s2 h2.keeps in
    let t = h1.space.taken in
    let own = h2.fresh h1.frame t.4 in
    record {
      differ = own.4;
      stays = λ w i x off which h. elim which [
        | inl e ↦ (
          space-put s2 c1 h1.pdpt h1.pd h1.pt h1.frame w i x off v1 (rw e h1.space.apart.0)
              (rw e h1.space.apart.1) (rw e h1.space.apart.2) (rw e h1.space.apart.3) h,
          space-put s2 c2 h2.pdpt h2.pd h2.pt h2.frame w i x off h2.space (rw e own.0) (rw e own.1)
              (rw e own.2) (rw e own.3) h,
        )
        | inr e ↦ (
          space-put s2 c1 h1.pdpt h1.pd h1.pt h1.frame w i x off v1
              (rw e (λ q. (h2.fresh c1 t.0).4 (sym q)))
              (rw e (λ q. (h2.fresh h1.pdpt t.1).4 (sym q)))
              (rw e (λ q. (h2.fresh h1.pd t.2).4 (sym q)))
              (rw e (λ q. (h2.fresh h1.pt t.3).4 (sym q))) h,
          space-put s2 c2 h2.pdpt h2.pd h2.pt h2.frame w i x off h2.space (rw e h2.space.apart.0)
              (rw e h2.space.apart.1) (rw e h2.space.apart.2) (rw e h2.space.apart.3) h,
        )
      ];
      separate = λ i x. (
        put_page s2.mem h1.frame i x h2.frame own.4,
        put_page s2.mem h2.frame i x h1.frame (λ q. own.4 (sym q)),
      );
    }

-- Two address spaces made one after the other on a sound state with the kernel's map are isolated:
-- each has a frame of its own behind `demo_va`, and a write to one is seen in that one only.
pub spaces_are_isolated :
    (fuel : ℕ) (s : Paging64)
    → IsSound fuel s
    → IsKernelMap s
    → Ends
        (λ c1 s1.
          Ends
            (λ c2 s2. (p1 : ℕ) × (p2 : ℕ) × IsPrivate s2.mem c1 c2 p1 p2)
            (create_address_space fuel s1))
        (create_address_space fuel s)
spaces_are_isolated fuel s sound v =
    Ends-map (IsMade fuel s)
      (λ c1 s1.
        Ends (λ c2 s2. (p1 : ℕ) × (p2 : ℕ) × IsPrivate s2.mem c1 c2 p1 p2)
          (create_address_space fuel s1))
      (create_address_space fuel s) (create_address_space_lem fuel s sound v)
      (λ c1 s1 h1.
        Ends-map (IsMade fuel s1) (λ c2 s2. (p1 : ℕ) × (p2 : ℕ) × IsPrivate s2.mem c1 c2 p1 p2)
          (create_address_space fuel s1) (create_address_space_lem fuel s1 h1.sound h1.kernel)
          (λ c2 s2 h2. (h1.frame, h2.frame, isolated fuel s s1 s2 c1 c2 h1 h2)))
