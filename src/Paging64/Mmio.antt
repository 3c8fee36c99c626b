-- ===== src/Paging64/Mmio.antt =====
-- paging64.c: `paging_map_mmio_2mb` adds one page to the kernel's map.
use mathlib.Core.Path.{subst}
use neka_kernel.Base.{
  ℕ, ◌+◌, ◌*◌, ◌/◌, ◌%◌, ◌^◌, ◌<◌, ◌≡◌, ◌≢◌, ◌⊎◌, inl, inr, ap, ◌∙◌, sym, arith, bit_or,
  bit_or_above, Bool, true, false, ◌&&◌, some, ◌==◌, Bool-cases, ==→eq, ==→ne,
}
use neka_kernel.Paging64.{Paging64, Page, paging_map_mmio_2mb}
use neka_kernel.Paging64.Outcomes.{Ends, Ends-bind}
use neka_kernel.Paging64.Supply.{IsSound}
use neka_kernel.Paging64.Walk.{frame_of, is_user, walk_pd, translate, walk_down}
use neka_kernel.Paging64.Kernel.{IsKernelMap}
use neka_kernel.Paging64.Tables.{put, put_self}
use neka_kernel.Paging64.Directories.{IsApart, IsExtended, IsLevel, kernel_walk}
use neka_kernel.Paging64.Devices.{
  level_lem, device-IsLeaf, written, written-IsExtended, written_walks, same_entries,
}

-- The map with the page of 2 MB around `pa`, which is mapped to itself and not for user code; below
-- 512 GB every other address leads where it did.
pub record AddsPage (fuel pa : ℕ) (s s' : Paging64) : Type 0 where
  pub extended : IsExtended fuel s s'
  pub device :
      (va : ℕ)
      → va < 2 ^ 39
      → va / 2 ^ 21 ≡ pa / 2 ^ 21
      → translate s'.mem s'.kernel_pml4 va ≡ some (va, false)
  pub rest :
      (va : ℕ)
      → va < 2 ^ 39
      → va / 2 ^ 21 ≢ pa / 2 ^ 21
      → translate s'.mem s'.kernel_pml4 va ≡ translate s.mem s.kernel_pml4 va
  pub others : (k : ℕ) → pa / 2 ^ 30 % 512 ≢ k → s'.mem s'.kernel_pdpt k ≡ s.mem s.kernel_pdpt k

from_top :
    (s : Paging64) (va : ℕ)
    → IsKernelMap s
    → va < 2 ^ 39
    → translate s.mem s.kernel_pml4 va ≡ kernel_walk s va
from_top s va v small =
    let root : va / 2 ^ 39 % 512 ≡ 0 = omega arith in
    walk_down s.mem va s.kernel_pml4 s.kernel_pdpt false (rw root v.root)

-- The walk to the page in the slot that is written.
device_walk :
    (mem : ℕ → Page) (pd pa va : ℕ) (user : Bool)
    → pa % 2 ^ 21 ≡ 0
    → va / 2 ^ 21 ≡ pa / 2 ^ 21
    → mem pd (va / 2 ^ 21 % 512) ≡ bit_or pa 0x93
    → walk_pd mem pd va user ≡ some (va, user && false)
device_walk mem pd pa va user h same at =
    let e : bit_or pa 0x93 ≡ pa + 0x93 = bit_or_above 12 pa 0x93 (omega arith) (omega arith) in
    let present : ((pa + 0x93) % 2 == 0) ≡ false = ground arith in
    let large : ((pa + 0x93) / 128 % 2 == 1) ≡ true = ground arith in
    let hidden : is_user (pa + 0x93) ≡ false = ground arith in
    let valid : ((pa + 0x93) / 2 ^ 13 % 2 ^ 8 == 0) ≡ true = ground arith in
    let to : (pa + 0x93) / 2 ^ 21 * 2 ^ 21 + va % 2 ^ 21 ≡ va = omega arith in
    rw (at, e, present, large, valid, hidden, to)

module _ (fuel pa : ℕ) (s s1 : Paging64) (pd : ℕ) (v : IsKernelMap s)
    (h : IsLevel fuel s (pa / 2 ^ 30 % 512) pd s1) (aligned : pa % 2 ^ 21 ≡ 0) where
  abbrev i : ℕ
  i = pa / 2 ^ 30 % 512

  abbrev j : ℕ
  j = pa / 2 ^ 21 % 512

  i_range : i < 512
  i_range = omega arith

  abbrev done : Paging64
  done =
      let x = h.extended in
      written fuel s1 i j (bit_or pa 0x93) x.sound x.kernel x.apart i_range h.present
        (device-IsLeaf pa aligned)

  done-IsExtended : IsExtended fuel s1 done
  done-IsExtended =
      let x = h.extended in
      written-IsExtended fuel s1 i j (bit_or pa 0x93) x.sound x.kernel x.apart i_range h.present
        (device-IsLeaf pa aligned)

  done_entries : (k : ℕ) → done.mem s1.kernel_pdpt k ≡ s1.mem s1.kernel_pdpt k
  done_entries =
      let x = h.extended in
      same_entries fuel s1 i j (bit_or pa 0x93) x.sound x.kernel x.apart i_range h.present
        (device-IsLeaf pa aligned)

  done_walks :
      (va : ℕ)
      → (i ≢ va / 2 ^ 30 % 512) ⊎ (j ≢ va / 2 ^ 21 % 512)
      → kernel_walk done va ≡ kernel_walk s1 va
  done_walks =
      let x = h.extended in
      written_walks fuel s1 i j (bit_or pa 0x93) x.sound x.kernel x.apart i_range h.present
        (device-IsLeaf pa aligned)

  done_device : (va : ℕ) → va / 2 ^ 21 ≡ pa / 2 ^ 21 → kernel_walk done va ≡ some (va, false)
  done_device va same =
      let at3 : va / 2 ^ 30 % 512 ≡ i = omega arith in
      let at2 : va / 2 ^ 21 % 512 ≡ j = omega arith in
      let entry = ap (λ (k : ℕ). done.mem s1.kernel_pdpt k) at3 ∙ done_entries i in
      rw (entry, h.present)
        (device_walk done.mem (frame_of (s1.mem s1.kernel_pdpt i)) pa va
          (false && is_user (s1.mem s1.kernel_pdpt i)) aligned same
          (ap (λ (l : ℕ). done.mem (frame_of (s1.mem s1.kernel_pdpt i)) l) at2
            ∙ put_self s1.mem (frame_of (s1.mem s1.kernel_pdpt i)) j (bit_or pa 0x93)))

  level-AddsPage : pa < 2 ^ 39 → AddsPage fuel pa s done
  level-AddsPage small =
      let x = h.extended in
      let y = done-IsExtended in
      record {
        extended = record {
          sound = y.sound;
          kernel = y.kernel;
          apart = y.apart;
          same_pml4 = x.same_pml4;
          same_pdpt = x.same_pdpt;
          same_cr3 = x.same_cr3;
          supply = x.supply;
        };
        device = λ va low same. from_top done va y.kernel low ∙ done_device va same;
        rest = λ va low other.
            from_top done va y.kernel low
            ∙ done_walks va (by_parts va low other)
            ∙ h.walks va
            ∙ sym (from_top s va v low);
        others = λ k d. done_entries k ∙ h.others k d;
      }
    where
      by_parts :
          (va : ℕ)
          → va < 2 ^ 39
          → va / 2 ^ 21 ≢ pa / 2 ^ 21
          → (i ≢ va / 2 ^ 30 % 512) ⊎ (j ≢ va / 2 ^ 21 % 512)
      by_parts va low other = elim (Bool-cases (i == va / 2 ^ 30 % 512)) [
        | inl e ↦ inr (λ q. other (omega (arith, ==→eq _ _ e)))
        | inr e ↦ inl (==→ne _ _ e)
      ]

-- On a sound state whose kernel map has its tables apart, `paging_map_mmio_2mb` ends, or panics for
-- want of a frame, and adds exactly the page of 2 MB at an address below 512 GB that is a
-- multiple of 2 MB; the map stays one of the kernel.
pub map_mmio_correct :
    (fuel pa : ℕ) (s : Paging64)
    → IsSound fuel s
    → IsKernelMap s
    → IsApart s
    → pa % 2 ^ 21 ≡ 0
    → pa < 2 ^ 39
    → Ends (λ u. AddsPage fuel pa s) (paging_map_mmio_2mb fuel pa s)
unfolding paging_map_mmio_2mb
map_mmio_correct fuel pa s sound v w aligned small =
    let i = pa / 2 ^ 30 % 512 in
    Ends-bind (IsLevel fuel s i) (λ u. AddsPage fuel pa s) _ _
      (level_lem fuel s i sound v w (omega arith))
      (λ pd s1 h.
        subst
          (λ (d : ℕ).
            AddsPage fuel pa s
              (record s1 { mem = put s1.mem d (pa / 2 ^ 21 % 512) (bit_or pa 0x93) }))
          h.target (level-AddsPage fuel pa s s1 pd v h aligned small))
