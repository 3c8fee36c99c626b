-- ===== src/Paging64/Walk.antt =====
-- paging64.c: what the processor reads from the tables: the walk over four levels, with pages of
-- 4 KB and of 2 MB.
use neka_kernel.Base.{
  ℕ, ◌+◌, ◌*◌, ◌/◌, ◌%◌, ◌^◌, ◌≡◌, refl, ap, ◌∙◌, arith, Bool, true, false, ◌&&◌, Option, none,
  some, ◌==◌, if◌then◌else◌, bit_or, bit_or_above,
}
use neka_kernel.Paging64.{Page}

-- Bit 0 of an entry is "present", bit 2 is "user", and bit 7, in a page directory, is "2 MB".
abbrev pub frame_of : ℕ → ℕ
frame_of e = e / 4096 * 4096

abbrev pub is_user : ℕ → Bool
is_user e = e / 4 % 2 == 1

-- The physical address of a virtual one, with whether user code may use it, from each level down.
-- User code may only if all entries on the way say so. Bits 13 to 20 of the entry of a page of 2 MB are
-- reserved, and the processor faults where one of them is set.
abbrev pub walk_pt : (ℕ → Page) → ℕ → ℕ → Bool → Option (ℕ × Bool)
walk_pt mem pt va user =
    let e = mem pt (va / 2 ^ 12 % 512) in
    if e % 2 == 0 then none else some (frame_of e + va % 4096, user && is_user e)

abbrev pub walk_pd : (ℕ → Page) → ℕ → ℕ → Bool → Option (ℕ × Bool)
walk_pd mem pd va user =
    let e = mem pd (va / 2 ^ 21 % 512) in
    if e % 2 == 0
    then none
    else if e / 128 % 2 == 1
    then if e / 2 ^ 13 % 2 ^ 8 == 0
      then some (e / 2 ^ 21 * 2 ^ 21 + va % 2 ^ 21, user && is_user e)
      else none
    else walk_pt mem (frame_of e) va (user && is_user e)

abbrev pub walk_pdpt : (ℕ → Page) → ℕ → ℕ → Bool → Option (ℕ × Bool)
walk_pdpt mem pdpt va user =
    let e = mem pdpt (va / 2 ^ 30 % 512) in
    if e % 2 == 0 then none else walk_pd mem (frame_of e) va (user && is_user e)

unfoldable pub translate : (ℕ → Page) → ℕ → ℕ → Option (ℕ × Bool)
translate mem cr3 va =
    let e = mem cr3 (va / 2 ^ 39 % 512) in
    if e % 2 == 0 then none else walk_pdpt mem (frame_of e) va (is_user e)

-- What the walk reads in an entry that points on: the frame, and who may use it.
pub record Points (e frame : ℕ) (user : Bool) : Type 0 where
  pub present : (e % 2 == 0) ≡ false
  pub small : (e / 128 % 2 == 1) ≡ false
  pub allows : is_user e ≡ user
  pub target : frame_of e ≡ frame

-- `frame | 0x03` and `frame | 0x07`.
pub kernel-Points : (frame : ℕ) → frame % 4096 ≡ 0 → Points (bit_or frame 3) frame false
kernel-Points frame h =
    let e : bit_or frame 3 ≡ frame + 3 = bit_or_above 12 frame 3 (omega arith) (omega arith) in
    rw e (record {
      present = ground arith;
      small = ground arith;
      allows = ground arith;
      target = omega arith;
    })

pub user-Points : (frame : ℕ) → frame % 4096 ≡ 0 → Points (bit_or frame 7) frame true
user-Points frame h =
    let e : bit_or frame 7 ≡ frame + 7 = bit_or_above 12 frame 7 (omega arith) (omega arith) in
    rw e (record {
      present = ground arith;
      small = ground arith;
      allows = ground arith;
      target = omega arith;
    })

and_thrice : (u : Bool) → (((u && u) && u) && u) ≡ u
and_thrice true = refl
and_thrice false = refl

module _ (mem : ℕ → Page) (va : ℕ) where
  -- The walk through entries that point on.
  pub walk_down :
      (cr3 pdpt : ℕ) (user : Bool)
      → Points (mem cr3 (va / 2 ^ 39 % 512)) pdpt user
      → translate mem cr3 va ≡ walk_pdpt mem pdpt va user
  unfolding translate
  walk_down cr3 pdpt user e4 = rw (e4.present, e4.target, e4.allows)

  at_pdpt :
      (pdpt pd pt frame : ℕ) (user : Bool)
      → Points (mem pdpt (va / 2 ^ 30 % 512)) pd user
      → Points (mem pd (va / 2 ^ 21 % 512)) pt user
      → Points (mem pt (va / 2 ^ 12 % 512)) frame user
      → walk_pdpt mem pdpt va user ≡ some (frame + va % 4096, user)
  at_pdpt pdpt pd pt frame user e3 e2 e1 =
      rw
        (
          e3.present, e3.target, e3.allows, e2.present, e2.small, e2.target, e2.allows, e1.present,
          e1.target, e1.allows,
        )
        (ap (λ u. some (frame + va % 4096, u)) (and_thrice user))

  pub walk_page :
      (cr3 pdpt pd pt frame : ℕ) (user : Bool)
      → Points (mem cr3 (va / 2 ^ 39 % 512)) pdpt user
      → Points (mem pdpt (va / 2 ^ 30 % 512)) pd user
      → Points (mem pd (va / 2 ^ 21 % 512)) pt user
      → Points (mem pt (va / 2 ^ 12 % 512)) frame user
      → translate mem cr3 va ≡ some (frame + va % 4096, user)
  walk_page cr3 pdpt pd pt frame user e4 e3 e2 e1 =
      walk_down cr3 pdpt user e4 ∙ at_pdpt pdpt pd pt frame user e3 e2 e1
