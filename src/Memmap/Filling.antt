-- ===== src/Memmap/Filling.antt =====
-- memmap.c: how the table of regions is filled from the UEFI memory map.
use neka_kernel.Base.{
  ℕ, zero, suc, ◌+◌, ◌%◌, ◌^◌, ◌<◌, ◌≤◌, ◌≡◌, inl, inr, refl, ap, ◌∙◌, sym, arith, true, false,
  none, some, ltb, Bool-cases, ltb→lt, ltb→le, lt→ltb,
}
use mathlib.Core.Path.{subst}
use neka_kernel.Memmap.{
  Memmap, EfiDescriptor, efi_conventional_memory, uefi_loop, memmap_parse_uefi,
}
use neka_kernel.Memmap.Entry.{
  here, there, IsFilled, region_of, IsEntered, round, round-IsEntered, Visits-cases, Visits-low,
}

module _ (descriptor : ℕ → EfiDescriptor) (step map_size : ℕ) where
  ended-IsFilled :
      (offset : ℕ) (m : Memmap) → map_size ≤ offset → IsFilled descriptor step offset map_size m m
  ended-IsFilled offset m h = record {
    grows = omega arith;
    bounded = λ b. b;
    kept = λ i l. refl;
    genuine = λ i low high. absurd (omega arith);
    entered = λ o v l e. absurd (omega (arith, Visits-low v));
  }

  round-IsFilled :
      (offset : ℕ) (m m1 m' : Memmap)
      → offset < map_size
      → IsEntered (descriptor offset) m m1
      → IsFilled descriptor step (offset + step) map_size m1 m'
      → IsFilled descriptor step offset map_size m m'
  round-IsFilled offset m m1 m' h r f = record {
    grows = omega (arith, r.grows, f.grows);
    bounded = λ b. f.bounded (r.bounded b);
    kept = λ i l. f.kept i (omega (arith, r.grows)) ∙ r.kept i l;
    genuine = λ i low high. elim (Bool-cases (ltb i m1.region_count)) [
      | inl now ↦
          let l = ltb→lt _ _ now in
          let g = r.genuine i low l in (offset, here, h, g.0, f.kept i l ∙ g.1)
      | inr later ↦ let g = f.genuine i (ltb→le _ _ later) high in (g.0, there g.1, g.2, g.3, g.4)
    ];
    entered = λ o v l e. elim (Visits-cases v) [
      | inl now ↦
          elim (r.entered (subst (λ x. (descriptor x).type ≡ efi_conventional_memory) now e)) [
            | inl full ↦ inl (omega (arith, f.grows))
            | inr (i, low, q) ↦ inr (
              i,
              omega (arith, f.grows),
              f.kept i low ∙ q ∙ ap (λ x. region_of (descriptor x)) (sym now),
            )
          ]
      | inr later ↦ f.entered o later l e
    ];
  }

  module _ (positive : 0 < step) (no_wrap : map_size + step < 2 ^ 64) where
    loop_stops :
        (fuel offset : ℕ) (m : Memmap)
        → ltb offset map_size ≡ false
        → uefi_loop descriptor (suc fuel) offset map_size step m ≡ some m
    unfolding uefi_loop
    loop_stops fuel offset m done = rw done

    loop_steps :
        (fuel offset : ℕ) (m : Memmap)
        → ltb offset map_size ≡ true
        → uefi_loop descriptor (suc fuel) offset map_size step m
          ≡ uefi_loop descriptor fuel (offset + step) map_size step (round (descriptor offset) m)
    unfolding uefi_loop
    loop_steps fuel offset m more =
        let l = ltb→lt _ _ more in
        let small : (offset + step) % 2 ^ 64 ≡ offset + step = omega arith in rw (more, small)

    loop_fills :
        (fuel offset : ℕ) (m : Memmap)
        → 0 < fuel
        → map_size < offset + fuel
        → (m' : Memmap) × (uefi_loop descriptor fuel offset map_size step m ≡ some m')
          × IsFilled descriptor step offset map_size m m'
    loop_fills zero offset m some_fuel h = absurd (omega arith)
    loop_fills (suc fuel) offset m some_fuel h = elim (Bool-cases (ltb offset map_size)) [
      | inr done ↦ (m, loop_stops fuel offset m done, ended-IsFilled offset m (ltb→le _ _ done))
      | inl more ↦
          let l = ltb→lt _ _ more in
          let r =
            loop_fills fuel (offset + step) (round (descriptor offset) m) (omega arith)
              (omega arith) in
          (
            r.0,
            loop_steps fuel offset m more ∙ r.1,
            round-IsFilled offset m (round (descriptor offset) m) r.0 l
                (round-IsEntered (descriptor offset) m) r.2,
          )
    ]

-- On a map whose descriptors have a size, and whose end is at least that far from 2^64, the parser
-- ends. It keeps the entries of the table, adds regions only from descriptors of conventional
-- memory at a multiple of the size inside the map, never holds more than 64 regions, and leaves
-- such a descriptor out only when the table is full.
pub parse_uefi_correct :
    (descriptor : ℕ → EfiDescriptor) (fuel map_size descriptor_size : ℕ) (m : Memmap)
    → 0 < descriptor_size
    → map_size + descriptor_size < 2 ^ 64
    → map_size < fuel
    → (m' : Memmap) × (memmap_parse_uefi descriptor fuel map_size descriptor_size m ≡ some m')
      × IsFilled descriptor descriptor_size 0 map_size m m'
unfolding memmap_parse_uefi
parse_uefi_correct descriptor fuel map_size descriptor_size m positive no_wrap h =
    loop_fills descriptor descriptor_size map_size positive no_wrap fuel 0 m (omega arith)
      (omega arith)

-- With descriptors of size 0 and a map that is not empty the parser never ends, whatever the fuel.
pub parse_uefi_stuck :
    (descriptor : ℕ → EfiDescriptor) (fuel map_size : ℕ) (m : Memmap)
    → 0 < map_size
    → memmap_parse_uefi descriptor fuel map_size 0 m ≡ none
unfolding memmap_parse_uefi uefi_loop
parse_uefi_stuck descriptor zero map_size m h = refl
parse_uefi_stuck descriptor (suc fuel) map_size m h =
    rw (lt→ltb _ _ h, parse_uefi_stuck descriptor fuel map_size (round (descriptor 0) m) h)
