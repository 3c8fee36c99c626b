-- ===== src/Memmap/Entry.antt =====
-- memmap.c: what filling the table of regions means, and one descriptor's part in it.
use neka_kernel.Base.{
  ℕ, ◌+◌, ◌*◌, ◌%◌, ◌^◌, ◌<◌, ◌≤◌, ◌≡◌, ◌⊎◌, inl, inr, refl, arith, leb, ◌==◌, if◌then◌else◌,
  Bool-cases, ==→eq, ==→ne, leb→le, leb→lt, update, update_self, update_ne,
}
use mathlib.Core.Path.{subst}
use neka_kernel.Memmap.{
  Region, Memmap, EfiDescriptor, add_region, max_regions, efi_conventional_memory,
}

-- The offsets that the loop over the map visits from an offset on.
pub data Visits (step : ℕ) : ℕ → ℕ → Type 0 where
  here : {o : ℕ} → Visits step o o
  there : {o x : ℕ} → Visits step (o + step) x → Visits step o x

abbrev pub region_of : EfiDescriptor → Region
region_of d = record { base = d.phys_start; length = (d.num_pages * 4096) % 2 ^ 64 }

-- What filling the table from the descriptors that the loop visits does: earlier entries stay, a
-- new one is a visited descriptor of conventional memory, and each such descriptor is entered
-- unless the table is full.
pub record IsFilled (descriptor : ℕ → EfiDescriptor) (step offset map_size : ℕ) (m m' : Memmap)
    : Type 0 where
  pub grows : m.region_count ≤ m'.region_count
  pub bounded : m.region_count ≤ max_regions → m'.region_count ≤ max_regions
  pub kept : (i : ℕ) → i < m.region_count → m'.regions i ≡ m.regions i
  pub genuine :
      (i : ℕ)
      → m.region_count ≤ i
      → i < m'.region_count
      → (o : ℕ) × Visits step offset o
        × (o < map_size)
        × ((descriptor o).type ≡ efi_conventional_memory)
        × (m'.regions i ≡ region_of (descriptor o))
  pub entered :
      (o : ℕ)
      → Visits step offset o
      → o < map_size
      → (descriptor o).type ≡ efi_conventional_memory
      → (max_regions ≤ m'.region_count)
        ⊎ ((i : ℕ) × (i < m'.region_count) × (m'.regions i ≡ region_of (descriptor o)))

pub Visits-cases : {step : ℕ} {o x : ℕ} → Visits step o x → (x ≡ o) ⊎ Visits step (o + step) x
Visits-cases here = inl refl
Visits-cases (there v) = inr v

pub Visits-low : {step : ℕ} {o x : ℕ} → Visits step o x → o ≤ x
Visits-low here = omega arith
Visits-low (there v) = omega (arith, Visits-low v)

-- Entering one descriptor, in a table that has room.
abbrev grown : ℕ → ℕ → Memmap → Memmap
grown base length m = record m {
  regions = update m.regions m.region_count (record { base = base; length = length });
  region_count = m.region_count + 1;
}

module _ (base length : ℕ) (m : Memmap) where
  add_full : max_regions ≤ m.region_count → add_region base length m ≡ m
  unfolding add_region
  add_full h = ground arith

  add_room : m.region_count < max_regions → add_region base length m ≡ grown base length m
  unfolding add_region
  add_room h = ground arith

-- What one round of the loop does with the descriptor it reads.
pub record IsEntered (d : EfiDescriptor) (m m1 : Memmap) : Type 0 where
  pub grows : m.region_count ≤ m1.region_count
  pub bounded : m.region_count ≤ max_regions → m1.region_count ≤ max_regions
  pub kept : (i : ℕ) → i < m.region_count → m1.regions i ≡ m.regions i
  pub genuine :
      (i : ℕ)
      → m.region_count ≤ i
      → i < m1.region_count
      → (d.type ≡ efi_conventional_memory) × (m1.regions i ≡ region_of d)
  pub entered :
      d.type ≡ efi_conventional_memory
      → (max_regions ≤ m1.region_count)
        ⊎ ((i : ℕ) × (i < m1.region_count) × (m1.regions i ≡ region_of d))

abbrev pub round : EfiDescriptor → Memmap → Memmap
round d m =
    if d.type == efi_conventional_memory
    then add_region d.phys_start ((d.num_pages * 4096) % 2 ^ 64) m
    else m

stays-IsEntered :
    (d : EfiDescriptor) (m : Memmap)
    → (d.type ≡ efi_conventional_memory → max_regions ≤ m.region_count)
    → IsEntered d m m
stays-IsEntered d m h = record {
  grows = omega arith;
  bounded = λ b. b;
  kept = λ i l. refl;
  genuine = λ i low high. absurd (omega arith);
  entered = λ e. inl (h e);
}

grown-IsEntered :
    (d : EfiDescriptor) (m : Memmap)
    → d.type ≡ efi_conventional_memory
    → m.region_count < max_regions
    → IsEntered d m (grown d.phys_start ((d.num_pages * 4096) % 2 ^ 64) m)
grown-IsEntered d m e l = record {
  grows = omega arith;
  bounded = λ b. omega arith;
  kept = λ i low. update_ne m.regions m.region_count i (region_of d) (λ q. absurd (omega arith));
  genuine = λ i low high.
      (let same : m.region_count ≡ i = omega arith in
        (
          e,
          subst (λ k. update m.regions m.region_count (region_of d) k ≡ region_of d) same
              (update_self m.regions m.region_count (region_of d)),
        ));
  entered =
      λ q. inr (m.region_count, omega arith, update_self m.regions m.region_count (region_of d));
}

pub round-IsEntered : (d : EfiDescriptor) (m : Memmap) → IsEntered d m (round d m)
round-IsEntered d m = elim (Bool-cases (d.type == efi_conventional_memory)) [
  | inr other ↦ rw other (stays-IsEntered d m (λ e. absurd (==→ne _ _ other e)))
  | inl usable ↦
      let e = ==→eq _ _ usable in
      elim (Bool-cases (leb max_regions m.region_count)) [
        | inl full ↦
            rw (usable, add_full d.phys_start ((d.num_pages * 4096) % 2 ^ 64) m (leb→le _ _ full))
              (stays-IsEntered d m (λ q. leb→le _ _ full))
        | inr room ↦
            rw (usable, add_room d.phys_start ((d.num_pages * 4096) % 2 ^ 64) m (leb→lt _ _ room))
              (grown-IsEntered d m e (leb→lt _ _ room))
      ]
]
