-- ===== src/Memmap/Regions.antt =====
-- memmap.c: how the table of regions is filled from the UEFI memory map, and how it answers whether
-- a range is usable memory.
use neka_kernel.Base.{
  ℕ, zero, suc, ◌+◌, ◌%◌, ◌^◌, ◌<◌, ◌≤◌, ◌≡◌, inl, inr, sym, arith, true, ◌&&◌, leb, ◌==◌,
  Bool-cases, ==→eq, ==→ne,
}
use mathlib.Core.Path.{subst}
use neka_kernel.Memmap.{Memmap, safe_from, memmap_region_is_safe}

-- A region of the table holds the whole range, read without a wrap.
abbrev pub Covers : Memmap → ℕ → ℕ → ℕ → Type 0
Covers m addr length i =
    ((m.regions i).base ≤ addr) × (addr + length ≤ (m.regions i).base + (m.regions i).length)

module _ (m : Memmap) (addr length : ℕ) (no_wrap : addr + length < 2 ^ 64) where
  safe_sound :
      (i n : ℕ)
      → ((j : ℕ) → j < i + n → (m.regions j).base + (m.regions j).length < 2 ^ 64)
      → safe_from m addr length i n ≡ true
      → (j : ℕ) × (j < i + n) × Covers m addr length j
  unfolding safe_from
  safe_sound i zero fit h = absurd (ground arith)
  safe_sound i (suc n) fit h =
      let r = m.regions i in
      elim (Bool-cases
        (leb r.base addr && leb ((addr + length) % 2 ^ 64) ((r.base + r.length) % 2 ^ 64))) [
          | inl here ↦ (i, omega arith, ground (arith, fit i (omega arith)))
          | inr there ↦
              let r = safe_sound (i + 1) n (λ j l. fit j (omega arith)) (ground arith) in
              (r.0, omega (arith, r.1), r.2)
        ]

  safe_complete :
      (i n : ℕ)
      → ((j : ℕ) → j < i + n → (m.regions j).base + (m.regions j).length < 2 ^ 64)
      → (j : ℕ) → i ≤ j
      → j < i + n
      → Covers m addr length j
      → safe_from m addr length i n ≡ true
  unfolding safe_from
  safe_complete i zero fit j low high c = absurd (omega arith)
  safe_complete i (suc n) fit j low high c = elim (Bool-cases (i == j)) [
    | inl here ↦
        let c1 : Covers m addr length i = subst (Covers m addr length) (sym (==→eq _ _ here)) c in
        ground (arith, fit i (omega arith))
    | inr there ↦
        let rest =
          safe_complete (i + 1) n (λ k l. fit k (omega arith)) j (omega (arith, ==→ne _ _ there))
            (omega arith) c in
        ground arith
  ]

-- When neither the range nor a region of the table wraps at 2^64, `memmap_region_is_safe` answers
-- yes exactly for a range that lies within one region of the table.
pub region_is_safe_correct :
    (m : Memmap) (addr length : ℕ)
    → addr + length < 2 ^ 64
    → ((j : ℕ) → j < m.region_count → (m.regions j).base + (m.regions j).length < 2 ^ 64)
    → (memmap_region_is_safe addr length m ≡ true
        → (j : ℕ) × (j < m.region_count) × Covers m addr length j)
      × ((j : ℕ)
          → j < m.region_count
          → Covers m addr length j
          → memmap_region_is_safe addr length m ≡ true)
unfolding memmap_region_is_safe
region_is_safe_correct m addr length no_wrap fit = (
  λ h.
      (let r = safe_sound m addr length no_wrap 0 m.region_count (λ j l. fit j (omega arith)) h in
        (r.0, omega (arith, r.1), r.2)),
  λ j l c.
      safe_complete m addr length no_wrap 0 m.region_count (λ j l. fit j (omega arith)) j
        (omega arith) (omega arith) c,
)
