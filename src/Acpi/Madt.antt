-- ===== src/Acpi/Madt.antt =====
-- acpi.c: the walks over the entries of the MADT.
use neka_kernel.Base.{
  ℕ, zero, suc, ◌+◌, ◌-◌, ◌<◌, ◌≤◌, ◌≡◌, ◌≢◌, refl, arith, true, none, some, List, [], ◌∷◌, length,
  Bool, ◌&&◌, ◌%◌, ltb, ◌==◌, if◌then◌else◌, Bool-cases, lt→ltb, le→ltb, ne→==, inl, inr,
}
use neka_kernel.Acpi.{Memory, read32, is_enabled_cpu, cpus_loop, io_apic_loop, madt_type_io_apic}

-- The entries of a table lie one behind the other from `ptr` to its end.
pub data Entries (mem : Memory) (end : ℕ) : ℕ → List ℕ → Type 0 where
  ended : {ptr : ℕ} → end ≤ ptr → Entries mem end ptr []
  entry :
      {ptr : ℕ} {l : List ℕ}
      → ptr < end
      → Entries mem end (ptr + mem (ptr + 1)) l
      → Entries mem end ptr (ptr ∷ l)

-- The entry of a local APIC has type 0, and the lowest bit of the byte behind its id is set.
abbrev pub is_usable : Memory → ℕ → Bool
is_usable mem p = (mem p == 0) && (mem (p + 4) % 2 == 1)

is_enabled_cpu_lem : (mem : Memory) (p : ℕ) → is_enabled_cpu mem p ≡ is_usable mem p
is_enabled_cpu_lem mem p =
    let low : read32 mem (p + 4) % 2 ≡ mem (p + 4) % 2 = omega arith in rw low refl

-- The first `room` ids of enabled CPUs.
abbrev pub enabled_ids : Memory → ℕ → List ℕ → List ℕ
enabled_ids mem room [] = []
enabled_ids mem zero (p ∷ ps) = []
enabled_ids mem (suc room) (p ∷ ps) =
    if is_usable mem p then mem (p + 3) ∷ enabled_ids mem room ps else enabled_ids mem (suc room) ps

-- The address of the first I/O APIC, or 0.
abbrev pub first_io_apic : Memory → List ℕ → ℕ
first_io_apic mem [] = 0
first_io_apic mem (p ∷ ps) =
    if mem p == madt_type_io_apic then read32 mem (p + 4) else first_io_apic mem ps

-- On a table whose entries lie one behind the other, with fuel for each and one more, the walk of
-- `acpi_find_cpus` ends with the ids of the enabled CPUs in the order of the table, cut off at the
-- caller's maximum.
pub cpus_loop_correct :
    (fuel : ℕ) (mem : Memory) (ptr end room : ℕ) (l : List ℕ)
    → Entries mem end ptr l
    → length l < fuel
    → cpus_loop fuel mem ptr end room ≡ some (enabled_ids mem room l)
unfolding cpus_loop
cpus_loop_correct zero mem ptr end room l v h = absurd (omega arith)
cpus_loop_correct (suc fuel) mem ptr end room [] (ended done) h = rw (le→ltb ptr end done)
cpus_loop_correct (suc fuel) mem ptr end zero (_ ∷ l) (entry more v) h = rw (lt→ltb ptr end more)
cpus_loop_correct (suc fuel) mem ptr end (suc room) (_ ∷ l) (entry more v) h =
    let next = ptr + mem (ptr + 1) in
    let space : ltb 0 (suc room) ≡ true = lt→ltb 0 (suc room) (omega arith) in
    let less : suc room - 1 ≡ room = omega arith in
    elim (Bool-cases (is_usable mem ptr)) [
      | inl e ↦ rw (
        cpus_loop,
        lt→ltb ptr end more,
        space,
        is_enabled_cpu_lem mem ptr,
        e,
        less,
        cpus_loop_correct fuel mem next end room l v (omega arith),
      )
      | inr e ↦ rw (
        cpus_loop,
        lt→ltb ptr end more,
        space,
        is_enabled_cpu_lem mem ptr,
        e,
        cpus_loop_correct fuel mem next end (suc room) l v (omega arith),
      )
    ]

-- On such a table the walk of `acpi_find_apic_bases` ends with the address of the first I/O APIC, or
-- with 0 when there is none.
pub io_apic_loop_correct :
    (fuel : ℕ) (mem : Memory) (ptr end : ℕ) (l : List ℕ)
    → Entries mem end ptr l
    → length l < fuel
    → io_apic_loop fuel mem ptr end ≡ some (first_io_apic mem l)
unfolding io_apic_loop
io_apic_loop_correct zero mem ptr end l v h = absurd (omega arith)
io_apic_loop_correct (suc fuel) mem ptr end [] (ended done) h = rw (le→ltb ptr end done)
io_apic_loop_correct (suc fuel) mem ptr end (_ ∷ l) (entry more v) h =
    let rest = io_apic_loop_correct fuel mem (ptr + mem (ptr + 1)) end l v (omega arith) in
    elim (Bool-cases (mem ptr == madt_type_io_apic)) [
      | inl e ↦ rw (io_apic_loop, lt→ltb ptr end more, e)
      | inr e ↦ rw (io_apic_loop, lt→ltb ptr end more, e, rest)
    ]

-- An entry of length 0 that is no I/O APIC keeps the walk of `acpi_find_apic_bases` where it is: it
-- never ends, whatever the fuel.
pub io_apic_loop_stuck :
    (fuel : ℕ) (mem : Memory) (ptr end : ℕ)
    → ptr < end
    → mem (ptr + 1) ≡ 0
    → mem ptr ≢ madt_type_io_apic
    → io_apic_loop fuel mem ptr end ≡ none
unfolding io_apic_loop
io_apic_loop_stuck zero mem ptr end more still other = refl
io_apic_loop_stuck (suc fuel) mem ptr end more still other =
    let here : ptr + mem (ptr + 1) ≡ ptr = omega (arith, still) in
    rw (
      io_apic_loop,
      here,
      lt→ltb ptr end more,
      ne→== _ _ other,
      io_apic_loop_stuck fuel mem ptr end more still other,
    )
