-- ===== src/Gdt64/Tasks.antt =====
-- gdt64.c: the TSS that a CPU gets, and the table after `gdt_init`.
use neka_kernel.Base.{
  ℕ, ◌+◌, ◌-◌, ◌*◌, ◌/◌, ◌%◌, ◌^◌, ◌<◌, ◌≡◌, ◌≢◌, refl, ◌∙◌, sym, arith, leb, false, update,
  update_self, update_ne,
}
use neka_kernel.Gdt64.{
  Gdt64, max_tss_cpus, sizeof_tss, sizeof_gdt, kstack0_size, store_bytes, clear_tss,
  tss_descriptor_low, tss_descriptor_high, sel_kcode, sel_kdata, kcode, kdata, ucode, udata,
  gdt_setup_cpu_tss, gdt_init, gdt_get_tss_rsp0,
}
use neka_kernel.Gdt64.Descriptors.{base_of, limit_of, access_of, tss_descriptor_reads}

-- The linker puts the stacks and the TSS of the four CPUs below 2^64.
pub record IsLinked (s : Gdt64) : Type 0 where
  pub stacks : s.kstack0_address + max_tss_cpus * kstack0_size < 2 ^ 64
  pub tasks : s.tss_address + max_tss_cpus * sizeof_tss < 2 ^ 64

-- The task register of a CPU selects a descriptor inside the table, which leads to the TSS of this
-- CPU, whose stack for ring 0 is the end of the CPU's own.
pub record HasTask (s : Gdt64) (cpu : ℕ) (selector : ℕ) : Type 0 where
  pub in_table : selector + 15 < sizeof_gdt
  pub descriptor :
      base_of (s.gdt (selector / 8)) (s.gdt (selector / 8 + 1)) ≡ s.tss_address + cpu * sizeof_tss
  pub limit : limit_of (s.gdt (selector / 8)) ≡ sizeof_tss - 1
  pub available : access_of (s.gdt (selector / 8)) ≡ 0x89
  pub rsp0 : gdt_get_tss_rsp0 cpu s ≡ s.kstack0_address + (cpu + 1) * kstack0_size

-- Eight bytes at offset 4 of a TSS, read back behind the later writes.
rsp0_reads :
    (v : ℕ) (t : ℕ → ℕ)
    → v < 2 ^ 64
    → let m = store_bytes 2 102 sizeof_tss (store_bytes 8 4 v t) in
      m 4
        + m 5 * 2 ^ 8
        + m 6 * 2 ^ 16
        + m 7 * 2 ^ 24
        + m 8 * 2 ^ 32
        + m 9 * 2 ^ 40
        + m 10 * 2 ^ 48
        + m 11 * 2 ^ 56
      ≡ v
unfolding store_bytes
rsp0_reads v t h = omega arith

module _ (cpu : ℕ) (s : Gdt64) (v : IsLinked s) (known : cpu < max_tss_cpus) where
  abbrev slot : ℕ
  slot = 5 + cpu * 2

  abbrev base : ℕ
  base = s.tss_address + cpu * sizeof_tss

  abbrev stack : ℕ
  stack = s.kstack0_address + cpu * kstack0_size + kstack0_size

  abbrev task : ℕ → ℕ
  task = store_bytes 2 102 sizeof_tss (store_bytes 8 4 stack (clear_tss 13 (s.tss cpu)))

  abbrev set_up : Gdt64
  set_up = record s {
    tss = update s.tss cpu task;
    gdt =
        update (update s.gdt slot (tss_descriptor_low base 103)) (slot + 1)
          (tss_descriptor_high base);
    tr = (40 + cpu * 16) % 2 ^ 16;
  }

  is_known : leb max_tss_cpus cpu ≡ false
  is_known = ground arith

  setup_eq : gdt_setup_cpu_tss cpu s ≡ set_up
  unfolding gdt_setup_cpu_tss
  setup_eq = rw is_known

  at_low : set_up.gdt slot ≡ tss_descriptor_low base 103
  at_low =
      update_ne (update s.gdt slot (tss_descriptor_low base 103)) (slot + 1) slot _
        (λ e. absurd (omega arith))
      ∙ update_self s.gdt slot _

  at_high : set_up.gdt (slot + 1) ≡ tss_descriptor_high base
  at_high = update_self (update s.gdt slot (tss_descriptor_low base 103)) (slot + 1) _

  stack_reads : gdt_get_tss_rsp0 cpu set_up ≡ s.kstack0_address + (cpu + 1) * kstack0_size
  unfolding gdt_get_tss_rsp0
  stack_reads =
      rw (is_known, update_self s.tss cpu task)
        (rsp0_reads stack (clear_tss 13 (s.tss cpu)) (omega (arith, v.stacks)) ∙ omega arith)

  set_up-HasTask : HasTask set_up cpu set_up.tr
  set_up-HasTask =
      let low : (40 + cpu * 16) % 2 ^ 16 / 8 ≡ slot = omega arith in
      let d = tss_descriptor_reads base 103 (omega (arith, v.tasks)) (omega arith) in
      record {
        in_table = omega arith;
        descriptor = rw (low, at_low, at_high) d.0;
        limit = rw (low, at_low) d.1;
        available = rw (low, at_low) d.2;
        rsp0 = stack_reads;
      }

  -- Slots of the table apart from the two, and the TSS of the others.
  other_slot : (i : ℕ) → slot ≢ i → slot + 1 ≢ i → set_up.gdt i ≡ s.gdt i
  other_slot i d e =
      update_ne (update s.gdt slot (tss_descriptor_low base 103)) (slot + 1) i _ e
      ∙ update_ne s.gdt slot i _ d

  other_task :
      (d : ℕ) (selector : ℕ)
      → d ≢ cpu
      → d < max_tss_cpus
      → selector ≡ 0x28 + d * 16
      → HasTask s d selector
      → HasTask set_up d selector
  unfolding gdt_get_tss_rsp0
  other_task d selector apart small e h =
      let low : selector / 8 ≡ 5 + d * 2 = omega arith in
      let same =
        other_slot (selector / 8) (λ q. absurd (omega arith)) (λ q. absurd (omega arith)) in
      let same1 =
        other_slot (selector / 8 + 1) (λ q. absurd (omega arith)) (λ q. absurd (omega arith)) in
      let mine = update_ne s.tss cpu d task (λ q. apart (sym q)) in
      record {
        in_table = h.in_table;
        descriptor = rw (same, same1) h.descriptor;
        limit = rw same h.limit;
        available = rw same h.available;
        rsp0 = rw mine h.rsp0;
      }

-- `gdt_setup_cpu_tss` for one of the four CPUs gives it a task of its own, keeps the tasks that other
-- CPUs have got, and leaves the code and data segments.
pub setup_cpu_tss_correct :
    (cpu : ℕ) (s : Gdt64)
    → IsLinked s
    → cpu < max_tss_cpus
    → let s' = gdt_setup_cpu_tss cpu s in
      HasTask s' cpu s'.tr
      × (s'.tr ≡ 0x28 + cpu * 16)
      × ((d : ℕ)
          → d ≢ cpu
          → d < max_tss_cpus
          → HasTask s d (0x28 + d * 16)
          → HasTask s' d (0x28 + d * 16))
      × ((i : ℕ) → i < 5 → s'.gdt i ≡ s.gdt i)
setup_cpu_tss_correct cpu s v known = rw (setup_eq cpu s v known) (
  set_up-HasTask cpu s v known,
  omega arith,
  λ d apart small h. other_task cpu s v known d (0x28 + d * 16) apart small refl h,
  λ i h. other_slot cpu s v known i (λ q. absurd (omega arith)) (λ q. absurd (omega arith)),
)

-- The privilege level, the type bit of code, and the bits of a present segment of 64-bit code or data.
abbrev pub level_of : ℕ → ℕ
level_of d = d / 2 ^ 45 % 4

abbrev pub is_code : ℕ → ℕ
is_code d = d / 2 ^ 43 % 2

abbrev pub IsPresentSegment : ℕ → Type 0
IsPresentSegment d = (d / 2 ^ 44 % 2 ≡ 1) × (d / 2 ^ 47 % 2 ≡ 1)

abbrev pub IsSegment : ℕ → ℕ → ℕ → Type 0
IsSegment d code level =
    IsPresentSegment d × (is_code d ≡ code) × (level_of d ≡ level) × (d / 2 ^ 53 % 2 ≡ code)

boot-HasTask : (s : Gdt64) → IsLinked s → HasTask (gdt_init s) 0 (gdt_init s).tr
unfolding gdt_init
boot-HasTask s v =
    let g1 = update (update s.gdt 0 0) 1 kcode in
    let g2 = update (update (update g1 2 kdata) 3 ucode) 4 udata in
    let ptr : ℕ × ℕ = (sizeof_gdt - 1, s.gdt_address) in
    let filled : Gdt64 = record s {
      gdt = g2;
      gdt_ptr = ptr;
      gdtr = ptr;
      data_segments = sel_kdata;
      cs = sel_kcode;
    } in
    (setup_cpu_tss_correct 0 filled (record { stacks = v.stacks; tasks = v.tasks }) (omega arith)).0

-- After `gdt_init` the processor uses a table of 13 slots with a null descriptor, code and data for
-- the kernel, which are loaded, code and data for user programs, and the boot CPU's task.
pub gdt_init_correct :
    (s : Gdt64)
    → IsLinked s
    → let s' = gdt_init s in
      (s'.gdtr ≡ (13 * 8 - 1, s.gdt_address))
      × (s'.gdt 0 ≡ 0)
      × IsSegment (s'.gdt (s'.cs / 8)) 1 0
      × IsSegment (s'.gdt (s'.data_segments / 8)) 0 0
      × IsSegment (s'.gdt 3) 1 3
      × IsSegment (s'.gdt 4) 0 3
      × HasTask s' 0 s'.tr
unfolding gdt_init
gdt_init_correct s v = (
  refl,
  refl,
  ((refl, refl), refl, refl, refl),
  ((refl, refl), refl, refl, refl),
  ((refl, refl), refl, refl, refl),
  ((refl, refl), refl, refl, refl),
  boot-HasTask s v,
)
