-- ===== src/Main64/Devices.antt =====
-- main64.c: `set_up_devices`, which maps and programs the interrupt controllers.
use neka_kernel.Base.{
  ℕ, ◌/◌, ◌%◌, ◌^◌, ◌<◌, ◌≡◌, refl, ◌∙◌, arith, true, false, bit, none, some, List, [], ◌∷◌, ◌++◌,
  ◌==◌, Bool-cases, inl, inr,
}
use neka_kernel.Acpi.{acpi_find_rsdp_bios}
use neka_kernel.Apic.{
  Apic, Access, writes, outb, wrmsr, maps, apic_check_supported, apic_apply_acpi_bases,
  disable_legacy_pic, lapic_enable, ioapic_set_redirect, apic_timer_init, ioapic_write,
  lapic_calibrate_ticks,
}
use neka_kernel.Paging64.{Paging64}
use neka_kernel.Paging64.Outcomes as PagingOutcomes
use neka_kernel.Paging64.Supply.{IsSound, SameSupply-trans}
use neka_kernel.Paging64.Kernel.{IsKernelMap}
use neka_kernel.Paging64.Directories.{IsApart, IsExtended}
use neka_kernel.Paging64.Mmio.{AddsPage, map_mmio_correct}
use neka_kernel.Main64.Runs.{Cmd, and_then, ◌>>=◌, Ends}
use neka_kernel.Main64.Boot.{Platform, Kernel, map_devices, on_devices}
use neka_kernel.Main64.Start.{set_up_devices}
use neka_kernel.Main64.Phases.{Allowed, SameCore, paging_bind}

-- The registers of a device below 512 GB, in neither of the first two gigabytes.
abbrev pub IsDevice : ℕ → Type 0
IsDevice pa = (pa % 2 ^ 21 ≡ 0) × (pa < 2 ^ 39) × (1 < pa / 2 ^ 30)

abbrev AllDevices : List Access → Type 0
AllDevices [] = Unit {0}
AllDevices (maps pa ∷ l) = IsDevice pa × AllDevices l
AllDevices (writes a v ∷ l) = AllDevices l
AllDevices (outb a v ∷ l) = AllDevices l
AllDevices (wrmsr a v ∷ l) = AllDevices l

-- The kernel's map with pages for devices.
pub record WithDevices (fuel : ℕ) (p p' : Paging64) : Type 0 where
  pub extended : IsExtended fuel p p'
  pub second : (p.mem p.kernel_pdpt 1 % 2 == 0) ≡ true → (p'.mem p'.kernel_pdpt 1 % 2 == 0) ≡ true

pub WithDevices-trans :
    (fuel : ℕ) (p q r : Paging64)
    → WithDevices fuel p q
    → WithDevices fuel q r
    → WithDevices fuel p r
WithDevices-trans fuel p q r a c = record {
  extended = record {
    sound = c.extended.sound;
    kernel = c.extended.kernel;
    apart = c.extended.apart;
    same_pml4 = c.extended.same_pml4 ∙ a.extended.same_pml4;
    same_pdpt = c.extended.same_pdpt ∙ a.extended.same_pdpt;
    same_cr3 = c.extended.same_cr3 ∙ a.extended.same_cr3;
    supply = SameSupply-trans p q r a.extended.supply c.extended.supply;
  };
  second = λ h. c.second (a.second h);
}

module _ (fuel : ℕ) where
  added : (p p' : Paging64) (pa : ℕ) → IsDevice pa → AddsPage fuel pa p p' → WithDevices fuel p p'
  added p p' pa d a = record {
    extended = a.extended;
    second = λ h. rw (a.others 1 (λ e. absurd (omega arith))) h;
  }

  map_devices_lem :
      (l : List Access) (p : Paging64)
      → AllDevices l
      → IsSound fuel p
      → IsKernelMap p
      → IsApart p
      → PagingOutcomes.Ends (λ u. WithDevices fuel p) (map_devices fuel l p)
  unfolding map_devices
  map_devices_lem [] p all sound v w = record {
    extended = record {
      sound = sound;
      kernel = v;
      apart = w;
      same_pml4 = refl;
      same_pdpt = refl;
      same_cr3 = refl;
      supply = (refl, λ e. refl);
    };
    second = λ h. h;
  }
  map_devices_lem (maps pa ∷ l) p (d, all) sound v w =
      PagingOutcomes.Ends-bind (λ u. AddsPage fuel pa p) (λ u. WithDevices fuel p) _ _
        (map_mmio_correct fuel pa p sound v w d.0 d.1)
        (λ u q a.
          let x = a.extended in
          PagingOutcomes.Ends-map (λ u. WithDevices fuel q) (λ u. WithDevices fuel p) _
            (map_devices_lem l q all x.sound x.kernel x.apart)
            (λ u r c. WithDevices-trans fuel p q r (added p q pa d a) c))
  map_devices_lem (writes a n ∷ l) p all sound v w = map_devices_lem l p all sound v w
  map_devices_lem (outb a n ∷ l) p all sound v w = map_devices_lem l p all sound v w
  map_devices_lem (wrmsr a n ∷ l) p all sound v w = map_devices_lem l p all sound v w

module _ (fuel : ℕ) (b : Platform) where
  -- What the accesses of one function of apic.c leave.
  devices_bind :
      (f : Apic → Apic) (k : Kernel) {B : Type 0} (R : B → Kernel → Type 0)
      (next : Unit {0} → Cmd Kernel B)
      → AllDevices (f (record k.apic { accesses = [] })).accesses
      → IsSound fuel k.paging
      → IsKernelMap k.paging
      → IsApart k.paging
      → (let a = f (record k.apic { accesses = [] }) in
          (p : Paging64)
          → WithDevices fuel k.paging p
          → Ends (Allowed b) R (
              next tt (record k {
                paging = p;
                apic = record a { accesses = k.apic.accesses ++ a.accesses };
              })))
      → Ends (Allowed b) R (and_then (on_devices fuel f k) next)
  unfolding on_devices
  devices_bind f k R next all sound v w go =
      let a = f (record k.apic { accesses = [] }) in
      paging_bind b (record k { apic = record a { accesses = k.apic.accesses ++ a.accesses } })
        (λ u. WithDevices fuel k.paging) R (map_devices fuel a.accesses k.paging) next
        (map_devices_lem fuel a.accesses k.paging all sound v w) (λ u p h. go p h)

  -- The walks over the tables of the firmware end, with the RSDP and the addresses of the two devices.
  pub record Finds (g : ℕ) (a0 : Apic) (rsdp : ℕ) (apic : Apic) : Type 0 where
    pub rsdp_found : acpi_find_rsdp_bios fuel b.acpi g ≡ some rsdp
    pub bases_found : apic_apply_acpi_bases fuel b.acpi rsdp a0 ≡ some apic
    pub lapic : IsDevice apic.lapic_base_pa
    pub ioapic : IsDevice apic.ioapic_base_pa

  pub record WithApic (k : Kernel) (r : ℕ) (k' : Kernel) : Type 0 where
    pub paging : WithDevices fuel k.paging k'.paging
    pub scheduler : k'.scheduler ≡ k.scheduler
    pub smp : k'.smp ≡ k.smp
    pub g_rsdp : k'.g_rsdp ≡ r
    pub core : SameCore k k'

  four_devices :
      (k : Kernel) (r : ℕ) {B : Type 0} (R : B → Kernel → Type 0) (next : Unit {0} → Cmd Kernel B)
      → IsSound fuel k.paging
      → IsKernelMap k.paging
      → IsApart k.paging
      → k.g_rsdp ≡ r
      → IsDevice k.apic.lapic_base_pa
      → IsDevice k.apic.ioapic_base_pa
      → ((k' : Kernel) → WithApic k r k' → Ends (Allowed b) R (next tt k'))
      → Ends (Allowed b) R (
          (on_devices fuel disable_legacy_pic >>= λ _.
          on_devices fuel (lapic_enable b.apic_base) >>= λ _.
          on_devices fuel (ioapic_set_redirect 1 33 b.id_reg) >>= λ _.
          on_devices fuel (apic_timer_init 32 100 b.port61 b.remaining) >>= next)
            k)
  unfolding disable_legacy_pic lapic_enable ioapic_set_redirect apic_timer_init ioapic_write
      lapic_calibrate_ticks
  four_devices k r R next sound v w same la io go =
      devices_bind disable_legacy_pic k R _ tt sound v w (λ p1 h1.
        let x1 = h1.extended in
        devices_bind (lapic_enable b.apic_base) _ R _ (la, tt) x1.sound x1.kernel x1.apart
          (λ p2 h2.
            let x2 = h2.extended in
            devices_bind (ioapic_set_redirect 1 33 b.id_reg) _ R _ (io, (io, tt)) x2.sound x2.kernel
              x2.apart
              (λ p3 h3.
                let x3 = h3.extended in
                devices_bind (apic_timer_init 32 100 b.port61 b.remaining) _ R next tt x3.sound
                  x3.kernel x3.apart
                  (λ p4 h4. go _ (record {
                    paging = WithDevices-trans fuel k.paging p1 p4 h1 (
                        WithDevices-trans fuel p1 p2 p4 h2 (WithDevices-trans fuel p2 p3 p4 h3 h4));
                    scheduler = refl;
                    smp = refl;
                    g_rsdp = same;
                    core = record { fpu = refl; gdt = refl; idt = refl };
                  })))))

  no_apic : bit b.cpuid_edx 9 ≡ false → apic_check_supported b.cpuid_edx ≡ some 1
  unfolding apic_check_supported
  no_apic off = rw off

  has_apic : bit b.cpuid_edx 9 ≡ true → apic_check_supported b.cpuid_edx ≡ none
  unfolding apic_check_supported
  has_apic on = rw on

  pub set_up_devices_lem :
      (k : Kernel) (r : ℕ) (a : Apic)
      → Finds k.g_rsdp k.apic r a
      → IsSound fuel k.paging
      → IsKernelMap k.paging
      → IsApart k.paging
      → Ends (Allowed b) (λ u. WithApic k r) (set_up_devices fuel b k)
  unfolding set_up_devices
  set_up_devices_lem k r a h sound v w = elim (Bool-cases (bit b.cpuid_edx 9)) [
    | inl on ↦
        rw (h.rsdp_found, has_apic on, h.bases_found)
          (four_devices _ r (λ u. WithApic k r) _ sound v w refl h.lapic h.ioapic
            (λ k' d. record {
              paging = d.paging;
              scheduler = d.scheduler;
              smp = d.smp;
              g_rsdp = d.g_rsdp;
              core = record { fpu = d.core.fpu; gdt = d.core.gdt; idt = d.core.idt };
            }))
    | inr off ↦ rw (h.rsdp_found, no_apic off) off
  ]
