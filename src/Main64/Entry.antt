-- ===== src/Main64/Entry.antt =====
-- smp.c: `ap_entry64`, the first C code on a CPU that has been woken. The registers in the state are
-- those of this CPU.
use neka_kernel.Base.{ℕ, true, Option, none, some, [], ◌∷◌, update}
use neka_kernel.Apic.{lapic_enable, apic_timer_init, lapic_get_id, get_cpu_index}
use neka_kernel.Fpu.{fpu_init}
use neka_kernel.Gdt64.{gdt_setup_cpu_tss}
use neka_kernel.Idt.{idt_load_current_cpu}
use neka_kernel.Smp.{Smp}
use neka_kernel.Terminal64.{text, hex64}
use neka_kernel.Main64.Runs.{◌>>◌}
use neka_kernel.Main64.Boot.{Platform, Step, change, print, on_devices}
use neka_kernel.Main64.Start.{enable_interrupts}

-- `if (g_ap_index_starting >= 0) ap_ready[g_ap_index_starting] = 1;`
abbrev pub mark_ready : Option ℕ → Smp → Smp
mark_ready none s = s
mark_ready (some i) s = record s { ap_ready = update s.ap_ready i true }

-- The function up to its loop, which is the one of `kernel_main64`.
unfoldable pub ap_entry64 : ℕ → Platform → Step
ap_entry64 fuel b = do
  change (λ k. record k { fpu = fpu_init k.fpu })
  change (λ k. record k { idt = idt_load_current_cpu k.idt })
  change (λ k. record k { gdt = gdt_setup_cpu_tss (get_cpu_index b.id_reg) k.gdt })
  print (text "[smp] AP TSS configured\n" ∷ text "[smp] ap_entry64 reached\n" ∷ [])
  on_devices fuel (lapic_enable b.apic_base)
  print (
      text "[smp] lapic_enable done\n"
      ∷ text "[smp] got id\n"
      ∷ hex64 (lapic_get_id b.id_reg)
      ∷ text "\n"
      ∷ [])
  on_devices fuel (apic_timer_init 32 100 b.port61 b.remaining)
  print (text "[smp] apic_timer_init done\n" ∷ [])
  change (λ k. record k { smp = mark_ready k.smp.g_ap_index_starting k.smp })
  print (text "[smp] ap_ready set\n" ∷ [])
  change (enable_interrupts (get_cpu_index b.id_reg))
