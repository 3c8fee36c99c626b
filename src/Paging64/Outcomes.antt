-- ===== src/Paging64/Outcomes.antt =====
-- paging64.c: what holds when a command ends.
use neka_kernel.Base.{◌≡◌, ◌⊎◌}
use neka_kernel.Memmap.{panic_memmap_oom}
use neka_kernel.Paging64.{
  Paging64, Run, ok, panics, faults, out_of_fuel, Cmd, and_then, panic_out_of_frames,
}

-- The command ends with a value for which `P` holds, or panics for want of frames. It does
-- not fault.
abbrev pub Ends : {A : Type 0} → (A → Paging64 → Type 0) → Run A → Type 0
Ends P (ok a s) = P a s
Ends P (panics c) = (c ≡ panic_out_of_frames) ⊎ (c ≡ panic_memmap_oom)
Ends P faults = ⊥
Ends P out_of_fuel = ⊥

pub Ends-bind :
    {A B : Type 0} (P : A → Paging64 → Type 0) (Q : B → Paging64 → Type 0) (r : Run A)
    (k : A → Cmd B)
    → Ends P r
    → ((a : A) (s : Paging64) → P a s → Ends Q (k a s))
    → Ends Q (and_then r k)
Ends-bind P Q (ok a s) k h next = next a s h
Ends-bind P Q (panics c) k h next = h
Ends-bind P Q faults k h next = h
Ends-bind P Q out_of_fuel k h next = h

pub Ends-map :
    {A : Type 0} (P Q : A → Paging64 → Type 0) (r : Run A)
    → Ends P r
    → ((a : A) (s : Paging64) → P a s → Q a s)
    → Ends Q r
Ends-map P Q (ok a s) h next = next a s h
Ends-map P Q (panics c) h next = h
Ends-map P Q faults h next = h
Ends-map P Q out_of_fuel h next = h
