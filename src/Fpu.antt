-- ===== src/Fpu.antt =====
-- fpu.c: the control registers that allow SSE instructions, on every CPU before any other code.
pub mod Registers
use neka_kernel.Base.{ℕ, ◌+◌, ◌*◌, ◌/◌, ◌%◌, Bool, true, set_bit}

-- The registers CR0 and CR4, and the state of the x87 unit: `true` once `fninit` has run.
pub record Fpu : Type 0 where
  pub cr0 : ℕ
  pub cr4 : ℕ
  pub reset : Bool

-- `n & ~(1ULL << 2)`
unfoldable pub clear_bit2 : ℕ → ℕ
clear_bit2 n = n / 8 * 8 + n % 4

unfoldable pub fpu_init : Fpu → Fpu
unfolding clear_bit2
fpu_init f = record f {
  cr0 = set_bit (clear_bit2 f.cr0) 1;
  cr4 = set_bit (set_bit f.cr4 9) 10;
  reset = true;
}
