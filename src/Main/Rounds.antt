-- ===== src/Main/Rounds.antt =====
-- main.c: the 32-bit kernel from its boot on, round by round of its threads.
use neka_kernel.Base.{ℕ, ◌+◌, ◌/◌, ◌%◌, ◌^◌, ◌≡◌, Option, none, some}
use neka_kernel.Main.{Kernel32, Program}
use neka_kernel.Main.Yielding.{Takes}

abbrev pub Has : (Kernel32 → Type 0) → Option Kernel32 → Type 0
Has P none = ⊥
Has P (some k) = P k

-- The kernel behind `n` rounds: the threads A and B have taken turns, and thread C has never run.
pub record HasShared (p : Program) (n : ℕ) (k : Kernel32) : Type 0 where
  pub takes : Takes (n % 2) ((n + 1) % 2) k.scheduler
  pub a : k.counter_a ≡ (n + 1) / 2 % 2 ^ 32
  pub b : k.counter_b ≡ n / 2 % 2 ^ 32
  pub c : k.counter_c ≡ 0
  pub code_a : k.code 0 ≡ p.a.entry
  pub code_b : k.code 1 ≡ p.b.entry
