-- ===== src/Fpu/Registers.antt =====
-- fpu.c: the bits of the control registers that `fpu_init` changes.
use neka_kernel.Base.{
  ℕ, zero, suc, ◌+◌, ◌*◌, ◌/◌, ◌%◌, ◌≡◌, ◌≢◌, ◌∙◌, refl, arith, true, false, bit, set_bit,
  bit-set_bit, bit-set_bit-other,
}
use neka_kernel.Fpu.{Fpu, clear_bit2, fpu_init}

bit-clear_bit2 : (n : ℕ) → bit (clear_bit2 n) 2 ≡ false
unfolding clear_bit2
bit-clear_bit2 n = ground arith

bit-clear_bit2-other : (n q : ℕ) → 2 ≢ q → bit (clear_bit2 n) q ≡ bit n q
unfolding clear_bit2
bit-clear_bit2-other n zero d = ground arith
bit-clear_bit2-other n (suc zero) d = ground arith
bit-clear_bit2-other n (suc (suc zero)) d = absurd (d refl)
bit-clear_bit2-other n (suc (suc (suc q))) d =
    let e : (n / 8 * 8 + n % 4) / 2 / 2 / 2 ≡ n / 2 / 2 / 2 = omega arith in rw e

-- CR0 without EM and with MP, CR4 with OSFXSR and OSXMMEXCPT, and no other bit changed.
pub record IsReady (f f' : Fpu) : Type 0 where
  pub em : bit f'.cr0 2 ≡ false
  pub mp : bit f'.cr0 1 ≡ true
  pub cr0_rest : (q : ℕ) → 2 ≢ q → 1 ≢ q → bit f'.cr0 q ≡ bit f.cr0 q
  pub osfxsr : bit f'.cr4 9 ≡ true
  pub osxmmexcpt : bit f'.cr4 10 ≡ true
  pub cr4_rest : (q : ℕ) → 9 ≢ q → 10 ≢ q → bit f'.cr4 q ≡ bit f.cr4 q
  pub reset : f'.reset ≡ true

pub fpu_init_lem : (f : Fpu) → IsReady f (fpu_init f)
unfolding fpu_init
fpu_init_lem f =
    let low = clear_bit2 f.cr0 in
    let high = set_bit f.cr4 9 in
    record {
      em = bit-set_bit-other low 1 2 (λ e. absurd (omega arith)) ∙ bit-clear_bit2 f.cr0;
      mp = bit-set_bit low 1;
      cr0_rest = λ q d e. bit-set_bit-other low 1 q e ∙ bit-clear_bit2-other f.cr0 q d;
      osfxsr = bit-set_bit-other high 10 9 (λ e. absurd (omega arith)) ∙ bit-set_bit f.cr4 9;
      osxmmexcpt = bit-set_bit high 10;
      cr4_rest = λ q d e. bit-set_bit-other high 10 q e ∙ bit-set_bit-other f.cr4 9 q d;
      reset = refl;
    }
