-- ===== src/Idt/Gates.antt =====
-- idt.c: what the processor reads in the gates after `idt_init`.
use neka_kernel.Base.{
  ℕ, zero, suc, ◌+◌, ◌-◌, ◌*◌, ◌/◌, ◌%◌, ◌^◌, ◌<◌, ◌≤◌, ◌≡◌, ◌≢◌, inl, inr, refl, ◌∙◌, sym, arith,
  bit_or, bit_or_above, Bool-cases, ==→eq, ==→ne, ◌==◌, update_self, update_ne,
}
use mathlib.Core.Path.{subst}
use neka_kernel.Idt.{Gate, Idt, idt_set_gate, set_gates, idt_init}

-- The handler's address, and the fields of the byte of attributes: present, the lowest privilege
-- that may enter by `int`, and the type, where 14 is an interrupt gate.
abbrev pub handler_of : Gate → ℕ
handler_of g = g.offset_low + g.offset_mid * 2 ^ 16 + g.offset_high * 2 ^ 32

abbrev pub is_present : Gate → ℕ
is_present g = g.type_attr / 2 ^ 7

abbrev pub level_of : Gate → ℕ
level_of g = g.type_attr / 2 ^ 5 % 4

abbrev pub kind_of : Gate → ℕ
kind_of g = g.type_attr % 2 ^ 5

-- An interrupt gate to a handler in the kernel's code segment, on the current stack.
pub record IsEntry (g : Gate) (handler level : ℕ) : Type 0 where
  pub leads : handler_of g ≡ handler
  pub segment : g.selector ≡ 0x08
  pub present : is_present g ≡ 1
  pub allows : level_of g ≡ level
  pub kind : kind_of g ≡ 14
  pub same_stack : g.ist ≡ 0

attributes :
    (level : ℕ) → level < 4 → bit_or (bit_or 0x80 (level % 4 * 2 ^ 5)) 0x0e ≡ 0x8e + level * 2 ^ 5
attributes level h =
    let a = bit_or_above 7 0x80 (level % 4 * 2 ^ 5) refl (omega arith) in
    let b = bit_or_above 5 (0x80 + level % 4 * 2 ^ 5) 0x0e (omega arith) (omega arith) in
    rw (a, b) (omega arith)

set_gate-IsEntry :
    (vector handler level : ℕ) (s : Idt)
    → handler < 2 ^ 64
    → level < 4
    → IsEntry ((idt_set_gate vector handler 0 level s).idt vector) handler level
unfolding idt_set_gate
set_gate-IsEntry vector handler level s h l = rw (update_self s.idt vector _) (record {
  leads = omega arith;
  segment = refl;
  present = rw (attributes level l) (omega arith);
  allows = rw (attributes level l) (omega arith);
  kind = rw (attributes level l) (omega arith);
  same_stack = refl;
})

set_gate_other :
    (vector handler ist level v : ℕ) (s : Idt)
    → vector ≢ v
    → (idt_set_gate vector handler ist level s).idt v ≡ s.idt v
unfolding idt_set_gate
set_gate_other vector handler ist level v s d = update_ne s.idt vector v _ d

set_gates_above : (isr : ℕ → ℕ) (n v : ℕ) (s : Idt) → n ≤ v → (set_gates isr n s).idt v ≡ s.idt v
unfolding set_gates
set_gates_above isr zero v s h = refl
set_gates_above isr (suc n) v s h =
    set_gate_other n (isr n) 0 0 v (set_gates isr n s) (λ e. absurd (omega arith))
    ∙ set_gates_above isr n v s (omega arith)

set_gates-IsEntry :
    (isr : ℕ → ℕ) (n v : ℕ) (s : Idt)
    → ((i : ℕ) → isr i < 2 ^ 64)
    → v < n
    → IsEntry ((set_gates isr n s).idt v) (isr v) 0
unfolding set_gates
set_gates-IsEntry isr zero v s small h = absurd (omega arith)
set_gates-IsEntry isr (suc n) v s small h = elim (Bool-cases (n == v)) [
  | inl e ↦
      subst (λ k. IsEntry ((idt_set_gate n (isr n) 0 0 (set_gates isr n s)).idt k) (isr k) 0)
        (==→eq _ _ e) (set_gate-IsEntry n (isr n) 0 (set_gates isr n s) (small n) (omega arith))
  | inr e ↦
      rw (set_gate_other n (isr n) 0 0 v (set_gates isr n s) (==→ne _ _ e))
        (set_gates-IsEntry isr n v s small (omega (arith, ==→ne _ _ e)))
]

-- After `idt_init` the processor uses the table of 256 gates. Each of the 34 vectors of exceptions
-- and devices has a gate to its own handler, closed to `int` from ring 3; vector 128 has one to its
-- handler that is open to ring 3; the other vectors are as before.
pub idt_init_correct :
    (isr : ℕ → ℕ) (s : Idt)
    → ((i : ℕ) → isr i < 2 ^ 64)
    → let s' = idt_init isr s in
      (s'.idtr ≡ (256 * 16 - 1, s.idt_address))
      × ((v : ℕ) → v < 34 → IsEntry (s'.idt v) (isr v) 0)
      × IsEntry (s'.idt 128) (isr 128) 3
      × ((v : ℕ) → 34 ≤ v → v ≢ 128 → s'.idt v ≡ s.idt v)
unfolding idt_init
idt_init_correct isr s small =
    let s1 : Idt = record s { idt_ptr = (256 * 16 - 1, s.idt_address) } in
    let s2 = set_gates isr 34 s1 in
    (
      refl,
      λ v h.
          rw (set_gate_other 128 (isr 128) 0 3 v s2 (λ e. absurd (omega arith)))
            (set_gates-IsEntry isr 34 v s1 small h),
      set_gate-IsEntry 128 (isr 128) 3 s2 (small 128) (omega arith),
      λ v h d.
          set_gate_other 128 (isr 128) 0 3 v s2 (λ e. d (sym e)) ∙ set_gates_above isr 34 v s1 h,
    )
