-- ===== src/Sched64/Bitmap.antt =====
-- sched64.c: the highest priority that is ready.
use neka_kernel.Base.{
  ℕ, zero, suc, ◌^◌, ◌<◌, ◌≡◌, ◌≢◌, ◌⊎◌, inl, inr, arith, true, false, none, some, ◌==◌, Bool-cases,
  ==→eq, ==→ne, bit, zero_of_bits,
}
use neka_kernel.Sched64.{highest_from, find_highest_bit64}

-- `p` is the highest bit of a 32-bit word.
abbrev pub IsHighest : ℕ → ℕ → Type 0
IsHighest bitmap p =
    (p < 32) × (bit bitmap p ≡ true) × ((q : ℕ) → p < q → q < 32 → bit bitmap q ≡ false)

highest_from_lem :
    (bitmap pos : ℕ)
    → ((q : ℕ) → pos < q → q < 32 → bit bitmap q ≡ false)
    → pos < 32
    → bitmap < 2 ^ 32
    → bitmap ≢ 0
    → (p : ℕ) × (highest_from bitmap pos ≡ some p) × IsHighest bitmap p
unfolding highest_from
highest_from_lem bitmap zero above low small busy = elim (Bool-cases (bit bitmap 0)) [
  | inl set ↦ (0, rw set, (omega arith, set, above))
  | inr clear ↦ absurd (
      busy (
        zero_of_bits 32 bitmap small (λ p l. elim (Bool-cases (p == 0)) [
          | inl e ↦ rw (==→eq _ _ e) clear
          | inr e ↦ above p (omega (arith, ==→ne _ _ e)) l
        ])))
]
highest_from_lem bitmap (suc pos) above low small busy = elim (Bool-cases (bit bitmap (suc pos))) [
  | inl set ↦ (suc pos, rw set, (omega arith, set, above))
  | inr clear ↦
      let r =
        highest_from_lem bitmap pos
          (λ q l h. elim (Bool-cases (q == suc pos)) [
            | inl e ↦ rw (==→eq _ _ e) clear
            | inr e ↦ above q (omega (arith, ==→ne _ _ e)) h
          ])
          (omega arith) small busy in
      (r.0, rw (clear, r.1), r.2)
]

-- On a 32-bit word the search returns the highest bit that is set, and -1 exactly when none is.
pub find_highest_bit64_correct :
    (bitmap : ℕ)
    → bitmap < 2 ^ 32
    → ((bitmap ≡ 0) × (find_highest_bit64 bitmap ≡ none))
      ⊎ ((p : ℕ) × (find_highest_bit64 bitmap ≡ some p) × IsHighest bitmap p)
unfolding find_highest_bit64
find_highest_bit64_correct bitmap small = elim (Bool-cases (bitmap == 0)) [
  | inl e ↦ inl (==→eq _ _ e, rw e)
  | inr e ↦
      let r =
        highest_from_lem bitmap 31 (λ q l h. absurd (omega arith)) (omega arith) small
          (==→ne _ _ e) in
      inr (r.0, rw (e, r.1), r.2)
]
