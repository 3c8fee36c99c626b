-- ===== src/Main64/Patterns.antt =====
-- main64.c: the patterns that `heap_self_test` writes and reads.
use neka_kernel.Base.{
  ℕ, zero, suc, ◌+◌, ◌<◌, ◌≤◌, ◌≡◌, ◌⊎◌, inl, inr, refl, ◌∙◌, arith, false, ◌==◌, eq→==, Bool-cases,
  ==→eq, ==→ne, update_self, update_ne,
}
use mathlib.Core.Path.{subst}
use neka_kernel.Main64.{fill, differs}

-- A pattern stands in its range, and nothing else changes.
pub fill_inside : (p n v : ℕ) (b : ℕ → ℕ) (j : ℕ) → j < n → fill p n v b (p + j) ≡ v
unfolding fill
fill_inside p zero v b j h = absurd (omega arith)
fill_inside p (suc n) v b j h = elim (Bool-cases (n == j)) [
  | inl e ↦
      subst (λ (i : ℕ). fill p (suc n) v b (p + i) ≡ v) (==→eq _ _ e)
        (update_self (fill p n v b) (p + n) v)
  | inr e ↦
      let d = ==→ne n j e in
      update_ne (fill p n v b) (p + n) (p + j) v (λ q. d (omega arith))
      ∙ fill_inside p n v b j (omega (arith, d))
]

pub fill_outside : (p n v : ℕ) (b : ℕ → ℕ) (x : ℕ) → (x < p) ⊎ (p + n ≤ x) → fill p n v b x ≡ b x
unfolding fill
fill_outside p zero v b x h = refl
fill_outside p (suc n) v b x (inl h) =
    update_ne (fill p n v b) (p + n) x v (λ q. absurd (omega arith))
    ∙ fill_outside p n v b x (inl h)
fill_outside p (suc n) v b x (inr h) =
    update_ne (fill p n v b) (p + n) x v (λ q. absurd (omega arith))
    ∙ fill_outside p n v b x (inr (omega arith))

pub intact : (p n v : ℕ) (b : ℕ → ℕ) → ((j : ℕ) → j < n → b (p + j) ≡ v) → differs p n v b ≡ false
unfolding differs
intact p zero v b h = refl
intact p (suc n) v b h =
    rw (intact p n v b (λ j l. h j (omega arith)), eq→== _ _ (h n (omega arith)))
