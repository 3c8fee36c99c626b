-- ===== src/Paging64/Tables.antt =====
-- paging64.c: writes to pages, and the entries that an address space takes over from the kernel.
use neka_kernel.Base.{
  ℕ, zero, suc, ◌%◌, ◌<◌, ◌≤◌, ◌≡◌, ◌≢◌, inl, inr, refl, ap, ◌∙◌, arith, true, false, ◌==◌,
  if◌then◌else◌, Bool-cases, ==→eq, ==→ne, update, update_self, update_ne,
}
use mathlib.Core.Path.{subst}
use neka_kernel.Paging64.{Page, inherit_kernel_pdpt}

-- `store`, on the memory.
abbrev pub put : (ℕ → Page) → ℕ → ℕ → ℕ → ℕ → Page
put mem page i v = update mem page (update (mem page) i v)

module _ (mem : ℕ → Page) (page i v : ℕ) where
  pub put_self : put mem page i v page i ≡ v
  put_self = ap (λ (p : Page). p i) (update_self mem page _) ∙ update_self (mem page) i v

  pub put_slot : (j : ℕ) → i ≢ j → put mem page i v page j ≡ mem page j
  put_slot j d = ap (λ (p : Page). p j) (update_self mem page _) ∙ update_ne (mem page) i j v d

  pub put_page : (q : ℕ) → page ≢ q → put mem page i v q ≡ mem q
  put_page q d = update_ne mem page q _ d

module _ (kernel table : Page) where
  skip_entry :
      (n : ℕ)
      → (kernel n % 2 == 0) ≡ true
      → inherit_kernel_pdpt (suc n) kernel table ≡ inherit_kernel_pdpt n kernel table
  unfolding inherit_kernel_pdpt
  skip_entry n e = rw e

  copy_entry :
      (n : ℕ)
      → (kernel n % 2 == 0) ≡ false
      → inherit_kernel_pdpt (suc n) kernel table
        ≡ update (inherit_kernel_pdpt n kernel table) n (kernel n)
  unfolding inherit_kernel_pdpt
  copy_entry n e = rw e

  inherit_above : (n i : ℕ) → n ≤ i → inherit_kernel_pdpt n kernel table i ≡ table i
  unfolding inherit_kernel_pdpt
  inherit_above zero i h = refl
  inherit_above (suc n) i h = elim (Bool-cases (kernel n % 2 == 0)) [
    | inl e ↦ ap (λ (p : Page). p i) (skip_entry n e) ∙ inherit_above n i (omega arith)
    | inr e ↦
        ap (λ (p : Page). p i) (copy_entry n e)
        ∙ update_ne (inherit_kernel_pdpt n kernel table) n i (kernel n) (λ q. absurd (omega arith))
        ∙ inherit_above n i (omega arith)
  ]

  inherit_last :
      (n : ℕ)
      → inherit_kernel_pdpt (suc n) kernel table n
        ≡ (if kernel n % 2 == 0 then table n else kernel n)
  inherit_last n = elim (Bool-cases (kernel n % 2 == 0)) [
    | inl e ↦ rw e (ap (λ (p : Page). p n) (skip_entry n e) ∙ inherit_above n n (omega arith))
    | inr e ↦ rw e (
        ap (λ (p : Page). p n) (copy_entry n e)
        ∙ update_self (inherit_kernel_pdpt n kernel table) n (kernel n))
  ]

  -- Every present entry of the kernel is taken over, and the others stay.
  pub inherit_lem :
      (n i : ℕ)
      → i < n
      → inherit_kernel_pdpt n kernel table i ≡ (if kernel i % 2 == 0 then table i else kernel i)
  inherit_lem zero i h = absurd (omega arith)
  inherit_lem (suc n) i h = elim (Bool-cases (n == i)) [
    | inl here ↦
        subst
          (λ j.
            inherit_kernel_pdpt (suc n) kernel table j
            ≡ (if kernel j % 2 == 0 then table j else kernel j))
          (==→eq _ _ here) (inherit_last n)
    | inr below ↦ elim (Bool-cases (kernel n % 2 == 0)) [
      | inl e ↦
          ap (λ (p : Page). p i) (skip_entry n e) ∙ inherit_lem n i (omega (arith, ==→ne _ _ below))
      | inr e ↦
          ap (λ (p : Page). p i) (copy_entry n e)
          ∙ update_ne (inherit_kernel_pdpt n kernel table) n i (kernel n) (==→ne _ _ below)
          ∙ inherit_lem n i (omega (arith, ==→ne _ _ below))
    ]
  ]
