-- ===== src/Main64/Bytes.antt =====
-- main64.c: the first bytes of a page, as single writes change them.
use neka_kernel.Base.{ℕ, zero, suc, ◌<◌, ◌≡◌, arith, ◌==◌, if◌then◌else◌}
use neka_kernel.Paging64.{Page, set_byte}
use neka_kernel.Main64.Demo.{get_byte}

below_four : (P : ℕ → Type 0) → P 0 → P 1 → P 2 → P 3 → (i : ℕ) → i < 4 → P i
below_four P a b c d zero h = a
below_four P a b c d (suc zero) h = b
below_four P a b c d (suc (suc zero)) h = c
below_four P a b c d (suc (suc (suc zero))) h = d
below_four P a b c d (suc (suc (suc (suc i)))) h = absurd (omega arith)

-- A byte of the four reads as the last write to it.
pub get_byte-set_byte :
    (page : Page) (v : ℕ)
    → v < 256
    → (i : ℕ) → i < 4
    → (j : ℕ) → j < 4
    → get_byte (set_byte page i v) j ≡ (if i == j then v else get_byte page j)
unfolding get_byte set_byte
get_byte-set_byte page v small =
    below_four
      (λ i.
        (j : ℕ) → j < 4 → get_byte (set_byte page i v) j ≡ (if i == j then v else get_byte page j))
      (below_four _ (omega arith) (omega arith) (omega arith) (omega arith))
      (below_four _ (omega arith) (omega arith) (omega arith) (omega arith))
      (below_four _ (omega arith) (omega arith) (omega arith) (omega arith))
      (below_four _ (omega arith) (omega arith) (omega arith) (omega arith))
