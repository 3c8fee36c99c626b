-- ===== src/Terminal64/Hex.antt =====
-- terminal64.c: the digits of `kprint_hex64`, and the empty screen.
use neka_kernel.Base.{
  ℕ, zero, suc, ◌+◌, ◌-◌, ◌*◌, ◌/◌, ◌%◌, ◌^◌, ◌<◌, ◌≤◌, ◌≡◌, ◌⊎◌, refl, ◌∙◌, arith, ◌++◌, get_or,
  ltb, leb, ◌==◌, if◌then◌else◌, update, update_self, update_ne, Bool-cases, ==→eq, ==→ne, ltb→lt,
  ltb→le, inl, inr, bit_or,
}
use native.Mathlib.Numerals.{unary_clauses}
use neka_kernel.Terminal64.{
  Terminal64, kprint_hex64, characters, hex_start, hex, hex_loop, clear_row, clear_rows,
  terminal64_init,
}
use neka_kernel.Terminal64.Screen.{IsOnScreen, kprint_stays}

-- The value of a digit '0'…'9' or 'A'…'F', and of the `n` digits up to index `17 - i` of a buffer.
abbrev pub digit : ℕ → ℕ
digit c = if leb c 57 then c - 48 else c - 55

abbrev pub read_hex : (ℕ → ℕ) → ℕ → ℕ → ℕ
read_hex buf i zero = 0
read_hex buf i (suc n) = digit (buf (17 - i)) + 16 * read_hex buf (i + 1) n

digit-hex : (d : ℕ) → d < 16 → digit (get_or hex d 0) ≡ d
digit-hex zero h = refl
digit-hex (suc zero) h = refl
digit-hex (suc (suc zero)) h = refl
digit-hex (suc (suc (suc zero))) h = refl
digit-hex (suc (suc (suc (suc zero)))) h = refl
digit-hex (suc (suc (suc (suc (suc zero))))) h = refl
digit-hex (suc (suc (suc (suc (suc (suc zero)))))) h = refl
digit-hex (suc (suc (suc (suc (suc (suc (suc zero))))))) h = refl
digit-hex (suc (suc (suc (suc (suc (suc (suc (suc zero)))))))) h = refl
digit-hex (suc (suc (suc (suc (suc (suc (suc (suc (suc zero))))))))) h = refl
digit-hex (suc (suc (suc (suc (suc (suc (suc (suc (suc (suc zero)))))))))) h = refl
digit-hex (suc (suc (suc (suc (suc (suc (suc (suc (suc (suc (suc zero))))))))))) h = refl
digit-hex (suc (suc (suc (suc (suc (suc (suc (suc (suc (suc (suc (suc zero)))))))))))) h = refl
digit-hex (suc (suc (suc (suc (suc (suc (suc (suc (suc (suc (suc (suc (suc zero))))))))))))) h =
    refl
digit-hex (suc (suc (suc (suc (suc (suc (suc (suc (suc (suc (suc (suc (suc (suc zero))))))))))))))
      h =
    refl
digit-hex
      (suc (suc (suc (suc (suc (suc (suc (suc (suc (suc (suc (suc (suc (suc (suc zero)))))))))))))))
      h =
    refl
digit-hex
      (suc
        (suc (suc (suc (suc (suc (suc (suc (suc (suc (suc (suc (suc (suc (suc (suc d))))))))))))))))
      h =
    absurd (omega arith)

hex_loop_keeps :
    (n i val : ℕ) (buf : ℕ → ℕ) (j : ℕ)
    → i + n ≤ 16
    → (17 < j + i) ⊎ (j + i + n ≤ 17)
    → hex_loop n i val buf j ≡ buf j
unfolding hex_loop
hex_loop_keeps zero i val buf j fits out = refl
hex_loop_keeps (suc n) i val buf j fits out =
    hex_loop_keeps n (i + 1) (val / 16) (update buf (17 - i) (get_or hex (val % 16) 0)) j
      (omega arith) (ground arith)
    ∙ update_ne buf (17 - i) j (get_or hex (val % 16) 0) (λ e. absurd (omega arith))

hex_loop_reads :
    (n i val : ℕ) (buf : ℕ → ℕ)
    → i + n ≤ 16
    → val < 16 ^ n
    → read_hex (hex_loop n i val buf) i n ≡ val
unfolding hex_loop
hex_loop_reads zero i val buf fits small = omega arith
hex_loop_reads (suc n) i val buf fits small =
    let pow : 16 ^ suc n ≡ 16 ^ n * 16 = simp unary_clauses (omega arith) in
    let buf1 = update buf (17 - i) (get_or hex (val % 16) 0) in
    let rest : read_hex (hex_loop n (i + 1) (val / 16) buf1) (i + 1) n ≡ val / 16 =
      hex_loop_reads n (i + 1) (val / 16) buf1 (omega arith) (omega arith) in
    let here : hex_loop n (i + 1) (val / 16) buf1 (17 - i) ≡ get_or hex (val % 16) 0 =
      hex_loop_keeps n (i + 1) (val / 16) buf1 (17 - i) (omega arith) (inl (omega arith))
      ∙ update_self buf (17 - i) (get_or hex (val % 16) 0) in
    let low : digit (get_or hex (val % 16) 0) ≡ val % 16 = digit-hex (val % 16) (omega arith) in
    rw (rest, here, low) (omega arith)

-- `kprint_hex64` prints 18 characters: '0', 'x', and 16 digits that stand for the number, the
-- lowest last.
pub kprint_hex64_correct :
    (val : ℕ) (t : Terminal64)
    → IsOnScreen t
    → val < 2 ^ 64
    → let buf = hex_loop 16 0 val hex_start in
      ((kprint_hex64 val t).serial ≡ t.serial ++ characters buf 0 18)
      × (buf 0 ≡ 48)
      × (buf 1 ≡ 120)
      × (read_hex buf 0 16 ≡ val)
unfolding kprint_hex64
kprint_hex64_correct val t on small = (
  (kprint_stays (characters (hex_loop 16 0 val hex_start) 0 18) t on).2,
  hex_loop_keeps 16 0 val hex_start 0 (omega arith) (inr (omega arith)),
  hex_loop_keeps 16 0 val hex_start 1 (omega arith) (inr (omega arith)),
  hex_loop_reads 16 0 val hex_start (omega arith) (omega arith),
)

abbrev pub blank : ℕ
blank = bit_or 0x0a00 32

clear_row_lem :
    (y n : ℕ) (vga : ℕ → ℕ) (j : ℕ)
    → (y * 80 ≤ j → j < y * 80 + n → clear_row y n vga j ≡ blank)
      × ((j < y * 80) ⊎ (y * 80 + n ≤ j) → clear_row y n vga j ≡ vga j)
unfolding clear_row
clear_row_lem y zero vga j = (λ l h. absurd (omega arith), λ out. refl)
clear_row_lem y (suc n) vga j =
    let rest = clear_row_lem y n vga j in
    let row = clear_row y n vga in
    elim (Bool-cases (y * 80 + n == j)) [
      | inl e ↦ (λ l h. rw e, λ out. absurd (ground (arith, ==→eq _ _ e)))
      | inr e ↦
          (λ l h. rw e (rest.0 l (omega (arith, ==→ne _ _ e))), λ out. rw e (rest.1 (ground arith)))
    ]

clear_rows_lem :
    (n : ℕ) (vga : ℕ → ℕ) (j : ℕ)
    → (j < n * 80 → clear_rows n vga j ≡ blank) × (n * 80 ≤ j → clear_rows n vga j ≡ vga j)
unfolding clear_rows
clear_rows_lem zero vga j = (λ h. absurd (omega arith), λ h. refl)
clear_rows_lem (suc n) vga j =
    let rest = clear_rows_lem n vga j in
    let row = clear_row_lem n 80 (clear_rows n vga) j in
    (
      λ h. elim (Bool-cases (ltb j (n * 80))) [
        | inl l ↦ row.1 (inl (ltb→lt _ _ l)) ∙ rest.0 (ltb→lt _ _ l)
        | inr l ↦ row.0 (ltb→le _ _ l) (omega arith)
      ],
      λ h. row.1 (inr (omega arith)) ∙ rest.1 (omega arith),
    )

-- `terminal64_init` leaves 2000 blank cells and the cursor at the first, and writes nothing else.
pub init_blank :
    (t : Terminal64)
    → ((j : ℕ) → j < 2000 → (terminal64_init t).vga_memory j ≡ blank)
      × ((j : ℕ) → 2000 ≤ j → (terminal64_init t).vga_memory j ≡ t.vga_memory j)
      × ((terminal64_init t).term_row ≡ 0)
      × ((terminal64_init t).term_col ≡ 0)
unfolding terminal64_init
init_blank t = (
  λ j h. (clear_rows_lem 25 t.vga_memory j).0 h,
  λ j h. (clear_rows_lem 25 t.vga_memory j).1 h,
  refl,
  refl,
)
