-- ===== src/Terminal/Same.antt =====
-- terminal.c and terminal64.c: the two consoles print alike.
use neka_kernel.Base.{
  ℕ, ◌+◌, ◌*◌, ◌^◌, ◌≡◌, refl, ap, ◌∙◌, List, [], ◌∷◌, ltb, leb, ◌==◌, if◌then◌else◌, Bool-cases,
  inl, inr, bit_or,
}
use neka_kernel.Terminal.{
  Terminal, vga_entry, terminal_newline, terminal_putchar, serial_putchar, terminal_writestring,
}
use neka_kernel.Terminal64.{Terminal64, cell, putc_vga, serial_putc, kprint}

-- The state of the one console as that of the other.
abbrev pub as_64 : Terminal → Terminal64
as_64 t = record {
  vga_memory = t.vga_memory;
  term_row = t.term_row;
  term_col = t.term_col;
  serial = t.serial;
}

module _ (t : Terminal) (green : t.term_color ≡ 0x0a) where
  same_cell : (c : ℕ) → vga_entry c t.term_color ≡ cell c
  unfolding vga_entry cell
  same_cell c = ap (λ (k : ℕ). bit_or (if ltb c 128 then c else c + 0xff00) (k * 2 ^ 8)) green

  same_putchar :
      (c : ℕ)
      → as_64 (serial_putchar c (terminal_putchar c t)) ≡ serial_putc c (putc_vga c (as_64 t))
  unfolding serial_putchar terminal_putchar terminal_newline serial_putc putc_vga
  same_putchar c = elim (Bool-cases (c == 10)) [
    | inl e ↦ rw e refl
    | inr e ↦ elim (Bool-cases (leb 80 (t.term_col + 1))) [
      | inl f ↦ rw (e, f, same_cell c) refl
      | inr f ↦ rw (e, f, same_cell c) refl
    ]
  ]

  keeps_color : (c : ℕ) → (serial_putchar c (terminal_putchar c t)).term_color ≡ 0x0a
  unfolding serial_putchar terminal_putchar terminal_newline
  keeps_color c = elim (Bool-cases (c == 10)) [
    | inl e ↦ rw e green
    | inr e ↦ elim (Bool-cases (leb 80 (t.term_col + 1))) [
      | inl f ↦ rw (e, f) green
      | inr f ↦ rw (e, f) green
    ]
  ]

-- In the colour that both start with, `terminal_writestring` does to the cells, the cursor and the
-- serial port what `kprint` does.
pub writestring_as_kprint :
    (cs : List ℕ) (t : Terminal)
    → t.term_color ≡ 0x0a
    → as_64 (terminal_writestring cs t) ≡ kprint cs (as_64 t)
unfolding terminal_writestring kprint
writestring_as_kprint [] t green = refl
writestring_as_kprint (c ∷ cs) t green =
    writestring_as_kprint cs (serial_putchar c (terminal_putchar c t)) (keeps_color t green c)
    ∙ ap (kprint cs) (same_putchar t green c)
