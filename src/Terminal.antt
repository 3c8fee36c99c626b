-- ===== src/Terminal.antt =====
-- terminal.c: the console of the 32-bit kernel.
mod Same
use neka_kernel.Base.{
  ℕ, zero, suc, ◌+◌, ◌-◌, ◌*◌, ◌/◌, ◌%◌, ◌^◌, bit_or, List, [], ◌∷◌, ◌++◌, get_or, ltb, leb, ◌==◌,
  if◌then◌else◌, update, characters_of,
}

abbrev pub vga_width : ℕ
vga_width = 80

abbrev pub vga_height : ℕ
vga_height = 25

-- The static variables, with the cells behind `VGA_MEMORY` by their index, and the bytes that went
-- out of the serial port so far.
pub record Terminal : Type 0 where
  pub vga_memory : ℕ → ℕ
  pub term_row : ℕ
  pub term_col : ℕ
  pub term_color : ℕ
  pub serial : List ℕ

-- A `char` from 128 on is negative, so its conversion to `uint16_t` extends the sign.
unfoldable pub vga_entry : ℕ → ℕ → ℕ
vga_entry c color = bit_or (if ltb c 128 then c else c + 0xff00) (color * 2 ^ 8)

unfoldable pub terminal_newline : Terminal → Terminal
terminal_newline t = record t {
  term_col = 0;
  term_row = if leb vga_height (t.term_row + 1) then 0 else t.term_row + 1;
}

unfoldable pub terminal_putchar : ℕ → Terminal → Terminal
unfolding vga_entry terminal_newline
terminal_putchar c t =
    if c == 10
    then terminal_newline t
    else let next = record t {
      vga_memory =
          update t.vga_memory (t.term_row * vga_width + t.term_col) (vga_entry c t.term_color);
      term_col = t.term_col + 1;
    } in
      if leb vga_width next.term_col then terminal_newline next else next

unfoldable pub serial_putchar : ℕ → Terminal → Terminal
serial_putchar c t = record t { serial = t.serial ++ (c ∷ []) }

unfoldable pub terminal_writestring : List ℕ → Terminal → Terminal
unfolding terminal_putchar serial_putchar
terminal_writestring [] t = t
terminal_writestring (c ∷ cs) t = terminal_writestring cs (serial_putchar c (terminal_putchar c t))

-- "0123456789ABCDEF"
abbrev pub hex_digits : List ℕ
hex_digits = characters_of "0123456789ABCDEF"

-- The last `n` rounds of the loop of `terminal_write_hex`, from round `i` on, and its result.
unfoldable pub write_hex_loop : ℕ → ℕ → ℕ → (ℕ → ℕ) → ℕ → ℕ
write_hex_loop zero i val buf = buf
write_hex_loop (suc n) i val buf =
    write_hex_loop n (i + 1) (val / 16) (update buf (9 - i) (get_or hex_digits (val % 16) 0))

abbrev pub first_chars : (ℕ → ℕ) → ℕ → ℕ → List ℕ
first_chars buf i zero = []
first_chars buf i (suc n) = buf i ∷ first_chars buf (i + 1) n

unfoldable pub terminal_write_hex : ℕ → Terminal → Terminal
unfolding write_hex_loop terminal_writestring
terminal_write_hex val t =
    terminal_writestring
      (first_chars (write_hex_loop 8 0 val (λ i. if i == 1 then b'x' else b'0')) 0 10) t

-- The inner loop of `terminal_init` on the first `n` cells of row `y`, and the outer one.
unfoldable pub blank_row : ℕ → ℕ → ℕ → (ℕ → ℕ) → ℕ → ℕ
unfolding vga_entry
blank_row color y zero vga = vga
blank_row color y (suc n) vga =
    update (blank_row color y n vga) (y * vga_width + n) (vga_entry b' ' color)

unfoldable pub blank_rows : ℕ → ℕ → (ℕ → ℕ) → ℕ → ℕ
unfolding blank_row
blank_rows color zero vga = vga
blank_rows color (suc n) vga = blank_row color n vga_width (blank_rows color n vga)

unfoldable pub terminal_init : Terminal → Terminal
unfolding blank_rows
terminal_init t = record t {
  vga_memory = blank_rows t.term_color vga_height t.vga_memory;
  term_row = 0;
  term_col = 0;
}
