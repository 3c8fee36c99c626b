-- ===== src/Terminal64.antt =====
-- terminal64.c: the console of 80 by 25 cells, and the printing of numbers.
pub mod Screen
pub mod Calls
pub mod Printing
mod Whole
mod Hex
mod Tests
use Prim.Native.String.{String}
use neka_kernel.Base.{
  ℕ, zero, suc, ◌+◌, ◌-◌, ◌*◌, ◌/◌, ◌%◌, bit_or, List, [], ◌∷◌, ◌++◌, get_or, ltb, leb, ◌==◌,
  if◌then◌else◌, update, characters_of,
}

-- The static variables, with the cells behind `VGA_MEMORY` by their index, and the bytes that went
-- out of the serial port so far.
pub record Terminal64 : Type 0 where
  pub vga_memory : ℕ → ℕ
  pub term_row : ℕ
  pub term_col : ℕ
  pub serial : List ℕ

-- `(uint16_t)c | 0x0A00`; a `char` from 128 on is negative, so the conversion extends its sign.
unfoldable pub cell : ℕ → ℕ
cell c = bit_or (if ltb c 128 then c else c + 0xff00) 0x0a00

unfoldable pub putc_vga : ℕ → Terminal64 → Terminal64
putc_vga c t =
    let row = t.term_row + 1 in
    let next_row = if leb 25 row then 0 else row in
    if c == 10
    then record t { term_col = 0; term_row = next_row }
    else let col = t.term_col + 1 in
      record t {
        vga_memory = update t.vga_memory (t.term_row * 80 + t.term_col) (cell c);
        term_col = if leb 80 col then 0 else col;
        term_row = if leb 80 col then next_row else t.term_row;
      }

unfoldable pub serial_putc : ℕ → Terminal64 → Terminal64
serial_putc c t = record t { serial = t.serial ++ (c ∷ []) }

-- `kprint` on the characters of its string, inside the print lock.
unfoldable pub kprint : List ℕ → Terminal64 → Terminal64
unfolding putc_vga serial_putc
kprint [] t = t
kprint (c ∷ cs) t = kprint cs (serial_putc c (putc_vga c t))

-- The characters of "0123456789ABCDEF".
abbrev pub hex : List ℕ
hex = 48 ∷ 49 ∷ 50 ∷ 51 ∷ 52 ∷ 53 ∷ 54 ∷ 55 ∷ 56 ∷ 57 ∷ 65 ∷ 66 ∷ 67 ∷ 68 ∷ 69 ∷ 70 ∷ []

-- The last `n` rounds of the loop of `kprint_hex64`, from round `i` on.
unfoldable pub hex_loop : ℕ → ℕ → ℕ → (ℕ → ℕ) → ℕ → ℕ
hex_loop zero i val buf = buf
hex_loop (suc n) i val buf =
    hex_loop n (i + 1) (val / 16) (update buf (17 - i) (get_or hex (val % 16) 0))

-- "0x0000000000000000"
abbrev pub hex_start : ℕ → ℕ
hex_start i = if i == 1 then 120 else 48

abbrev pub characters : (ℕ → ℕ) → ℕ → ℕ → List ℕ
characters buf i zero = []
characters buf i (suc n) = buf i ∷ characters buf (i + 1) n

unfoldable pub kprint_hex64 : ℕ → Terminal64 → Terminal64
unfolding hex_loop kprint
kprint_hex64 val t = kprint (characters (hex_loop 16 0 val hex_start) 0 18) t

-- The two loops of `terminal64_init`, of which the inner one fills the first `n` cells of a row.
unfoldable pub clear_row : ℕ → ℕ → (ℕ → ℕ) → ℕ → ℕ
clear_row y zero vga = vga
clear_row y (suc n) vga = update (clear_row y n vga) (y * 80 + n) (bit_or 0x0a00 32)

unfoldable pub clear_rows : ℕ → (ℕ → ℕ) → ℕ → ℕ
unfolding clear_row
clear_rows zero vga = vga
clear_rows (suc n) vga = clear_row n 80 (clear_rows n vga)

unfoldable pub terminal64_init : Terminal64 → Terminal64
unfolding clear_rows
terminal64_init t = record t { vga_memory = clear_rows 25 t.vga_memory; term_row = 0; term_col = 0 }

-- A run of calls of `kprint` and `kprint_hex64`.
pub data Call : Type 0 where
  text : String → Call
  char : ℕ → Call
  hex64 : ℕ → Call

-- `char` is `kprint` of a buffer `{c, 0}`, an empty string for the character 0.
unfoldable pub print_call : Call → Terminal64 → Terminal64
unfolding kprint kprint_hex64
print_call (text s) t = kprint (characters_of s) t
print_call (char c) t = kprint (if c == 0 then [] else c ∷ []) t
print_call (hex64 n) t = kprint_hex64 n t

unfoldable pub print_calls : List Call → Terminal64 → Terminal64
unfolding print_call
print_calls [] t = t
print_calls (c ∷ cs) t = print_calls cs (print_call c t)
