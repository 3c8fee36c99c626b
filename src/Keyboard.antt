-- ===== src/Keyboard.antt =====
-- keyboard.c: the PS/2 driver. IRQ1 translates a scancode and pushes the character on a ring of
-- 256 bytes; a reader pops it.
pub mod Refine
mod Tests
use neka_kernel.Base.{
  ℕ, ◌+◌, ◌-◌, ◌%◌, Bool, true, false, ◌||◌, List, [], ◌∷◌, ◌++◌, Option, none, some, ltb, leb,
  ◌==◌, if◌then◌else◌, update, get_or,
}

abbrev pub kbd_buf_size : ℕ
kbd_buf_size = 256

abbrev pub kbd_scancode_lshift : ℕ
kbd_scancode_lshift = 0x2a

abbrev pub kbd_scancode_rshift : ℕ
kbd_scancode_rshift = 0x36

-- The static variables. `kbd_buffer` is a function of the index; every access is below 256.
pub record Keyboard : Type 0 where
  pub shift_held : Bool
  pub kbd_buffer : ℕ → ℕ
  pub kbd_head : ℕ
  pub kbd_tail : ℕ

-- The initializers; the rest of the 128 entries is zero.
scancode_ascii : List ℕ
scancode_ascii =
    0 ∷ 27 ∷ b'1' ∷ b'2' ∷ b'3' ∷ b'4' ∷ b'5' ∷ b'6' ∷ b'7' ∷ b'8' ∷ b'9' ∷ b'0' ∷ b'-' ∷ b'=' ∷ 8
    ∷ 9 ∷ b'q' ∷ b'w' ∷ b'e' ∷ b'r' ∷ b't' ∷ b'y' ∷ b'u' ∷ b'i' ∷ b'o' ∷ b'p' ∷ b'[' ∷ b']' ∷ 10 ∷ 0
    ∷ b'a' ∷ b's' ∷ b'd' ∷ b'f' ∷ b'g' ∷ b'h' ∷ b'j' ∷ b'k' ∷ b'l' ∷ b';' ∷ 39 ∷ b'`' ∷ 0 ∷ 92
    ∷ b'z' ∷ b'x' ∷ b'c' ∷ b'v' ∷ b'b' ∷ b'n' ∷ b'm' ∷ b',' ∷ b'.' ∷ b'/' ∷ 0 ∷ b'*' ∷ 0 ∷ b' ' ∷ 0
    ∷ []

scancode_ascii_shift : List ℕ
scancode_ascii_shift =
    0 ∷ 27 ∷ b'!' ∷ b'@' ∷ b'#' ∷ b'$' ∷ b'%' ∷ b'^' ∷ b'&' ∷ b'*' ∷ b'(' ∷ b')' ∷ b'_' ∷ b'+' ∷ 8
    ∷ 9 ∷ b'Q' ∷ b'W' ∷ b'E' ∷ b'R' ∷ b'T' ∷ b'Y' ∷ b'U' ∷ b'I' ∷ b'O' ∷ b'P' ∷ b'{' ∷ b'}' ∷ 10 ∷ 0
    ∷ b'A' ∷ b'S' ∷ b'D' ∷ b'F' ∷ b'G' ∷ b'H' ∷ b'J' ∷ b'K' ∷ b'L' ∷ b':' ∷ b'"' ∷ b'~' ∷ 0 ∷ b'|'
    ∷ b'Z' ∷ b'X' ∷ b'C' ∷ b'V' ∷ b'B' ∷ b'N' ∷ b'M' ∷ b'<' ∷ b'>' ∷ b'?' ∷ 0 ∷ b'*' ∷ 0 ∷ b' ' ∷ 0
    ∷ []

-- A full ring loses the character.
unfoldable pub kbd_buffer_push : ℕ → Keyboard → Keyboard
kbd_buffer_push c k =
    let next = (k.kbd_head + 1) % kbd_buf_size in
    if next == k.kbd_tail
    then k
    else record k { kbd_buffer = update k.kbd_buffer k.kbd_head c; kbd_head = next }

-- The option is `*out`, with `none` for the return value 0.
unfoldable pub kbd_buffer_pop : Keyboard → Option ℕ × Keyboard
kbd_buffer_pop k =
    if k.kbd_tail == k.kbd_head
    then (none, k)
    else (some (k.kbd_buffer k.kbd_tail), record k { kbd_tail = (k.kbd_tail + 1) % kbd_buf_size })

-- The character of a make code, zero for a key without one.
unfoldable pub translate : Bool → ℕ → ℕ
unfolding scancode_ascii scancode_ascii_shift
translate shift scancode =
    if shift then get_or scancode_ascii_shift scancode 0 else get_or scancode_ascii scancode 0

-- The handler of IRQ1 on the byte read from port 0x60, with the character that it echoes.
unfoldable pub keyboard_handle_irq : ℕ → Keyboard → Option ℕ × Keyboard
keyboard_handle_irq scancode k =
    if (scancode == kbd_scancode_lshift) || (scancode == kbd_scancode_rshift)
    then (none, record k { shift_held = true })
    else if (scancode == kbd_scancode_lshift + 0x80) || (scancode == kbd_scancode_rshift + 0x80)
    then (none, record k { shift_held = false })
    else if leb 0x80 scancode
    then (none, k)
    else let c = translate k.shift_held scancode in
      if c == 0 then (none, k) else (some c, kbd_buffer_push c k)
