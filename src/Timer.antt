-- ===== src/Timer.antt =====
-- timer.c: the writes to the ports of the PIC and of the PIT, the last one last.
use neka_kernel.Base.{ℕ, ◌/◌, ◌%◌, ◌^◌, List, [], ◌∷◌, ◌++◌}

-- A port and the byte that goes out of it.
abbrev pub Ports : Type 0
Ports = List (ℕ × ℕ)

unfoldable pub pic_remap : Ports → Ports
pic_remap p =
    p
    ++ ((0x20, 0x11)
        ∷ (0xa0, 0x11)
        ∷ (0x21, 0x20)
        ∷ (0xa1, 0x28)
        ∷ (0x21, 0x04)
        ∷ (0xa1, 0x02)
        ∷ (0x21, 0x01)
        ∷ (0xa1, 0x01)
        ∷ (0x21, 0)
        ∷ (0xa1, 0)
        ∷ [])

-- For a rate `freq` that is not 0.
unfoldable pub timer_init : ℕ → Ports → Ports
timer_init freq p =
    let divisor = 1193180 / freq in
    p ++ ((0x43, 0x36) ∷ (0x40, divisor % 2 ^ 8) ∷ (0x40, divisor / 2 ^ 8 % 2 ^ 8) ∷ [])
