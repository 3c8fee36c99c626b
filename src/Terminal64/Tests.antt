-- ===== src/Terminal64/Tests.antt =====
-- terminal64.c: the theorems at a console whose cursor is near the end of the screen.
use neka_kernel.Base.{ℕ, ◌≤◌, ◌≡◌, refl, arith, true, false, Option, List, [], ◌∷◌}
use neka_kernel.Terminal64.{Terminal64, kprint, kprint_hex64, characters, hex_loop, hex_start}
use neka_kernel.Terminal64.Screen.{IsOnScreen, kprint_stays}
use neka_kernel.Terminal64.Printing.{Console, outside, step, step_from, run_steps, texts_of}
use neka_kernel.Terminal64.Whole.{IsOrderly, texts_are_whole}
use neka_kernel.Terminal64.Hex.{read_hex, kprint_hex64_correct}

abbrev last_cell : Terminal64
last_cell = record { vga_memory = λ i. 0x0a20; term_row = 24; term_col = 79; serial = 72 ∷ [] }

last_cell-IsOnScreen : IsOnScreen last_cell
last_cell-IsOnScreen = (omega arith, omega arith)

-- "ok" and a newline.
abbrev text : List ℕ
text = 111 ∷ 107 ∷ 10 ∷ []

kprint_stays_example :
    IsOnScreen (kprint text last_cell)
    × ((i : ℕ) → 2000 ≤ i → (kprint text last_cell).vga_memory i ≡ 0x0a20)
    × ((kprint text last_cell).serial ≡ 72 ∷ 111 ∷ 107 ∷ 10 ∷ [])
kprint_stays_example = kprint_stays text last_cell last_cell-IsOnScreen

kprint_hex64_correct_example :
    let buf = hex_loop 16 0 0xdeadbeef hex_start in
    ((kprint_hex64 0xdeadbeef last_cell).serial ≡ 72 ∷ characters buf 0 18)
    × (buf 0 ≡ 48)
    × (buf 1 ≡ 120)
    × (read_hex buf 0 16 ≡ 0xdeadbeef)
kprint_hex64_correct_example =
    kprint_hex64_correct 0xdeadbeef last_cell last_cell-IsOnScreen (omega arith)

-- Two CPUs, outside of `kprint`.
abbrev quiet : Console
quiet = record {
  terminal = last_cell;
  print_lock = false;
  stage = λ c. outside;
  interrupts = λ c. true;
  flags = λ c. false;
}

-- CPU 1 comes while CPU 0 prints its text, and prints its own behind it.
abbrev steps : List (ℕ × List ℕ)
steps =
    (0, text)
    ∷ (0, [])
    ∷ (1, text)
    ∷ (0, [])
    ∷ (1, [])
    ∷ (0, [])
    ∷ (0, [])
    ∷ (0, [])
    ∷ (0, [])
    ∷ (1, [])
    ∷ (0, [])
    ∷ (0, [])
    ∷ (1, [])
    ∷ (1, [])
    ∷ []

two_taken : texts_of steps quiet [] ≡ text ∷ text ∷ []
unfolding texts_of step step_from
two_taken = refl

texts_are_whole_example :
    (o : Option ℕ) × IsOrderly (texts_of steps quiet []) last_cell o (run_steps steps quiet)
texts_are_whole_example = texts_are_whole steps quiet refl (λ c. refl)
