-- ===== src/Keyboard/Tests.antt =====
-- keyboard.c at concrete inputs.
use neka_kernel.Base.{◌≡◌, refl, arith, false, List, [], ◌∷◌, none, some}
use neka_kernel.Keyboard.{Keyboard, keyboard_handle_irq, kbd_buffer_push, kbd_buffer_pop, translate}
use neka_kernel.Keyboard.Refine.{
  IsValid, contents, put, take_first, push_refines, pop_refines, run_refines, irq_refines, Event,
  irq, read, run, run_queue, press, classify,
}

abbrev idle : Keyboard
idle = record { shift_held = false; kbd_buffer = λ _. 0; kbd_head = 255; kbd_tail = 255 }

idle-IsValid : IsValid idle
idle-IsValid = omega arith

-- Shift, `a`, shift released, `a`, and three reads.
abbrev typing : List Event
typing = irq 0x2a ∷ irq 0x1e ∷ irq 0xaa ∷ irq 0x1e ∷ read ∷ read ∷ read ∷ []

typing_result :
    run idle typing ≡ none ∷ some b'A' ∷ none ∷ some b'a' ∷ some b'A' ∷ some b'a' ∷ none ∷ []
unfolding run keyboard_handle_irq kbd_buffer_push kbd_buffer_pop translate
typing_result = refl

push_refines_example :
    (contents (kbd_buffer_push b'x' idle) ≡ put b'x' (contents idle))
    × IsValid (kbd_buffer_push b'x' idle)
push_refines_example = push_refines b'x' idle idle-IsValid

-- Two characters round the end of the buffer.
abbrev waiting : Keyboard
waiting = record idle { kbd_buffer = λ i. i; kbd_head = 1 }

pop_refines_example :
    let (out, k') = kbd_buffer_pop waiting in
    ((out, contents k') ≡ take_first (255 ∷ 0 ∷ [])) × IsValid k'
pop_refines_example = pop_refines waiting (omega arith)

irq_refines_example :
    let (out, k') = keyboard_handle_irq 0x1e idle in
    ((out, k'.shift_held, contents k') ≡ press (classify false 0x1e) false (contents idle))
    × IsValid k'
irq_refines_example = irq_refines 0x1e idle idle-IsValid

run_refines_example : run idle typing ≡ run_queue false [] typing
run_refines_example = run_refines typing idle idle-IsValid
