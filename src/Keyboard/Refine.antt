-- ===== src/Keyboard/Refine.antt =====
-- keyboard.c: the ring is a queue of at most 255 characters.
use neka_kernel.Base.{
  ℕ, zero, suc, ◌+◌, ◌-◌, ◌%◌, ◌<◌, ◌≡◌, ◌≢◌, refl, ap, arith, Bool, true, false, ◌||◌, List, [],
  ◌∷◌, ◌++◌, Option, none, some, leb, ◌==◌, if◌then◌else◌, update, length, update_ne, update_self,
  ne→==, Bool-cases, inl, inr,
}
use neka_kernel.Keyboard.{
  Keyboard, kbd_buffer_push, kbd_buffer_pop, keyboard_handle_irq, translate, kbd_scancode_lshift,
  kbd_scancode_rshift,
}

-- Both indices lie in the buffer.
pub record IsValid (k : Keyboard) : Type 0 where
  pub head_in : k.kbd_head < 256
  pub tail_in : k.kbd_tail < 256

-- The `n` characters from index `t` on, round the end of the buffer.
abbrev pub window : (ℕ → ℕ) → ℕ → ℕ → List ℕ
window b t zero = []
window b t (suc n) = b t ∷ window b ((t + 1) % 256) n

abbrev pub held : Keyboard → ℕ
held k = (k.kbd_head + 256 - k.kbd_tail) % 256

abbrev pub contents : Keyboard → List ℕ
contents k = window k.kbd_buffer k.kbd_tail (held k)

length-window : (b : ℕ → ℕ) (t n : ℕ) → length (window b t n) ≡ n
length-window b t zero = refl
length-window b t (suc n) = ap suc (length-window b ((t + 1) % 256) n)

-- Writing at the end of a window that leaves one place free extends it.
window-update :
    (b : ℕ → ℕ) (t n i c : ℕ)
    → t < 256
    → n < 256
    → i ≡ (t + n) % 256
    → window (update b i c) t (suc n) ≡ window b t n ++ (c ∷ [])
window-update b t zero i c ht hn e = let at : i ≡ t = omega arith in rw (at, update_self b t c)
window-update b t (suc n) i c ht hn e = rw (update_ne b i t c (omega arith)) (
    ap (◌∷◌ (b t))
      (window-update b ((t + 1) % 256) n i c (omega arith) (omega arith) (omega arith)))

-- The queue that a keyboard promises.
pub put : ℕ → List ℕ → List ℕ
put c q = if length q == 255 then q else q ++ (c ∷ [])

pub take_first : List ℕ → Option ℕ × List ℕ
take_first [] = (none, [])
take_first (c ∷ q) = (some c, q)

-- `kbd_buffer_push` appends the character, or loses it when 255 characters wait; either way the
-- indices stay in the buffer.
pub push_refines :
    (c : ℕ) (k : Keyboard)
    → IsValid k
    → (contents (kbd_buffer_push c k) ≡ put c (contents k)) × IsValid (kbd_buffer_push c k)
unfolding kbd_buffer_push put
push_refines c k v = elim (Bool-cases ((k.kbd_head + 1) % 256 == k.kbd_tail)) [
  | inl full ↦
      let n : held k ≡ 255 = ground arith in
      rw (full, length-window k.kbd_buffer k.kbd_tail (held k), n) (refl, v)
  | inr room ↦
      let n : held k ≢ 255 = ground arith in
      let m : ((k.kbd_head + 1) % 256 + 256 - k.kbd_tail) % 256 ≡ suc (held k) = ground arith in
      rw (room, length-window k.kbd_buffer k.kbd_tail (held k), ne→== (held k) 255 n, m)
        (
          window-update k.kbd_buffer k.kbd_tail (held k) k.kbd_head c v.tail_in (omega arith)
              (omega arith),
          ground arith,
        )
]

-- `kbd_buffer_pop` takes the oldest character, or fails on an empty buffer and changes nothing.
pub pop_refines :
    (k : Keyboard)
    → IsValid k
    → let (out, k') = kbd_buffer_pop k in
      ((out, contents k') ≡ take_first (contents k)) × IsValid k'
unfolding kbd_buffer_pop take_first
pop_refines k v = elim (Bool-cases (k.kbd_tail == k.kbd_head)) [
  | inl empty ↦ let n : held k ≡ 0 = ground arith in rw (empty, n) (refl, v)
  | inr more ↦
      let n : held k ≡ suc ((k.kbd_head + 256 - (k.kbd_tail + 1) % 256) % 256) = ground arith in
      rw (more, n) (refl, ground arith)
]

-- What happens to the driver: an interrupt with its scancode, or a read.
pub data Event : Type 0 where
  irq : ℕ → Event
  read : Event

-- The echo of each interrupt and the result of each read, in order.
unfoldable pub run : Keyboard → List Event → List (Option ℕ)
run k [] = []
run k (irq sc ∷ es) = let (out, k') = keyboard_handle_irq sc k in out ∷ run k' es
run k (read ∷ es) = let (out, k') = kbd_buffer_pop k in out ∷ run k' es

-- What a key means, apart from any buffer.
pub data Key : Type 0 where
  shift_down shift_up silent : Key
  char : ℕ → Key

pub classify : Bool → ℕ → Key
classify shift sc =
    if (sc == kbd_scancode_lshift) || (sc == kbd_scancode_rshift)
    then Key.shift_down
    else if (sc == kbd_scancode_lshift + 0x80) || (sc == kbd_scancode_rshift + 0x80)
    then Key.shift_up
    else if leb 0x80 sc
    then Key.silent
    else if translate shift sc == 0
    then Key.silent
    else Key.char (translate shift sc)

pub press : Key → Bool → List ℕ → Option ℕ × Bool × List ℕ
press Key.shift_down shift q = (none, true, q)
press Key.shift_up shift q = (none, false, q)
press Key.silent shift q = (none, shift, q)
press (Key.char c) shift q = (some c, shift, put c q)

-- The same events on a queue.
pub run_queue : Bool → List ℕ → List Event → List (Option ℕ)
run_queue shift q [] = []
run_queue shift q (irq sc ∷ es) =
    let (out, shift', q') = press (classify shift sc) shift q in out ∷ run_queue shift' q' es
run_queue shift q (read ∷ es) = let (out, q') = take_first q in out ∷ run_queue shift q' es

shift-push : (c : ℕ) (k : Keyboard) → (kbd_buffer_push c k).shift_held ≡ k.shift_held
unfolding kbd_buffer_push
shift-push c k = ground arith

-- One interrupt acts on the queue as its key does, and keeps the indices in the buffer.
pub irq_refines :
    (sc : ℕ) (k : Keyboard)
    → IsValid k
    → let (out, k') = keyboard_handle_irq sc k in
      ((out, k'.shift_held, contents k')
        ≡ press (classify k.shift_held sc) k.shift_held (contents k))
      × IsValid k'
unfolding keyboard_handle_irq classify press
irq_refines sc k v =
    ground (
      arith,
      push_refines (translate k.shift_held sc) k v,
      shift-push (translate k.shift_held sc) k,
    )

shift-pop : (k : Keyboard) → (kbd_buffer_pop k).1.shift_held ≡ k.shift_held
unfolding kbd_buffer_pop
shift-pop k = ground arith

-- No sequence of interrupts and reads tells the driver from a queue of at most 255 characters fed
-- by the key map.
pub run_refines :
    (es : List Event) (k : Keyboard) → IsValid k → run k es ≡ run_queue k.shift_held (contents k) es
unfolding run run_queue
run_refines [] k v = refl
run_refines (irq sc ∷ es) k v =
    let r = irq_refines sc k v in
    cc (
      run_refines es (keyboard_handle_irq sc k).1 r.1,
      ap (λ t. t.0) r.0,
      ap (λ t. t.1) r.0,
      ap (λ t. t.2) r.0,
    )
run_refines (read ∷ es) k v =
    let r = pop_refines k v in
    cc (run_refines es (kbd_buffer_pop k).1 r.1, shift-pop k, ap (λ t. t.0) r.0, ap (λ t. t.1) r.0)
