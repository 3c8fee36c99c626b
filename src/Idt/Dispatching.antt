-- ===== src/Idt/Dispatching.antt =====
-- idt.c: what the dispatch of an interrupt changes.
use neka_kernel.Base.{
  ℕ, ◌+◌, ◌%◌, ◌^◌, ◌<◌, ◌≡◌, ◌≢◌, inl, inr, refl, sym, ap, ◌∙◌, arith, Bool, true, false, ◌||◌,
  ◌&&◌, not, List, Option, none, some, ltb, ltb→lt, ltb→le, ◌==◌, if◌then◌else◌, Bool-cases, ==→eq,
  ==→ne,
}
use mathlib.Core.Path.{subst}
use neka_kernel.Keyboard.{keyboard_handle_irq}
use neka_kernel.Keyboard.Refine.{IsValid, irq_refines}
use neka_kernel.Sched64.{Tick, sched64_timer_tick}
use neka_kernel.Terminal64.{Call}
use neka_kernel.Terminal64.Screen.{IsOnScreen}
use neka_kernel.Terminal64.Calls.{print_calls_stay}
use neka_kernel.Idt.{
  InterruptFrame, vector, rax, rdi, cs, Machine, Dispatch, returns, halts, reschedules,
  lapic_send_eoi, print, print_char_call, exception_report, print_due, confirm, tick_ends,
  timer_interrupt, echo, keyboard_interrupt, interrupt_dispatch,
}

-- The console and the keyboard's ring are in order.
abbrev pub IsInOrder : Machine → Type 0
IsInOrder m = IsOnScreen m.terminal × IsValid m.keyboard

-- The machine as the dispatch leaves it, before a reschedule.
abbrev pub machine_of : Dispatch → Machine
machine_of (returns m) = m
machine_of (halts m) = m
machine_of (reschedules m r) = m

abbrev pub has_halted : Dispatch → Bool
has_halted (returns m) = false
has_halted (halts m) = true
has_halted (reschedules m r) = false

-- What holds when an interrupt has been served.
pub record IsServed (v : ℕ) (m : Machine) (d : Dispatch) : Type 0 where
  pub in_order : IsInOrder (machine_of d)
  pub eois : (machine_of d).eois ≡ m.eois + (if (v == 32) || (v == 33) then 1 else 0)
  pub halted : has_halted d ≡ ltb v 32
  pub keyboard : v ≢ 33 → (machine_of d).keyboard ≡ m.keyboard
  pub scheduler : v ≢ 32 → (machine_of d).scheduler ≡ m.scheduler
  pub calls : v ≢ 128 → (machine_of d).call_count ≡ m.call_count

module _ (m : Machine) (o : IsInOrder m) where
  print-IsInOrder : (calls : List Call) → IsInOrder (print calls m)
  print-IsInOrder calls = ((print_calls_stay calls m.terminal o.0).0, o.1)

-- The timer changes the scheduler alone.
tick-IsServed :
    (m : Machine) (t : Tick)
    → IsInOrder m
    → IsServed 32 m (tick_ends (record m { eois = m.eois + 1 }) t)
tick-IsServed m (Tick.ticks s) o = record {
  in_order = o;
  eois = refl;
  halted = refl;
  keyboard = λ d. refl;
  scheduler = λ d. absurd (d refl);
  calls = λ d. refl;
}
tick-IsServed m (Tick.requests s) o = record {
  in_order = o;
  eois = refl;
  halted = refl;
  keyboard = λ d. refl;
  scheduler = λ d. absurd (d refl);
  calls = λ d. refl;
}
tick-IsServed m (Tick.reschedules r) o = record {
  in_order = o;
  eois = refl;
  halted = refl;
  keyboard = λ d. refl;
  scheduler = λ d. refl;
  calls = λ d. refl;
}

timer-IsServed : (cpu : ℕ) (m : Machine) → IsInOrder m → IsServed 32 m (timer_interrupt cpu m)
unfolding timer_interrupt lapic_send_eoi
timer-IsServed cpu m o = tick-IsServed m (sched64_timer_tick cpu m.scheduler) o

-- An echo changes the console alone.
echo_keeps :
    (c : Option ℕ) (m : Machine)
    → IsInOrder m
    → IsInOrder (echo c m)
      × ((echo c m).eois ≡ m.eois)
      × ((echo c m).scheduler ≡ m.scheduler)
      × ((echo c m).call_count ≡ m.call_count)
echo_keeps none m o = (o, refl, refl, refl)
echo_keeps (some c) m o = (print-IsInOrder m o _, refl, refl, refl)

keyboard-IsServed :
    (scancode : ℕ) (m : Machine)
    → IsInOrder m
    → IsServed 33 m (returns (keyboard_interrupt scancode m))
unfolding keyboard_interrupt lapic_send_eoi
keyboard-IsServed scancode m o =
    let next = keyboard_handle_irq scancode m.keyboard in
    let valid = (irq_refines scancode m.keyboard o.1).1 in
    let e = echo_keeps next.0 (record m { keyboard = next.1 }) (o.0, valid) in
    record {
      in_order = e.0;
      eois = ap (λ (n : ℕ). n + 1) e.1;
      halted = refl;
      keyboard = λ d. absurd (d refl);
      scheduler = λ d. e.2;
      calls = λ d. e.3;
    }

-- A system call changes the console and its own counters.
abbrev IsQuiet : Machine → Machine → Type 0
IsQuiet m m' =
    IsInOrder m' × (m'.eois ≡ m.eois) × (m'.scheduler ≡ m.scheduler) × (m'.keyboard ≡ m.keyboard)

due-IsQuiet : (c : ℕ) (m : Machine) → IsInOrder m → IsQuiet m (print_due c m)
unfolding print_due
due-IsQuiet c m o = elim (Bool-cases (m.call_count % 300000 == 1)) [
  | inl e ↦ rw e (print-IsInOrder m o _, refl, refl, refl)
  | inr e ↦ rw e (o, refl, refl, refl)
]

confirm-IsQuiet : (r : Bool) (m : Machine) → IsInOrder m → IsQuiet m (confirm r m)
unfolding confirm
confirm-IsQuiet r m o = elim (Bool-cases (r && not m.shown)) [
  | inl e ↦ rw e (print-IsInOrder (record m { shown = true }) o _, refl, refl, refl)
  | inr e ↦ rw e (o, refl, refl, refl)
]

call-IsQuiet : (r : Bool) (c : ℕ) (m : Machine) → IsInOrder m → IsQuiet m (print_char_call r c m)
unfolding print_char_call
call-IsQuiet r c m o =
    let m1 = record m { call_count = (m.call_count + 1) % 2 ^ 32 } in
    let d = due-IsQuiet c m1 o in
    let f = confirm-IsQuiet r (print_due c m1) d.0 in (f.0, f.1 ∙ d.1, f.2 ∙ d.2, f.3 ∙ d.3)

quiet-IsServed : (m m' : Machine) → IsQuiet m m' → IsServed 128 m (returns m')
quiet-IsServed m m' q = record {
  in_order = q.0;
  eois = omega (arith, q.1);
  halted = refl;
  keyboard = λ d. q.3;
  scheduler = λ d. q.2;
  calls = λ d. absurd (d refl);
}

-- A frame without a handler changes nothing.
idle-IsServed : (v : ℕ) (m : Machine) → IsInOrder m → 32 < v → v ≢ 33 → IsServed v m (returns m)
idle-IsServed v m o high d = record {
  in_order = o;
  eois = ground arith;
  halted = ground arith;
  keyboard = λ e. refl;
  scheduler = λ e. refl;
  calls = λ e. refl;
}

halt-IsServed :
    (v : ℕ) (m : Machine) (calls : List Call)
    → IsInOrder m
    → v < 32
    → IsServed v m (halts (print calls m))
halt-IsServed v m calls o low = record {
  in_order = print-IsInOrder m o calls;
  eois = ground arith;
  halted = ground arith;
  keyboard = λ e. refl;
  scheduler = λ e. refl;
  calls = λ e. refl;
}

first_of : (a b : Bool) → (a && b) ≡ true → a ≡ true
first_of true b h = refl
first_of false b h = h

-- Whatever the interrupt, the console's cursor and the keyboard's ring stay in order. The local APIC
-- gets one EOI for the timer and for the keyboard, and none otherwise. Exceptions, and nothing else,
-- halt. Only the keyboard's vector changes its state, only the timer's the scheduler, and only the
-- system call's the count of calls.
pub interrupt_dispatch_serves :
    (cpu scancode : ℕ) (f : InterruptFrame) (m : Machine)
    → IsInOrder m
    → IsServed (vector f) m (interrupt_dispatch cpu scancode f m)
unfolding interrupt_dispatch
interrupt_dispatch_serves cpu scancode f m o = elim (Bool-cases (ltb (vector f) 32)) [
  | inl low ↦ rw low (halt-IsServed (vector f) m (exception_report f) o (ltb→lt _ _ low))
  | inr high ↦ elim (Bool-cases (vector f == 32)) [
    | inl e ↦ rw (==→eq _ _ e) (timer-IsServed cpu m o)
    | inr d ↦ elim (Bool-cases (vector f == 33)) [
      | inl e ↦ rw (==→eq _ _ e) (keyboard-IsServed scancode m o)
      | inr k ↦ elim (Bool-cases ((vector f == 128) && (rax f == 1))) [
        | inl e ↦
            rw (high, d, k, e)
              (subst (λ v. IsServed v m (returns (print_char_call (cs f % 4 == 3) (rdi f) m)))
                (sym (==→eq _ _ (first_of _ _ e)))
                (quiet-IsServed m _ (call-IsQuiet (cs f % 4 == 3) (rdi f) m o)))
        | inr e ↦
            rw (high, d, k, e)
              (idle-IsServed (vector f) m o (omega (arith, ltb→le _ _ high, ==→ne _ _ d))
                (==→ne _ _ k))
      ]
    ]
  ]
]
