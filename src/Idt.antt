-- ===== src/Idt.antt =====
-- idt.c with idt.h: the table of gates, and the dispatch of interrupts.
pub mod Gates
mod Dispatching
mod Tests
use Prim.Native.String.{String}
use neka_kernel.Base.{
  ℕ, zero, suc, ◌+◌, ◌-◌, ◌*◌, ◌/◌, ◌%◌, ◌^◌, bit_or, Bool, true, false, ◌&&◌, ◌||◌, not, List, [],
  ◌∷◌, ◌++◌, Option, none, some, ltb, ◌==◌, if◌then◌else◌, update, get_or,
}
use neka_kernel.Keyboard.{Keyboard, keyboard_handle_irq}
use neka_kernel.Sched64.{Scheduler64, Outcome, Tick, sched64_timer_tick}
use neka_kernel.Terminal64.{Terminal64, Call, text, char, hex64, print_calls}

pub record Gate : Type 0 where
  pub offset_low : ℕ
  pub selector : ℕ
  pub ist : ℕ
  pub type_attr : ℕ
  pub offset_mid : ℕ
  pub offset_high : ℕ
  pub zeros : ℕ

-- `idt` and `idt_ptr` with the address of the table, and IDTR of the CPU that runs the code.
pub record Idt : Type 0 where
  pub idt : ℕ → Gate
  pub idt_address : ℕ
  pub idt_ptr : ℕ × ℕ
  pub idtr : ℕ × ℕ

unfoldable pub idt_set_gate : ℕ → ℕ → ℕ → ℕ → Idt → Idt
idt_set_gate vector handler ist dpl s = record s {
  idt = update s.idt vector (record {
    offset_low = handler % 2 ^ 16;
    selector = 0x08;
    ist = ist;
    type_attr = bit_or (bit_or 0x80 (dpl % 4 * 2 ^ 5)) 0x0e;
    offset_mid = handler / 2 ^ 16 % 2 ^ 16;
    offset_high = handler / 2 ^ 32 % 2 ^ 32;
    zeros = 0;
  });
}

-- The calls for the first `n` vectors, with the addresses of `isr0`, `isr1`, and so on.
unfoldable pub set_gates : (ℕ → ℕ) → ℕ → Idt → Idt
unfolding idt_set_gate
set_gates isr zero s = s
set_gates isr (suc n) s = idt_set_gate n (isr n) 0 0 (set_gates isr n s)

unfoldable pub idt_load_current_cpu : Idt → Idt
idt_load_current_cpu s = record s { idtr = s.idt_ptr }

unfoldable pub idt_init : (ℕ → ℕ) → Idt → Idt
unfolding idt_set_gate set_gates idt_load_current_cpu
idt_init isr s =
    let s1 = record s { idt_ptr = (256 * 16 - 1, s.idt_address) } in
    idt_load_current_cpu (idt_set_gate 128 (isr 128) 0 3 (set_gates isr 34 s1))

-- `interrupt_frame_t` as the memory from its address on, in slots of 8 bytes.
pub record InterruptFrame : Type 0 where
  pub address : ℕ
  pub slots : ℕ → ℕ

module _ (f : InterruptFrame) where
  abbrev pub rdi : ℕ
  rdi = f.slots 9

  abbrev pub rax : ℕ
  rax = f.slots 14

  abbrev pub vector : ℕ
  vector = f.slots 15

  abbrev pub error_code : ℕ
  error_code = f.slots 16

  abbrev pub rip : ℕ
  rip = f.slots 17

  abbrev pub cs : ℕ
  cs = f.slots 18

  abbrev pub rflags : ℕ
  rflags = f.slots 19

abbrev pub names : List String
names =
    "Divide Error" ∷ "Debug" ∷ "NMI" ∷ "Breakpoint" ∷ "Overflow" ∷ "Bound Range Exceeded"
    ∷ "Invalid Opcode" ∷ "Device Not Available" ∷ "Double Fault" ∷ "Coprocessor Segment Overrun"
    ∷ "Invalid TSS" ∷ "Segment Not Present" ∷ "Stack-Segment Fault" ∷ "General Protection Fault"
    ∷ "Page Fault" ∷ "Reserved" ∷ "x87 FPU Error" ∷ "Alignment Check" ∷ "Machine Check"
    ∷ "SIMD FP Exception" ∷ "Virtualization Exception" ∷ "Control Protection" ∷ "Reserved"
    ∷ "Reserved" ∷ "Reserved" ∷ "Reserved" ∷ "Reserved" ∷ "Reserved" ∷ "Hypervisor Injection"
    ∷ "VMM Communication" ∷ "Security Exception" ∷ "Reserved" ∷ []

unfoldable pub exception_name : ℕ → String
exception_name v = if ltb v 32 then get_or names v "" else "Unknown"

-- The last `n` rounds of the loop that dumps the stack, from round `i` on.
unfoldable pub stack_dump : InterruptFrame → ℕ → ℕ → List Call
stack_dump f i zero = []
stack_dump f i (suc n) =
    text "[diag] f["
    ∷ hex64 i
    ∷ text "] = "
    ∷ hex64 (f.slots i)
    ∷ text "\n"
    ∷ stack_dump f (i + 1) n

unfoldable pub exception_report : InterruptFrame → List Call
unfolding exception_name stack_dump
exception_report f =
    text "\n*** EXCEPTION: "
    ∷ text (exception_name (vector f))
    ∷ text " (vector "
    ∷ hex64 (vector f)
    ∷ text ", error_code "
    ∷ hex64 (error_code f)
    ∷ text ")\nRIP="
    ∷ hex64 (rip f)
    ∷ text " RSP-frame CS="
    ∷ hex64 (cs f)
    ∷ text " RFLAGS="
    ∷ hex64 (rflags f)
    ∷ text "\nHalting kernel (no recovery implemented).\n"
    ∷ text "[diag] frame ptr f = "
    ∷ hex64 f.address
    ∷ text "\n"
    ∷ stack_dump f 0 24

-- What the handlers change: the parts of the system, the number of EOI writes to the local APIC, and
-- the two counters of the system call.
pub record Machine : Type 0 where
  pub keyboard : Keyboard
  pub scheduler : Scheduler64
  pub terminal : Terminal64
  pub eois : ℕ
  pub call_count : ℕ
  pub shown : Bool

-- How the dispatch ends: it returns, it halts behind the report of an exception, or its tick calls
-- `sched64_reschedule` with that outcome.
pub data Dispatch : Type 0 where
  returns : Machine → Dispatch
  halts : Machine → Dispatch
  reschedules : Machine → Option (Outcome × Scheduler64) → Dispatch

unfoldable pub lapic_send_eoi : Machine → Machine
lapic_send_eoi m = record m { eois = m.eois + 1 }

abbrev pub print : List Call → Machine → Machine
print calls m = record m { terminal = print_calls calls m.terminal }

-- Every 300000th character is printed.
unfoldable pub print_due : ℕ → Machine → Machine
print_due rdi m =
    if m.call_count % 300000 == 1
    then print
        (text "[ring3] "
          ∷ char (rdi % 2 ^ 8)
          ∷ text " (syscall #"
          ∷ hex64 m.call_count
          ∷ text ")\n"
          ∷ [])
        m
    else m

-- The first call from ring 3 is confirmed.
unfoldable pub confirm : Bool → Machine → Machine
confirm from_ring3 m =
    if from_ring3 && not m.shown
    then print (text "[syscall] confirmed genuine CPL3 caller (CS&3==3)\n" ∷ [])
        (record m { shown = true })
    else m

-- System call 1.
unfoldable pub print_char_call : Bool → ℕ → Machine → Machine
unfolding print_due confirm
print_char_call from_ring3 rdi m =
    confirm from_ring3 (print_due rdi (record m { call_count = (m.call_count + 1) % 2 ^ 32 }))

abbrev pub tick_ends : Machine → Tick → Dispatch
tick_ends m (Tick.ticks s) = Dispatch.returns (record m { scheduler = s })
tick_ends m (Tick.requests s) = Dispatch.returns (record m { scheduler = s })
tick_ends m (Tick.reschedules r) = Dispatch.reschedules m r

-- IRQ0, on the CPU `cpu`: the EOI goes out before the tick.
unfoldable pub timer_interrupt : ℕ → Machine → Dispatch
unfolding lapic_send_eoi
timer_interrupt cpu m0 =
    let m = lapic_send_eoi m0 in tick_ends m (sched64_timer_tick cpu m.scheduler)

-- The echo at the end of `keyboard_handle_irq`.
abbrev pub echo : Option ℕ → Machine → Machine
echo none m = m
echo (some c) m = print (text "[kbd] key: '" ∷ char c ∷ text "'\n" ∷ []) m

-- IRQ1 with the byte that waits at port 0x60.
unfoldable pub keyboard_interrupt : ℕ → Machine → Machine
unfolding lapic_send_eoi
keyboard_interrupt scancode m =
    let (c, k) = keyboard_handle_irq scancode m.keyboard in
    lapic_send_eoi (echo c (record m { keyboard = k }))

unfoldable pub interrupt_dispatch : ℕ → ℕ → InterruptFrame → Machine → Dispatch
unfolding timer_interrupt keyboard_interrupt print_char_call
interrupt_dispatch cpu scancode f m =
    if ltb (vector f) 32
    then Dispatch.halts (print (exception_report f) m)
    else if vector f == 32
    then timer_interrupt cpu m
    else if vector f == 33
    then Dispatch.returns (keyboard_interrupt scancode m)
    else if (vector f == 128) && (rax f == 1)
    then Dispatch.returns (print_char_call (cs f % 4 == 3) (rdi f) m)
    else Dispatch.returns m
