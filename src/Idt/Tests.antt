-- ===== src/Idt/Tests.antt =====
-- idt.c: the theorems at a table without gates, and at a key press on an idle machine.
use neka_kernel.Base.{ℕ, ◌*◌, ◌-◌, ◌<◌, ◌≤◌, ◌≡◌, ◌≢◌, arith, none, false, [], ◌==◌, if◌then◌else◌}
use neka_kernel.Sched64.{Scheduler64, Thread64, Thread64State}
use neka_kernel.Idt.{Gate, Idt, idt_init, InterruptFrame, Machine, interrupt_dispatch}
use neka_kernel.Idt.Gates.{IsEntry, idt_init_correct}
use neka_kernel.Idt.Dispatching.{IsInOrder, IsServed, interrupt_dispatch_serves}

abbrev no_gate : Gate
no_gate = record {
  offset_low = 0;
  selector = 0;
  ist = 0;
  type_attr = 0;
  offset_mid = 0;
  offset_high = 0;
  zeros = 0;
}

abbrev empty : Idt
empty = record { idt = λ v. no_gate; idt_address = 0x20_0000; idt_ptr = (0, 0); idtr = (0, 0) }

-- The stubs lie 16 bytes apart.
abbrev stub : ℕ → ℕ
stub v = if v == 128 then 0x10_1000 else if v == 0 then 0x10_0000 else 0x10_0010

idt_init_correct_example :
    let s' = idt_init stub empty in
    (s'.idtr ≡ (256 * 16 - 1, 0x20_0000))
    × ((v : ℕ) → v < 34 → IsEntry (s'.idt v) (stub v) 0)
    × IsEntry (s'.idt 128) (stub 128) 3
    × ((v : ℕ) → 34 ≤ v → v ≢ 128 → s'.idt v ≡ no_gate)
idt_init_correct_example = idt_init_correct stub empty (λ v. ground arith)

abbrev no_thread : Thread64
no_thread = record {
  rsp = 0;
  cr3 = 0;
  priority = 0;
  state = Thread64State.t64_unused;
  time_slice = 0;
  stack = λ i. 0;
  name = 0;
  next = none;
}

abbrev idle_scheduler : Scheduler64
idle_scheduler = record {
  ready_bitmap = 0;
  ready_queue = λ p. none;
  current = λ c. none;
  threads64 = λ t. no_thread;
  thread64_count = 0;
  loaded_cr3 = λ c. 0;
  nkern = record {
    preempt_disable_count = λ c. 0;
    reschedule_pending = λ c. false;
    saved_if = λ c. false;
    big_kernel_lock = false;
    interrupts = λ c. false;
  };
}

abbrev machine : Machine
machine = record {
  keyboard = record { shift_held = false; kbd_buffer = λ i. 0; kbd_head = 0; kbd_tail = 0 };
  scheduler = idle_scheduler;
  terminal = record { vga_memory = λ i. 0; term_row = 24; term_col = 79; serial = [] };
  eois = 0;
  call_count = 0;
  shown = false;
}

machine-IsInOrder : IsInOrder machine
machine-IsInOrder = omega arith

-- The key `a`.
abbrev key_frame : InterruptFrame
key_frame = record { address = 0x30_0000; slots = λ i. if i == 15 then 33 else 0 }

interrupt_dispatch_serves_example :
    IsServed 33 machine (interrupt_dispatch 0 0x1e key_frame machine)
interrupt_dispatch_serves_example =
    interrupt_dispatch_serves 0 0x1e key_frame machine machine-IsInOrder
