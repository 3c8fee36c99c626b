-- ===== src/Main/Tests.antt =====
-- main.c: the theorem at memory that the loader has cleared, after seven rounds.
use neka_kernel.Base.{ℕ, ◌+◌, ◌*◌, none, []}
use neka_kernel.Sched.{ThreadState}
use neka_kernel.Main.{Kernel32, Linked, Program}

abbrev at : ℕ → Linked
at entry = record { entry = entry; name = 0x10_8000 }

abbrev stacks : ℕ → ℕ
stacks t = 0x11_0000 + t * 0x1020

abbrev cleared : Kernel32
cleared = record {
  terminal = record {
    vga_memory = λ i. 0;
    term_row = 0;
    term_col = 0;
    term_color = 0x0a;
    serial = [];
  };
  ports = [];
  scheduler = record {
    ready_bitmap = 0;
    ready_queue = λ p. none;
    current = none;
    threads = λ t. record {
      esp = 0;
      priority = 0;
      state = ThreadState.thread_unused;
      time_slice = 0;
      stack = λ i. 0;
      name = 0;
      next = none;
    };
    thread_count = 0;
  };
  counter_a = 0;
  counter_b = 0;
  counter_c = 0;
  code = λ t. 0;
}

abbrev program : Program
program = record { a = at 0x10_1000; b = at 0x10_2000; c = at 0x10_3000 }
