-- ===== src/Smp/Tests.antt =====
-- smp.c: the theorem at three CPUs, of which the boot CPU has the id 0 and the last does not answer.
use neka_kernel.Base.{ℕ, ◌-◌, Bool, true, false, List, [], ◌∷◌, none, ltb}
use neka_kernel.Heap.{Heap, heap_size, heap_init}
use neka_kernel.Heap.Cells.{Cell}
use neka_kernel.Nkern.{Nkern}
use neka_kernel.Smp.{Board, Smp}

abbrev arena : ℕ
arena = 0x10_0000

abbrev blank : Heap
blank = record {
  heap_list = 0;
  block = λ b. record { size = 0; free = false; next = 0; prev = 0 };
  word = λ a. 0;
}

abbrev fresh : Heap
fresh = heap_init arena blank

abbrev one_cell : List Cell
one_cell = record { size = heap_size - 32; free = true } ∷ []

abbrev board : Board
board = record {
  blob = λ i. 0x90;
  blob_size = 0x120;
  kernel_cr3 = 0x20_0000;
  gdt_ptr_addr = 0x20_1000;
  ap_entry64 = 0x20_2000;
  bsp_id = 0;
  answers = λ id l. ltb id 2;
}

-- The CPUs 0 and 1 work.
abbrev two_work : ℕ → Bool
two_work id = ltb id 2

abbrev idle : Smp
idle = record { ap_ready = λ i. false; g_ap_index_starting = none; memory = λ a. 0; ipis = [] }

abbrev unlocked : Nkern
unlocked = record {
  preempt_disable_count = λ c. 0;
  reschedule_pending = λ c. false;
  saved_if = λ c. false;
  big_kernel_lock = false;
  interrupts = λ c. true;
}

abbrev ids : List ℕ
ids = 0 ∷ 1 ∷ 2 ∷ []
