-- ===== src/Main.antt =====
-- main.c: the boot of the 32-bit kernel, and its three threads, which yield to one another.
mod Yielding
mod Rounds
mod Tests
use Prim.Native.String.{String}
use neka_kernel.Base.{
  ℕ, zero, suc, ◌+◌, ◌-◌, ◌/◌, ◌%◌, update, ◌^◌, Option, none, some, List, ◌∷◌, ◌++◌, ◌==◌,
  if◌then◌else◌, characters_of,
}
use neka_kernel.Sched.{
  stack_size, Scheduler, sched_init, sched_create_thread, sched_reschedule, sched_yield,
  sched_current,
}
use neka_kernel.Terminal.{Terminal, terminal_init, terminal_writestring, terminal_write_hex}
use neka_kernel.Timer.{Ports, pic_remap, timer_init}

-- The static variables of all files, with the writes to the ports, and the code that each thread runs,
-- as its entry point.
pub record Kernel32 : Type 0 where
  pub terminal : Terminal
  pub ports : Ports
  pub scheduler : Scheduler
  pub counter_a : ℕ
  pub counter_b : ℕ
  pub counter_c : ℕ
  pub code : ℕ → ℕ

-- The entry point and the name of a thread, as the linker places them, and those of all three.
pub record Linked : Type 0 where
  pub entry : ℕ
  pub name : ℕ

pub record Program : Type 0 where
  pub a : Linked
  pub b : Linked
  pub c : Linked

abbrev pub write : String → Terminal → Terminal
write s t = terminal_writestring (characters_of s) t

abbrev pub tick_line : String → ℕ → Terminal → Terminal
tick_line label counter t = write "\n" (terminal_write_hex counter (write label t))

-- `none` for a null pointer in `sched_reschedule`.
unfoldable pub yield : Kernel32 → Option Kernel32
yield k = elim (sched_yield k.scheduler) [
  | none ↦ none
  | some r ↦ some (record k { scheduler = r.1 })
]

-- One round of the loop of each thread. The next round begins when a switch comes back to it.
unfoldable pub thread_a : Kernel32 → Option Kernel32
unfolding yield
thread_a k =
    let c = (k.counter_a + 1) % 2 ^ 32 in
    yield (record k { counter_a = c; terminal = tick_line "[A] tick " c k.terminal })

unfoldable pub thread_b : Kernel32 → Option Kernel32
unfolding yield
thread_b k =
    let c = (k.counter_b + 1) % 2 ^ 32 in
    yield (record k { counter_b = c; terminal = tick_line "  [B] tick " c k.terminal })

unfoldable pub thread_c_low_priority : Kernel32 → Option Kernel32
unfolding yield
thread_c_low_priority k =
    let c = (k.counter_c + 1) % 2 ^ 32 in
    yield (record k { counter_c = c; terminal = tick_line "    [C low-prio] tick " c k.terminal })

-- A new thread begins where its first `context_switch` returns to: behind the five registers.
abbrev pub began : Option ℕ → Scheduler → (ℕ → ℕ) → ℕ → ℕ
began none s code = code
began (some t) s code = update code t ((s.threads t).stack (stack_size / 4 - 1))

-- A call of `sched_create_thread`, whose result is not looked at; `none` when the fuel for the loop
-- over a ring runs out.
unfoldable pub create : ℕ → Linked → ℕ → (ℕ → ℕ) → Kernel32 → Option Kernel32
create fuel l priority stacks k =
    elim (sched_create_thread fuel l.entry priority l.name stacks k.scheduler) [
      | none ↦ none
      | some (t, s) ↦ some (record k { scheduler = s; code = began t s k.code })
    ]

-- "   NEKA — New EKA (bitmap scheduler)   \n", with the three bytes of the dash.
abbrev pub title : List ℕ
title =
    characters_of "   NEKA "
    ++ (0xe2 ∷ 0x80 ∷ 0x94 ∷ characters_of " New EKA (bitmap scheduler)   \n")

-- `kernel_main` up to its threads, for the addresses of the stacks.
unfoldable pub set_up : ℕ → Kernel32 → Kernel32
set_up magic k =
    let t1 = write "========================================\n" (terminal_init k.terminal) in
    let t2 = terminal_writestring title t1 in
    let t3 = write "========================================\n" t2 in
    record k {
      terminal =
          if magic == 0x2bad_b002
          then t3
          else write "WARNING: not booted by multiboot loader!\n" t3;
      ports = timer_init 100 (pic_remap k.ports);
      scheduler = sched_init k.scheduler;
    }

-- The whole function up to its loop.
unfoldable pub kernel_main : ℕ → ℕ → Program → (ℕ → ℕ) → Kernel32 → Option Kernel32
unfolding set_up create
kernel_main fuel magic p stacks k = elim (create fuel p.a 5 stacks (set_up magic k)) [
  | none ↦ none
  | some k1 ↦ elim (create fuel p.b 5 stacks k1) [
    | none ↦ none
    | some k2 ↦ elim (create fuel p.c 2 stacks k2) [
      | none ↦ none
      | some k3 ↦ some (record k3 { terminal = write "Starting scheduler...\n\n" k3.terminal })
    ]
  ]
]

-- The first call in the loop, which switches to a thread.
unfoldable pub start : Kernel32 → Option Kernel32
start k = elim (sched_reschedule k.scheduler) [
  | none ↦ none
  | some r ↦ some (record k { scheduler = r.1 })
]

-- A round of the code that the current thread runs. Without one the processor waits.
unfoldable pub run_thread : Program → Option ℕ → Kernel32 → Option Kernel32
unfolding thread_a thread_b thread_c_low_priority
run_thread p none k = some k
run_thread p (some t) k =
    if k.code t == p.a.entry
    then thread_a k
    else if k.code t == p.b.entry
    then thread_b k
    else thread_c_low_priority k

unfoldable pub run_round : Program → Kernel32 → Option Kernel32
unfolding run_thread
run_round p k = run_thread p (sched_current k.scheduler) k

unfoldable pub run_rounds : Program → ℕ → Kernel32 → Option Kernel32
unfolding run_round
run_rounds p zero k = some k
run_rounds p (suc n) k = elim (run_rounds p n k) [ none ↦ none | some k1 ↦ run_round p k1 ]
