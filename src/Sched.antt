-- ===== src/Sched.antt =====
-- sched.c with kernel.h: the scheduler of the 32-bit kernel, for one CPU and without a lock.
mod Choice
mod Tests
use neka_kernel.Base.{
  ℕ, zero, suc, ◌+◌, ◌-◌, ◌*◌, ◌/◌, Bool, true, false, ◌&&◌, ◌||◌, not, Option, none, some, ltb,
  leb, ◌==◌, if◌then◌else◌, update, bit, set_bit,
}

abbrev pub max_threads : ℕ
max_threads = 16

abbrev pub num_priorities : ℕ
num_priorities = 8

abbrev pub stack_size : ℕ
stack_size = 4096

pub data ThreadState : Type 0 where
  thread_unused : ThreadState
  thread_ready : ThreadState
  thread_running : ThreadState
  thread_suspended : ThreadState

-- A thread is its index in `threads`, and `none` is the null pointer. The stack is an array of 4-byte
-- slots.
pub record Thread : Type 0 where
  pub esp : ℕ
  pub priority : ℕ
  pub state : ThreadState
  pub time_slice : ℕ
  pub stack : ℕ → ℕ
  pub name : ℕ
  pub next : Option ℕ

pub record Scheduler : Type 0 where
  pub ready_bitmap : ℕ
  pub ready_queue : ℕ → Option ℕ
  pub current : Option ℕ
  pub threads : ℕ → Thread
  pub thread_count : ℕ

-- The loop of `find_highest_bit`: `none` when it passes bit 0.
unfoldable pub highest_bit_from : ℕ → ℕ → Option ℕ
highest_bit_from bitmap zero = if bit bitmap 0 then some 0 else none
highest_bit_from bitmap (suc pos) =
    if bit bitmap (suc pos) then some (suc pos) else highest_bit_from bitmap pos

-- `none` stands for -1.
unfoldable pub find_highest_bit : ℕ → Option ℕ
unfolding highest_bit_from
find_highest_bit bitmap = if bitmap == 0 then none else highest_bit_from bitmap 31

unfoldable pub sched_init : Scheduler → Scheduler
sched_init s = record s {
  ready_bitmap = 0;
  ready_queue = λ i. if ltb i num_priorities then none else s.ready_queue i;
  current = none;
  thread_count = 0;
}

-- `for (int i = 0; i < n; i++) sp[i] = 0;`
unfoldable pub zero_slots : (ℕ → ℕ) → ℕ → ℕ → ℕ → ℕ
zero_slots stack sp zero = stack
zero_slots stack sp (suc n) = update (zero_slots stack sp n) (sp + n) 0

-- The stack of a new thread and its stack pointer, for an array of slots at `base`.
unfoldable pub first_stack : ℕ → ℕ → (ℕ → ℕ) → (ℕ → ℕ) × ℕ
unfolding zero_slots
first_stack base entry stack =
    let sp1 = stack_size / 4 - 1 in
    let sp2 = sp1 - 5 in (zero_slots (update stack sp1 entry) sp2 5, base + sp2 * 4)

-- `while (tail->next != head) tail = tail->next;`, with fuel: `none` means that the loop did not end,
-- or that it met a null pointer.
unfoldable pub ring_tail : ℕ → (ℕ → Thread) → ℕ → ℕ → Option ℕ
ring_tail zero threads head tail = none
ring_tail (suc fuel) threads head tail = elim (threads tail).next [
  | none ↦ none
  | some n ↦ let rest = ring_tail fuel threads head n in if n == head then some tail else rest
]

-- The new thread `t` at the end of the ring of its priority.
unfoldable pub insert : ℕ → ℕ → ℕ → Scheduler → Option Scheduler
unfolding ring_tail
insert fuel t priority s = elim (s.ready_queue priority) [
  | none ↦ some (record s {
    threads = update s.threads t (record (s.threads t) { next = some t });
    ready_queue = update s.ready_queue priority (some t);
  })
  | some head ↦ elim (ring_tail fuel s.threads head head) [
    | none ↦ none
    | some tail ↦
        let threads1 = update s.threads tail (record (s.threads tail) { next = some t }) in
        some (record s { threads = update threads1 t (record (threads1 t) { next = some head }) })
  ]
]

-- The returned pointer and the new state, for an entry point, a name and the address of each thread's
-- stack; `none` when the fuel for the loop over the ring runs out.
unfoldable pub sched_create_thread :
    ℕ → ℕ → ℕ → ℕ → (ℕ → ℕ) → Scheduler → Option (Option ℕ × Scheduler)
unfolding first_stack insert
sched_create_thread fuel entry priority name stack_base s =
    if leb max_threads s.thread_count || leb num_priorities priority
    then some (none, s)
    else let t = s.thread_count in
      let (stack, esp) = first_stack (stack_base t) entry (s.threads t).stack in
      let prepared = record s {
        thread_count = s.thread_count + 1;
        threads = update s.threads t (record {
          esp = esp;
          priority = priority;
          state = ThreadState.thread_ready;
          time_slice = 5;
          stack = stack;
          name = name;
          next = (s.threads t).next;
        });
      } in
      elim (insert fuel t priority prepared) [
        | none ↦ none
        | some s2 ↦ some (some t, record s2 { ready_bitmap = set_bit s2.ready_bitmap priority })
      ]

-- How `sched_reschedule` leaves: by a return, or by `context_switch` with the thread whose stack
-- pointer is saved (`none` for `dummy_esp`) and the stack pointer to load.
pub data Departure : Type 0 where
  returns : Departure
  switches : Option ℕ → ℕ → Departure

unfoldable pub is_same : Option ℕ → ℕ → Bool
is_same none t = false
is_same (some u) t = u == t

-- `if (head == prev && head->next != head) …`: the thread to run, and the heads of the rings.
unfoldable pub choose : ℕ → ℕ → Scheduler → ℕ × (ℕ → Option ℕ)
unfolding is_same
choose prio head s = elim (s.threads head).next [
  | none ↦ (head, s.ready_queue)
  | some n ↦
      if is_same s.current head && not (n == head)
      then (n, update s.ready_queue prio (some n))
      else (head, s.ready_queue)
]

unfoldable pub change_state : ℕ → ThreadState → (ℕ → Thread) → ℕ → Thread
change_state t state threads = update threads t (record (threads t) { state = state })

-- The part behind the choice.
unfoldable pub depart : ℕ → Scheduler → Departure × Scheduler
unfolding is_same change_state
depart next s =
    let threads1 = change_state next ThreadState.thread_running s.threads in
    let threads2 : ℕ → Thread = elim s.current [
      | none ↦ threads1
      | some p ↦ change_state p ThreadState.thread_ready threads1
    ] in
    if is_same s.current next then (Departure.returns, s) else (
      Departure.switches s.current (threads2 next).esp,
      record s { current = some next; threads = threads2 },
    )

-- `none` for a priority whose bit is set while its ring is empty: the source then reads through a null
-- pointer.
unfoldable pub sched_reschedule : Scheduler → Option (Departure × Scheduler)
unfolding find_highest_bit choose depart
sched_reschedule s = elim (find_highest_bit s.ready_bitmap) [
  | none ↦ some (Departure.returns, s)
  | some prio ↦ elim (s.ready_queue prio) [
    | none ↦ none
    | some head ↦
        let (next, queue) = choose prio head s in
        some (depart next (record s { ready_queue = queue }))
  ]
]

unfoldable pub sched_yield : Scheduler → Option (Departure × Scheduler)
unfolding sched_reschedule
sched_yield s = sched_reschedule s

unfoldable pub sched_current : Scheduler → Option ℕ
sched_current s = s.current

unfoldable pub sched_timer_tick : Scheduler → Option (Departure × Scheduler)
unfolding sched_reschedule
sched_timer_tick s = elim s.current [
  | none ↦ some (Departure.returns, s)
  | some c ↦
      let t = s.threads c in
      let with_slice : ℕ → Scheduler =
        λ n. record s { threads = update s.threads c (record t { time_slice = n }) } in
      let again = sched_reschedule (with_slice 5) in
      if ltb 0 t.time_slice
      then if (t.time_slice - 1) == 0
        then again
        else some (Departure.returns, with_slice (t.time_slice - 1))
      else some (Departure.returns, s)
]
