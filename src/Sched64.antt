-- ===== src/Sched64.antt =====
-- sched64.c: the scheduler. The threads of a priority form a ring through their `next` fields, and
-- `ready_queue` points to its head.
pub mod Rings
mod Sharing
mod Ticks
mod Bitmap
pub mod Queues
mod Joins
pub mod Create
pub mod Turns
mod Switch
pub mod Reschedule
mod Fairness
mod Tests
use neka_kernel.Base.{
  ℕ, zero, suc, ◌+◌, ◌-◌, ◌*◌, ◌/◌, ◌≡◌, ◌≢◌, Bool, true, false, ◌&&◌, ◌||◌, not, Option, none,
  some, ltb, leb, ◌==◌, if◌then◌else◌, update, bit, set_bit,
}
use neka_kernel.Nkern.{
  Nkern, nkern_is_locked, nkern_request_reschedule, nkern_lock_for_switch,
  nkern_unlock_after_switch,
}

abbrev pub max_threads64 : ℕ
max_threads64 = 16

abbrev pub num_priorities64 : ℕ
num_priorities64 = 8

abbrev pub stack_size64 : ℕ
stack_size64 = 8192

pub data Thread64State : Type 0 where
  t64_unused : Thread64State
  t64_ready : Thread64State
  t64_running : Thread64State

-- A thread is its index in `threads64`, and `none` is the null pointer. The stack is an array of
-- 8-byte slots.
pub record Thread64 : Type 0 where
  pub rsp : ℕ
  pub cr3 : ℕ
  pub priority : ℕ
  pub state : Thread64State
  pub time_slice : ℕ
  pub stack : ℕ → ℕ
  pub name : ℕ
  pub next : Option ℕ

-- `scheduler64_t` with the static variables of the file, and the state of nkern_lock.c.
pub record Scheduler64 : Type 0 where
  pub ready_bitmap : ℕ
  pub ready_queue : ℕ → Option ℕ
  pub current : ℕ → Option ℕ
  pub threads64 : ℕ → Thread64
  pub thread64_count : ℕ
  pub loaded_cr3 : ℕ → ℕ
  pub nkern : Nkern

-- The loop of `find_highest_bit64`: `none` when it passes bit 0.
unfoldable pub highest_from : ℕ → ℕ → Option ℕ
highest_from bitmap zero = if bit bitmap 0 then some 0 else none
highest_from bitmap (suc pos) =
    if bit bitmap (suc pos) then some (suc pos) else highest_from bitmap pos

-- `none` stands for -1.
unfoldable pub find_highest_bit64 : ℕ → Option ℕ
unfolding highest_from
find_highest_bit64 bitmap = if bitmap == 0 then none else highest_from bitmap 31

unfoldable pub sched64_init : Scheduler64 → Scheduler64
sched64_init s = record s {
  ready_bitmap = 0;
  ready_queue = λ i. if ltb i num_priorities64 then none else s.ready_queue i;
  current = λ i. if ltb i 16 then none else s.current i;
  thread64_count = 0;
}

-- `for (int i = 0; i < n; i++) sp[i] = 0;`
unfoldable pub clear_slots : (ℕ → ℕ) → ℕ → ℕ → ℕ → ℕ
clear_slots stack sp zero = stack
clear_slots stack sp (suc n) = update (clear_slots stack sp n) (sp + n) 0

-- The stack of a new thread and its stack pointer, for an array of slots at `base`.
unfoldable pub initial_stack : ℕ → ℕ → ℕ → (ℕ → ℕ) → (ℕ → ℕ) × ℕ
unfolding clear_slots
initial_stack base entry thread_start64 stack =
    let sp0 = stack_size64 / 8 in
    let sp1 = sp0 - 1 in
    let sp2 = sp1 - 1 in
    let stack2 = update stack sp2 entry in
    let sp3 = sp2 - 1 in
    let stack3 = update stack2 sp3 thread_start64 in
    let sp4 = sp3 - 1 in
    let stack4 = update stack3 sp4 0x202 in
    let sp5 = sp4 - 6 in (clear_slots stack4 sp5 6, base + sp5 * 8)

-- `while (tail->next != head) tail = tail->next;`, with fuel: `none` means that the loop did not
-- end, or that it met a null pointer.
unfoldable pub find_tail : ℕ → (ℕ → Thread64) → ℕ → ℕ → Option ℕ
find_tail zero threads head tail = none
find_tail (suc fuel) threads head tail = elim (threads tail).next [
  | none ↦ none
  | some n ↦ let rest = find_tail fuel threads head n in if n == head then some tail else rest
]

-- The new thread `t` at the end of the ring of its priority.
unfoldable pub enqueue : ℕ → ℕ → ℕ → Scheduler64 → Option Scheduler64
unfolding find_tail
enqueue fuel t priority s = elim (s.ready_queue priority) [
  | none ↦ some (record s {
    threads64 = update s.threads64 t (record (s.threads64 t) { next = some t });
    ready_queue = update s.ready_queue priority (some t);
  })
  | some head ↦ elim (find_tail fuel s.threads64 head head) [
    | none ↦ none
    | some tail ↦
        let threads1 = update s.threads64 tail (record (s.threads64 tail) { next = some t }) in
        some (record s { threads64 = update threads1 t (record (threads1 t) { next = some head }) })
  ]
]

-- What the caller and the linker give: the entry point, the name, the address of `thread_start64`,
-- the address of each thread's stack, and the result of `create_address_space`.
pub record Given : Type 0 where
  pub entry : ℕ
  pub name : ℕ
  pub thread_start64 : ℕ
  pub stack_base : ℕ → ℕ
  pub address_space : ℕ

-- The fields of the new thread.
unfoldable pub prepare : Given → ℕ → ℕ → Scheduler64 → Scheduler64
unfolding initial_stack
prepare g t priority s =
    let old = s.threads64 t in
    let (stack, rsp) = initial_stack (g.stack_base t) g.entry g.thread_start64 old.stack in
    record s {
      thread64_count = s.thread64_count + 1;
      threads64 = update s.threads64 t (record {
        rsp = rsp;
        cr3 = g.address_space;
        priority = priority;
        state = Thread64State.t64_ready;
        time_slice = 5;
        stack = stack;
        name = g.name;
        next = old.next;
      });
    }

-- The returned pointer and the new state; `none` when the fuel for the loop over the ring runs out.
unfoldable pub sched64_create_thread : ℕ → Given → ℕ → Scheduler64 → Option (Option ℕ × Scheduler64)
unfolding enqueue prepare
sched64_create_thread fuel g priority s =
    if leb max_threads64 s.thread64_count || leb num_priorities64 priority
    then some (none, s)
    else let t = s.thread64_count in
      elim (enqueue fuel t priority (prepare g t priority s)) [
        | none ↦ none
        | some s2 ↦ some (some t, record s2 { ready_bitmap = set_bit s2.ready_bitmap priority })
      ]

-- How `sched64_reschedule` leaves: by a return, or by `context_switch64` with the thread whose
-- stack pointer is saved (`none` for `dummy_rsp`) and the stack pointer to load, the kernel lock
-- still held.
pub data Outcome : Type 0 where
  returns : Outcome
  switches : Option ℕ → ℕ → Outcome

unfoldable pub is_thread : Option ℕ → ℕ → Bool
is_thread none t = false
is_thread (some u) t = u == t

unfoldable pub set_state : ℕ → Thread64State → (ℕ → Thread64) → ℕ → Thread64
set_state t state threads = update threads t (record (threads t) { state = state })

-- `if (head == prev && head->next != head) …`: the thread to run, and the heads of the rings.
unfoldable pub pick_next : ℕ → ℕ → Option ℕ → Scheduler64 → ℕ × (ℕ → Option ℕ)
unfolding is_thread
pick_next prio head prev s = elim (s.threads64 head).next [
  | none ↦ (head, s.ready_queue)
  | some n ↦
      if is_thread prev head && not (n == head)
      then (n, update s.ready_queue prio (some n))
      else (head, s.ready_queue)
]

-- The part of `sched64_reschedule` behind the choice, up to the call of `context_switch64`.
unfoldable pub switch_to : ℕ → ℕ → Option ℕ → Scheduler64 → Outcome × Scheduler64
unfolding is_thread set_state
switch_to c next prev s =
    if is_thread prev next
    then (Outcome.returns, record s { nkern = nkern_unlock_after_switch c s.nkern })
    else let threads1 = set_state next Thread64State.t64_running s.threads64 in
      let threads2 : ℕ → Thread64 = elim prev [
        | none ↦ threads1
        | some p ↦ set_state p Thread64State.t64_ready threads1
      ] in
      (
        Outcome.switches prev (threads2 next).rsp,
        record s {
          current = update s.current c (some next);
          threads64 = threads2;
          loaded_cr3 = update s.loaded_cr3 c (threads2 next).cr3;
        },
      )

-- `none` for a priority whose bit is set while its ring is empty: the source then reads through a
-- null pointer.
unfoldable pub sched64_reschedule : ℕ → Scheduler64 → Option (Outcome × Scheduler64)
unfolding find_highest_bit64 pick_next switch_to
sched64_reschedule c s =
    let s1 = record s { nkern = nkern_lock_for_switch c s.nkern } in
    elim (find_highest_bit64 s1.ready_bitmap) [
      | none ↦ some (Outcome.returns, record s1 { nkern = nkern_unlock_after_switch c s1.nkern })
      | some prio ↦ elim (s1.ready_queue prio) [
        | none ↦ none
        | some head ↦
            let prev = s1.current c in
            let (next, queue) = pick_next prio head prev s1 in
            some (switch_to c next prev (record s1 { ready_queue = queue }))
      ]
    ]

-- What the tick does: nothing more, a request that waits for the kernel lock, or a reschedule.
pub data Tick : Type 0 where
  ticks : Scheduler64 → Tick
  requests : Scheduler64 → Tick
  reschedules : Option (Outcome × Scheduler64) → Tick

unfoldable pub sched64_timer_tick : ℕ → Scheduler64 → Tick
unfolding sched64_reschedule
sched64_timer_tick c s = elim (s.current c) [
  | none ↦ Tick.ticks s
  | some cur ↦
      let t = s.threads64 cur in
      let with_slice : ℕ → Scheduler64 =
        λ n. record s { threads64 = update s.threads64 cur (record t { time_slice = n }) } in
      let renewed = with_slice 5 in
      let again = sched64_reschedule c renewed in
      if ltb 0 t.time_slice
      then if (t.time_slice - 1) == 0
        then if nkern_is_locked c s.nkern
          then Tick.requests (record renewed { nkern = nkern_request_reschedule c renewed.nkern })
          else Tick.reschedules again
        else Tick.ticks (with_slice (t.time_slice - 1))
      else Tick.ticks s
]
