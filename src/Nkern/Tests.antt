-- ===== src/Nkern/Tests.antt =====
-- nkern_lock.c at concrete states of a machine with 16 CPUs, whose APIC ids are 0 to 15. Thread `t`
-- starts on CPU `t`.
use neka_kernel.Base.{ℕ, ◌*◌, ◌^◌, ◌≡◌, refl, arith, true, false, update, Bool, some, none}
use neka_kernel.Apic.{get_cpu_index, lapic_get_id}
use neka_kernel.Nkern.{
  Nkern, lock_enter, test_and_set, leave, unlock_last, nkern_lock, nkern_unlock, nkern_is_locked,
}
use neka_kernel.Nkern.Interleaving.{
  Pc, System, boot, Reach, start, later, read, move, enter, win, last, release,
}
use neka_kernel.Nkern.Exclusion.{IsOwn, mutual_exclusion, section_is_guarded, lock_is_not_lost}

abbrev id_register : ℕ → ℕ
id_register p = p * 2 ^ 24

abbrev index : ℕ → ℕ
index p = get_cpu_index (id_register p)

index-IsOwn : IsOwn index 16
unfolding get_cpu_index lapic_get_id
index-IsOwn i j li lj e = ground arith

abbrev at_boot : System
at_boot = boot (λ t. t)

-- Thread 1 reads its index and comes to the spinlock, which it wins; then it leaves.
abbrev calling : System
calling = record at_boot { calls = update at_boot.calls 1 (some (index 1)) }

abbrev waiting : System
waiting = record calling {
  nkern = lock_enter 1 1 calling.nkern;
  pc = update calling.pc 1 Pc.spinning;
  calls = update calling.calls 1 none;
}

abbrev entered : System
entered = record waiting {
  nkern = (test_and_set waiting.nkern).1;
  pc = update waiting.pc 1 Pc.inside;
}

calling_reached : (moves : Bool) → Reach index 16 moves calling
unfolding get_cpu_index lapic_get_id
calling_reached moves = later (start (λ t. t)) (read 1 (omega arith) refl)

waiting_reached : (moves : Bool) → Reach index 16 moves waiting
unfolding get_cpu_index lapic_get_id lock_enter
waiting_reached moves = later (calling_reached moves) (enter 1 1 refl refl)

entered_reached : (moves : Bool) → Reach index 16 moves entered
unfolding test_and_set lock_enter
entered_reached moves = later (waiting_reached moves) (win 1 refl refl)

mutual_exclusion_example : ◌≡◌ {A = ℕ} 1 1
mutual_exclusion_example =
    mutual_exclusion index 16 index-IsOwn 1 1 (entered_reached false) refl refl

section_is_guarded_example :
    (entered.pc 1 ≡ Pc.inside
      → (entered.nkern.big_kernel_lock ≡ true)
        × (entered.nkern.interrupts 1 ≡ false)
        × (nkern_is_locked (index 1) entered.nkern ≡ true))
    × (entered.pc 1 ≡ Pc.outside → nkern_is_locked (index 1) entered.nkern ≡ false)
section_is_guarded_example =
    section_is_guarded index 16 index-IsOwn 1 (omega arith) (entered_reached false)

abbrev left : System
left = record entered {
  nkern = (unlock_last 1 1 (leave 1 entered.nkern)).1;
  pc = update (update entered.pc 1 Pc.leaving) 1 Pc.outside;
}

left_reached : Reach index 16 false left
unfolding test_and_set lock_enter leave unlock_last get_cpu_index lapic_get_id
left_reached = later (later (entered_reached false) (last 1 refl refl)) (release 1 refl)

all_outside : (i : ℕ) → left.pc i ≡ Pc.outside
all_outside i = ground arith

lock_is_not_lost_example : left.nkern.big_kernel_lock ≡ false
lock_is_not_lost_example = lock_is_not_lost index 16 index-IsOwn left_reached all_outside

-- Where threads move: thread 2 reads the index 1 on CPU 1, moves to CPU 2, and comes to its `cli`
-- there once thread 1 is inside on CPU 1. The count of CPU 1 is not 0, so CPU 2 is inside too.
two_inside_where_threads_move :
    (s : System) × Reach index 16 true s × (s.pc 1 ≡ Pc.inside) × (s.pc 2 ≡ Pc.inside)
unfolding test_and_set lock_enter get_cpu_index lapic_get_id
two_inside_where_threads_move =
    let asked = later (start (λ t. 1)) (read 2 (omega arith) refl) in
    let moved = later asked (move 2 2 refl (omega arith) refl) in
    let first = later (later moved (read 1 (omega arith) refl)) (enter 1 1 refl refl) in
    let won = later first (win 1 refl refl) in (_, later won (enter 2 1 refl refl), refl, refl)

-- CPU 2 with a reschedule requested.
abbrev asked : Nkern
asked = record (at_boot.nkern) {
  reschedule_pending = update at_boot.nkern.reschedule_pending 2 true;
}

pending_is_called : (nkern_unlock 2 (nkern_lock 2 asked)).0 ≡ true
unfolding nkern_unlock nkern_lock
pending_is_called = refl
