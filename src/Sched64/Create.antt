-- ===== src/Sched64/Create.antt =====
-- sched64.c: the new thread of `sched64_create_thread`.
use neka_kernel.Base.{
  ℕ, ◌+◌, ◌<◌, ◌≤◌, ◌≡◌, ◌≢◌, ◌⊎◌, refl, ap, ◌∙◌, sym, arith, true, false, Option, some, none, List,
  [], ◌∷◌, ◌++◌, length, length-append, bit, set_bit, bit-set_bit, bit-set_bit-other, set_bit_small,
  update, update_self, update_ne, leb, ◌||◌, Bool-cases, inl, inr,
}
use neka_kernel.Sched64.{
  Thread64, Thread64State, Scheduler64, Given, num_priorities64, max_threads64, prepare,
  initial_stack, sched64_create_thread,
}
use neka_kernel.Sched64.Rings.{
  Ring, Absent, Distinct, Below, Below-Absent, Below-suc, append-Below, append-Distinct,
  Ring-update,
}
use neka_kernel.Sched64.Queues.{Apart, is_busy, IsQueued, append-Apart, Apart-append, update_all}
use neka_kernel.Sched64.Joins.{IsJoined, enqueue_joins}

-- What a call that makes a thread leaves: the queues with the new thread at the end of its own, its
-- fields, and the other threads as they were, but for `next`.
pub record IsCreated (g : Given) (prio : ℕ) (s : Scheduler64) (q : ℕ → List ℕ) (s' : Scheduler64)
    : Type 0 where
  pub queued : IsQueued s' (update q prio (q prio ++ (s.thread64_count ∷ [])))
  pub counted : s'.thread64_count ≡ s.thread64_count + 1
  pub fresh :
      let t = s'.threads64 s.thread64_count in
      (t.state ≡ Thread64State.t64_ready)
      × (t.priority ≡ prio)
      × (t.time_slice ≡ 5)
      × (t.cr3 ≡ g.address_space)
      × ((t.stack, t.rsp)
          ≡ initial_stack
              (g.stack_base s.thread64_count)
              g.entry
              g.thread_start64
              (s.threads64 s.thread64_count).stack)
  pub others :
      (x : ℕ)
      → s.thread64_count ≢ x
      → s'.threads64 x ≡ record (s.threads64 x) { next = (s'.threads64 x).next }
  pub running : s'.current ≡ s.current
  pub unlocked : s'.nkern ≡ s.nkern

busy-append : (k : ℕ) (l : List ℕ) → is_busy (l ++ (k ∷ [])) ≡ true
busy-append k [] = refl
busy-append k (x ∷ xs) = refl

module _ (fuel : ℕ) (g : Given) (prio : ℕ) (s : Scheduler64) (q : ℕ → List ℕ) (v : IsQueued s q)
    (in_range : prio < num_priorities64) where
  abbrev new : ℕ
  new = s.thread64_count

  abbrev made : Thread64
  made =
      let old = s.threads64 new in
      let (stack, rsp) = initial_stack (g.stack_base new) g.entry g.thread_start64 old.stack in
      record {
        rsp = rsp;
        cr3 = g.address_space;
        priority = prio;
        state = Thread64State.t64_ready;
        time_slice = 5;
        stack = stack;
        name = g.name;
        next = old.next;
      }

  prepared : Scheduler64
  prepared = prepare g new prio s

  new_queues : ℕ → List ℕ
  new_queues = update q prio (q prio ++ (new ∷ []))

  prepared-rings :
      (p : ℕ) → p < num_priorities64 → Ring prepared.threads64 (prepared.ready_queue p) (q p)
  unfolding prepared prepare
  prepared-rings p l =
      Ring-update s.threads64 new _ (s.ready_queue p) (q p) (Below-Absent new (q p) (v.below p))
        (v.rings p l)

  joined :
      new < fuel
      → (t : ℕ → Thread64) × (queue : ℕ → Option ℕ) × IsJoined fuel new prio prepared q t queue
  joined enough =
      enqueue_joins fuel new prio prepared q prepared-rings
        (λ p. Below-Absent new (q p) (v.below p)) v.distinct v.apart (omega (arith, v.bounded prio))
        (prepared.ready_queue prio) (q prio) refl refl (prepared-rings prio in_range)

  module _ (t : ℕ → Thread64) (queue : ℕ → Option ℕ)
      (j : IsJoined fuel new prio prepared q t queue) where
    abbrev outcome : Scheduler64
    outcome = record s {
      thread64_count = new + 1;
      threads64 = t;
      ready_queue = queue;
      ready_bitmap = set_bit s.ready_bitmap prio;
    }

    abbrev longer : List ℕ
    longer = q prio ++ (new ∷ [])

    outcome-Apart : (p r : ℕ) → p ≢ r → Apart (new_queues p) (new_queues r)
    unfolding new_queues
    outcome-Apart =
        let out : (p : ℕ) → Absent new (q p) = λ p. Below-Absent new (q p) (v.below p) in
        update_all (λ p l. (r : ℕ) → p ≢ r → Apart l (new_queues r)) q prio longer
          (update_all (λ r l. prio ≢ r → Apart longer l) q prio longer (λ e. absurd (e refl))
            (λ r d e. append-Apart new (q prio) (q r) (v.apart prio r e) (out r)))
          (λ p d.
            update_all (λ r l. p ≢ r → Apart (q p) l) q prio longer
              (λ e. Apart-append new (q p) (q prio) (v.apart p prio e) (out p))
              (λ r d2 e. v.apart p r e))

    outcome-bits : (p : ℕ) → p < 32 → bit (set_bit s.ready_bitmap prio) p ≡ is_busy (new_queues p)
    unfolding new_queues
    outcome-bits =
        update_all (λ p l. p < 32 → bit (set_bit s.ready_bitmap prio) p ≡ is_busy l) q prio longer
          (λ l. bit-set_bit s.ready_bitmap prio ∙ sym (busy-append new (q prio)))
          (λ p d l. bit-set_bit-other s.ready_bitmap prio p d ∙ v.bits p l)

    outcome-IsQueued : IsQueued outcome new_queues
    unfolding new_queues
    outcome-IsQueued = record {
      rings =
          update_all (λ p l. p < num_priorities64 → Ring t (queue p) l) q prio longer (λ l. j.ring)
            j.others;
      idle =
          update_all (λ p l. num_priorities64 ≤ p → l ≡ []) q prio longer
            (λ h. absurd (omega arith)) (λ p d. v.idle p);
      distinct =
          update_all (λ p l. Distinct l) q prio longer
            (append-Distinct new (q prio) (Below-Absent new (q prio) (v.below prio))
              (v.distinct prio))
            (λ p d. v.distinct p);
      below =
          update_all (λ p l. Below (new + 1) l) q prio longer
            (append-Below (new + 1) new (q prio) (Below-suc new (q prio) (v.below prio))
              (omega arith))
            (λ p d. Below-suc new (q p) (v.below p));
      apart = outcome-Apart;
      bounded =
          update_all (λ p l. length l ≤ new + 1) q prio longer
            (omega (arith, length-append (q prio) (new ∷ []), v.bounded prio))
            (λ p d. omega (arith, v.bounded p));
      bits = outcome-bits;
      small = set_bit_small 32 s.ready_bitmap prio v.small (omega arith);
    }

    fresh_thread : t new ≡ record made { next = (t new).next }
    unfolding prepared prepare
    fresh_thread =
        j.relinked new
        ∙ ap (λ (u : Thread64). record u { next = (t new).next }) (update_self s.threads64 new made)

    outcome_lem :
        (leb max_threads64 s.thread64_count || leb num_priorities64 prio) ≡ false
        → sched64_create_thread fuel g prio s ≡ some (some new, outcome)
    unfolding sched64_create_thread prepared prepare
    outcome_lem accepted = rw (accepted, j.enqueued)

    outcome-IsCreated : IsCreated g prio s q outcome
    unfolding prepared prepare new_queues
    outcome-IsCreated =
        let whole = fresh_thread in
        record {
          queued = outcome-IsQueued;
          counted = refl;
          fresh = (
            ap (λ (u : Thread64). u.state) whole,
            ap (λ (u : Thread64). u.priority) whole,
            ap (λ (u : Thread64). u.time_slice) whole,
            ap (λ (u : Thread64). u.cr3) whole,
            ap (λ (u : Thread64). (u.stack, u.rsp)) whole,
          );
          others = λ x d.
              j.relinked x
              ∙ ap (λ (u : Thread64). record u { next = (t x).next })
                  (update_ne s.threads64 new x made d);
          running = refl;
          unlocked = refl;
        }

-- On well-formed queues, with fuel for a walk over all threads: `sched64_create_thread` refuses
-- when all 16 threads are taken or the priority is not below 8, and changes nothing; otherwise it
-- returns the next thread, ready, with the initial stack and a time slice of 5, at the end of the
-- queue of its priority. The queues stay well formed, and nothing else changes but `next` fields.
pub create_correct :
    (fuel : ℕ) (g : Given) (prio : ℕ) (s : Scheduler64) (q : ℕ → List ℕ)
    → IsQueued s q
    → s.thread64_count < fuel
    → (((max_threads64 ≤ s.thread64_count) ⊎ (num_priorities64 ≤ prio))
        × (sched64_create_thread fuel g prio s ≡ some (none, s)))
      ⊎ ((s.thread64_count < max_threads64)
          × (prio < num_priorities64)
          × ((s' : Scheduler64) × (sched64_create_thread fuel g prio s
                ≡ some (some s.thread64_count, s'))
              × IsCreated g prio s q s'))
unfolding sched64_create_thread
create_correct fuel g prio s q v enough =
    elim (Bool-cases (leb max_threads64 s.thread64_count || leb num_priorities64 prio)) [
      | inl refused ↦ inl (ground arith, rw refused)
      | inr accepted ↦
          let in_range : prio < num_priorities64 = ground arith in
          let (t, queue, j) = joined fuel g prio s q v in_range enough in
          inr (
            ground arith,
            in_range,
            (
              outcome fuel g prio s q v in_range t queue j,
              outcome_lem fuel g prio s q v in_range t queue j accepted,
              outcome-IsCreated fuel g prio s q v in_range t queue j,
            ),
          )
    ]
