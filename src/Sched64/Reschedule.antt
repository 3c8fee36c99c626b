-- ===== src/Sched64/Reschedule.antt =====
-- sched64.c: `sched64_reschedule` serves the queue of the highest priority in turn.
use neka_kernel.Base.{
  ℕ, ◌<◌, ◌≡◌, ◌≢◌, ◌⊎◌, ap, ◌∙◌, sym, arith, Option, some, List, [], ◌∷◌, bit, update, bit_zero,
  ltb, Bool-cases, inl, inr, ltb→lt, ltb→le,
}
use mathlib.Core.Path.{subst}
use neka_kernel.Nkern.{nkern_lock_for_switch, nkern_unlock_after_switch}
use neka_kernel.Sched64.{
  Thread64State, Scheduler64, Outcome, num_priorities64, pick_next, switch_to, find_highest_bit64,
  sched64_reschedule,
}
use neka_kernel.Sched64.Rings.{Ring, Distinct, Ring-same}
use neka_kernel.Sched64.Queues.{IsQueued, busy-cases, idle-empty, Ring-head}
use neka_kernel.Sched64.Bitmap.{find_highest_bit64_correct}
use neka_kernel.Sched64.Turns.{served, IsShuffle, IsPicked, pick_next_lem, replace-IsQueued}
use neka_kernel.Sched64.Switch.{IsSwitched, switch_to_lem}

-- What a call that serves the queue of priority `prio` on CPU `c` leaves, with `h` at the head of
-- that queue: CPU `c` runs `h`, by a return if it ran it before, or by a switch under the kernel lock
-- to its saved stack pointer and its address space.
pub record IsServed (c prio : ℕ) (s : Scheduler64) (q : ℕ → List ℕ) (h : ℕ) (rest : List ℕ)
    (r : Outcome × Scheduler64) : Type 0 where
  pub turn : h ∷ rest ≡ served (s.current c) (q prio)
  pub queued : IsQueued r.1 (update q prio (h ∷ rest))
  pub runs : r.1.current c ≡ some h
  pub cpus : (d : ℕ) → c ≢ d → r.1.current d ≡ s.current d
  pub outcome :
      ((s.current c ≡ some h)
        × (r.0 ≡ Outcome.returns)
        × (r.1.nkern ≡ nkern_unlock_after_switch c (nkern_lock_for_switch c s.nkern)))
      ⊎ ((s.current c ≢ some h)
          × (r.0 ≡ Outcome.switches (s.current c) (s.threads64 h).rsp)
          × ((r.1.threads64 h).state ≡ Thread64State.t64_running)
          × (r.1.loaded_cr3 c ≡ (s.threads64 h).cr3)
          × (r.1.nkern ≡ nkern_lock_for_switch c s.nkern))

module _ (c : ℕ) (s : Scheduler64) (q : ℕ → List ℕ) (v : IsQueued s q) where
  abbrev locked : Scheduler64
  locked = record s { nkern = nkern_lock_for_switch c s.nkern }

  module _ (prio x : ℕ) (xs : List ℕ) (in_range : prio < num_priorities64) (f : q prio ≡ x ∷ xs)
      (n : ℕ) (rest : List ℕ) (queue : ℕ → Option ℕ)
      (k : IsPicked prio (s.current c) locked (x ∷ xs) n rest queue) where
    abbrev result : Outcome × Scheduler64
    result = switch_to c n (s.current c) (record locked { ready_queue = queue })

    abbrev facts : IsSwitched c n (s.current c) (record locked { ready_queue = queue }) result
    facts = switch_to_lem c n (record locked { ready_queue = queue }) (s.current c)

    result-IsQueued : IsQueued result.1 (update q prio (n ∷ rest))
    result-IsQueued =
        replace-IsQueued s result.1 q prio (n ∷ rest) v in_range
          (subst (λ l. IsShuffle s.thread64_count l (n ∷ rest)) (sym f) k.shuffled)
          (rw facts.queue
            (Ring-same s.threads64 result.1.threads64 (queue prio) (n ∷ rest) facts.next k.ring))
          (λ p d l. rw facts.queue (
            Ring-same s.threads64 result.1.threads64 (queue p) (q p) facts.next
              (subst (λ o. Ring s.threads64 o (q p)) (sym (k.others p d)) (v.rings p l))))
          facts.count facts.bitmap

    result-IsServed : IsServed c prio s q n rest result
    result-IsServed = elim facts.outcome [
      | inl (same, e) ↦ record {
        turn = k.picked ∙ ap (served (s.current c)) (sym f);
        queued = result-IsQueued;
        runs = ap (λ (r : Outcome × Scheduler64). r.1.current c) e ∙ same;
        cpus = facts.cpus;
        outcome = inl (
          same,
          ap (λ (r : Outcome × Scheduler64). r.0) e,
          ap (λ (r : Outcome × Scheduler64). r.1.nkern) e,
        );
      }
      | inr (away, o, at, st, cr, nk) ↦ record {
        turn = k.picked ∙ ap (served (s.current c)) (sym f);
        queued = result-IsQueued;
        runs = at;
        cpus = facts.cpus;
        outcome = inr (away, o, st, cr, nk);
      }
    ]

  reschedule_eq :
      (prio head n : ℕ) (queue : ℕ → Option ℕ)
      → find_highest_bit64 s.ready_bitmap ≡ some prio
      → s.ready_queue prio ≡ some head
      → pick_next prio head (s.current c) locked ≡ (n, queue)
      → sched64_reschedule c s
        ≡ some (switch_to c n (s.current c) (record locked { ready_queue = queue }))
  unfolding sched64_reschedule switch_to
  reschedule_eq prio head n queue found at e =
      let opened : sched64_reschedule c s
          ≡ some (
              switch_to c (pick_next prio head (s.current c) locked).0 (s.current c)
                (record locked { ready_queue = (pick_next prio head (s.current c) locked).1 })) =
        rw (sched64_reschedule, found, at) in
      opened
      ∙ ap
          (λ (k : ℕ × (ℕ → Option ℕ)).
            some (switch_to c k.0 (s.current c) (record locked { ready_queue = k.1 })))
          e

  served_lem :
      (prio x : ℕ) (xs : List ℕ)
      → prio < num_priorities64
      → q prio ≡ x ∷ xs
      → find_highest_bit64 s.ready_bitmap ≡ some prio
      → (n : ℕ) × (rest : List ℕ) × (r : Outcome × Scheduler64) × (sched64_reschedule c s ≡ some r)
        × IsServed c prio s q n rest r
  served_lem prio x xs in_range f found =
      let ring : Ring s.threads64 (s.ready_queue prio) (x ∷ xs) =
        subst (Ring s.threads64 (s.ready_queue prio)) f (v.rings prio in_range) in
      let head = Ring-head s.threads64 (s.ready_queue prio) x xs ring in
      let (n, rest, queue, e, k) =
        pick_next_lem prio (s.current c) locked x xs ring (subst Distinct f (v.distinct prio))
          (subst (λ o. Ring s.threads64 o (x ∷ xs)) head ring) in
      (
        n,
        rest,
        result prio x xs in_range f n rest queue k,
        reschedule_eq prio x n queue found head e,
        result-IsServed prio x xs in_range f n rest queue k,
      )

-- No thread is ready above a priority.
abbrev pub IsTop : (ℕ → List ℕ) → ℕ → Type 0
IsTop q prio = (r : ℕ) → prio < r → q r ≡ []

-- On well-formed queues `sched64_reschedule` ends in one of two ways. When every queue is empty it
-- returns with the lock given back. Otherwise it serves the highest priority whose queue is not
-- empty: the head runs next, or, when it runs on this CPU already and is not alone, goes to the end
-- of the queue and the thread behind it runs; the queues stay well formed, and the other CPUs'
-- threads stay.
pub reschedule_correct :
    (c : ℕ) (s : Scheduler64) (q : ℕ → List ℕ)
    → IsQueued s q
    → (((p : ℕ) → q p ≡ [])
        × (sched64_reschedule c s
            ≡ some (
              Outcome.returns,
              record s { nkern = nkern_unlock_after_switch c (nkern_lock_for_switch c s.nkern) },
            )))
      ⊎ ((prio : ℕ) × (q prio ≢ [])
          × IsTop q prio
          × ((h : ℕ) × (rest : List ℕ) × (r : Outcome × Scheduler64) × (sched64_reschedule c s
                ≡ some r)
              × IsServed c prio s q h rest r))
unfolding sched64_reschedule
reschedule_correct c s q v = elim (find_highest_bit64_correct s.ready_bitmap v.small) [
  | inl (zero_bitmap, e) ↦ inl (
    λ p. elim (Bool-cases (ltb p 32)) [
      | inl l ↦
          idle-empty (q p)
            (sym (v.bits p (ltb→lt _ _ l)) ∙ ap (λ b. bit b p) zero_bitmap ∙ bit_zero p)
      | inr l ↦ v.idle p (omega (arith, ltb→le _ _ l))
    ],
    rw (sched64_reschedule, e),
  )
  | inr (prio, e, high) ↦
      let (x, xs, f) = busy-cases (q prio) (sym (v.bits prio high.0) ∙ high.1) in
      let in_range : prio < num_priorities64 = elim (Bool-cases (ltb prio num_priorities64)) [
        | inl l ↦ ltb→lt _ _ l
        | inr l ↦ absurd (cc (f, v.idle prio (ltb→le _ _ l)))
      ] in
      inr (
        prio,
        λ none_ready. absurd (cc (f, none_ready)),
        λ r above. elim (Bool-cases (ltb r 32)) [
          | inl l ↦ idle-empty (q r) (sym (v.bits r (ltb→lt _ _ l)) ∙ high.2 r above (ltb→lt _ _ l))
          | inr l ↦ v.idle r (omega (arith, ltb→le _ _ l))
        ],
        served_lem c s q v prio x xs in_range f e,
      )
]
