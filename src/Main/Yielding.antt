-- ===== src/Main/Yielding.antt =====
-- main.c: two threads of the highest priority yield to one another.
use neka_kernel.Base.{
  ℕ, ◌≡◌, ◌≢◌, refl, ap, sym, ◌∙◌, true, false, Option, some, ◌==◌, eq→==, ne→==, Bool-cases, inl,
  inr, update, update_self, update_ne, ==→eq, ==→ne,
}
use mathlib.Core.Path.{subst}
use neka_kernel.Sched.{
  ThreadState, Thread, Scheduler, Departure, highest_bit_from, find_highest_bit, is_same, choose,
  change_state, depart, sched_reschedule, sched_yield,
}

-- The thread `t` of priority 5 runs and is the head of the ring, which has `u` as its only other
-- member; the ready bits are those of the priorities 5 and 2.
pub record Takes (t u : ℕ) (s : Scheduler) : Type 0 where
  pub current : s.current ≡ some t
  pub head : s.ready_queue 5 ≡ some t
  pub forth : (s.threads t).next ≡ some u
  pub back : (s.threads u).next ≡ some t
  pub bitmap : s.ready_bitmap ≡ 36

highest : find_highest_bit 36 ≡ some 5
unfolding find_highest_bit highest_bit_from
highest = refl

next_stays :
    (t : ℕ) (st : ThreadState) (threads : ℕ → Thread) (x : ℕ)
    → (change_state t st threads x).next ≡ (threads x).next
unfolding change_state
next_stays t st threads x = elim (Bool-cases (t == x)) [
  | inl e ↦
      let same : t ≡ x = ==→eq t x e in
      ap (λ (w : Thread). w.next)
        (subst
          (λ (y : ℕ).
            update threads t (record (threads t) { state = st }) y
            ≡ record (threads t) { state = st })
          same (update_self threads t _))
      ∙ ap (λ (y : ℕ). (threads y).next) same
  | inr e ↦ ap (λ (w : Thread). w.next) (update_ne threads t x _ (==→ne t x e))
]

module _ (t u : ℕ) (s : Scheduler) (v : Takes t u s) (apart : t ≢ u) where
  abbrev after : Scheduler
  after = record s {
    ready_queue = update s.ready_queue 5 (some u);
    current = some u;
    threads =
        change_state t ThreadState.thread_ready
          (change_state u ThreadState.thread_running s.threads);
  }

  chosen : choose 5 t s ≡ (u, update s.ready_queue 5 (some u))
  unfolding choose is_same
  chosen =
      let itself : (t == t) ≡ true = eq→== t t refl in
      let other : (u == t) ≡ false = ne→== u t (λ e. apart (sym e)) in
      rw (choose, v.forth, v.current, is_same, itself, other) refl

  departed :
      depart u (record s { ready_queue = update s.ready_queue 5 (some u) })
      ≡ (Departure.switches (some t) (after.threads u).esp, after)
  unfolding depart is_same
  departed =
      let other : (t == u) ≡ false = ne→== t u apart in rw (depart, v.current, is_same, other) refl

  decides :
      sched_reschedule s
      ≡ (let (next, queue) = choose 5 t s in some (depart next (record s { ready_queue = queue })))
  unfolding sched_reschedule
  decides =
      let top = ap find_highest_bit v.bitmap ∙ highest in rw (sched_reschedule, top, v.head) refl

  yields : sched_yield s ≡ some (Departure.switches (some t) (after.threads u).esp, after)
  unfolding sched_yield
  yields =
      decides
      ∙ ap (λ (c : ℕ × (ℕ → Option ℕ)). some (depart c.0 (record s { ready_queue = c.1 }))) chosen
      ∙ ap some departed

  after-Takes : Takes u t after
  after-Takes =
      let inner = change_state u ThreadState.thread_running s.threads in
      let stays : (x : ℕ) → (after.threads x).next ≡ (s.threads x).next = λ x.
        next_stays t ThreadState.thread_ready inner x
        ∙ next_stays u ThreadState.thread_running s.threads x in
      record {
        current = refl;
        head = update_self s.ready_queue 5 (some u);
        forth = stays u ∙ v.back;
        back = stays t ∙ v.forth;
        bitmap = v.bitmap;
      }

  pub yield_lem : (s' : Scheduler) × (d : Departure) × (sched_yield s ≡ some (d, s')) × Takes u t s'
  yield_lem = (after, Departure.switches (some t) (after.threads u).esp, yields, after-Takes)
