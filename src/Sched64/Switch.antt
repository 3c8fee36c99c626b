-- ===== src/Sched64/Switch.antt =====
-- sched64.c: the switch to the chosen thread.
use neka_kernel.Base.{
  ℕ, ◌≡◌, ◌≢◌, ◌⊎◌, refl, ap, ◌∙◌, sym, arith, true, false, Option, some, none, update, update_self,
  update_ne, ◌==◌, Bool-cases, ==→eq, ==→ne, inl, inr,
}
use mathlib.Core.Path.{subst}
use neka_kernel.Nkern.{nkern_unlock_after_switch}
use neka_kernel.Sched64.{
  Thread64, Thread64State, Scheduler64, Outcome, is_thread, set_state, switch_to,
}
use neka_kernel.Sched64.Turns.{is_thread-true, is_thread-false}

module _ (t : ℕ) (state : Thread64State) (threads : ℕ → Thread64) where
  set_state_self : set_state t state threads t ≡ record (threads t) { state = state }
  unfolding set_state
  set_state_self = update_self threads t (record (threads t) { state = state })

  set_state_other : (x : ℕ) → t ≢ x → set_state t state threads x ≡ threads x
  unfolding set_state
  set_state_other x d = update_ne threads t x (record (threads t) { state = state }) d

  next-set_state : (x : ℕ) → (set_state t state threads x).next ≡ (threads x).next
  next-set_state x = elim (Bool-cases (t == x)) [
    | inl e ↦
        subst (λ (y : ℕ). (set_state t state threads y).next ≡ (threads y).next) (==→eq _ _ e)
          (ap (λ (u : Thread64). u.next) set_state_self)
    | inr e ↦ ap (λ (u : Thread64). u.next) (set_state_other x (==→ne _ _ e))
  ]

-- What `switch_to` leaves of the scheduler.
pub record IsSwitched (c n : ℕ) (prev : Option ℕ) (s : Scheduler64) (r : Outcome × Scheduler64)
    : Type 0 where
  pub queue : r.1.ready_queue ≡ s.ready_queue
  pub count : r.1.thread64_count ≡ s.thread64_count
  pub bitmap : r.1.ready_bitmap ≡ s.ready_bitmap
  pub next : (x : ℕ) → (r.1.threads64 x).next ≡ (s.threads64 x).next
  pub cpus : (d : ℕ) → c ≢ d → r.1.current d ≡ s.current d
  pub outcome :
      ((prev ≡ some n)
        × (r ≡ (Outcome.returns, record s { nkern = nkern_unlock_after_switch c s.nkern })))
      ⊎ ((prev ≢ some n)
          × (r.0 ≡ Outcome.switches prev (s.threads64 n).rsp)
          × (r.1.current c ≡ some n)
          × ((r.1.threads64 n).state ≡ Thread64State.t64_running)
          × (r.1.loaded_cr3 c ≡ (s.threads64 n).cr3)
          × (r.1.nkern ≡ s.nkern))

module _ (c n : ℕ) (s : Scheduler64) where
  abbrev switched : Option ℕ → (ℕ → Thread64) → Outcome × Scheduler64
  switched prev threads = (
    Outcome.switches prev (threads n).rsp,
    record s {
      current = update s.current c (some n);
      threads64 = threads;
      loaded_cr3 = update s.loaded_cr3 c (threads n).cr3;
    },
  )

  switched-IsSwitched :
      (prev : Option ℕ) (threads : ℕ → Thread64)
      → prev ≢ some n
      → threads n ≡ record (s.threads64 n) { state = Thread64State.t64_running }
      → ((x : ℕ) → (threads x).next ≡ (s.threads64 x).next)
      → IsSwitched c n prev s (switched prev threads)
  switched-IsSwitched prev threads away at_n same = record {
    queue = refl;
    count = refl;
    bitmap = refl;
    next = same;
    cpus = λ d e. update_ne s.current c d (some n) e;
    outcome = inr (
      away,
      ap (λ (u : Thread64). Outcome.switches prev u.rsp) at_n,
      update_self s.current c (some n),
      ap (λ (u : Thread64). u.state) at_n,
      update_self s.loaded_cr3 c (threads n).cr3 ∙ ap (λ (u : Thread64). u.cr3) at_n,
      refl,
    );
  }

  abbrev running : ℕ → Thread64
  running = set_state n Thread64State.t64_running s.threads64

  running_at : running n ≡ record (s.threads64 n) { state = Thread64State.t64_running }
  running_at = set_state_self n Thread64State.t64_running s.threads64

  switch_stays :
      (prev : Option ℕ)
      → is_thread prev n ≡ true
      → switch_to c n prev s
        ≡ (Outcome.returns, record s { nkern = nkern_unlock_after_switch c s.nkern })
  unfolding switch_to
  switch_stays prev e = rw e

  switch_idle : switch_to c n none s ≡ switched none running
  unfolding switch_to is_thread
  switch_idle = refl

  switch_away :
      (p : ℕ)
      → is_thread (some p) n ≡ false
      → switch_to c n (some p) s ≡ switched (some p) (set_state p Thread64State.t64_ready running)
  unfolding switch_to
  switch_away p e = rw e

  pub switch_to_lem : (prev : Option ℕ) → IsSwitched c n prev s (switch_to c n prev s)
  switch_to_lem none = subst (IsSwitched c n none s) (sym switch_idle) (
      switched-IsSwitched none running (λ e. absurd (ground arith)) running_at
        (next-set_state n Thread64State.t64_running s.threads64))
  switch_to_lem (some p) = elim (Bool-cases (is_thread (some p) n)) [
    | inl e ↦ subst (IsSwitched c n (some p) s) (sym (switch_stays (some p) e)) (record {
      queue = refl;
      count = refl;
      bitmap = refl;
      next = λ x. refl;
      cpus = λ d h. refl;
      outcome = inl (is_thread-true (some p) n e, refl);
    })
    | inr e ↦
        let away = is_thread-false (some p) n e in
        subst (IsSwitched c n (some p) s) (sym (switch_away p e)) (
          switched-IsSwitched (some p) (set_state p Thread64State.t64_ready running) away
            (set_state_other p Thread64State.t64_ready running n (λ q. away (ap some q))
              ∙ running_at)
            (λ x.
              next-set_state p Thread64State.t64_ready running x
              ∙ next-set_state n Thread64State.t64_running s.threads64 x))
  ]
