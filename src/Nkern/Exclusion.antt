-- ===== src/Nkern/Exclusion.antt =====
-- nkern_lock.c: mutual exclusion over all interleavings.
use neka_kernel.Base.{
  ℕ, ◌<◌, ◌≡◌, ◌≢◌, inl, inr, refl, sym, arith, Bool, true, false, Option, some, none, update, ◌==◌,
  Bool-cases, ap, ◌∙◌, ==→eq, ==→ne,
}
use mathlib.Core.Path.{subst}
use neka_kernel.Nkern.{
  lock_enter, test_and_set, leave, unlock_last, nkern_request_reschedule, switch_enter, switch_last,
  nkern_is_locked,
}
use neka_kernel.Nkern.Interleaving.{
  Pc, System, Step, read, move, enter, enter_switch, nest, nest_switch, win, lose, unnest, last,
  last_switch, release, release_switch, request, Reach, start, later, spins_or_enters,
}

-- A CPU between winning the spinlock and releasing it.
abbrev pub holds : Pc → Bool
holds Pc.outside = false
holds Pc.spinning = false
holds Pc.inside = true
holds Pc.leaving = true
holds Pc.leaving_switch = true

abbrev pub masked : Pc → Bool
masked Pc.outside = false
masked _ = true

-- What the count of a CPU says of where it stands.
abbrev pub Counts : Pc → ℕ → Type 0
Counts Pc.outside n = n ≡ 0
Counts Pc.spinning n = n ≡ 1
Counts Pc.inside n = 0 < n
Counts Pc.leaving n = n ≡ 0
Counts Pc.leaving_switch n = n ≡ 0

-- The index of each CPU is its own.
abbrev pub IsOwn : (ℕ → ℕ) → ℕ → Type 0
IsOwn index cpus = (i j : ℕ) → i < cpus → j < cpus → index i ≡ index j → i ≡ j

pub record Inv (index : ℕ → ℕ) (cpus : ℕ) (s : System) : Type 0 where
  pub unique : (i j : ℕ) → holds (s.pc i) ≡ true → holds (s.pc j) ≡ true → i ≡ j
  pub taken : (i : ℕ) → holds (s.pc i) ≡ true → s.nkern.big_kernel_lock ≡ true
  pub owned : s.nkern.big_kernel_lock ≡ true → (i : ℕ) × (holds (s.pc i) ≡ true)
  pub counts : (i : ℕ) → i < cpus → Counts (s.pc i) (s.nkern.preempt_disable_count (index i))
  pub quiet : (i : ℕ) → masked (s.pc i) ≡ true → s.nkern.interrupts i ≡ false
  pub present : (i : ℕ) → masked (s.pc i) ≡ true → i < cpus
  pub asked : (t c : ℕ) → s.calls t ≡ some c → (c ≡ index (s.cpu_of t)) × (s.cpu_of t < cpus)

-- A step of CPU `p`, with index `c`, says nothing of the others.
record Local (p c : ℕ) (s t : System) : Type 0 where
  pcs : (i : ℕ) → i ≢ p → t.pc i ≡ s.pc i
  others : (k : ℕ) → k ≢ c → t.nkern.preempt_disable_count k ≡ s.nkern.preempt_disable_count k
  flags : (i : ℕ) → i ≢ p → t.nkern.interrupts i ≡ s.nkern.interrupts i
  own : Counts (t.pc p) (t.nkern.preempt_disable_count c)
  off : masked (t.pc p) ≡ true → t.nkern.interrupts p ≡ false

module _ (index : ℕ → ℕ) (cpus : ℕ) (apart : IsOwn index cpus) where
  abbrev Asked : System → Type 0
  Asked s = (t c : ℕ) → s.calls t ≡ some c → (c ≡ index (s.cpu_of t)) × (s.cpu_of t < cpus)

  module _ {s t : System} (p : ℕ) (v : Inv index cpus s) (here : p < cpus) (asked : Asked t)
      (o : Local p (index p) s t) where
    local-Counts : (i : ℕ) → i < cpus → Counts (t.pc i) (t.nkern.preempt_disable_count (index i))
    local-Counts i l = elim (Bool-cases (i == p)) [
      | inl same ↦
          subst (λ j. Counts (t.pc j) (t.nkern.preempt_disable_count (index j)))
            (sym (==→eq i p same)) o.own
      | inr other ↦
          let ne = ==→ne i p other in
          rw (o.pcs i ne, o.others (index i) (λ e. ne (apart i p l here e))) (v.counts i l)
    ]

    local_quiet : (i : ℕ) → masked (t.pc i) ≡ true → t.nkern.interrupts i ≡ false
    local_quiet i h = elim (Bool-cases (i == p)) [
      | inl same ↦
          subst (λ j. masked (t.pc j) ≡ true → t.nkern.interrupts j ≡ false) (sym (==→eq i p same))
            o.off h
      | inr other ↦
          let ne = ==→ne i p other in o.flags i ne ∙ v.quiet i (sym (ap masked (o.pcs i ne)) ∙ h)
    ]

    local_present : (i : ℕ) → masked (t.pc i) ≡ true → i < cpus
    local_present i h = elim (Bool-cases (i == p)) [
      | inl same ↦ subst (λ j. j < cpus) (sym (==→eq i p same)) here
      | inr other ↦ v.present i (sym (ap masked (o.pcs i (==→ne i p other))) ∙ h)
    ]

    -- A step that leaves the spinlock alone.
    module _ (lock_same : t.nkern.big_kernel_lock ≡ s.nkern.big_kernel_lock)
        (holds_same : holds (t.pc p) ≡ holds (s.pc p)) where
      holds_all : (i : ℕ) → holds (t.pc i) ≡ holds (s.pc i)
      holds_all i = elim (Bool-cases (i == p)) [
        | inl same ↦ subst (λ j. holds (t.pc j) ≡ holds (s.pc j)) (sym (==→eq i p same)) holds_same
        | inr other ↦ ap holds (o.pcs i (==→ne i p other))
      ]

      Inv-local : Inv index cpus t
      Inv-local = record {
        unique = λ i j hi hj. v.unique i j (sym (holds_all i) ∙ hi) (sym (holds_all j) ∙ hj);
        taken = λ i hi. lock_same ∙ v.taken i (sym (holds_all i) ∙ hi);
        owned = λ h. let r = v.owned (sym lock_same ∙ h) in (r.0, holds_all r.0 ∙ r.1);
        counts = local-Counts;
        quiet = local_quiet;
        present = local_present;
        asked = asked;
      }

    -- The step that wins a free spinlock.
    Inv-win :
        s.nkern.big_kernel_lock ≡ false
        → t.nkern.big_kernel_lock ≡ true
        → holds (t.pc p) ≡ true
        → Inv index cpus t
    Inv-win free won in_it = record {
      unique = λ i j hi hj. only i hi ∙ sym (only j hj);
      taken = λ i hi. won;
      owned = λ h. (p, in_it);
      counts = local-Counts;
      quiet = local_quiet;
      present = local_present;
      asked = asked;
    }
      where
        only : (i : ℕ) → holds (t.pc i) ≡ true → i ≡ p
        only i hi = elim (Bool-cases (i == p)) [
          | inl same ↦ ==→eq i p same
          | inr other ↦ cc (free, v.taken i (sym (ap holds (o.pcs i (==→ne i p other))) ∙ hi))
        ]

    -- The step of the holder that releases it.
    Inv-release :
        holds (s.pc p) ≡ true
        → holds (t.pc p) ≡ false
        → t.nkern.big_kernel_lock ≡ false
        → Inv index cpus t
    Inv-release was gone free = record {
      unique = λ i j hi hj. cc (none_holds i hi);
      taken = λ i hi. cc (none_holds i hi);
      owned = λ h. cc (free);
      counts = local-Counts;
      quiet = local_quiet;
      present = local_present;
      asked = asked;
    }
      where
        none_holds : (i : ℕ) → holds (t.pc i) ≡ true → true ≡ false
        none_holds i hi = elim (Bool-cases (i == p)) [
          | inl same ↦ sym (subst (λ j. holds (t.pc j) ≡ true) (==→eq i p same) hi) ∙ gone
          | inr other ↦
              let ne = ==→ne i p other in
              absurd (ne (v.unique i p (sym (ap holds (o.pcs i ne)) ∙ hi) was))
        ]

  -- What an update says at an equal index and elsewhere.
  update_on : (f : ℕ → Option ℕ) (t u : ℕ) (x : Option ℕ) → (t == u) ≡ true → update f t x u ≡ x
  update_on f t u x e = rw e refl

  update_off : (f : ℕ → Option ℕ) (t u : ℕ) (x : Option ℕ) → (t == u) ≡ false → update f t x u ≡ f u
  update_off f t u x e = rw e refl

  -- A call that has come to its `cli` no longer waits there.
  less : (s : System) (t : ℕ) → Asked s → Asked (record s { calls = update s.calls t none })
  less s t h u c = elim (Bool-cases (t == u)) [
    | inl e ↦ λ q. cc (sym (update_on s.calls t u none e) ∙ q)
    | inr e ↦ λ q. h u c (sym (update_off s.calls t u none e) ∙ q)
  ]

  more :
      (s : System) (t : ℕ)
      → s.cpu_of t < cpus
      → Asked s
      → Asked (record s { calls = update s.calls t (some (index (s.cpu_of t))) })
  more s t l h u c = elim (Bool-cases (t == u)) [
    | inl e ↦ λ q.
        let same = ==→eq t u e in
        let index_read : index (s.cpu_of t) ≡ c =
          cc (sym (update_on s.calls t u (some (index (s.cpu_of t))) e) ∙ q) in
        (sym index_read ∙ ap (λ x. index (s.cpu_of x)) same, subst (λ x. s.cpu_of x < cpus) same l)
    | inr e ↦ λ q. h u c (sym (update_off s.calls t u (some (index (s.cpu_of t))) e) ∙ q)
  ]

  -- The steps, one by one.
  Step-Inv : {s t : System} → Step index cpus false s t → Inv index cpus s → Inv index cpus t
  unfolding lock_enter test_and_set leave unlock_last nkern_request_reschedule switch_enter
      switch_last
  Step-Inv {s} (read t l at) v = record {
    unique = v.unique;
    taken = v.taken;
    owned = v.owned;
    counts = v.counts;
    quiet = v.quiet;
    present = v.present;
    asked = more s t l v.asked;
  }
  Step-Inv (move t p never l on) v = cc (never)
  Step-Inv {s} (enter t c e at) v =
      let (q, here) = v.asked t c e in
      let p = s.cpu_of t in
      subst
        (λ k. Inv index cpus (record s {
          nkern = lock_enter k p s.nkern;
          pc = update s.pc p (spins_or_enters k (lock_enter k p s.nkern));
          calls = update s.calls t none;
        }))
        (sym q)
        (Inv-local p v here (less s t v.asked) (ground (arith, v.counts p here, v.quiet p)) refl
          (ground (arith, v.counts p here)))
  Step-Inv {s} (enter_switch t c e at) v =
      let (q, here) = v.asked t c e in
      let p = s.cpu_of t in
      subst
        (λ k. Inv index cpus (record s {
          nkern = switch_enter k p s.nkern;
          pc = update s.pc p (spins_or_enters k (switch_enter k p s.nkern));
          calls = update s.calls t none;
        }))
        (sym q)
        (Inv-local p v here (less s t v.asked) (ground (arith, v.counts p here, v.quiet p)) refl
          (ground (arith, v.counts p here)))
  Step-Inv (nest p at) v =
      let here = v.present p (ap masked at) in
      Inv-local p v here v.asked (ground (arith, v.counts p here, v.quiet p)) (ground arith)
        (ground arith)
  Step-Inv (nest_switch p at) v =
      let here = v.present p (ap masked at) in
      Inv-local p v here v.asked (ground (arith, v.counts p here, v.quiet p)) (ground arith)
        (ground arith)
  Step-Inv (win p at free) v =
      let here = v.present p (ap masked at) in
      Inv-win p v here v.asked (ground (arith, v.counts p here, v.quiet p)) free (ground arith)
        (ground arith)
  Step-Inv (lose p at taken) v =
      let here = v.present p (ap masked at) in
      Inv-local p v here v.asked (ground (arith, v.counts p here, v.quiet p)) (ground arith)
        (ground arith)
  Step-Inv (unnest p at deep) v =
      let here = v.present p (ap masked at) in
      Inv-local p v here v.asked (ground (arith, v.counts p here, v.quiet p)) (ground arith)
        (ground arith)
  Step-Inv (last p at one) v =
      let here = v.present p (ap masked at) in
      Inv-local p v here v.asked (ground (arith, v.counts p here, v.quiet p)) (ground arith)
        (ground arith)
  Step-Inv (last_switch p at one) v =
      let here = v.present p (ap masked at) in
      Inv-local p v here v.asked (ground (arith, v.counts p here, v.quiet p)) (ground arith)
        (ground arith)
  Step-Inv (release p at) v =
      let here = v.present p (ap masked at) in
      Inv-release p v here v.asked (ground (arith, v.counts p here, v.quiet p)) (ground arith)
        (ground arith) (ground arith)
  Step-Inv (release_switch p at) v =
      let here = v.present p (ap masked at) in
      Inv-release p v here v.asked (ground (arith, v.counts p here, v.quiet p)) (ground arith)
        (ground arith) (ground arith)
  Step-Inv (request p) v = record {
    unique = v.unique;
    taken = v.taken;
    owned = v.owned;
    counts = v.counts;
    quiet = v.quiet;
    present = v.present;
    asked = v.asked;
  }

  Reach-Inv : {s : System} → Reach index cpus false s → Inv index cpus s
  Reach-Inv (start cpu_of) = record {
    unique = λ i j hi hj. cc (hi);
    taken = λ i hi. cc (hi);
    owned = λ h. cc (h);
    counts = λ i l. refl;
    quiet = λ i h. cc (h);
    present = λ i h. cc (h);
    asked = λ t c h. cc (h);
  }
  Reach-Inv (later r st) = Step-Inv st (Reach-Inv r)

  -- Let no thread move to another CPU, and let `get_cpu_index` give each CPU an index of its own. In
  -- every reachable state at most one CPU is inside the kernel lock.
  pub mutual_exclusion :
      {s : System} (i j : ℕ)
      → Reach index cpus false s
      → s.pc i ≡ Pc.inside
      → s.pc j ≡ Pc.inside
      → i ≡ j
  mutual_exclusion i j r in_i in_j = (Reach-Inv r).unique i j (ap holds in_i) (ap holds in_j)

  -- Let no thread move to another CPU, and let `get_cpu_index` give each CPU an index of its own. In
  -- every reachable state a CPU that is inside owns the spinlock, has its interrupts off, and
  -- `NKern_IsLocked` is true on it; on a CPU that is outside `NKern_IsLocked` is false.
  pub section_is_guarded :
      {s : System} (i : ℕ)
      → i < cpus
      → Reach index cpus false s
      → (s.pc i ≡ Pc.inside
          → (s.nkern.big_kernel_lock ≡ true)
            × (s.nkern.interrupts i ≡ false)
            × (nkern_is_locked (index i) s.nkern ≡ true))
        × (s.pc i ≡ Pc.outside → nkern_is_locked (index i) s.nkern ≡ false)
  unfolding nkern_is_locked
  section_is_guarded {s} i l r =
      let v = Reach-Inv r in
      (
        λ at. (v.taken i (ap holds at), v.quiet i (ap masked at), ground (arith, v.counts i l)),
        λ at. ground (arith, v.counts i l),
      )

  -- Let no thread move to another CPU, and let `get_cpu_index` give each CPU an index of its own. In
  -- every reachable state the spinlock is taken only if some CPU holds it: when all CPUs are outside
  -- it is free.
  pub lock_is_not_lost :
      {s : System}
      → Reach index cpus false s
      → ((i : ℕ) → s.pc i ≡ Pc.outside)
      → s.nkern.big_kernel_lock ≡ false
  lock_is_not_lost {s} r all = elim (Bool-cases s.nkern.big_kernel_lock) [
    | inl taken ↦ let o = (Reach-Inv r).owned taken in cc (o.1, all o.0)
    | inr free ↦ free
  ]
